-- ===== src/Spsc/Anytime/Push.antt =====
-- ring_buffer/mod.rs: the producer's steps, whenever `pop` is called.
use bibi_sync.Base.{
  ℕ, suc, ◌+◌, ◌%◌, ◌≤◌, ◌<◌, ◌≡◌, refl, sym, ap, subst, ◌∙◌, Option, none, some, List, [], ◌∷◌,
  ◌++◌, length, get_elem?, set, take, take-append_left, map, length-append, get_elem?-set_self,
  get_elem?-exists, get_elem?-append_left, get_elem?-lt, arith, step-mod, add_word, done,
}
use mathlib.Core.List.{Sublist}
use bibi_sync.Ring.{Slot, next_index}
use bibi_sync.Spsc.{
  Pushing, pushed, wants, got_head, numbered, announced, writing, wrote, stamped, push_step,
  publishes, System, pushes, advance, Popping, taking, taken, marked,
}
use bibi_sync.Spsc.Invariant.{PushOk, Slots}
use bibi_sync.Spsc.Slots.{free_slot, Slots-write, Slots-publish}
use bibi_sync.Spsc.Push.{push_quietly}
use bibi_sync.Spsc.Anytime.{PopKeeps, settled, Placed, Placed-set, Loose}

module _ {ℓ} {T : Type ℓ} where
  -- What the consumer has loaded stays true when a message is published.
  PopKeeps-grow :
      (c k : ℕ) (history : List T) (x : T) (p : Popping T)
      → PopKeeps c k history p
      → PopKeeps c k (history ++ x ∷ []) p
  PopKeeps-grow c k history x (taking t e) (i, (number, unread, known, here), _) =
      (i, (number, unread, omega (arith, known, length-append history (x ∷ [])), here), tt)
  PopKeeps-grow c k history x (taken t e y) (i, (number, unread, known, here), (z, there, whole)) =
      (
        i,
        (number, unread, omega (arith, known, length-append history (x ∷ [])), here),
        (z, get_elem?-append_left history (x ∷ []) i known ∙ there, whole),
      )
  PopKeeps-grow c k history x (marked t y) (i, number, inside, (z, there, whole)) = (
    i,
    number,
    inside,
    (z, get_elem?-append_left history (x ∷ []) i (get_elem?-lt history i z there) ∙ there, whole),
  )
  PopKeeps-grow c k history x p keeps = keeps

  pub settled_bound : (k n : ℕ) (p : Popping T) → k ≤ n → settled k p ≤ n
  settled_bound k n (marked t y) le = omega (arith, le)
  settled_bound k n p le = le

module _ {ℓ} {T : Type ℓ} (s : System T) where
  abbrev c : ℕ
  c = s.shared.capacity

  abbrev k : ℕ
  k = s.shared.read_epoch

  abbrev index : ℕ
  index = length s.history % s.shared.capacity

  -- The producer changes its own variables, the head, the announced epoch and the slots.
  abbrev at : (head write_epoch : ℕ) → List (Slot (Option T)) → Pushing T → System T
  at head write_epoch buffer p = record s {
    shared = record s.shared { head = head; write_epoch = write_epoch; buffer = buffer };
    producer = p;
  }

  moved :
      {p : Pushing T} (head write_epoch : ℕ) (buffer : List (Slot (Option T))) (p' : Pushing T)
      → Loose (record s { producer = p })
      → write_epoch ≤ k + c
      → Slots buffer c k s.history
      → Placed buffer c k
      → PushOk head write_epoch c buffer (length s.history) k p'
      → Loose (at head write_epoch buffer p')
  moved head write_epoch buffer p' v announces slots placed pushing = record {
    capacity_pos = v.capacity_pos;
    capacity_fits = v.capacity_fits;
    behind = v.behind;
    counted = v.counted;
    announces = announces;
    tail_in = v.tail_in;
    slots = slots;
    placed = placed;
    pushing = pushing;
    popping = v.popping;
    in_order = v.in_order;
  }

  abbrev Kept : Pushing T → Type ℓ
  Kept p =
      (t : System T) × (advance (record s { producer = p }) pushes ≡ done t)
      × Loose t
      × (t.shared.capacity ≡ c)

  -- A step on the producer's own variables.
  local :
      (p p' : Pushing T)
      → Loose (record s { producer = p })
      → push_step s.shared p ≡ done (s.shared, p')
      → publishes p ≡ []
      → PushOk s.shared.head s.shared.write_epoch c s.shared.buffer (length s.history) k p'
      → Kept p
  local p p' v e f pushing = (
    record s { producer = p' },
    push_quietly s p p' s.shared e f,
    moved s.shared.head s.shared.write_epoch s.shared.buffer p' v v.announces v.slots v.placed
        pushing,
    refl,
  )

  -- A step that writes the value of the next message's slot.
  writes_value :
      (p p' : Pushing T) (value : Option T)
      → (v : Loose (record s { producer = p })) → length s.history < k + c
      → ((slot : Slot (Option T))
          → get_elem? s.shared.buffer index ≡ some slot
          → let buffer = set s.shared.buffer index (record slot { value = value }) in
            (push_step s.shared p ≡ done (record s.shared { buffer = buffer }, p'))
            × PushOk s.shared.head s.shared.write_epoch c buffer (length s.history) k p')
      → publishes p ≡ []
      → Kept p
  writes_value p p' value v room step f =
      let inside = free_slot v.slots v.capacity_pos room in
      let (slot, there) = get_elem?-exists s.shared.buffer index inside in
      let new : Slot (Option T) = record slot { value = value } in
      let (e, pushing) = step slot there in
      (
        at s.shared.head s.shared.write_epoch (set s.shared.buffer index new) p',
        push_quietly s p p' _ e f,
        moved s.shared.head s.shared.write_epoch (set s.shared.buffer index new) p' v v.announces
            (Slots-write v.slots v.capacity_pos room new (v.slots.old index slot there))
            (Placed-set s.shared.buffer c k index new inside (v.placed index slot there) v.placed)
            pushing,
        refl,
      )

  -- The epoch goes into the slot.
  publishing : (x : T) (h e : ℕ) → Loose (record s { producer = wrote x h e }) → Kept (wrote x h e)
  unfolding advance push_step
  publishing x h e v =
      let (stands, room, few, here, next, old, there) = v.pushing in
      let new : Slot (Option T) = record { value = some x; epoch = suc (length s.history) } in
      let one_more = length-append s.history (x ∷ []) in
      let kept : take (settled k s.consumer) (s.history ++ x ∷ [])
          ≡ take (settled k s.consumer) s.history =
        take-append_left (settled k s.consumer) s.history (x ∷ [])
          (settled_bound k (length s.history) s.consumer v.behind) in
      (
        record s {
          shared = record s.shared { buffer = set s.shared.buffer index new };
          producer = stamped h e;
          history = s.history ++ x ∷ [];
        },
        ground (arith, here, next, there),
        record {
          capacity_pos = v.capacity_pos;
          capacity_fits = v.capacity_fits;
          behind = omega (arith, v.behind, one_more);
          counted = omega (arith, few, one_more);
          announces = v.announces;
          tail_in = v.tail_in;
          slots = Slots-publish v.slots v.capacity_pos room x;
          placed =
              Placed-set s.shared.buffer c k index new (free_slot v.slots v.capacity_pos room)
                (λ fresh. (length s.history, refl, refl)) v.placed;
          pushing = (
            length s.history,
            omega (arith, one_more),
            (stands.0, omega (arith, stands.1, one_more)),
            here,
            tt,
          );
          popping = PopKeeps-grow c k s.history x s.consumer v.popping;
          in_order = subst (λ l. Sublist s.received (map some l)) (sym kept) v.in_order;
        },
        refl,
      )

  pub push_step-Loose : (p : Pushing T) → Loose (record s { producer = p }) → Kept p
  unfolding push_step
  push_step-Loose (pushed e) v = local (pushed e) (pushed e) v refl refl v.pushing
  push_step-Loose (wants x) v =
      let (stands, room, few, _) = v.pushing in
      local (wants x) (got_head x s.shared.head) v refl refl (stands, room, few, stands.0, tt)
  push_step-Loose (got_head x h) v =
      let (stands, room, few, here, _) = v.pushing in
      local (got_head x h) (numbered x h (add_word s.shared.write_epoch 1)) v refl refl
        (stands, room, few, here, omega (arith, stands.1, few), tt)
  push_step-Loose (numbered x h e) v =
      let (stands, room, few, here, next, _) = v.pushing in
      (
        at s.shared.head e s.shared.buffer (announced x h e),
        push_quietly s (numbered x h e) (announced x h e) _ refl refl,
        moved s.shared.head e s.shared.buffer (announced x h e) v (omega (arith, next, room))
            v.slots v.placed ((stands.0, next), room, few, here, next, tt),
        refl,
      )
  push_step-Loose (announced x h e) v =
      let (stands, room, few, here, next, _) = v.pushing in
      writes_value (announced x h e) (writing x h e) none v room
        (λ slot there. (ground (arith, here, there), (stands, room, few, here, next, tt))) refl
  push_step-Loose (writing x h e) v =
      let (stands, room, few, here, next, _) = v.pushing in
      writes_value (writing x h e) (wrote x h e) (some x) v room
        (λ slot there. (
          ground (arith, here, there),
          (
            stands,
            room,
            few,
            here,
            next,
            slot.epoch,
            ap (get_elem? (set s.shared.buffer index (record slot { value = some x }))) here
                ∙ get_elem?-set_self s.shared.buffer index _
                    (free_slot v.slots v.capacity_pos room),
          ),
        ))
        refl
  push_step-Loose (wrote x h e) v = publishing x h e v
  push_step-Loose (stamped h e) v =
      let (n, last, stands, here, _) = v.pushing in
      let next_head : next_index s.shared h ≡ index =
        ap (λ i. add_word i 1 % c) here
        ∙ step-mod c n v.capacity_pos v.capacity_fits
        ∙ ap (λ i. i % c) (omega (arith, last)) in
      (
        at (next_index s.shared h) s.shared.write_epoch s.shared.buffer (pushed e),
        push_quietly s (stamped h e) (pushed e) _ refl refl,
        moved (next_index s.shared h) s.shared.write_epoch s.shared.buffer (pushed e) v v.announces
            v.slots v.placed ((next_head, stands.1), tt),
        refl,
      )
