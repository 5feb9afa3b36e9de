-- ===== src/Spsc/Push.antt =====
-- ring_buffer/mod.rs: the producer's steps and the invariant.
use bibi_sync.Base.{
  ℕ, suc, ◌+◌, ◌%◌, ◌≤◌, ◌<◌, ◌≡◌, refl, sym, ap, subst, ◌∙◌, Option, none, some, List, [], ◌∷◌,
  ◌++◌, length, get_elem?, set, take-append_left, map, append-nil, length-append,
  get_elem?-set_self, get_elem?-exists, arith, step-mod, add_word, done,
}
use bibi_sync.Ring.{Slot, next_index}
use bibi_sync.Spsc.{
  Shared, Pushing, pushed, wants, got_head, numbered, announced, writing, wrote, stamped, push_step,
  publishes, System, pushes, advance,
}
use bibi_sync.Spsc.Invariant.{PushOk, PopOk, Slots, Inv}
use bibi_sync.Spsc.Slots.{free_slot, Slots-write, Slots-publish, PopOk-grow, PopOk-head}

module _ {ℓ} {T : Type ℓ} (s : System T) where
  -- A step that publishes nothing.
  pub push_quietly :
      (p p' : Pushing T) (m : Shared T)
      → push_step s.shared p ≡ done (m, p')
      → publishes p ≡ []
      → advance (record s { producer = p }) pushes ≡ done (record s { shared = m; producer = p' })
  unfolding advance
  push_quietly p p' m e f = ground (arith, e, f, append-nil s.history)

  -- The producer changes its own variables, the head, the announced epoch and the slots.
  abbrev at : (head write_epoch : ℕ) → List (Slot (Option T)) → Pushing T → System T
  at head write_epoch buffer p = record s {
    shared = record s.shared { head = head; write_epoch = write_epoch; buffer = buffer };
    producer = p;
  }

  moved :
      {p : Pushing T} (head write_epoch : ℕ) (buffer : List (Slot (Option T))) (p' : Pushing T)
      → Inv (record s { producer = p })
      → write_epoch ≤ length s.received + s.shared.capacity
      → Slots buffer s.shared.capacity (length s.received) s.history
      → PushOk head write_epoch s.shared.capacity buffer (length s.history) (length s.received) p'
      → PopOk head s.shared.read_epoch s.shared.capacity (length s.received) s.history s.consumer
      → Inv (at head write_epoch buffer p')
  moved head write_epoch buffer p' v announces slots pushing popping = record {
    capacity_pos = v.capacity_pos;
    capacity_fits = v.capacity_fits;
    behind = v.behind;
    ahead = v.ahead;
    counted = v.counted;
    announces = announces;
    tail_at = v.tail_at;
    slots = slots;
    pushing = pushing;
    popping = popping;
    in_order = v.in_order;
  }

  abbrev Kept : Pushing T → Type ℓ
  Kept p = (t : System T) × (advance (record s { producer = p }) pushes ≡ done t) × Inv t

  -- A step on the producer's own variables.
  local :
      (p p' : Pushing T)
      → Inv (record s { producer = p })
      → push_step s.shared p ≡ done (s.shared, p')
      → publishes p ≡ []
      → PushOk s.shared.head s.shared.write_epoch s.shared.capacity s.shared.buffer
          (length s.history)
          (length s.received)
          p'
      → Kept p
  local p p' v e f pushing = (
    record s { producer = p' },
    push_quietly p p' s.shared e f,
    moved s.shared.head s.shared.write_epoch s.shared.buffer p' v v.announces v.slots pushing
        v.popping,
  )

  -- A step that writes the value of the next message's slot.
  writes_value :
      (p p' : Pushing T) (value : Option T)
      → (v : Inv (record s { producer = p }))
      → length s.history < length s.received + s.shared.capacity
      → ((slot : Slot (Option T))
          → get_elem? s.shared.buffer (length s.history % s.shared.capacity) ≡ some slot
          → (push_step s.shared p
              ≡ done (
                record s.shared {
                  buffer =
                      set s.shared.buffer
                        (length s.history % s.shared.capacity)
                        (record slot { value = value });
                },
                p',
              ))
            × PushOk s.shared.head s.shared.write_epoch s.shared.capacity
                (set s.shared.buffer
                  (length s.history % s.shared.capacity)
                  (record slot { value = value }))
                (length s.history)
                (length s.received)
                p')
      → publishes p ≡ []
      → Kept p
  writes_value p p' value v room step f =
      let index : ℕ = length s.history % s.shared.capacity in
      let (slot, there) =
        get_elem?-exists s.shared.buffer index (free_slot v.slots v.capacity_pos room) in
      let new : Slot (Option T) = record slot { value = value } in
      let (e, pushing) = step slot there in
      (
        at s.shared.head s.shared.write_epoch (set s.shared.buffer index new) p',
        push_quietly p p' _ e f,
        moved s.shared.head s.shared.write_epoch (set s.shared.buffer index new) p' v v.announces
            (Slots-write v.slots v.capacity_pos room new (v.slots.old index slot there)) pushing
            v.popping,
      )

  -- The epoch goes into the slot.
  publishing : (x : T) (h e : ℕ) → Inv (record s { producer = wrote x h e }) → Kept (wrote x h e)
  unfolding advance push_step
  publishing x h e v =
      let (stands, room, few, here, next, old, there) = v.pushing in
      let buffer =
        set s.shared.buffer (length s.history % s.shared.capacity)
          (record { value = some x; epoch = suc (length s.history) }) in
      (
        record s {
          shared = record s.shared { buffer = buffer };
          producer = stamped h e;
          history = s.history ++ x ∷ [];
        },
        ground (arith, here, next, there),
        record {
          capacity_pos = v.capacity_pos;
          capacity_fits = v.capacity_fits;
          behind = omega (arith, v.behind, length-append s.history (x ∷ []));
          ahead = omega (arith, room, length-append s.history (x ∷ []));
          counted = omega (arith, few, length-append s.history (x ∷ []));
          announces = v.announces;
          tail_at = v.tail_at;
          slots = Slots-publish v.slots v.capacity_pos room x;
          pushing = (
            length s.history,
            omega (arith, length-append s.history (x ∷ [])),
            (stands.0, omega (arith, stands.1, length-append s.history (x ∷ []))),
            here,
            tt,
          );
          popping =
              PopOk-grow s.shared.head s.shared.read_epoch s.shared.capacity (length s.received)
                s.history x s.consumer v.popping;
          in_order =
              v.in_order
              ∙ ap (map some)
                  (sym (take-append_left (length s.received) s.history (x ∷ []) v.behind));
        },
      )

  pub push_step-Inv : (p : Pushing T) → Inv (record s { producer = p }) → Kept p
  unfolding push_step
  push_step-Inv (pushed e) v = local (pushed e) (pushed e) v refl refl v.pushing
  push_step-Inv (wants x) v =
      let (stands, room, few, _) = v.pushing in
      local (wants x) (got_head x s.shared.head) v refl refl (stands, room, few, stands.0, tt)
  push_step-Inv (got_head x h) v =
      let (stands, room, few, here, _) = v.pushing in
      local (got_head x h) (numbered x h (add_word s.shared.write_epoch 1)) v refl refl
        (stands, room, few, here, omega (arith, stands.1, few), tt)
  push_step-Inv (numbered x h e) v =
      let (stands, room, few, here, next, _) = v.pushing in
      (
        at s.shared.head e s.shared.buffer (announced x h e),
        push_quietly (numbered x h e) (announced x h e) _ refl refl,
        moved s.shared.head e s.shared.buffer (announced x h e) v (omega (arith, next, room))
            v.slots ((stands.0, next), room, few, here, next, tt) v.popping,
      )
  push_step-Inv (announced x h e) v =
      let (stands, room, few, here, next, _) = v.pushing in
      writes_value (announced x h e) (writing x h e) none v room
        (λ slot there. (ground (arith, here, there), (stands, room, few, here, next, tt))) refl
  push_step-Inv (writing x h e) v =
      let (stands, room, few, here, next, _) = v.pushing in
      writes_value (writing x h e) (wrote x h e) (some x) v room
        (λ slot there. (
          ground (arith, here, there),
          (
            stands,
            room,
            few,
            here,
            next,
            slot.epoch,
            ap
                  (get_elem? (
                    set s.shared.buffer (length s.history % s.shared.capacity)
                      (record slot { value = some x })))
                  here
                ∙ get_elem?-set_self s.shared.buffer (length s.history % s.shared.capacity) _
                    (free_slot v.slots v.capacity_pos room),
          ),
        ))
        refl
  push_step-Inv (wrote x h e) v = publishing x h e v
  push_step-Inv (stamped h e) v =
      let (k, last, stands, here, _) = v.pushing in
      let next_head : next_index s.shared h ≡ length s.history % s.shared.capacity =
        ap (λ i. add_word i 1 % s.shared.capacity) here
        ∙ step-mod s.shared.capacity k v.capacity_pos v.capacity_fits
        ∙ ap (λ i. i % s.shared.capacity) (omega (arith, last)) in
      (
        at (next_index s.shared h) s.shared.write_epoch s.shared.buffer (pushed e),
        push_quietly (stamped h e) (pushed e) _ refl refl,
        moved (next_index s.shared h) s.shared.write_epoch s.shared.buffer (pushed e) v v.announces
            v.slots ((next_head, stands.1), tt)
            (subst
              (λ hd.
                PopOk hd s.shared.read_epoch s.shared.capacity (length s.received) s.history
                  s.consumer)
              (sym next_head)
              (PopOk-head s.shared.head s.shared.read_epoch s.shared.capacity (length s.received)
                s.history s.consumer v.behind v.popping)),
      )
