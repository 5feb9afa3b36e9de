-- ===== src/Spsc/Anytime/Pop.antt =====
-- ring_buffer/mod.rs: the consumer's steps, whenever `pop` is called.
use bibi_sync.Base.{
  ℕ, zero, suc, ◌-◌, ◌≤◌, ◌<◌, ◌≡◌, refl, sym, ap, subst, ◌∙◌, false, Option, none, some, List, [],
  ◌∷◌, ◌++◌, length, take, take-get_elem?, map, get_elem?-exists, arith, sub_word-eq, sub_word,
  add_word, ltb, done,
}
use mathlib.Core.List.Sublist
use mathlib.Core.List.{map-append, Sublist, nil-sublist}
use native.Mathlib.Decide.{dec_lt, ℕ_discrete}
use native.Mathlib.Nat.{mod-lt}
use bibi_sync.Ring.{next_index}
use bibi_sync.Spsc.{
  Popping, popped, looping, got_tail, got_heads, got_read, got_write, skipping, moving, taking,
  taken, marked, pop_step, delivers, System, pops, advance,
}
use bibi_sync.Spsc.Slots.{PushOk-receive}
use bibi_sync.Spsc.Pop.{pop_quietly}
use bibi_sync.Spsc.Anytime.{PopKeeps, settled, Loose}

-- The first `i` of a list are among the first `j`, in order.
pub take-Sublist {ℓ} :
    {A : Type ℓ} (i j : ℕ) (xs : List A)
    → i ≤ j
    → Sublist (map some (take i xs)) (map some (take j xs))
take-Sublist zero j xs le = nil-sublist _
take-Sublist (suc i) zero xs le = absurd (omega (arith, le))
take-Sublist (suc i) (suc j) [] le = Sublist.refl []
take-Sublist (suc i) (suc j) (x ∷ xs) le =
    Sublist.cons-cons (some x) (take-Sublist i j xs (omega (arith, le)))

module _ {ℓ} {T : Type ℓ} (s : System T) where
  abbrev c : ℕ
  c = s.shared.capacity

  abbrev k : ℕ
  k = s.shared.read_epoch

  abbrev Kept : Popping T → Type ℓ
  Kept p =
      (t : System T) × (advance (record s { consumer = p }) pops ≡ done t)
      × Loose t
      × (t.shared.capacity ≡ c)

  -- A step that returns no item, stores neither the read epoch nor a slot, and settles nothing.
  local :
      (p p' : Popping T) (tail : ℕ)
      → Loose (record s { consumer = p })
      → tail < c
      → pop_step s.shared p ≡ done (record s.shared { tail = tail }, p')
      → delivers p ≡ []
      → settled k p ≡ settled k p'
      → PopKeeps c k s.history p'
      → Kept p
  local p p' tail v inside e f same popping = (
    record s { shared = record s.shared { tail = tail }; consumer = p' },
    pop_quietly s p p' (record s.shared { tail = tail }) e f,
    record {
      capacity_pos = v.capacity_pos;
      capacity_fits = v.capacity_fits;
      behind = v.behind;
      counted = v.counted;
      announces = v.announces;
      tail_in = inside;
      slots = v.slots;
      placed = v.placed;
      pushing = v.pushing;
      popping = popping;
      in_order = subst (λ n. Sublist s.received (map some (take n s.history))) same v.in_order;
    },
    refl,
  )

  next_in : (t : ℕ) → 0 < c → next_index s.shared t < c
  next_in t pos = mod-lt (add_word t 1) pos

  -- The tests of a slot that is in bounds.
  testing :
      (t h e w : ℕ) → Loose (record s { consumer = got_write t h e w }) → Kept (got_write t h e w)
  unfolding pop_step
  testing t h e w v =
      let (inside, same, near, _) = v.popping in
      let (slot, there) =
        get_elem?-exists s.shared.buffer t (omega (arith, inside, v.slots.shape)) in
      elim (dec_lt k slot.epoch) [
        | yes fresh ↦
            let (i, number, here) = v.placed t slot there fresh in
            let known = v.slots.old t slot there in
            let not_lapped : ltb slot.epoch (w - sub_word c 1) ≡ false = ground (
              arith,
              sub_word-eq c 1 v.capacity_fits v.capacity_pos,
              v.capacity_pos,
              near,
              fresh,
            ) in
            local (got_write t h e w) (taking t slot.epoch) s.shared.tail v v.tail_in
              (ground (arith, there, same, fresh, not_lapped)) refl refl
              (i, (number, omega (arith, number, fresh), omega (arith, number, known), here), tt)
        | no stale ↦ elim (ℕ_discrete t h) [
          | yes at_head ↦
              local (got_write t h e w) (popped none) s.shared.tail v v.tail_in
                (ground (arith, there, same, stale, at_head)) refl refl tt
          | no ahead ↦
              local (got_write t h e w) (moving t) s.shared.tail v v.tail_in
                (ground (arith, there, same, stale, ahead)) refl refl (inside, tt)
        ]
      ]

  -- The item is there whole.
  cloning : (t e : ℕ) → Loose (record s { consumer = taking t e }) → Kept (taking t e)
  unfolding pop_step
  cloning t e v =
      let (i, (number, unread, known, here), _) = v.popping in
      let (x, next) = get_elem?-exists s.history i known in
      let live = v.slots.live i x next unread in
      local (taking t e) (taken t e (some x)) s.shared.tail v v.tail_in (ground (arith, here, live))
        refl refl (i, (number, unread, known, here), (x, next, refl))

  -- The read epoch is stored.
  marking :
      (t e : ℕ) (y : Option T) → Loose (record s { consumer = taken t e y }) → Kept (taken t e y)
  unfolding pop_step
  marking t e y v =
      let (i, (number, unread, known, here), next) = v.popping in
      (
        record s { shared = record s.shared { read_epoch = e }; consumer = marked t y },
        pop_quietly s (taken t e y) (marked t y) _ refl refl,
        record {
          capacity_pos = v.capacity_pos;
          capacity_fits = v.capacity_fits;
          behind = omega (arith, number, known);
          counted = v.counted;
          announces = omega (arith, v.announces, number, unread);
          tail_in = v.tail_in;
          slots = record {
            shape = v.slots.shape;
            live = λ j x there le. v.slots.live j x there (omega (arith, number, unread, le));
            old = v.slots.old;
          };
          placed =
              λ j slot there fresh. v.placed j slot there (omega (arith, number, unread, fresh));
          pushing =
              PushOk-receive s.shared.head s.shared.write_epoch c (length s.history) s.shared.buffer
                (omega (arith, number, unread)) s.producer v.pushing;
          popping = (i, number, omega (arith, here, mod-lt i v.capacity_pos), next);
          in_order =
              Sublist.trans v.in_order
                (take-Sublist k (e - 1) s.history (omega (arith, number, unread)));
        },
        refl,
      )

  -- The item is returned.
  returning :
      (t : ℕ) (y : Option T) → Loose (record s { consumer = marked t y }) → Kept (marked t y)
  unfolding pop_step advance
  returning t y v =
      let (i, number, inside, (x, next, whole)) = v.popping in
      let one_more : map some (take (k - 1) s.history) ++ y ∷ [] ≡ map some (take k s.history) =
        ap (λ n. map some (take (n - 1) s.history) ++ y ∷ []) number
        ∙ ap (λ z. map some (take (suc i - 1) s.history) ++ z ∷ []) whole
        ∙ ap (λ n. map some (take n s.history) ++ some x ∷ []) (omega arith)
        ∙ sym (map-append some (take i s.history) (x ∷ []))
        ∙ ap (map some) (sym (take-get_elem? i s.history x next))
        ∙ ap (λ n. map some (take n s.history)) (sym number) in
      (
        record s {
          shared = record s.shared { tail = next_index s.shared t };
          consumer = popped (some y);
          received = s.received ++ y ∷ [];
        },
        refl,
        record {
          capacity_pos = v.capacity_pos;
          capacity_fits = v.capacity_fits;
          behind = v.behind;
          counted = v.counted;
          announces = v.announces;
          tail_in = next_in t v.capacity_pos;
          slots = v.slots;
          placed = v.placed;
          pushing = v.pushing;
          popping = tt;
          in_order =
              subst (Sublist (s.received ++ y ∷ [])) one_more
                (Sublist.append v.in_order (Sublist.refl (y ∷ [])));
        },
        refl,
      )

  pub pop_step-Loose : (p : Popping T) → Loose (record s { consumer = p }) → Kept p
  unfolding pop_step
  pop_step-Loose (popped x) v =
      local (popped x) (popped x) s.shared.tail v v.tail_in refl refl refl tt
  pop_step-Loose looping v =
      local looping (got_tail s.shared.tail) s.shared.tail v v.tail_in refl refl refl
        (v.tail_in, tt)
  pop_step-Loose (got_tail t) v =
      local (got_tail t) (got_heads t s.shared.head) s.shared.tail v v.tail_in refl refl refl
        v.popping
  pop_step-Loose (got_heads t h) v =
      local (got_heads t h) (got_read t h k) s.shared.tail v v.tail_in refl refl refl
        (v.popping.0, refl, tt)
  pop_step-Loose (got_read t h e) v =
      let (inside, same, _) = v.popping in
      elim (ℕ_discrete s.shared.write_epoch 0) [
        | yes nothing ↦
            local (got_read t h e) (popped none) s.shared.tail v v.tail_in (ground arith) refl refl
              tt
        | no something ↦
            local (got_read t h e) (got_write t h e s.shared.write_epoch) s.shared.tail v v.tail_in
              (ground arith) refl refl (inside, same, v.announces, tt)
      ]
  pop_step-Loose (got_write t h e w) v = testing t h e w v
  pop_step-Loose (skipping t e) v = absurd v.popping.0
  pop_step-Loose (moving t) v =
      local (moving t) looping (next_index s.shared t) v (next_in t v.capacity_pos) refl refl refl
        tt
  pop_step-Loose (taking t e) v = cloning t e v
  pop_step-Loose (taken t e y) v = marking t e y v
  pop_step-Loose (marked t y) v = returning t y v
