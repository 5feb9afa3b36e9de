-- ===== src/Spsc/Pop.antt =====
-- ring_buffer/mod.rs: the consumer's steps and the invariant.
use bibi_sync.Base.{
  ℕ, suc, ◌+◌, ◌-◌, ◌%◌, ◌≤◌, ◌<◌, ◌≡◌, ◌≢◌, refl, sym, ap, ap₂, ◌∙◌, false, Option, none, some, [],
  ◌∷◌, ◌++◌, length, get_elem?, take, take-get_elem?, map, append-nil, length-append, get_elem?-lt,
  get_elem?-exists, arith, step-mod, sub_word-eq, sub_word, add_word, ltb, done,
}
use mathlib.Core.List.{map-append}
use native.Mathlib.Decide.{dec_lt, ℕ_discrete}
use native.Mathlib.Nat.{mod-lt}
use bibi_sync.Ring.{Slot, next_index}
use bibi_sync.Spsc.{
  Shared, Popping, popped, looping, got_tail, got_heads, got_read, got_write, skipping, moving,
  taking, taken, marked, pop_step, delivers, System, pops, advance,
}
use bibi_sync.Spsc.Invariant.{PopOk, Inv}
use bibi_sync.Spsc.Moves.{with_consumer}
use bibi_sync.Spsc.Slots.{Slots-receive, PushOk-receive}

-- How many steps a call of `pop` has before it at most, if it does not go round its loop.
abbrev pub left {ℓ} : {T : Type ℓ} → Popping T → ℕ
left (popped x) = 0
left (marked t y) = 1
left (taken t e y) = 2
left (taking t e) = 3
left (got_write t h e w) = 4
left (got_read t h e) = 5
left (got_heads t h) = 6
left (got_tail t) = 7
left looping = 8
left (moving t) = 9
left (skipping t e) = 10

not_ne : (a b : ℕ) → ¬ (a ≢ b) → a ≡ b
not_ne a b h = elim (ℕ_discrete a b) [ yes same ↦ same | no ne ↦ absurd (h ne) ]

module _ {ℓ} {T : Type ℓ} (s : System T) where
  abbrev Kept : Popping T → Type ℓ
  Kept p =
      (t : System T) × (advance (record s { consumer = p }) pops ≡ done t)
      × Inv t
      × (left t.consumer ≤ left p - 1)

  -- A step that returns no item.
  pub pop_quietly :
      (p p' : Popping T) (m : Shared T)
      → pop_step s.shared p ≡ done (m, p')
      → delivers p ≡ []
      → advance (record s { consumer = p }) pops ≡ done (record s { shared = m; consumer = p' })
  unfolding advance
  pop_quietly p p' m e f = ground (arith, e, f, append-nil s.received)

  local :
      (p p' : Popping T)
      → Inv (record s { consumer = p })
      → pop_step s.shared p ≡ done (s.shared, p')
      → delivers p ≡ []
      → PopOk s.shared.head s.shared.read_epoch s.shared.capacity (length s.received) s.history p'
      → left p' ≤ left p - 1
      → Kept p
  local p p' v e f popping fewer = (
    record s { consumer = p' },
    pop_quietly p p' s.shared e f,
    with_consumer (record s { consumer = p }) p' v popping,
    fewer,
  )

  -- The slot at the tail while a message is not received.
  pub unread_slot :
      {p : Popping T}
      → Inv (record s { consumer = p })
      → length s.received < length s.history
      → (x : T) × (get_elem? s.history (length s.received) ≡ some x)
        × (get_elem? s.shared.buffer (length s.received % s.shared.capacity)
            ≡ some (record { value = some x; epoch = suc (length s.received) }))
  unread_slot v behind =
      let (x, e) = get_elem?-exists s.history (length s.received) behind in
      (x, e, v.slots.live (length s.received) x e (omega arith))

  -- The slot at the tail while all messages are received.
  stale_slot :
      {p : Popping T}
      → Inv (record s { consumer = p })
      → ¬ (length s.received < length s.history)
      → (slot : Slot (Option T)) × (get_elem? s.shared.buffer
            (length s.received % s.shared.capacity)
          ≡ some slot)
        × (slot.epoch ≤ length s.received)
  stale_slot v caught =
      let (slot, there) =
        get_elem?-exists s.shared.buffer (length s.received % s.shared.capacity)
          (omega (arith, mod-lt (length s.received) v.capacity_pos, v.slots.shape)) in
      (slot, there, omega (arith, v.slots.old _ slot there, caught))

  -- No slot within one round is taken for overwritten.
  pub is_fresh :
      {p : Popping T} (w : ℕ)
      → Inv (record s { consumer = p })
      → w ≤ length s.received + s.shared.capacity
      → ltb (suc (length s.received)) (w - sub_word s.shared.capacity 1) ≡ false
  is_fresh w v near =
      ground (arith, sub_word-eq s.shared.capacity 1 v.capacity_fits v.capacity_pos, v.capacity_pos)

  returning : (t : ℕ) (y : Option T) → Inv (record s { consumer = marked t y }) → Kept (marked t y)
  unfolding pop_step advance
  returning t y v =
      let (read, here, (x, next, whole)) = v.popping in
      let one_more = length-append s.received (y ∷ []) in
      let one_later : suc (length s.received) ≡ length (s.received ++ y ∷ []) =
        omega (arith, one_more) in
      (
        record s {
          shared = record s.shared { tail = next_index s.shared t };
          consumer = popped (some y);
          received = s.received ++ y ∷ [];
        },
        refl,
        record {
          capacity_pos = v.capacity_pos;
          capacity_fits = v.capacity_fits;
          behind = omega (arith, one_more, get_elem?-lt s.history (length s.received) x next);
          ahead = omega (arith, one_more, v.ahead);
          counted = v.counted;
          announces = omega (arith, one_more, v.announces);
          tail_at =
              ap (λ i. add_word i 1 % s.shared.capacity) here
              ∙ step-mod s.shared.capacity (length s.received) v.capacity_pos v.capacity_fits
              ∙ ap (λ i. i % s.shared.capacity) (omega (arith, one_more));
          slots = Slots-receive v.slots one_later;
          pushing =
              PushOk-receive s.shared.head s.shared.write_epoch s.shared.capacity (length s.history)
                s.shared.buffer (omega (arith, one_later)) s.producer v.pushing;
          popping = (read ∙ one_later, tt);
          in_order =
              ap₂ (λ l z. l ++ z ∷ []) v.in_order whole
              ∙ sym (map-append some (take (length s.received) s.history) (x ∷ []))
              ∙ ap (map some) (
                  sym (take-get_elem? (length s.received) s.history x next)
                  ∙ ap (λ k. take k s.history) one_later);
        },
        omega arith,
      )

  pub pop_step-Inv : (p : Popping T) → Inv (record s { consumer = p }) → Kept p
  unfolding pop_step
  pop_step-Inv (popped x) v = local (popped x) (popped x) v refl refl v.popping (omega arith)
  pop_step-Inv looping v =
      let (read, ahead, _) = v.popping in
      local looping (got_tail s.shared.tail) v refl refl (read, v.tail_at, ahead, tt) (omega arith)
  pop_step-Inv (got_tail t) v =
      let (read, here, ahead, _) = v.popping in
      local (got_tail t) (got_heads t s.shared.head) v refl refl
        (read, here, (λ ne. ahead (λ same. ne (here ∙ same))), tt) (omega arith)
  pop_step-Inv (got_heads t h) v =
      let (read, here, ahead, _) = v.popping in
      local (got_heads t h) (got_read t h s.shared.read_epoch) v refl refl
        (read, here, ahead, read, tt) (omega arith)
  pop_step-Inv (got_read t h e) v =
      let (read, here, ahead, same, _) = v.popping in
      elim (ℕ_discrete s.shared.write_epoch 0) [
        | yes nothing ↦
            local (got_read t h e) (popped none) v (ground arith) refl (read, tt) (omega arith)
        | no something ↦
            local (got_read t h e) (got_write t h e s.shared.write_epoch) v (ground arith) refl
              (read, here, ahead, same, v.announces, tt) (omega arith)
      ]
  pop_step-Inv (got_write t h e w) v =
      let (read, here, ahead, same, near, _) = v.popping in
      elim (dec_lt (length s.received) (length s.history)) [
        | yes behind ↦
            let (x, next, there) = unread_slot v behind in
            local (got_write t h e w) (taking t (suc (length s.received))) v
              (ground (arith, here, there, same, is_fresh w v near)) refl
              (read, here, refl, behind, tt) (omega arith)
        | no caught ↦
            let (slot, there, stale) = stale_slot v caught in
            let at_head : t ≡ h = not_ne t h (λ ne. caught (ahead ne)) in
            local (got_write t h e w) (popped none) v
              (ground (arith, here, there, same, stale, at_head)) refl (read, tt) (omega arith)
      ]
  pop_step-Inv (skipping t e) v = absurd v.popping.0
  pop_step-Inv (moving t) v = absurd v.popping.0
  pop_step-Inv (taking t e) v =
      let (read, here, number, behind, _) = v.popping in
      let (x, next, there) = unread_slot v behind in
      local (taking t e) (taken t e (some x)) v (ground (arith, here, there)) refl
        (read, here, number, (x, next, refl)) (omega arith)
  pop_step-Inv (taken t e y) v =
      let (read, here, number, next) = v.popping in
      (
        record s { shared = record s.shared { read_epoch = e }; consumer = marked t y },
        pop_quietly (taken t e y) (marked t y) _ refl refl,
        record {
          capacity_pos = v.capacity_pos;
          capacity_fits = v.capacity_fits;
          behind = v.behind;
          ahead = v.ahead;
          counted = v.counted;
          announces = v.announces;
          tail_at = v.tail_at;
          slots = v.slots;
          pushing = v.pushing;
          popping = (number, here, next);
          in_order = v.in_order;
        },
        omega arith,
      )
  pop_step-Inv (marked t y) v = returning t y v
