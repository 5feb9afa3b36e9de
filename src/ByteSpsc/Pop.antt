-- ===== src/ByteSpsc/Pop.antt =====
-- ring_buffer/byte_buffer.rs: the consumer's steps, seen on the typed buffer.
use bibi_sync.Base.{
  ℕ, suc, ◌+◌, ◌-◌, ◌%◌, ◌≤◌, ◌≡◌, refl, sym, ap, ap₂, subst, ◌∙◌, inl, inr, true, Option, none,
  some, List, [], ◌∷◌, ◌++◌, ltb, leb, ◌==◌, sub_word, Bool-cases, length, get_elem?, map,
  get_elem?-map, length-map, get_elem?-exists, append-nil, arith, Exec, done, ℕ_discrete,
}
use mathlib.Core.List.{map-append}
use mathlib.Core.Option
use mathlib.Core.Option.{some-injective}
use native.Mathlib.Nat.{mod-lt}
use bibi_sync.Ring.{Slot, next_index}
use bibi_sync.ByteRing.{Bytes}
use bibi_sync.Spsc
use bibi_sync.Spsc.{pops, Choice}
use bibi_sync.Spsc.Invariant.{Inv}
use bibi_sync.Spsc.Pop.{unread_slot}
use bibi_sync.ByteSpsc.{
  Payload, Shared, Cloned, Popping, popped, looping, got_tail, got_heads, got_read, got_write,
  skipping, moving, taking, measured, cloned, taken, marked, System, clone, pop_step, delivers,
  advance,
}
use bibi_sync.ByteSpsc.View.{
  Follows, follows, step-Inv, view_value, view_slot, view_shared, view_pop, view, payloads, tagged,
  AllFit, PushFits, PopKnows, ByteInv,
}

-- How many steps a call of `pop` has before it at most, if it does not go round its loop.
abbrev pub left : Popping → ℕ
left (popped x) = 0
left (marked t x e) = 1
left (taken t x e) = 2
left (cloned t x) = 3
left (measured t len) = 4
left (taking t) = 5
left (got_write t h k w) = 6
left (got_read t h k) = 7
left (got_heads t h) = 8
left (got_tail t) = 9
left looping = 10
left (moving t) = 11
left (skipping t s) = 12

tagged-append :
    (k : ℕ) (xs : List Cloned) (x : Cloned)
    → tagged k (xs ++ x ∷ []) ≡ tagged k xs ++ (x, suc (k + length xs)) ∷ []
tagged-append k [] x = ap (λ (n : ℕ). (x, suc n) ∷ []) (omega arith)
tagged-append k (y ∷ xs) x =
    ap (λ l. (y, suc k) ∷ l)
      (tagged-append (suc k) xs x
        ∙ ap (λ (n : ℕ). tagged (suc k) xs ++ (x, suc n) ∷ []) (omega arith))

module _ (b : System) where
  abbrev r : ℕ
  r = length (payloads b.received)

  abbrev Kept : Popping → Type 0
  Kept p =
      (t : System) × (advance (record b { consumer = p }) pops ≡ done t)
      × ByteInv t
      × Follows (record b { consumer = p }) pops t
      × (left t.consumer ≤ left p - 1)

  -- A step that returns nothing.
  pop_quietly :
      (p p' : Popping) (m : Shared)
      → pop_step b.shared p ≡ done (m, p')
      → delivers p ≡ []
      → advance (record b { consumer = p }) pops ≡ done (record b { shared = m; consumer = p' })
  unfolding advance
  pop_quietly p p' m e f = ground (arith, e, f, append-nil b.received)

  -- The same step on the view.
  view_quietly :
      (p : Popping) (m : Spsc.Shared Bytes) (q : Spsc.Popping Bytes)
      → Spsc.pop_step (view_shared b.shared) (view_pop r p) ≡ done (m, q)
      → Spsc.delivers (view_pop r p) ≡ []
      → Spsc.advance (view (record b { consumer = p })) pops
        ≡ done (record (view b) { shared = m; consumer = q })
  unfolding Spsc.advance
  view_quietly p m q e f = ground (arith, e, f, append-nil (payloads b.received))

  -- A step that returns nothing, with what is seen of it.
  local :
      (p p' : Popping) (m : Shared)
      → ByteInv (record b { consumer = p })
      → pop_step b.shared p ≡ done (m, p')
      → delivers p ≡ []
      → m.buffer ≡ b.shared.buffer
      → Follows (record b { consumer = p }) pops (record b { shared = m; consumer = p' })
      → PopKnows b.shared.buffer r p'
      → left p' ≤ left p - 1
      → Kept p
  local p p' m v e quiet same seen knows fewer = (
    record b { shared = m; consumer = p' },
    pop_quietly p p' m e quiet,
    record {
      base =
          follows (record b { consumer = p }) (record b { shared = m; consumer = p' }) pops v.base
            tt seen;
      fits = subst AllFit (sym same) v.fits;
      pushing = subst (λ l. PushFits l b.producer) (sym same) v.pushing;
      popping = subst (λ l. PopKnows l r p') (sym same) knows;
      epochs = v.epochs;
    },
    seen,
    fewer,
  )

  -- The slot at the tail.
  tail_slot :
      (p : Popping) (t : ℕ)
      → ByteInv (record b { consumer = p })
      → t ≡ r % b.shared.capacity
      → (slot : Slot Payload) × (get_elem? b.shared.buffer t ≡ some slot)
        × (get_elem? (map view_slot b.shared.buffer) t ≡ some (view_slot slot))
  tail_slot p t v here =
      let (slot, there) = get_elem?-exists b.shared.buffer t (
        omega (
          arith,
          here,
          mod-lt r v.base.capacity_pos,
          sym (length-map view_slot b.shared.buffer) ∙ v.base.slots.shape,
        )) in
      (slot, there, get_elem?-map view_slot b.shared.buffer t ∙ ap (Option.map view_slot) there)

  -- The tests on the slot's epoch come out as on the view.
  testing :
      (t h k w : ℕ) → ByteInv (record b { consumer = got_write t h k w }) → Kept (got_write t h k w)
  unfolding pop_step Spsc.pop_step
  testing t h k w v =
      let (slot, there, viewed) = tail_slot (got_write t h k w) t v v.base.popping.1 in
      let tested = Spsc.test (view_shared b.shared) t h k w slot.epoch in
      let step =
        view_quietly (got_write t h k w) (view_shared b.shared) tested (ground (arith, viewed))
          refl in
      let seen : (q : Spsc.Popping Bytes)
          → tested ≡ q
          → Spsc.advance (view (record b { consumer = got_write t h k w })) pops
            ≡ done (record (view b) { consumer = q }) =
        λ q e. step ∙ ap (λ p. done (record (view b) { consumer = p })) e in
      let leads : (q : Spsc.Popping Bytes) → tested ≡ q → Inv (record (view b) { consumer = q }) =
        λ q e.
          step-Inv (view (record b { consumer = got_write t h k w }))
            (record (view b) { consumer = q }) pops v.base tt (seen q e) in
      elim (Bool-cases (leb slot.epoch k)) [
        | inl stale ↦ elim (Bool-cases (t == h)) [
          | inl at_head ↦
              local (got_write t h k w) (popped none) b.shared v
                (ground (arith, there, stale, at_head)) refl refl
                (inr (seen (Spsc.popped none) (rw (stale, at_head)))) tt (omega arith)
          | inr ahead ↦ absurd (leads (Spsc.moving t) (rw (stale, ahead))).popping.0
        ]
        | inr fresh ↦ elim (Bool-cases (ltb slot.epoch (w - sub_word b.shared.capacity 1))) [
          | inl lapped ↦ absurd (leads (Spsc.skipping t slot.epoch) (rw (fresh, lapped))).popping.0
          | inr valid ↦
              let number = (leads (Spsc.taking t slot.epoch) (rw (fresh, valid))).popping.2 in
              local (got_write t h k w) (taking t) b.shared v (ground (arith, there, fresh, valid))
                refl refl
                (inr (
                  seen (Spsc.taking t slot.epoch) (rw (fresh, valid))
                  ∙ ap (λ (e : ℕ). done (record (view b) { consumer = Spsc.taking t e })) number))
                tt (omega arith)
        ]
      ]

  -- The slot at the tail is whole when it is cloned.
  cloning : (t len : ℕ) → ByteInv (record b { consumer = measured t len }) → Kept (measured t len)
  unfolding pop_step Spsc.pop_step clone
  cloning t len v =
      let (slot, there, sized) = v.popping in
      let (read, here, number, behind, _) = v.base.popping in
      let (x, next, live) = unread_slot (view b) v.base behind in
      let viewed : get_elem? (map view_slot b.shared.buffer) t ≡ some (view_slot slot) =
        get_elem?-map view_slot b.shared.buffer t ∙ ap (Option.map view_slot) there in
      let whole : view_slot slot ≡ record { value = some x; epoch = suc r } =
        some-injective (view_slot slot) (record { value = some x; epoch = suc r })
          (sym viewed ∙ ap (get_elem? (map view_slot b.shared.buffer)) here ∙ live) in
      let (small, array) = v.fits t slot there in
      let inside : leb len (length slot.value.bytes) ≡ true = ground (arith, sized, small, array) in
      local (measured t len) (cloned t (view_value slot.value)) b.shared v
        (ground (arith, there, sized, inside)) refl refl
        (inr (view_quietly (measured t len) _ _ (ground (arith, viewed)) refl))
        (slot, there, ap (λ (o : Slot (Option Bytes)). o.epoch) whole) (omega arith)

  -- The payload goes out with its epoch.
  returning :
      (t : ℕ) (x : Cloned) (e : ℕ)
      → ByteInv (record b { consumer = marked t x e })
      → Kept (marked t x e)
  unfolding pop_step Spsc.pop_step advance Spsc.advance
  returning t x e v =
      let one_more : payloads (b.received ++ (x, e) ∷ []) ≡ payloads b.received ++ x ∷ [] =
        map-append _ b.received ((x, e) ∷ []) in
      let b' = record b {
        shared = record b.shared { tail = next_index b.shared t };
        consumer = popped (some (x, e));
        received = b.received ++ (x, e) ∷ [];
      } in
      let after : List Cloned → Exec (Spsc.System Bytes) =
        λ l. done (record (view b') { received = l }) in
      let seen : Follows (record b { consumer = marked t x e }) pops b' =
        inr (ap after (sym one_more)) in
      (
        b',
        refl,
        record {
          base = follows (record b { consumer = marked t x e }) b' pops v.base tt seen;
          fits = v.fits;
          pushing = v.pushing;
          popping = tt;
          epochs =
              ap₂ (λ (l : List (Cloned × ℕ)) (n : ℕ). l ++ (x, n) ∷ []) v.epochs
                (v.popping ∙ omega arith)
              ∙ sym (tagged-append 0 (payloads b.received) x)
              ∙ ap (tagged 0) (sym one_more);
        },
        seen,
        omega arith,
      )

  pub pop_step-ByteInv : (p : Popping) → ByteInv (record b { consumer = p }) → Kept p
  unfolding pop_step Spsc.pop_step
  pop_step-ByteInv (popped none) v =
      local (popped none) (popped none) b.shared v refl refl refl (inl refl) tt (omega arith)
  pop_step-ByteInv (popped (some (x, e))) v =
      local (popped (some (x, e))) (popped (some (x, e))) b.shared v refl refl refl (inl refl) tt
        (omega arith)
  pop_step-ByteInv looping v =
      local looping (got_tail b.shared.tail) b.shared v refl refl refl
        (inr (view_quietly looping _ _ refl refl)) tt (omega arith)
  pop_step-ByteInv (got_tail t) v =
      local (got_tail t) (got_heads t b.shared.head) b.shared v refl refl refl
        (inr (view_quietly (got_tail t) _ _ refl refl)) tt (omega arith)
  pop_step-ByteInv (got_heads t h) v =
      local (got_heads t h) (got_read t h b.shared.read_epoch) b.shared v refl refl refl
        (inr (view_quietly (got_heads t h) _ _ refl refl)) tt (omega arith)
  pop_step-ByteInv (got_read t h k) v = elim (ℕ_discrete b.shared.write_epoch 0) [
    | yes nothing ↦
        local (got_read t h k) (popped none) b.shared v (ground arith) refl refl
          (inr (view_quietly (got_read t h k) _ _ (ground arith) refl)) tt (omega arith)
    | no something ↦
        local (got_read t h k) (got_write t h k b.shared.write_epoch) b.shared v (ground arith) refl
          refl (inr (view_quietly (got_read t h k) _ _ (ground arith) refl)) tt (omega arith)
  ]
  pop_step-ByteInv (got_write t h k w) v = testing t h k w v
  pop_step-ByteInv (skipping t s) v = absurd v.base.popping.0
  pop_step-ByteInv (moving t) v = absurd v.base.popping.0
  pop_step-ByteInv (taking t) v =
      let (slot, there, _) = tail_slot (taking t) t v v.base.popping.1 in
      local (taking t) (measured t slot.value.len) b.shared v (ground (arith, there)) refl refl
        (inl refl) (slot, there, refl) (omega arith)
  pop_step-ByteInv (measured t len) v = cloning t len v
  pop_step-ByteInv (cloned t x) v =
      let (slot, there, same) = v.popping in
      local (cloned t x) (taken t x slot.epoch) b.shared v (ground (arith, there)) refl refl
        (inl (ap (λ (e : ℕ). record (view b) { consumer = Spsc.taken t e x }) same)) tt
        (omega arith)
  pop_step-ByteInv (taken t x e) v =
      local (taken t x e) (marked t x e) (record b.shared { read_epoch = e }) v refl refl refl
        (inr (view_quietly (taken t x e) _ _ refl refl)) v.base.popping.2 (omega arith)
  pop_step-ByteInv (marked t x e) v = returning t x e v
