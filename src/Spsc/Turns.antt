-- ===== src/Spsc/Turns.antt =====
-- ring_buffer/mod.rs: calls of `push` and `pop` that are running, under a schedule that starts no
-- other.
use bibi_sync.Base.{
  done->>=, ℕ, suc, ◌-◌, ◌≤◌, ◌<◌, ◌≡◌, refl, sym, ap, subst, ◌∙◌, Option, none, some, List, [],
  ◌∷◌, get_elem?, done-injective, arith, word_mod, Exec, done, ◌>>=◌, or_panic,
}
use bibi_sync.Spsc.{
  Shared, Pushing, pushed, wants, got_head, numbered, announced, writing, wrote, stamped, push_step,
  Popping, popped, pop_step, System, Choice, calls_push, pushes, calls_pop, pops, advance, play,
}
use bibi_sync.Spsc.Pop.{pop_step-Inv, left}
use bibi_sync.Spsc.Reach.{Reach, later, Reach-Inv, advance-total, left_bound}

-- How many steps a call of `push` has before it.
abbrev pub to_go {ℓ} : {T : Type ℓ} → Pushing T → ℕ
to_go (pushed e) = 0
to_go (stamped h e) = 1
to_go (wrote x h e) = 2
to_go (writing x h e) = 3
to_go (announced x h e) = 4
to_go (numbered x h e) = 5
to_go (got_head x h) = 6
to_go (wants x) = 7

module _ {ℓ} {T : Type ℓ} where
  -- A thread takes its next step, and no call starts.
  abbrev pub IsTurn : Choice T → Type 0
  IsTurn pushes = Unit
  IsTurn pops = Unit
  IsTurn c = ⊥

  abbrev pub AllTurns : List (Choice T) → Type 0
  AllTurns [] = Unit
  AllTurns (c ∷ cs) = IsTurn c × AllTurns cs

  -- The steps of each thread in a schedule.
  abbrev pub pushes_in : List (Choice T) → ℕ
  pushes_in [] = 0
  pushes_in (pushes ∷ cs) = suc (pushes_in cs)
  pushes_in (c ∷ cs) = pushes_in cs

  abbrev pub pops_in : List (Choice T) → ℕ
  pops_in [] = 0
  pops_in (pops ∷ cs) = suc (pops_in cs)
  pops_in (c ∷ cs) = pops_in cs

  -- A step at a slot, in bounds or not.
  pub after_index :
      {A : Type ℓ} (slot : Option A) (f : A → Shared T) (m' : Shared T) (p p' : Pushing T)
      → (let step : A → Exec (Shared T × Pushing T) = λ o. done (f o, p) in or_panic slot >>= step)
        ≡ done (m', p')
      → p ≡ p'
  after_index none f m' p p' e = cc
  after_index (some o) f m' p p' e = cc

  push_step-fewer :
      (m m' : Shared T) (p p' : Pushing T) → push_step m p ≡ done (m', p') → to_go p' ≤ to_go p - 1
  unfolding push_step
  push_step-fewer m m' (announced x h k) p' e =
      subst (λ q. to_go q ≤ 3) (after_index (get_elem? m.buffer h) _ m' _ p' e) (omega arith)
  push_step-fewer m m' (writing x h k) p' e =
      subst (λ q. to_go q ≤ 2) (after_index (get_elem? m.buffer h) _ m' _ p' e) (omega arith)
  push_step-fewer m m' (wrote x h k) p' e =
      subst (λ q. to_go q ≤ 1) (after_index (get_elem? m.buffer h) _ m' _ p' e) (omega arith)
  push_step-fewer m m' p p' e = ground (arith, e)

  pushes_lem :
      (s t : System T)
      → advance s pushes ≡ done t
      → (to_go t.producer ≤ to_go s.producer - 1) × (t.consumer ≡ s.consumer)
  unfolding advance
  pushes_lem s t e =
      let ((m, p), step, same) = done->>= (push_step s.shared s.producer) _ t e in
      (
        subst (λ (u : System T). to_go u.producer ≤ to_go s.producer - 1) (sym same)
            (push_step-fewer s.shared m s.producer p step),
        ap (λ (u : System T). u.consumer) same,
      )

  pops_lem : (s t : System T) → advance s pops ≡ done t → t.producer ≡ s.producer
  unfolding advance
  pops_lem s t e =
      let ((m, p), step, same) = done->>= (pop_step s.shared s.consumer) _ t e in
      ap (λ (u : System T). u.producer) same

  push-ended : (p : Pushing T) → to_go p ≤ 0 → (e : ℕ) × (p ≡ pushed e)
  push-ended (pushed e) h = (e, refl)
  push-ended p h = absurd (omega arith)

  pop-ended : (p : Popping T) → left p ≤ 0 → (x : Option (Option T)) × (p ≡ popped x)
  pop-ended (popped x) h = (x, refl)
  pop-ended p h = absurd (omega arith)

  to_go_bound : (p : Pushing T) → to_go p ≤ 7
  to_go_bound p = ground arith

  module _ (default : T) (capacity : ℕ) (pos : 0 < capacity) (fits : capacity < word_mod) where
    turns_lem :
        (s : System T) (cs : List (Choice T))
        → Reach default capacity s
        → AllTurns cs
        → (t : System T) × (play s cs ≡ done t)
          × Reach default capacity t
          × (left t.consumer ≤ left s.consumer - pops_in cs)
          × (to_go t.producer ≤ to_go s.producer - pushes_in cs)
    unfolding play
    turns_lem s [] before turns = (s, refl, before, omega arith, omega arith)
    turns_lem s (pushes ∷ cs) before (_, turns) =
        let (u, step, reach) = advance-total default capacity pos fits s pushes before tt in
        let (t, e, after, pop_left, push_left) = turns_lem u cs reach turns in
        let (fewer, same) = pushes_lem s u step in
        (
          t,
          ground (arith, step, e),
          after,
          subst (λ p. left t.consumer ≤ left p - pops_in cs) same pop_left,
          omega (arith, fewer, push_left),
        )
    turns_lem s (pops ∷ cs) before (_, turns) =
        let v = Reach-Inv default capacity pos fits s before in
        let (u, step, _, fewer) = pop_step-Inv s s.consumer v in
        let (t, e, after, pop_left, push_left) = turns_lem u cs (later pops before tt step) turns in
        (
          t,
          ground (arith, step, e),
          after,
          omega (arith, fewer, pop_left),
          subst (λ p. to_go t.producer ≤ to_go p - pushes_in cs) (pops_lem s u step) push_left,
        )
    turns_lem s (calls_push x ∷ cs) before (never, turns) = absurd never
    turns_lem s (calls_pop ∷ cs) before (never, turns) = absurd never

    pub play-Reach :
        (s t : System T) (cs : List (Choice T))
        → Reach default capacity s
        → AllTurns cs
        → play s cs ≡ done t
        → Reach default capacity t
    play-Reach s t cs before turns e =
        let (u, f, reach, _, _) = turns_lem s cs before turns in
        subst (Reach default capacity) (done-injective u t (sym f ∙ e)) reach

    -- From a state that such a schedule leads to, in any further schedule that starts no call and
    -- has at least 7 steps of the producer and 8 of the consumer, no step panics and both calls
    -- have returned at its end.
    pub calls_return :
        (s : System T) (cs : List (Choice T))
        → Reach default capacity s
        → AllTurns cs
        → 7 ≤ pushes_in cs
        → 8 ≤ pops_in cs
        → (t : System T) × (play s cs ≡ done t)
          × (e : ℕ) × (t.producer ≡ pushed e)
          × (x : Option (Option T)) × (t.consumer ≡ popped x)
    calls_return s cs before turns many_pushes many_pops =
        let (t, e, reach, pop_left, push_left) = turns_lem s cs before turns in
        let v = Reach-Inv default capacity pos fits s before in
        let bound = left_bound _ _ _ _ _ s.consumer v.popping in
        let (k, at_rest) =
          push-ended t.producer (omega (arith, push_left, to_go_bound s.producer)) in
        let (x, ended) = pop-ended t.consumer (omega (arith, pop_left, bound)) in
        (t, e, k, at_rest, x, ended)
