-- ===== src/Spsc/Anytime/Few.antt =====
-- ring_buffer/mod.rs: every schedule with few calls of `push`.
use bibi_sync.Base.{
  done->>=, ℕ, suc, ◌+◌, ◌≤◌, ◌<◌, ◌≡◌, refl, sym, ap, subst, some, List, [], ◌∷◌, length,
  length-append, map, get_elem?, arith, word_mod, done, done-injective,
}
use mathlib.Core.List.{Sublist}
use bibi_sync.Spsc.{
  Shared, Pushing, pushed, announced, writing, wrote, stamped, start_push, push_step, publishes,
  pop_step, System, Choice, calls_push, pushes, calls_pop, pops, advance, play,
}
use bibi_sync.Spsc.Invariant.{initial}
use bibi_sync.Spsc.Turns.{after_index}
use bibi_sync.Spsc.Anytime.{InRound}
use bibi_sync.Spsc.Anytime.Reach.{
  AnyReach, starts, later, advance-Loose, AnyReach-Loose, AnyReach-capacity, received_among,
}

module _ {ℓ} {T : Type ℓ} where
  -- The calls of `push` that are running and have published nothing yet.
  abbrev pending : Pushing T → ℕ
  pending (pushed e) = 0
  pending (stamped h e) = 0
  pending p = 1

  -- The calls of `push` in a schedule.
  abbrev pub push_calls : List (Choice T) → ℕ
  push_calls [] = 0
  push_calls (calls_push x ∷ cs) = suc (push_calls cs)
  push_calls (c ∷ cs) = push_calls cs

  start_push-pending : (x : T) (p : Pushing T) → pending (start_push x p) ≤ suc (pending p)
  start_push-pending x (pushed e) = omega arith
  start_push-pending x p = omega arith

  push_step-pending :
      (m m' : Shared T) (p p' : Pushing T)
      → push_step m p ≡ done (m', p')
      → length (publishes p) + pending p' ≤ pending p
  unfolding push_step
  push_step-pending m m' (announced x h k) p' e =
      subst (λ q. 0 + pending q ≤ 1) (after_index (get_elem? m.buffer h) _ m' _ p' e) (omega arith)
  push_step-pending m m' (writing x h k) p' e =
      subst (λ q. 0 + pending q ≤ 1) (after_index (get_elem? m.buffer h) _ m' _ p' e) (omega arith)
  push_step-pending m m' (wrote x h k) p' e =
      subst (λ q. 1 + pending q ≤ 1) (after_index (get_elem? m.buffer h) _ m' _ p' e) (omega arith)
  push_step-pending m m' p p' e = ground (arith, e)

  pushes-pending :
      (s t : System T)
      → advance s pushes ≡ done t
      → length t.history + pending t.producer ≤ length s.history + pending s.producer
  unfolding advance
  pushes-pending s t e =
      let ((m, p), step, same) = done->>= (push_step s.shared s.producer) _ t e in
      subst
        (λ (u : System T).
          length u.history + pending u.producer ≤ length s.history + pending s.producer)
        (sym same)
        (omega (
          arith,
          push_step-pending s.shared m s.producer p step,
          length-append s.history (publishes s.producer),
        ))

  pops-pending :
      (s t : System T)
      → advance s pops ≡ done t
      → length t.history + pending t.producer ≡ length s.history + pending s.producer
  unfolding advance
  pops-pending s t e =
      let ((m, p), step, same) = done->>= (pop_step s.shared s.consumer) _ t e in
      ap (λ (u : System T). length u.history + pending u.producer) same

  module _ (default : T) (capacity : ℕ) (pos : 0 < capacity) (fits : capacity < word_mod) where
    within :
        (s : System T) (c : Choice T) (cs : List (Choice T))
        → AnyReach default capacity s
        → length s.history + pending s.producer + push_calls (c ∷ cs) ≤ capacity
        → InRound s c
    within s (calls_push x) cs reach few = (
      omega (arith, few, AnyReach-capacity default capacity pos fits s reach),
      omega (arith, few, fits),
    )
    within s pushes cs reach few = tt
    within s calls_pop cs reach few = tt
    within s pops cs reach few = tt

    fewer :
        (s t : System T) (c : Choice T) (cs : List (Choice T))
        → advance s c ≡ done t
        → length s.history + pending s.producer + push_calls (c ∷ cs) ≤ capacity
        → length t.history + pending t.producer + push_calls cs ≤ capacity
    unfolding advance
    fewer s t (calls_push x) cs e few =
        subst (λ (u : System T). length u.history + pending u.producer + push_calls cs ≤ capacity)
          (done-injective _ t e) (omega (arith, few, start_push-pending x s.producer))
    fewer s t pushes cs e few = omega (arith, few, pushes-pending s t e)
    fewer s t calls_pop cs e few =
        subst (λ (u : System T). length u.history + pending u.producer + push_calls cs ≤ capacity)
          (done-injective _ t e) few
    fewer s t pops cs e few = omega (arith, few, pops-pending s t e)

    -- A schedule with few calls of `push` stays within one round.
    pub few_calls_from :
        (s : System T) (cs : List (Choice T))
        → AnyReach default capacity s
        → length s.history + pending s.producer + push_calls cs ≤ capacity
        → (t : System T) × (play s cs ≡ done t)
          × AnyReach default capacity t
          × (length t.history ≤ capacity)
    unfolding play
    few_calls_from s [] reach few = (s, refl, reach, omega (arith, few))
    few_calls_from s (c ∷ cs) reach few =
        let (u, e, _, _) =
          advance-Loose s c (AnyReach-Loose default capacity pos fits s reach)
            (within s c cs reach few) in
        let (t, f, last, small) =
          few_calls_from u cs (later c reach (within s c cs reach few) e) (fewer s u c cs e few) in
        (t, ground (arith, e, f), last, small)

    -- Let one thread call `push` and another `pop` on a new buffer of a capacity between 1 and
    -- 2^64-1, their loads and stores in any order and `pop` called at any time. If the schedule has
    -- at most `capacity` calls of `push`, then no step panics, and the items received are some of
    -- the messages published, each whole, at most once and in order; at most `capacity` are
    -- published.
    pub play-Sublist :
        (cs : List (Choice T))
        → push_calls cs ≤ capacity
        → (t : System T) × (play (initial default capacity) cs ≡ done t)
          × Sublist t.received (map some t.history)
          × (length t.history ≤ capacity)
    unfolding initial
    play-Sublist cs few =
        let (t, e, reach, small) =
          few_calls_from (initial default capacity) cs starts (omega (arith, few)) in
        (t, e, received_among default capacity pos fits t reach, small)
