-- ===== src/Log/Fifo.antt =====
-- The log's calls while the reader keeps within the capacity, against a first-in first-out queue.
use bibi_sync.Base.{
  ℕ, suc, ◌-◌, ◌*◌, ◌≤◌, ◌<◌, ◌≡◌, refl, ap, subst, ◌∙◌, Option, none, some, List, [], ◌∷◌, ◌++◌,
  arith, length, length-append, drop, drop-append_left, drop-get_elem?, drop_all, get_elem?-exists,
}
use native.Mathlib.Decide.{dec_lt}
use native.Mathlib.Nat.{div-eq_of_lt, mul-zero}
use bibi_sync.Log.{Log, publish, receive, unread, landing}
use bibi_sync.Log.Calls
use bibi_sync.Log.Calls.{
  Call, pushes, pops, peeks_latest, peeks_oldest, counts, Reply, epoch, item, peeked, count,
}

module _ {ℓ} {T : Type ℓ} where
  -- What the pops among the calls return, from a queue of the messages not yet popped.
  unfoldable pub queue_run : List T → List (Call T) → List (Option T)
  queue_run q [] = []
  queue_run q (pushes x ∷ cs) = queue_run (q ++ x ∷ []) cs
  queue_run [] (pops ∷ cs) = none ∷ queue_run [] cs
  queue_run (x ∷ q) (pops ∷ cs) = some x ∷ queue_run q cs
  queue_run q (peeks_latest ∷ cs) = queue_run q cs
  queue_run q (peeks_oldest ∷ cs) = queue_run q cs
  queue_run q (counts ∷ cs) = queue_run q cs

  -- The calls never leave more than `capacity` messages in a queue that starts with `n`.
  abbrev pub KeepsUp : ℕ → ℕ → List (Call T) → Type 0
  KeepsUp capacity n [] = Unit
  KeepsUp capacity n (pushes x ∷ cs) = (n < capacity) × KeepsUp capacity (suc n) cs
  KeepsUp capacity n (pops ∷ cs) = KeepsUp capacity (n - 1) cs
  KeepsUp capacity n (peeks_latest ∷ cs) = KeepsUp capacity n cs
  KeepsUp capacity n (peeks_oldest ∷ cs) = KeepsUp capacity n cs
  KeepsUp capacity n (counts ∷ cs) = KeepsUp capacity n cs

  -- The results of the pops.
  unfoldable pub received : List (Reply T) → List (Option T)
  received [] = []
  received (item x ∷ rs) = x ∷ received rs
  received (epoch e ∷ rs) = received rs
  received (peeked x ∷ rs) = received rs
  received (count n ∷ rs) = received rs

  abbrev pub pending : Log T → List T
  pending log = drop log.cursor log.history

  pub landing-near :
      (log : Log T) → unread log ≤ log.capacity → 0 < unread log → landing log ≡ log.cursor
  landing-near log fits pos = omega (
    arith,
    ap (λ q. log.capacity * q) (div-eq_of_lt {n = unread log - 1} {m = log.capacity} (omega arith)),
    mul-zero log.capacity,
  )

  -- The reader takes the oldest message.
  pub receive-cons :
      (log : Log T)
      → unread log ≤ log.capacity
      → 0 < unread log
      → (x : T) × (pending log ≡ x ∷ drop (suc log.cursor) log.history)
        × (receive log ≡ (some x, record log { cursor = suc log.cursor }))
  unfolding receive
  receive-cons log fits pos =
      let (x, e) = get_elem?-exists log.history log.cursor (omega arith) in
      (x, drop-get_elem? log.cursor log.history x e, ground (arith, e, landing-near log fits pos))

  pub receive-nil : (log : Log T) → unread log ≡ 0 → receive log ≡ (none, log)
  unfolding receive
  receive-nil log e = ground arith

  pub run-fifo :
      (cs : List (Call T)) (log : Log T)
      → log.cursor ≤ length log.history
      → unread log ≤ log.capacity
      → KeepsUp log.capacity (unread log) cs
      → received (Calls.run log cs).0 ≡ queue_run (pending log) cs
  unfolding received queue_run Calls.run Calls.step publish
  run-fifo [] log le fits keeps = refl
  run-fifo (pushes x ∷ cs) log le fits keeps =
      run-fifo cs (record log { history = log.history ++ x ∷ [] })
        (omega (arith, length-append log.history (x ∷ [])))
        (omega (arith, length-append log.history (x ∷ []), keeps.0))
        (subst (λ n. KeepsUp log.capacity n cs) (omega (arith, length-append log.history (x ∷ [])))
          keeps.1)
      ∙ ap (λ q. queue_run q cs) (drop-append_left log.cursor log.history (x ∷ []) le)
  run-fifo (pops ∷ cs) log le fits keeps = elim (dec_lt 0 (unread log)) [
    | yes pos ↦
        let (x, front, e) = receive-cons log fits pos in
        rw (e, front)
          (ap (λ l. some x ∷ l)
            (run-fifo cs (record log { cursor = suc log.cursor }) (omega arith) (omega arith)
              (subst (λ n. KeepsUp log.capacity n cs) (omega arith) keeps)))
    | no nothing ↦
        rw (receive-nil log (omega arith), drop_all log.cursor log.history (omega arith))
          (ap (λ l. none ∷ l)
            (run-fifo cs log le fits (subst (λ n. KeepsUp log.capacity n cs) (omega arith) keeps)
              ∙ ap (λ q. queue_run q cs) (drop_all log.cursor log.history (omega arith))))
  ]
  run-fifo (peeks_latest ∷ cs) log le fits keeps = run-fifo cs log le fits keeps
  run-fifo (peeks_oldest ∷ cs) log le fits keeps = run-fifo cs log le fits keeps
  run-fifo (counts ∷ cs) log le fits keeps = run-fifo cs log le fits keeps
