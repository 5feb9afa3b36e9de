-- ===== src/Ring/Run.antt =====
-- ring_buffer/mod.rs: a client's calls of the buffer, one after the other, against the same calls of
-- the log.
use bibi_sync.Base.{
  ℕ, suc, ◌+◌, ◌<◌, ◌≡◌, refl, List, [], ◌∷◌, arith, length, Exec, done, ◌>>=◌, word_mod, isize_max,
  ◌*◌, ◌≤◌,
}
use bibi_sync.Log
use bibi_sync.Log.{Log}
use bibi_sync.Log.Calls
use bibi_sync.Log.Calls.{
  Call, pushes, pops, peeks_latest, peeks_oldest, counts, Reply, length-publish, length-step, epoch,
  item, peeked, count,
}
use bibi_sync.Ring.{RingBuffer, new, push, pop, peek_latest, peek_oldest_ref, len}
use bibi_sync.Ring.Represents.{Represents}
use bibi_sync.Ring.Refine.{new-Represents, push-Represents}
use bibi_sync.Ring.Read.{
  pop-Represents, len-eq-size, peek_latest-eq-latest, peek_oldest_ref-eq-oldest,
}

module _ {ℓ} {T : Type ℓ} where
  unfoldable pub step : RingBuffer T → Call T → Exec (Reply T × RingBuffer T)
  step rb (pushes x) = do (e, rb') ← push rb x; done (epoch e, rb')
  step rb pops = do (x, rb') ← pop rb; done (item x, rb')
  step rb peeks_latest = do x ← peek_latest rb; done (peeked x, rb)
  step rb peeks_oldest = do x ← peek_oldest_ref rb; done (peeked x, rb)
  step rb counts = done (count (len rb), rb)

  unfoldable pub run : RingBuffer T → List (Call T) → Exec (List (Reply T) × RingBuffer T)
  run rb [] = done ([], rb)
  run rb (c ∷ cs) = do
    (reply, rb') ← step rb c
    (replies, last) ← run rb' cs
    done (reply ∷ replies, last)

  pub step-Represents :
      {rb : RingBuffer T} {log : Log T} (c : Call T)
      → Represents rb log
      → suc (length log.history) < word_mod
      → (rb' : RingBuffer T) × (step rb c ≡ done ((Calls.step log c).0, rb'))
        × Represents rb' (Calls.step log c).1
  unfolding step Calls.step
  step-Represents {rb} {log} (pushes x) v fits =
      let (rb', e, v') = push-Represents v x fits in
      (rb', ground (arith, e, length-publish log x), v')
  step-Represents pops v fits = let (rb', e, v') = pop-Represents v in (rb', ground (arith, e), v')
  step-Represents {rb} peeks_latest v fits = (rb, ground (arith, peek_latest-eq-latest v), v)
  step-Represents {rb} peeks_oldest v fits = (rb, ground (arith, peek_oldest_ref-eq-oldest v), v)
  step-Represents {rb} counts v fits = (rb, ground (arith, len-eq-size v), v)

  pub run-Represents :
      (cs : List (Call T)) {rb : RingBuffer T} {log : Log T}
      → Represents rb log
      → length log.history + length cs < word_mod
      → (rb' : RingBuffer T) × (run rb cs ≡ done ((Calls.run log cs).0, rb'))
        × Represents rb' (Calls.run log cs).1
  unfolding run Calls.run
  run-Represents [] {rb} v fits = (rb, refl, v)
  run-Represents (c ∷ cs) {rb} {log} v fits =
      let (rb', e, v') = step-Represents c v (omega arith) in
      let (last, f, w) = run-Represents cs v' (omega (arith, length-step log c)) in
      (last, ground (arith, e, f), w)

  -- For a capacity between 1 and 2^64-1 whose slots take at most 2^63-1 bytes, and fewer than 2^64
  -- calls, a buffer made by `RingBuffer::new` never panics, and it replies to any sequence of calls
  -- of `push`, `pop`, `peek_latest`, `peek_oldest_ref` and `len` as the empty log of that capacity
  -- does: every `pop` ends within its fuel.
  pub run_refines :
      (default : T) (slot_size capacity : ℕ) (cs : List (Call T))
      → 0 < capacity
      → capacity < word_mod
      → capacity * slot_size ≤ isize_max
      → length cs < word_mod
      → (rb : RingBuffer T) × ((new default slot_size capacity >>= λ start. run start cs)
          ≡ done ((Calls.run (Log.empty capacity) cs).0, rb))
  run_refines default slot_size capacity cs pos fits alloc few =
      let (start, e, v) = new-Represents default slot_size capacity pos fits alloc in
      let (rb, f, _) = run-Represents cs v (unfold Log.empty in omega arith) in
      (rb, ground (arith, e, f))
