-- ===== src/Ring/Fifo.antt =====
-- ring_buffer/mod.rs: what a client sees while the reader keeps up, and after a lap.
use bibi_sync.Base.{
  ℕ, suc, ◌-◌, ◌*◌, ◌/◌, ◌<◌, ◌≡◌, refl, ap, ◌∙◌, none, some, List, [], ◌∷◌, ◌++◌, arith, length,
  length-append, get_elem?-append_at, done, ◌>>=◌, word_mod, isize_max, ◌*◌, ◌≤◌,
}
use native.Mathlib.Nat.{div_self, mul-one}
use bibi_sync.Log
use bibi_sync.Log.{Log, unread, landing}
use bibi_sync.Log.Calls.{Call, Reply}
use bibi_sync.Log.Fifo.{queue_run, KeepsUp, received, run-fifo}
use bibi_sync.Ring.{RingBuffer, new, push, pop, len}
use bibi_sync.Ring.Represents.{Represents}
use bibi_sync.Ring.Refine.{push-Represents}
use bibi_sync.Ring.Read.{pop-Represents, pop_caught_up, len-eq-size}
use bibi_sync.Ring.Run.{run, run_refines}

module _ {ℓ} {T : Type ℓ} where
  -- For a capacity between 1 and 2^64-1 whose slots take at most 2^63-1 bytes, and fewer than 2^64
  -- calls, while no `push` finds `capacity` messages in the queue of the messages not yet popped,
  -- the `pop`s of a new buffer return what that queue returns: every message, in order, and `None`
  -- when there is none.
  pub run_fifo :
      (default : T) (slot_size capacity : ℕ) (cs : List (Call T))
      → 0 < capacity
      → capacity < word_mod
      → capacity * slot_size ≤ isize_max
      → length cs < word_mod
      → KeepsUp capacity 0 cs
      → (replies : List (Reply T)) × (rb : RingBuffer T) × ((new default slot_size capacity
            >>= λ start. run start cs)
          ≡ done (replies, rb))
        × (received replies ≡ queue_run [] cs)
  run_fifo default slot_size capacity cs pos fits alloc few keeps =
      let (rb, e) = run_refines default slot_size capacity cs pos fits alloc few in
      (
        _,
        rb,
        e,
        unfold Log.empty in run-fifo cs (Log.empty capacity) (omega arith) (omega arith) keeps,
      )

module _ {ℓ} {T : Type ℓ} {rb : RingBuffer T} {log : Log T} (v : Represents rb log) where
  landing_full :
      (item : T) → unread log ≡ log.capacity → landing (Log.publish log item) ≡ length log.history
  unfolding Log.publish
  landing_full item full = omega (
    arith,
    length-append log.history (item ∷ []),
    v.same_capacity,
    v.read_le,
    ap (λ n. log.capacity * (n / log.capacity)) one_lap,
    ap (λ q. log.capacity * q)
        (div_self {n = log.capacity} (omega (arith, v.capacity_pos, v.same_capacity))),
    mul-one log.capacity,
  )
    where
      one_lap : length (log.history ++ item ∷ []) - log.cursor - 1 ≡ log.capacity
      one_lap = omega (arith, length-append log.history (item ∷ []), v.read_le)

  receive_lapped :
      (item : T)
      → unread log ≡ log.capacity
      → Log.receive (Log.publish log item)
        ≡ (some item, record (Log.publish log item) { cursor = suc (length log.history) })
  unfolding Log.receive Log.publish
  receive_lapped item full = ground (
    arith,
    landing_full item full,
    get_elem?-append_at log.history [] item (length log.history) refl,
    length-append log.history (item ∷ []),
    v.read_le,
  )

  size_lapped :
      (item : T) → unread log ≡ log.capacity → Log.size (Log.publish log item) ≡ rb.capacity
  unfolding Log.size Log.publish
  size_lapped item full =
      omega (arith, length-append log.history (item ∷ []), v.read_le, v.same_capacity)

  -- If a buffer represents a log with exactly `capacity` unread messages and the log has fewer than
  -- 2^64-1 messages, the next `push` succeeds and `len` then counts `capacity` messages, but the
  -- next `pop` returns the message just pushed and the one after it returns `None`.
  pub overrun_drops_all :
      (item : T)
      → unread log ≡ rb.capacity
      → suc (length log.history) < word_mod
      → (full : RingBuffer T) × (drained : RingBuffer T) × (push rb item
          ≡ done (suc (length log.history), full))
        × (len full ≡ rb.capacity)
        × (pop full ≡ done (some item, drained))
        × (pop drained ≡ done (none, drained))
  overrun_drops_all item full fits =
      let at_capacity : unread log ≡ log.capacity = omega (arith, v.same_capacity) in
      let received_last = receive_lapped item at_capacity in
      let (lapped, pushed, w) = push-Represents v item fits in
      let (drained, popped, u) = pop-Represents w in
      (
        lapped,
        drained,
        pushed,
        len-eq-size w ∙ size_lapped item at_capacity,
        popped ∙ ap (λ r. done (r.0, drained)) received_last,
        pop_caught_up u (
            rw received_last
              (unfold Log.publish in omega (arith, length-append log.history (item ∷ [])))),
      )
