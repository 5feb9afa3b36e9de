-- ===== src/ByteRing/Run.antt =====
-- ring_buffer/byte_buffer.rs: a client's calls of the byte buffer, one after the other, against the
-- same calls of the log.
use bibi_sync.Base.{
  isize_max, ◌*◌, ℕ, suc, ◌+◌, ◌≤◌, ◌<◌, ◌≡◌, refl, Option, none, some, List, [], ◌∷◌, arith,
  length, length-append, ltb, if◌then◌else◌, Exec, done, ◌>>=◌, word_mod,
}
use native.Mathlib.Decide.{dec_lt}
use bibi_sync.Log
use bibi_sync.Log.{Log}
use bibi_sync.Log.Calls.{Call, pushes, pops, peeks_latest, peeks_oldest, counts}
use bibi_sync.ByteRing.{
  byte_slot_size, Bytes, ByteRingBuffer, max_payload_size, new, push, pop, peek_latest,
  peek_oldest_ref, len,
}
use bibi_sync.ByteRing.Refine.{
  ByteRepresents, new-ByteRepresents, push-ByteRepresents, push-too_large,
}
use bibi_sync.ByteRing.Read.{
  pop-ByteRepresents, peek_latest-eq-latest, peek_oldest_ref-eq-oldest, len-eq-size,
}

pub data ByteReply : Type 0 where
  epoch : Option ℕ → ByteReply
  message : Option (Bytes × ℕ) → ByteReply
  count : ℕ → ByteReply

unfoldable pub byte_step : ByteRingBuffer → Call Bytes → Exec (ByteReply × ByteRingBuffer)
byte_step rb (pushes p) = do (e, rb') ← push rb p; done (epoch e, rb')
byte_step rb pops = do (x, rb') ← pop rb; done (message x, rb')
byte_step rb peeks_latest = do x ← peek_latest rb; done (message x, rb)
byte_step rb peeks_oldest = do x ← peek_oldest_ref rb; done (message x, rb)
byte_step rb counts = done (count (len rb), rb)

unfoldable pub byte_run :
    ByteRingBuffer → List (Call Bytes) → Exec (List ByteReply × ByteRingBuffer)
byte_run rb [] = done ([], rb)
byte_run rb (c ∷ cs) = do
  (reply, rb') ← byte_step rb c
  (replies, last) ← byte_run rb' cs
  done (reply ∷ replies, last)

-- What the log does on the same calls. A message that is too large is not a part of it.
unfoldable pub log_step : Log Bytes → Call Bytes → ByteReply × Log Bytes
log_step log (pushes p) =
    if ltb max_payload_size (length p)
    then (epoch none, log)
    else (epoch (some (suc (length log.history))), Log.publish log p)
log_step log pops = (message (Log.oldest log), (Log.receive log).1)
log_step log peeks_latest = (message (Log.latest log), log)
log_step log peeks_oldest = (message (Log.oldest log), log)
log_step log counts = (count (Log.size log), log)

unfoldable pub log_run : Log Bytes → List (Call Bytes) → List ByteReply × Log Bytes
log_run log [] = ([], log)
log_run log (c ∷ cs) =
    let (reply, log') = log_step log c in
    let (replies, last) = log_run log' cs in (reply ∷ replies, last)

length-log_step :
    (log : Log Bytes) (c : Call Bytes)
    → length (log_step log c).1.history ≤ suc (length log.history)
unfolding log_step Log.receive Log.publish
length-log_step log (pushes p) = ground (arith, length-append log.history (p ∷ []))
length-log_step log pops = ground arith
length-log_step log _ = omega arith

byte_step-ByteRepresents :
    {rb : ByteRingBuffer} {log : Log Bytes} (c : Call Bytes)
    → ByteRepresents rb log
    → suc (length log.history) < word_mod
    → (rb' : ByteRingBuffer) × (byte_step rb c ≡ done ((log_step log c).0, rb'))
      × ByteRepresents rb' (log_step log c).1
unfolding byte_step log_step
byte_step-ByteRepresents {rb} {log} (pushes p) v fits = elim (dec_lt max_payload_size (length p)) [
  | yes large ↦ (rb, ground (arith, push-too_large v p large), ground (arith, v))
  | no small ↦
      let (rb', e, w) = push-ByteRepresents v p (omega arith) fits in
      (rb', ground (arith, e), ground (arith, w))
]
byte_step-ByteRepresents pops v fits =
    let (rb', e, w) = pop-ByteRepresents v in (rb', ground (arith, e), w)
byte_step-ByteRepresents {rb} peeks_latest v fits = (rb, ground (arith, peek_latest-eq-latest v), v)
byte_step-ByteRepresents {rb} peeks_oldest v fits =
    (rb, ground (arith, peek_oldest_ref-eq-oldest v), v)
byte_step-ByteRepresents {rb} counts v fits = (rb, ground (arith, len-eq-size v), v)

byte_run-ByteRepresents :
    (cs : List (Call Bytes)) {rb : ByteRingBuffer} {log : Log Bytes}
    → ByteRepresents rb log
    → length log.history + length cs < word_mod
    → (rb' : ByteRingBuffer) × (byte_run rb cs ≡ done ((log_run log cs).0, rb'))
      × ByteRepresents rb' (log_run log cs).1
unfolding byte_run log_run
byte_run-ByteRepresents [] {rb} v fits = (rb, refl, v)
byte_run-ByteRepresents (c ∷ cs) {rb} {log} v fits =
    let (rb', e, w) = byte_step-ByteRepresents c v (omega arith) in
    let (last, f, u) = byte_run-ByteRepresents cs w (omega (arith, length-log_step log c)) in
    (last, ground (arith, e, f), u)

-- For a positive capacity whose slots of 264 bytes take at most 2^63-1 bytes, and fewer than 2^64
-- calls, a buffer made by `ByteRingBuffer::new` never panics, and it replies to any sequence of
-- calls of `push`, `pop`, `peek_latest`, `peek_oldest_ref` and `len` as the empty log of that
-- capacity does, which refuses messages of more than 244 bytes: a message that comes out is whole
-- and has its epoch, and every `pop` ends within its fuel.
pub byte_run_refines :
    (capacity : ℕ) (cs : List (Call Bytes))
    → 0 < capacity
    → capacity * byte_slot_size ≤ isize_max
    → length cs < word_mod
    → (rb : ByteRingBuffer) × ((new capacity >>= λ start. byte_run start cs)
        ≡ done ((log_run (Log.empty capacity) cs).0, rb))
byte_run_refines capacity cs pos fits few =
    let (start, e, v) = new-ByteRepresents capacity pos fits in
    let (rb, f, _) = byte_run-ByteRepresents cs v (unfold Log.empty in omega arith) in
    (rb, ground (arith, e, f))
