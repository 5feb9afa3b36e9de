-- ===== src/Ffi/Calls.antt =====
-- ffi/mod.rs: `bibi_byte_topic_publish` and `bibi_byte_topic_try_receive` on a topic that holds a log.
use native.Mathlib.Decide.{dec_lt}
use bibi_sync.Base.{
  ℕ, suc, ◌≤◌, ◌<◌, ◌≡◌, true, none, some, arith, length, ltb, if◌then◌else◌, done, word_mod,
}
use bibi_sync.Log
use bibi_sync.Log.{Log}
use bibi_sync.ByteRing.{Bytes, max_payload_size}
use bibi_sync.Registry.{ByteShelf}
use bibi_sync.Registry.At.{Holds, publish_at-Holds, publish_at-too_large, try_receive_at-Holds}
use bibi_sync.Ffi.{received, wrong_size, byte_topic_publish, byte_topic_try_receive}

module _ {shelf : ByteShelf} {arc : ℕ} {log : Log Bytes} (h : Holds shelf arc log) where
  -- If the topic behind a handle holds a log of fewer than 2^64-1 messages,
  -- `bibi_byte_topic_publish` of a message returns its epoch and puts it at the end of the log, or,
  -- for a message of more than 244 bytes, returns 0 and leaves the log as it is.
  pub byte_topic_publish_lem :
      (p : Bytes)
      → suc (length log.history) < word_mod
      → (shelf' : ByteShelf) × (byte_topic_publish shelf (some arc) (some p)
          ≡ done (if ltb max_payload_size (length p) then 0 else suc (length log.history), shelf'))
        × Holds shelf' arc (if ltb max_payload_size (length p) then log else Log.publish log p)
  unfolding byte_topic_publish
  byte_topic_publish_lem p fits = elim (dec_lt max_payload_size (length p)) [
    | yes large ↦
        let (shelf', e, holds, _) = publish_at-too_large h p large in
        (shelf', ground (arith, e), ground (arith, holds))
    | no small ↦
        let (shelf', e, holds, _) = publish_at-Holds h p (omega arith) fits in
        (shelf', ground (arith, e), ground (arith, holds))
  ]

  -- If the topic behind a handle holds a log whose next message is larger than the caller's buffer,
  -- `bibi_byte_topic_try_receive` returns -2 and copies nothing, and the topic's reader has passed
  -- the message.
  pub byte_topic_try_receive_loses :
      (x : Bytes) (epoch max_len : ℕ)
      → Log.oldest log ≡ some (x, epoch)
      → max_len < length x
      → (shelf' : ByteShelf) × (byte_topic_try_receive shelf (some arc) true max_len
          ≡ done ((wrong_size, none), shelf'))
        × Holds shelf' arc (Log.receive log).1
  unfolding byte_topic_try_receive
  byte_topic_try_receive_loses x epoch max_len oldest large =
      let (shelf', e, holds, _) = try_receive_at-Holds h in (shelf', ground (arith, e), holds)

  -- If the topic behind a handle holds a log whose next message fits the caller's buffer,
  -- `bibi_byte_topic_try_receive` returns 1 and copies the whole message, and the topic's reader
  -- has passed it.
  pub byte_topic_try_receive_lem :
      (x : Bytes) (epoch max_len : ℕ)
      → Log.oldest log ≡ some (x, epoch)
      → length x ≤ max_len
      → (shelf' : ByteShelf) × (byte_topic_try_receive shelf (some arc) true max_len
          ≡ done ((received, some x), shelf'))
        × Holds shelf' arc (Log.receive log).1
  unfolding byte_topic_try_receive
  byte_topic_try_receive_lem x epoch max_len oldest small =
      let (shelf', e, holds, _) = try_receive_at-Holds h in (shelf', ground (arith, e), holds)
