-- ===== src/Ffi/Typed.antt =====
-- ffi/mod.rs: `bibi_typed_topic_publish` and `bibi_typed_topic_try_receive` on a topic whose messages
-- all have the handle's size.
use bibi_sync.Base.{
  ℕ, suc, ◌≤◌, ◌<◌, ◌≡◌, sym, subst, inl, inr, true, Option, none, some, arith, length, length-take,
  take, get_elem?, done, word_mod, Option-cases,
}
use bibi_sync.Log
use bibi_sync.Log.{Log, landing}
use bibi_sync.Log.Sized.{AllSized, AllSized-append, AllSized-get_elem?, history-receive}
use bibi_sync.ByteRing.{Bytes, max_payload_size}
use bibi_sync.Registry.{ByteShelf}
use bibi_sync.Registry.At.{Holds, publish_at-Holds, try_receive_at-Holds}
use bibi_sync.Ffi.{
  received, nothing, TypedHandle, Peeked, copy_exact, typed_topic_publish, typed_topic_try_receive,
}

-- A message that is copied out, or the code for none.
abbrev pub delivered : Option (Bytes × ℕ) → Peeked
delivered none = (nothing, none)
delivered (some msg) = (received, some msg)

copy_exact-oldest :
    (size : ℕ) (log : Log Bytes)
    → AllSized size log.history
    → copy_exact (Log.oldest log) size ≡ delivered (Log.oldest log)
unfolding Log.oldest
copy_exact-oldest size log sized = elim (Option-cases (get_elem? log.history (landing log))) [
  | inl nothing_there ↦ ground (arith, nothing_there)
  | inr (x, found) ↦
      ground (arith, found, AllSized-get_elem? size log.history (landing log) x sized found)
]

module _ {shelf : ByteShelf} (t : TypedHandle) {log : Log Bytes} (h : Holds shelf t.inner log)
    (sized : AllSized t.msg_size log.history) where
  -- If the topic behind a typed C handle, of at most 244 bytes for a message, holds a log of fewer
  -- than 2^64-1 messages, all of the handle's size, and the caller's memory has that many bytes,
  -- `bibi_typed_topic_publish` returns the new message's epoch and puts its bytes at the end of the
  -- log, and all messages still have that size.
  pub typed_topic_publish_lem :
      (memory : Bytes)
      → t.msg_size ≤ length memory
      → t.msg_size ≤ max_payload_size
      → suc (length log.history) < word_mod
      → (shelf' : ByteShelf) × (typed_topic_publish shelf (some t) (some memory)
          ≡ done (suc (length log.history), shelf'))
        × Holds shelf' t.inner (Log.publish log (take t.msg_size memory))
        × AllSized t.msg_size (Log.publish log (take t.msg_size memory)).history
  unfolding typed_topic_publish Log.publish
  typed_topic_publish_lem memory there small fits =
      let exact : length (take t.msg_size memory) ≡ t.msg_size =
        omega (arith, length-take t.msg_size memory) in
      let (shelf', e, holds, _) =
        publish_at-Holds h (take t.msg_size memory) (omega (arith, exact)) fits in
      (shelf', ground (arith, e), holds, AllSized-append t.msg_size log.history _ sized exact)

  -- If the topic behind a typed C handle holds a log whose messages all have the handle's size,
  -- `bibi_typed_topic_try_receive` with an out-pointer never returns -2: it returns 1 and copies
  -- the message that the log's reader receives, or returns 0 if there is none, and all messages
  -- still have that size.
  pub typed_topic_try_receive_lem :
      (shelf' : ByteShelf) × (typed_topic_try_receive shelf (some t) true
        ≡ done (delivered (Log.oldest log), shelf'))
      × Holds shelf' t.inner (Log.receive log).1
      × AllSized t.msg_size (Log.receive log).1.history
  unfolding typed_topic_try_receive
  typed_topic_try_receive_lem =
      let (shelf', e, holds, _) = try_receive_at-Holds h in
      (
        shelf',
        ground (arith, e, copy_exact-oldest t.msg_size log sized),
        holds,
        subst (AllSized t.msg_size) (sym (history-receive log)) sized,
      )
