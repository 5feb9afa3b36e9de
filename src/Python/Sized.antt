-- ===== src/Python/Sized.antt =====
-- python/mod.rs: `PyBibiTypedTopic`, and the sizes of the messages in its topic.
use native.Mathlib.Decide.{dec_lt, ℕ_discrete}
use bibi_sync.Base.{
  ℕ, suc, ◌<◌, ◌≡◌, Bool, ◌&&◌, subst, sym, inl, inr, arith, length, get_elem?, leb, ◌==◌,
  if◌then◌else◌, done, word_mod, Option-cases,
}
use bibi_sync.Log
use bibi_sync.Log.{Log, landing}
use bibi_sync.ByteRing.{Bytes, max_payload_size}
use bibi_sync.Log.Sized.{AllSized, AllSized-append, AllSized-get_elem?, history-receive}
use bibi_sync.Registry.{ByteShelf}
use bibi_sync.Registry.At.{Holds, publish_at-Holds, publish_at-too_large, try_receive_at-Holds}
use bibi_sync.Python.{
  returned, value_error, TypedTopic, publish_typed, try_receive_typed, sized_or_error,
}

-- What the typed topic takes.
abbrev pub accepts : TypedTopic → Bytes → Bool
accepts t p = (length p == t.msg_size) && leb (length p) max_payload_size

sized_or_error-oldest :
    (size : ℕ) (log : Log Bytes)
    → AllSized size log.history
    → sized_or_error size (Log.oldest log) ≡ returned (Log.oldest log)
unfolding Log.oldest
sized_or_error-oldest size log sized = elim (Option-cases (get_elem? log.history (landing log))) [
  | inl nothing ↦ ground (arith, nothing)
  | inr (x, found) ↦
      ground (arith, found, AllSized-get_elem? size log.history (landing log) x sized found)
]

module _ {shelf : ByteShelf} (t : TypedTopic) {log : Log Bytes} (h : Holds shelf t.inner log)
    (sized : AllSized t.msg_size log.history) where
  -- If a typed topic of Python holds a log of fewer than 2^64-1 messages, all of its message size,
  -- then `publish` returns the epoch of a message of this size and of at most 244 bytes and puts it
  -- at the end of the log, raises ValueError for any other message and leaves the log as it is, and
  -- all messages still have that size.
  pub publish_typed_lem :
      (p : Bytes)
      → suc (length log.history) < word_mod
      → (shelf' : ByteShelf) × (publish_typed shelf t p
          ≡ done (if accepts t p then returned (suc (length log.history)) else value_error, shelf'))
        × Holds shelf' t.inner (if accepts t p then Log.publish log p else log)
        × AllSized t.msg_size (if accepts t p then Log.publish log p else log).history
  unfolding publish_typed Log.publish
  publish_typed_lem p fits = elim (ℕ_discrete (length p) t.msg_size) [
    | no other ↦ (shelf, ground arith, ground (arith, h), ground (arith, sized))
    | yes same ↦ elim (dec_lt max_payload_size (length p)) [
      | yes large ↦
          let (shelf', e, holds, _) = publish_at-too_large h p large in
          (shelf', ground (arith, e), ground (arith, holds), ground (arith, sized))
      | no small ↦
          let (shelf', e, holds, _) = publish_at-Holds h p (omega arith) fits in
          (
            shelf',
            ground (arith, e),
            ground (arith, holds),
            ground (arith, AllSized-append t.msg_size log.history p sized same),
          )
    ]
  ]

  -- If a typed topic of Python holds a log whose messages all have its message size, `try_receive`
  -- never raises: it returns the message that the log's reader receives, with its epoch, or None,
  -- and all messages still have that size.
  pub try_receive_typed_lem :
      (shelf' : ByteShelf) × (try_receive_typed shelf t ≡ done (returned (Log.oldest log), shelf'))
      × Holds shelf' t.inner (Log.receive log).1
      × AllSized t.msg_size (Log.receive log).1.history
  unfolding try_receive_typed
  try_receive_typed_lem =
      let (shelf', e, holds, _) = try_receive_at-Holds h in
      (
        shelf',
        ground (arith, e, sized_or_error-oldest t.msg_size log sized),
        holds,
        subst (AllSized t.msg_size) (sym (history-receive log)) sized,
      )
