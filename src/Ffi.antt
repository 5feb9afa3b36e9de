-- ===== src/Ffi.antt =====
-- ffi/mod.rs: the C interface to byte topics. A pointer that may be null is an `Option`; a pointer
-- that is not null is taken to be valid, as the `unsafe` functions demand. What a function writes
-- through its out-pointers stands beside its return code; `none` there is a write not made.
pub mod Calls
pub mod Typed
pub mod Handles
use bibi_sync.Base.{
  ℕ, String, Bool, true, false, not, Option, none, some, List, ◌==◌, ltb, if◌then◌else◌, length,
  take, Exec, done, panicked, ◌>>=◌, index,
}
use bibi_sync.ByteRing.{Bytes}
use bibi_sync.Topic
use bibi_sync.Registry
use bibi_sync.Registry.{ByteShelf}

-- The codes that the receiving functions return: 1, 0, -1 and -2.
pub data Code : Type 0 where
  received : Code
  nothing : Code
  null_pointer : Code
  wrong_size : Code

-- A C string: null, not UTF-8, or a text.
pub data CName : Type 0 where
  null : CName
  not_utf8 : CName
  text : String → CName

-- `BibiByteTopic`, an `Arc`
abbrev pub ByteHandle : Type 0
ByteHandle = ℕ

-- A call on a registry pointer, which may be null. The registry's panics end the call.
unfoldable pub registry_get_byte_topic :
    Bool → ByteShelf → CName → ℕ → Exec (Option ByteHandle) × ByteShelf
registry_get_byte_topic is_null shelf null capacity = (done none, shelf)
registry_get_byte_topic is_null shelf not_utf8 capacity = (done none, shelf)
registry_get_byte_topic is_null shelf (text name) capacity =
    if is_null
    then (done none, shelf)
    else let (topic, shelf') = Registry.get_or_create_byte shelf name capacity in
      (topic >>= λ arc. done (some arc), shelf')

-- `Some(epoch) => epoch, None => 0`
abbrev pub epoch_or_zero : Option ℕ → ℕ
epoch_or_zero none = 0
epoch_or_zero (some epoch) = epoch

-- `payload` is the slice that `data` and `len` describe.
unfoldable pub byte_topic_publish :
    ByteShelf → Option ByteHandle → Option Bytes → Exec (ℕ × ByteShelf)
byte_topic_publish shelf (some arc) (some payload) = do
  (epoch, shelf') ← Registry.publish_at shelf arc payload
  done (epoch_or_zero epoch, shelf')
byte_topic_publish shelf _ _ = done (0, shelf)

-- `out_data`, with `*out_len`, or nothing
abbrev pub Received : Type 0
Received = Code × Option Bytes

abbrev pub copy_out : Option (Bytes × ℕ) → ℕ → Received
copy_out none max_len = (nothing, none)
copy_out (some (payload, epoch)) max_len =
    if ltb max_len (length payload) then (wrong_size, none) else (received, some payload)

-- `out_ok` says that `out_data` and `out_len` are not null.
unfoldable pub byte_topic_try_receive :
    ByteShelf → Option ByteHandle → Bool → ℕ → Exec (Received × ByteShelf)
byte_topic_try_receive shelf (some arc) true max_len = do
  (msg, shelf') ← Registry.try_receive_at shelf arc
  done (copy_out msg max_len, shelf')
byte_topic_try_receive shelf _ _ max_len = done ((null_pointer, none), shelf)

-- The epoch goes out with the bytes; `*out_epoch` is written if that pointer is not null.
abbrev pub Peeked : Type 0
Peeked = Code × Option (Bytes × ℕ)

abbrev pub peek_out : Option (Bytes × ℕ) → ℕ → Peeked
peek_out none max_len = (nothing, none)
peek_out (some (payload, epoch)) max_len =
    if ltb max_len (length payload) then (wrong_size, none) else (received, some (payload, epoch))

unfoldable pub byte_topic_peek_latest : ByteShelf → Option ByteHandle → Bool → ℕ → Exec Peeked
byte_topic_peek_latest shelf (some arc) true max_len = do
  msg ← Registry.peek_latest_at shelf arc
  done (peek_out msg max_len)
byte_topic_peek_latest shelf _ _ max_len = done (null_pointer, none)

unfoldable pub byte_topic_len : ByteShelf → Option ByteHandle → Exec ℕ
byte_topic_len shelf none = done 0
byte_topic_len shelf (some arc) = do topic ← index shelf.heap arc; done (Topic.len_byte topic)

unfoldable pub byte_topic_is_empty : ByteShelf → Option ByteHandle → Exec Bool
byte_topic_is_empty shelf none = done true
byte_topic_is_empty shelf (some arc) = do
  topic ← index shelf.heap arc
  done (Topic.is_empty_byte topic)

unfoldable pub byte_topic_latest_epoch : ByteShelf → Option ByteHandle → Exec ℕ
byte_topic_latest_epoch shelf none = done 0
byte_topic_latest_epoch shelf (some arc) = do
  topic ← index shelf.heap arc
  done (Topic.latest_epoch_byte topic)

-- `BibiTypedTopic`
pub record TypedHandle : Type 0 where
  pub inner : ℕ
  pub msg_size : ℕ

unfoldable pub registry_get_typed_topic :
    Bool → ByteShelf → CName → ℕ → ℕ → Exec (Option TypedHandle) × ByteShelf
registry_get_typed_topic is_null shelf null capacity msg_size = (done none, shelf)
registry_get_typed_topic is_null shelf not_utf8 capacity msg_size = (done none, shelf)
registry_get_typed_topic is_null shelf (text name) capacity msg_size =
    if is_null
    then (done none, shelf)
    else let (topic, shelf') = Registry.get_or_create_byte shelf name capacity in
      (topic >>= λ arc. done (some (record { inner = arc; msg_size = msg_size })), shelf')

-- `memory` is what stands at `data`; the call reads `msg_size` bytes of it.
unfoldable pub typed_topic_publish :
    ByteShelf → Option TypedHandle → Option Bytes → Exec (ℕ × ByteShelf)
typed_topic_publish shelf (some t) (some memory) = do
  (epoch, shelf') ← Registry.publish_at shelf t.inner (take t.msg_size memory)
  done (epoch_or_zero epoch, shelf')
typed_topic_publish shelf _ _ = done (0, shelf)

abbrev pub copy_exact : Option (Bytes × ℕ) → ℕ → Peeked
copy_exact none msg_size = (nothing, none)
copy_exact (some (payload, epoch)) msg_size =
    if length payload == msg_size then (received, some (payload, epoch)) else (wrong_size, none)

-- Here the epoch is not written out.
unfoldable pub typed_topic_try_receive :
    ByteShelf → Option TypedHandle → Bool → Exec (Peeked × ByteShelf)
typed_topic_try_receive shelf (some t) true = do
  (msg, shelf') ← Registry.try_receive_at shelf t.inner
  done (copy_exact msg t.msg_size, shelf')
typed_topic_try_receive shelf _ _ = done ((null_pointer, none), shelf)

unfoldable pub typed_topic_peek_latest : ByteShelf → Option TypedHandle → Bool → Exec Peeked
typed_topic_peek_latest shelf (some t) true = do
  msg ← Registry.peek_latest_at shelf t.inner
  done (copy_exact msg t.msg_size)
typed_topic_peek_latest shelf _ _ = done (null_pointer, none)
