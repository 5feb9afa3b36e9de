-- ===== src/Python.antt =====
-- python/mod.rs: the classes `PyBibiRegistry`, `PyBibiByteTopic` and `PyBibiTypedTopic`, which act
-- through an `Arc`.
pub mod Sized
pub mod Auv
use bibi_sync.Base.{
  ℕ, String, ◌==◌, Option, none, some, Bool, if◌then◌else◌, length, Exec, done, panicked, ◌>>=◌,
  index,
}
use bibi_sync.ByteRing.{Bytes}
use bibi_sync.Topic
use bibi_sync.Registry
use bibi_sync.Registry.{ByteShelf}
use bibi_sync.Registry.Typed
use bibi_sync.Registry.Typed.{MessageTypes, TypedShelf}

-- `PyResult`; the only error that is raised is `PyValueError`.
pub data PyResult (A : Type 0) : Type 0 where
  returned : A → PyResult A
  value_error : PyResult A

-- `Some(epoch) => Ok(epoch), None => Err(..)`
abbrev pub epoch_or_error : Option ℕ → PyResult ℕ
epoch_or_error none = value_error
epoch_or_error (some epoch) = returned epoch

-- `PyBibiRegistry`. The topics of Rust's types are the other half of the registry.
unfoldable pub new_registry : ByteShelf
new_registry = Registry.empty_shelf

unfoldable pub get_byte_topic : ByteShelf → String → ℕ → Exec ℕ × ByteShelf
get_byte_topic shelf name capacity = Registry.get_or_create_byte shelf name capacity

-- No topic of a type of Rust can be made from Python, but the registry may have some.
unfoldable pub topic_count : (types : MessageTypes) → TypedShelf types → ByteShelf → Exec ℕ
topic_count types typed shelf = Typed.topic_count types typed shelf

-- The methods of `PyBibiByteTopic`.
unfoldable pub name : ByteShelf → ℕ → Exec String
name shelf inner = do topic ← index shelf.heap inner; done topic.name

unfoldable pub publish : ByteShelf → ℕ → Bytes → Exec (PyResult ℕ × ByteShelf)
publish shelf inner payload = do
  (epoch, shelf') ← Registry.publish_at shelf inner payload
  done (epoch_or_error epoch, shelf')

unfoldable pub len : ByteShelf → ℕ → Exec ℕ
len shelf inner = do topic ← index shelf.heap inner; done (Topic.len_byte topic)

unfoldable pub is_empty : ByteShelf → ℕ → Exec Bool
is_empty shelf inner = do topic ← index shelf.heap inner; done (Topic.is_empty_byte topic)

unfoldable pub try_receive : ByteShelf → ℕ → Exec (Option (Bytes × ℕ) × ByteShelf)
try_receive shelf inner = Registry.try_receive_at shelf inner

unfoldable pub peek_latest : ByteShelf → ℕ → Exec (Option (Bytes × ℕ))
peek_latest shelf inner = Registry.peek_latest_at shelf inner

unfoldable pub latest_epoch : ByteShelf → ℕ → Exec ℕ
latest_epoch shelf inner = do topic ← index shelf.heap inner; done (Topic.latest_epoch_byte topic)

unfoldable pub capacity : ByteShelf → ℕ → Exec ℕ
capacity shelf inner = do topic ← index shelf.heap inner; done (Topic.capacity_byte topic)

pub record TypedTopic : Type 0 where
  pub inner : ℕ
  pub msg_size : ℕ

-- The methods of `PyBibiTypedTopic`.
unfoldable pub publish_typed : ByteShelf → TypedTopic → Bytes → Exec (PyResult ℕ × ByteShelf)
publish_typed shelf t payload =
    if length payload == t.msg_size
    then (do
      (epoch, shelf') ← Registry.publish_at shelf t.inner payload
      done (epoch_or_error epoch, shelf'))
    else done (value_error, shelf)

abbrev pub sized_or_error : ℕ → Option (Bytes × ℕ) → PyResult (Option (Bytes × ℕ))
sized_or_error msg_size none = returned none
sized_or_error msg_size (some (payload, epoch)) =
    if length payload == msg_size then returned (some (payload, epoch)) else value_error

unfoldable pub try_receive_typed :
    ByteShelf → TypedTopic → Exec (PyResult (Option (Bytes × ℕ)) × ByteShelf)
try_receive_typed shelf t = do
  (msg, shelf') ← Registry.try_receive_at shelf t.inner
  done (sized_or_error t.msg_size msg, shelf')

unfoldable pub name_typed : ByteShelf → TypedTopic → Exec String
unfolding name
name_typed shelf t = name shelf t.inner

unfoldable pub peek_latest_typed : ByteShelf → TypedTopic → Exec (Option (Bytes × ℕ))
peek_latest_typed shelf t = Registry.peek_latest_at shelf t.inner

unfoldable pub len_typed : ByteShelf → TypedTopic → Exec ℕ
len_typed shelf t = do topic ← index shelf.heap t.inner; done (Topic.len_byte topic)

unfoldable pub is_empty_typed : ByteShelf → TypedTopic → Exec Bool
is_empty_typed shelf t = do topic ← index shelf.heap t.inner; done (Topic.is_empty_byte topic)
