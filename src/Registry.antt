-- ===== src/Registry.antt =====
-- pubsub/registry.rs: `TopicRegistry`. An `Arc` to a topic is its index in a heap of topics. A panic
-- while a lock is held poisons the lock, and every later `unwrap` of that lock panics.
pub mod Byte
pub mod At
pub mod Typed
pub mod Sharing
use bibi_sync.Base.{
  ℕ, ◌+◌, String, Bool, true, false, Option, none, some, List, [], ◌∷◌, ◌++◌, length, get_elem?,
  set, Exec, done, panicked, out_of_fuel, ◌>>=◌, index, lookup, insert, if◌then◌else◌, Entries,
}
use bibi_sync.Ring
use bibi_sync.Topic
use bibi_sync.Topic.{Topic, ByteTopic}
use bibi_sync.ByteRing.{Bytes}

-- `RwLock<HashMap<String, Arc<ByteTopic>>>`, and the topics that the `Arc`s point to
pub record ByteShelf : Type 0 where
  pub byte_topics : Entries ℕ
  pub poisoned : Bool
  pub heap : List ByteTopic

unfoldable pub empty_shelf : ByteShelf
empty_shelf = record { byte_topics = []; poisoned = false; heap = [] }

-- `ByteTopic::new` runs with the lock held.
unfoldable pub create_byte : ByteShelf → String → ℕ → Exec ℕ × ByteShelf
create_byte shelf name capacity = elim (Topic.new_byte name capacity) [
  | done topic ↦ (
    done (length shelf.heap),
    record shelf {
      byte_topics = insert name (length shelf.heap) shelf.byte_topics;
      heap = shelf.heap ++ topic ∷ [];
    },
  )
  | panicked ↦ (panicked, record shelf { poisoned = true })
  | out_of_fuel ↦ (out_of_fuel, shelf)
]

unfoldable pub get_or_create_byte : ByteShelf → String → ℕ → Exec ℕ × ByteShelf
unfolding create_byte
get_or_create_byte shelf name capacity =
    if shelf.poisoned then (panicked, shelf) else elim (lookup name shelf.byte_topics) [
      | some existing ↦ (done existing, shelf)
      | none ↦ create_byte shelf name capacity
    ]

-- `ByteTopic::publish` through an `Arc`.
unfoldable pub publish_at : ByteShelf → ℕ → Bytes → Exec (Option ℕ × ByteShelf)
publish_at shelf arc payload = do
  topic ← index shelf.heap arc
  (epoch, topic') ← Topic.publish_byte topic payload
  done (epoch, record shelf { heap = set shelf.heap arc topic' })

-- `ByteTopic::try_receive` through an `Arc`.
unfoldable pub try_receive_at : ByteShelf → ℕ → Exec (Option (Bytes × ℕ) × ByteShelf)
try_receive_at shelf arc = do
  topic ← index shelf.heap arc
  (msg, topic') ← Topic.try_receive_byte topic
  done (msg, record shelf { heap = set shelf.heap arc topic' })

-- `ByteTopic::peek_latest` through an `Arc`.
unfoldable pub peek_latest_at : ByteShelf → ℕ → Exec (Option (Bytes × ℕ))
peek_latest_at shelf arc = do topic ← index shelf.heap arc; Topic.peek_latest_byte topic
