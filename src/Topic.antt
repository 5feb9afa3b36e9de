-- ===== src/Topic.antt =====
-- pubsub/topic.rs. A topic is a name and a buffer; its clones, its publishers and its subscribers
-- share both by `Arc`, so they all act on one state.
use bibi_sync.Base.{ℕ, String, Bool, ltb, Option, Exec, done, ◌>>=◌}
use bibi_sync.Ring
use bibi_sync.Ring.{RingBuffer}
use bibi_sync.ByteRing
use bibi_sync.ByteRing.{ByteRingBuffer, Bytes}
pub mod Publisher
pub mod Subscriber
pub mod Seen

pub record Topic {ℓ} (T : Type ℓ) : Type ℓ where
  pub name : String
  pub buffer : RingBuffer T

module _ {ℓ} {T : Type ℓ} where
  unfoldable pub new : (default : T) (slot_size : ℕ) → String → ℕ → Exec (Topic T)
  new default slot_size name capacity = do
    buffer ← Ring.new default slot_size capacity
    done (record { name = name; buffer = buffer })

  unfoldable pub publish : Topic T → T → Exec (ℕ × Topic T)
  publish topic msg = do
    (epoch, buffer) ← Ring.push topic.buffer msg
    done (epoch, record topic { buffer = buffer })

  unfoldable pub try_receive : Topic T → Exec (Option T × Topic T)
  try_receive topic = do
    (msg, buffer) ← Ring.pop topic.buffer
    done (msg, record topic { buffer = buffer })

  unfoldable pub peek_latest : Topic T → Exec (Option (T × ℕ))
  peek_latest topic = Ring.peek_latest topic.buffer

  unfoldable pub latest_epoch : Topic T → ℕ
  latest_epoch topic = Ring.latest_epoch topic.buffer

  unfoldable pub len : Topic T → ℕ
  len topic = Ring.len topic.buffer

  unfoldable pub is_empty : Topic T → Bool
  is_empty topic = Ring.is_empty topic.buffer

  unfoldable pub peek_latest_ref : Topic T → Exec (Option (T × ℕ))
  peek_latest_ref topic = Ring.peek_latest_ref topic.buffer

  unfoldable pub capacity : Topic T → ℕ
  capacity topic = topic.buffer.capacity

pub record ByteTopic : Type 0 where
  pub name : String
  pub buffer : ByteRingBuffer

-- The methods of `ByteTopic`.
unfoldable pub new_byte : String → ℕ → Exec ByteTopic
new_byte name capacity = do
  buffer ← ByteRing.new capacity
  done (record { name = name; buffer = buffer })

unfoldable pub publish_byte : ByteTopic → Bytes → Exec (Option ℕ × ByteTopic)
publish_byte topic payload = do
  (epoch, buffer) ← ByteRing.push topic.buffer payload
  done (epoch, record topic { buffer = buffer })

unfoldable pub try_receive_byte : ByteTopic → Exec (Option (Bytes × ℕ) × ByteTopic)
try_receive_byte topic = do
  (msg, buffer) ← ByteRing.pop topic.buffer
  done (msg, record topic { buffer = buffer })

unfoldable pub peek_latest_byte : ByteTopic → Exec (Option (Bytes × ℕ))
peek_latest_byte topic = ByteRing.peek_latest topic.buffer

unfoldable pub latest_epoch_byte : ByteTopic → ℕ
latest_epoch_byte topic = ByteRing.latest_epoch topic.buffer

unfoldable pub len_byte : ByteTopic → ℕ
len_byte topic = ByteRing.len topic.buffer

unfoldable pub is_empty_byte : ByteTopic → Bool
is_empty_byte topic = ByteRing.is_empty topic.buffer

unfoldable pub capacity_byte : ByteTopic → ℕ
capacity_byte topic = topic.buffer.capacity
