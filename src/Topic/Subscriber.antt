-- ===== src/Topic/Subscriber.antt =====
-- pubsub/subscriber.rs: which epoch a subscriber has marked as seen. The topic that its `Arc` points
-- to is an argument.
use bibi_sync.Base.{ℕ, Bool, ltb, Option, Exec}
use bibi_sync.Topic
use bibi_sync.Topic.{Topic, ByteTopic}
use bibi_sync.ByteRing.{Bytes}

pub record Subscriber : Type 0 where
  pub last_seen_epoch : ℕ

unfoldable pub new : Subscriber
new = record { last_seen_epoch = 0 }

module _ {ℓ} {T : Type ℓ} (topic : Topic T) where
  unfoldable pub try_recv : Subscriber → Exec (Option T × Topic T)
  try_recv subscriber = Topic.try_receive topic

  unfoldable pub has_new : Subscriber → Bool
  has_new subscriber = ltb subscriber.last_seen_epoch (Topic.latest_epoch topic)

  unfoldable pub mark_seen : Subscriber → Subscriber
  mark_seen subscriber = record subscriber { last_seen_epoch = Topic.latest_epoch topic }

  unfoldable pub peek_latest : Subscriber → Exec (Option (T × ℕ))
  peek_latest subscriber = Topic.peek_latest topic

-- The methods of `ByteSubscriber`.
module _ (topic : ByteTopic) where
  unfoldable pub try_recv_byte : Subscriber → Exec (Option (Bytes × ℕ) × ByteTopic)
  try_recv_byte subscriber = Topic.try_receive_byte topic

  unfoldable pub has_new_byte : Subscriber → Bool
  has_new_byte subscriber = ltb subscriber.last_seen_epoch (Topic.latest_epoch_byte topic)

  unfoldable pub mark_seen_byte : Subscriber → Subscriber
  mark_seen_byte subscriber = record subscriber { last_seen_epoch = Topic.latest_epoch_byte topic }

  unfoldable pub peek_latest_byte : Subscriber → Exec (Option (Bytes × ℕ))
  peek_latest_byte subscriber = Topic.peek_latest_byte topic
