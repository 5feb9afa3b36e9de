-- ===== src/Topic/Publisher.antt =====
-- pubsub/publisher.rs: a publisher has no state but the topic that its `Arc` points to, which is an
-- argument.
use bibi_sync.Base.{ℕ, String, Option, Exec}
use bibi_sync.Topic
use bibi_sync.Topic.{Topic, ByteTopic}
use bibi_sync.ByteRing.{Bytes}

module _ {ℓ} {T : Type ℓ} where
  unfoldable pub publish : Topic T → T → Exec (ℕ × Topic T)
  publish topic msg = Topic.publish topic msg

  unfoldable pub topic_name : Topic T → String
  topic_name topic = topic.name

-- The methods of `BytePublisher`.
unfoldable pub publish_byte : ByteTopic → Bytes → Exec (Option ℕ × ByteTopic)
publish_byte topic payload = Topic.publish_byte topic payload

unfoldable pub topic_name_byte : ByteTopic → String
topic_name_byte topic = topic.name
