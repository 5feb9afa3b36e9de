-- ===== src/Topic/Seen.antt =====
-- pubsub/subscriber.rs: `has_new` and `mark_seen` around a publication.
use bibi_sync.Base.{
  suc, ◌<◌, ◌≡◌, true, false, arith, length, done, word_mod, length-append, [], ◌∷◌,
}
use bibi_sync.Log
use bibi_sync.Log.{Log}
use bibi_sync.Ring
use bibi_sync.Ring.Represents.{Represents}
use bibi_sync.Ring.Refine.{push-Represents}
use bibi_sync.Topic
use bibi_sync.Topic.{Topic}
use bibi_sync.Topic.Subscriber.{Subscriber, has_new, mark_seen}

module _ {ℓ} {T : Type ℓ} (topic : Topic T) {log : Log T} (v : Represents topic.buffer log) where
  -- If a topic's buffer represents a log of fewer than 2^64-1 messages, a subscriber that has
  -- marked the topic as seen is told of nothing new, and of something new after the next message is
  -- published.
  pub has_new_lem :
      (subscriber : Subscriber) (msg : T)
      → suc (length log.history) < word_mod
      → (topic' : Topic T) × (Topic.publish topic msg ≡ done (suc (length log.history), topic'))
        × (has_new topic (mark_seen topic subscriber) ≡ false)
        × (has_new topic' (mark_seen topic subscriber) ≡ true)
  unfolding has_new mark_seen Topic.publish Topic.latest_epoch Ring.latest_epoch Log.publish
  has_new_lem subscriber msg fits =
      let (rb', e, w) = push-Represents v msg fits in
      let written : rb'.write_epoch ≡ suc (length log.history) =
        omega (arith, w.written, length-append log.history (msg ∷ [])) in
      (
        record topic { buffer = rb' },
        ground (arith, e),
        ground arith,
        ground (arith, written, v.written),
      )
