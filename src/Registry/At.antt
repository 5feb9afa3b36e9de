-- ===== src/Registry/At.antt =====
-- pubsub/registry.rs, pubsub/topic.rs: a topic of the registry through an `Arc`, against its log.
use bibi_sync.Base.{
  ℕ, suc, ◌≤◌, ◌<◌, ◌≡◌, refl, none, some, arith, length, get_elem?, set, get_elem?-lt,
  get_elem?-set_self, done, word_mod,
}
use bibi_sync.Log
use bibi_sync.Log.{Log}
use bibi_sync.ByteRing.{Bytes, ByteRingBuffer, max_payload_size}
use bibi_sync.ByteRing.Refine.{ByteRepresents, push-ByteRepresents, push-too_large}
use bibi_sync.ByteRing.Read.{pop-ByteRepresents, peek_latest-eq-latest}
use bibi_sync.Topic
use bibi_sync.Topic.{ByteTopic}
use bibi_sync.Registry.{ByteShelf, publish_at, try_receive_at, peek_latest_at}

-- The topic behind `arc` holds the messages of `log`.
pub record Holds (shelf : ByteShelf) (arc : ℕ) (log : Log Bytes) : Type 0 where
  pub topic : ByteTopic
  pub there : get_elem? shelf.heap arc ≡ some topic
  pub represents : ByteRepresents topic.buffer log

-- Nothing but the topic behind `arc` has changed.
abbrev pub OnlyChanges : ℕ → ByteShelf → ByteShelf → Type 0
OnlyChanges arc s s' = (t : ByteTopic) × (s' ≡ record s { heap = set s.heap arc t })

module _ {shelf : ByteShelf} {arc : ℕ} {log : Log Bytes} (h : Holds shelf arc log) where
  in_range : arc < length shelf.heap
  in_range = get_elem?-lt shelf.heap arc h.topic h.there

  -- The shelf with another buffer for the topic.
  with_buffer : ByteRingBuffer → ByteShelf
  with_buffer rb = record shelf { heap = set shelf.heap arc (record h.topic { buffer = rb }) }

  with_buffer-Holds :
      (rb : ByteRingBuffer) (log' : Log Bytes)
      → ByteRepresents rb log'
      → Holds (with_buffer rb) arc log' × OnlyChanges arc shelf (with_buffer rb)
  unfolding with_buffer
  with_buffer-Holds rb log' r = (
    record {
      topic = record h.topic { buffer = rb };
      there = get_elem?-set_self shelf.heap arc _ in_range;
      represents = r;
    },
    (record h.topic { buffer = rb }, refl),
  )

  -- If the topic behind an `Arc` holds a log of fewer than 2^64-1 messages, a message of at most
  -- 244 bytes published through the `Arc` goes to the end of the log, its epoch is returned, and
  -- nothing but this topic changes.
  pub publish_at-Holds :
      (p : Bytes)
      → length p ≤ max_payload_size
      → suc (length log.history) < word_mod
      → (shelf' : ByteShelf) × (publish_at shelf arc p
          ≡ done (some (suc (length log.history)), shelf'))
        × Holds shelf' arc (Log.publish log p)
        × OnlyChanges arc shelf shelf'
  unfolding publish_at Topic.publish_byte with_buffer
  publish_at-Holds p small fits =
      let (rb, e, r) = push-ByteRepresents h.represents p small fits in
      let (holds, others) = with_buffer-Holds rb _ r in
      (with_buffer rb, ground (arith, h.there, e), holds, others)

  -- If the topic behind an `Arc` holds a log, a message of more than 244 bytes published through
  -- the `Arc` is refused with `None`, the log stays as it is, and nothing but this topic's cell is
  -- written.
  pub publish_at-too_large :
      (p : Bytes)
      → max_payload_size < length p
      → (shelf' : ByteShelf) × (publish_at shelf arc p ≡ done (none, shelf'))
        × Holds shelf' arc log
        × OnlyChanges arc shelf shelf'
  unfolding publish_at Topic.publish_byte with_buffer
  publish_at-too_large p large =
      let (holds, others) = with_buffer-Holds h.topic.buffer log h.represents in
      (
        with_buffer h.topic.buffer,
        ground (arith, h.there, push-too_large h.represents p large),
        holds,
        others,
      )

  -- If the topic behind an `Arc` holds a log, receiving through the `Arc` returns the message that
  -- the log's reader receives, with its epoch, the topic then holds the log with that message
  -- received, and nothing but this topic changes.
  pub try_receive_at-Holds :
      (shelf' : ByteShelf) × (try_receive_at shelf arc ≡ done (Log.oldest log, shelf'))
      × Holds shelf' arc (Log.receive log).1
      × OnlyChanges arc shelf shelf'
  unfolding try_receive_at Topic.try_receive_byte with_buffer
  try_receive_at-Holds =
      let (rb, e, r) = pop-ByteRepresents h.represents in
      let (holds, others) = with_buffer-Holds rb _ r in
      (with_buffer rb, ground (arith, h.there, e), holds, others)

  pub peek_latest_at-eq-latest : peek_latest_at shelf arc ≡ done (Log.latest log)
  unfolding peek_latest_at Topic.peek_latest_byte
  peek_latest_at-eq-latest = ground (arith, h.there, peek_latest-eq-latest h.represents)
