-- ===== src/UnitTests/Topics.antt =====
-- pubsub/topic.rs, subscriber.rs and publisher.rs: the unit tests. An `f32` is its bits.
use text.Mathlib.Text.{◌==◌ as str_eq}
use bibi_sync.Base.{
  ℕ, ◌==◌, ◌&&◌, not, Bool, String, List, [], ◌∷◌, ◌≡◌, refl, Exec, done, ◌>>=◌, or_panic,
}
use bibi_sync.Ring
use bibi_sync.ByteRing
use bibi_sync.ByteRing.{Bytes}
use bibi_sync.Topic
use bibi_sync.Topic.{Topic, ByteTopic}
use bibi_sync.Topic.Subscriber
use bibi_sync.Topic.Subscriber.{has_new, mark_seen}
use bibi_sync.Topic.Publisher
use bibi_sync.UnitTests.{Passing, assert, assert_eq, eq_list, is_some_of, is_none}

-- The tests' own message.
record ImuData : Type 0 where
  accel_x : ℕ
  accel_y : ℕ
  accel_z : ℕ

abbrev default_imu : ImuData
default_imu = record { accel_x = 0; accel_y = 0; accel_z = 0 }

abbrev msg1 : ImuData
msg1 = record { accel_x = 0x3f800000; accel_y = 0x40000000; accel_z = 0x411ccccd }

abbrev msg2 : ImuData
msg2 = record { accel_x = 0x3f8ccccd; accel_y = 0x40066666; accel_z = 0x411e6666 }

-- `==` of numbers that are no NaN and not zero
abbrev eq_imu : ImuData → ImuData → Bool
eq_imu a b = (a.accel_x == b.accel_x) && (a.accel_y == b.accel_y) && (a.accel_z == b.accel_z)

-- `Topic::<i32>::new`
abbrev new_i32 : String → ℕ → Exec (Topic ℕ)
new_i32 name capacity = Topic.new 0 16 name capacity

-- The topic after some calls of `publish`, whose results are dropped.
abbrev published : Topic ℕ → List ℕ → Exec (Topic ℕ)
published topic [] = done topic
published topic (x ∷ xs) = do (epoch, topic') ← Topic.publish topic x; published topic' xs

abbrev test_typed_topic_publish_subscribe : Passing
test_typed_topic_publish_subscribe = do
  topic ← Topic.new default_imu 48 "/imu/data" 8
  (e1, topic1) ← Topic.publish topic msg1
  (e2, topic2) ← Topic.publish topic1 msg2
  first ← assert_eq e1 1
  second ← assert_eq e2 2
  two ← assert_eq (Topic.len topic2) 2
  named ← assert (str_eq topic2.name "/imu/data")
  (got1, topic3) ← Topic.try_receive topic2
  received1 ← or_panic got1
  same1 ← assert (eq_imu received1 msg1)
  (got2, topic4) ← Topic.try_receive topic3
  received2 ← or_panic got2
  same2 ← assert (eq_imu received2 msg2)
  (got3, topic5) ← Topic.try_receive topic4
  assert (is_none got3)

test_typed_topic_publish_subscribe_passes : test_typed_topic_publish_subscribe ≡ done tt
unfolding Ring.new Ring.push Ring.pop Ring.pop_loop Ring.pop_turn Ring.inspect Ring.peek_latest
    Ring.latest_epoch Ring.len ByteRing.new ByteRing.push ByteRing.pop ByteRing.pop_loop
    ByteRing.pop_turn ByteRing.inspect ByteRing.payload ByteRing.len Topic.new Topic.publish
    Topic.try_receive Topic.peek_latest Topic.latest_epoch Topic.len Topic.new_byte
    Topic.publish_byte Topic.try_receive_byte Topic.len_byte Subscriber.new Subscriber.try_recv
    has_new mark_seen Subscriber.peek_latest Publisher.publish Publisher.topic_name
    Publisher.publish_byte
test_typed_topic_publish_subscribe_passes = refl

abbrev test_typed_topic_peek_latest : Passing
test_typed_topic_peek_latest = do
  topic ← new_i32 "/test/int" 8
  filled ← published topic (10 ∷ 20 ∷ 30 ∷ [])
  peeked ← Topic.peek_latest filled
  (val, epoch) ← or_panic peeked
  same ← assert_eq val 30
  third ← assert_eq epoch 3
  assert_eq (Topic.len filled) 3

test_typed_topic_peek_latest_passes : test_typed_topic_peek_latest ≡ done tt
unfolding Ring.new Ring.push Ring.pop Ring.pop_loop Ring.pop_turn Ring.inspect Ring.peek_latest
    Ring.latest_epoch Ring.len ByteRing.new ByteRing.push ByteRing.pop ByteRing.pop_loop
    ByteRing.pop_turn ByteRing.inspect ByteRing.payload ByteRing.len Topic.new Topic.publish
    Topic.try_receive Topic.peek_latest Topic.latest_epoch Topic.len Topic.new_byte
    Topic.publish_byte Topic.try_receive_byte Topic.len_byte Subscriber.new Subscriber.try_recv
    has_new mark_seen Subscriber.peek_latest Publisher.publish Publisher.topic_name
    Publisher.publish_byte
test_typed_topic_peek_latest_passes = refl

abbrev test_byte_topic_publish_subscribe : Passing
test_byte_topic_publish_subscribe = do
  topic ← Topic.new_byte "/camera/raw" 8
  (first, topic1) ← Topic.publish_byte topic (0xaa ∷ 0xbb ∷ 0xcc ∷ [])
  e1 ← or_panic first
  (second, topic2) ← Topic.publish_byte topic1 (0x11 ∷ 0x22 ∷ 0x33 ∷ 0x44 ∷ [])
  e2 ← or_panic second
  one ← assert_eq e1 1
  two ← assert_eq e2 2
  named ← assert (str_eq topic2.name "/camera/raw")
  (got1, topic3) ← Topic.try_receive_byte topic2
  (data1, epoch1) ← or_panic got1
  same1 ← assert (eq_list data1 (0xaa ∷ 0xbb ∷ 0xcc ∷ []))
  (got2, topic4) ← Topic.try_receive_byte topic3
  (data2, epoch2) ← or_panic got2
  assert (eq_list data2 (0x11 ∷ 0x22 ∷ 0x33 ∷ 0x44 ∷ []))

test_byte_topic_publish_subscribe_passes : test_byte_topic_publish_subscribe ≡ done tt
unfolding Ring.new Ring.push Ring.pop Ring.pop_loop Ring.pop_turn Ring.inspect Ring.peek_latest
    Ring.latest_epoch Ring.len ByteRing.new ByteRing.push ByteRing.pop ByteRing.pop_loop
    ByteRing.pop_turn ByteRing.inspect ByteRing.payload ByteRing.len Topic.new Topic.publish
    Topic.try_receive Topic.peek_latest Topic.latest_epoch Topic.len Topic.new_byte
    Topic.publish_byte Topic.try_receive_byte Topic.len_byte Subscriber.new Subscriber.try_recv
    has_new mark_seen Subscriber.peek_latest Publisher.publish Publisher.topic_name
    Publisher.publish_byte
test_byte_topic_publish_subscribe_passes = refl

-- The clone has the same buffer: it is the same state.
abbrev test_topic_clone_shares_buffer : Passing
test_topic_clone_shares_buffer = do
  topic1 ← new_i32 "/shared" 8
  (epoch, shared) ← Topic.publish topic1 100
  (got, shared') ← Topic.try_receive shared
  val ← or_panic got
  same ← assert_eq val 100
  (again, shared'') ← Topic.try_receive shared'
  assert (is_none again)

test_topic_clone_shares_buffer_passes : test_topic_clone_shares_buffer ≡ done tt
unfolding Ring.new Ring.push Ring.pop Ring.pop_loop Ring.pop_turn Ring.inspect Ring.peek_latest
    Ring.latest_epoch Ring.len ByteRing.new ByteRing.push ByteRing.pop ByteRing.pop_loop
    ByteRing.pop_turn ByteRing.inspect ByteRing.payload ByteRing.len Topic.new Topic.publish
    Topic.try_receive Topic.peek_latest Topic.latest_epoch Topic.len Topic.new_byte
    Topic.publish_byte Topic.try_receive_byte Topic.len_byte Subscriber.new Subscriber.try_recv
    has_new mark_seen Subscriber.peek_latest Publisher.publish Publisher.topic_name
    Publisher.publish_byte
test_topic_clone_shares_buffer_passes = refl

abbrev test_subscriber_try_recv : Passing
test_subscriber_try_recv = do
  topic ← new_i32 "/test" 8
  filled ← published topic (10 ∷ 20 ∷ [])
  (got1, topic1) ← Subscriber.try_recv filled Subscriber.new
  first ← assert (is_some_of got1 10)
  (got2, topic2) ← Subscriber.try_recv topic1 Subscriber.new
  second ← assert (is_some_of got2 20)
  (got3, topic3) ← Subscriber.try_recv topic2 Subscriber.new
  assert (is_none got3)

test_subscriber_try_recv_passes : test_subscriber_try_recv ≡ done tt
unfolding Ring.new Ring.push Ring.pop Ring.pop_loop Ring.pop_turn Ring.inspect Ring.peek_latest
    Ring.latest_epoch Ring.len ByteRing.new ByteRing.push ByteRing.pop ByteRing.pop_loop
    ByteRing.pop_turn ByteRing.inspect ByteRing.payload ByteRing.len Topic.new Topic.publish
    Topic.try_receive Topic.peek_latest Topic.latest_epoch Topic.len Topic.new_byte
    Topic.publish_byte Topic.try_receive_byte Topic.len_byte Subscriber.new Subscriber.try_recv
    has_new mark_seen Subscriber.peek_latest Publisher.publish Publisher.topic_name
    Publisher.publish_byte
test_subscriber_try_recv_passes = refl

abbrev test_subscriber_has_new : Passing
test_subscriber_has_new = do
  topic ← new_i32 "/test" 8
  nothing ← assert (not (has_new topic Subscriber.new))
  topic1 ← published topic (10 ∷ [])
  news ← assert (has_new topic1 Subscriber.new)
  let seen = mark_seen topic1 Subscriber.new
  old ← assert (not (has_new topic1 seen))
  topic2 ← published topic1 (20 ∷ [])
  assert (has_new topic2 seen)

test_subscriber_has_new_passes : test_subscriber_has_new ≡ done tt
unfolding Ring.new Ring.push Ring.pop Ring.pop_loop Ring.pop_turn Ring.inspect Ring.peek_latest
    Ring.latest_epoch Ring.len ByteRing.new ByteRing.push ByteRing.pop ByteRing.pop_loop
    ByteRing.pop_turn ByteRing.inspect ByteRing.payload ByteRing.len Topic.new Topic.publish
    Topic.try_receive Topic.peek_latest Topic.latest_epoch Topic.len Topic.new_byte
    Topic.publish_byte Topic.try_receive_byte Topic.len_byte Subscriber.new Subscriber.try_recv
    has_new mark_seen Subscriber.peek_latest Publisher.publish Publisher.topic_name
    Publisher.publish_byte
test_subscriber_has_new_passes = refl

abbrev test_subscriber_peek_latest : Passing
test_subscriber_peek_latest = do
  topic ← new_i32 "/test" 8
  filled ← published topic (10 ∷ 20 ∷ 30 ∷ [])
  peeked ← Subscriber.peek_latest filled Subscriber.new
  (val, epoch) ← or_panic peeked
  same ← assert_eq val 30
  third ← assert_eq epoch 3
  assert_eq (Topic.len filled) 3

test_subscriber_peek_latest_passes : test_subscriber_peek_latest ≡ done tt
unfolding Ring.new Ring.push Ring.pop Ring.pop_loop Ring.pop_turn Ring.inspect Ring.peek_latest
    Ring.latest_epoch Ring.len ByteRing.new ByteRing.push ByteRing.pop ByteRing.pop_loop
    ByteRing.pop_turn ByteRing.inspect ByteRing.payload ByteRing.len Topic.new Topic.publish
    Topic.try_receive Topic.peek_latest Topic.latest_epoch Topic.len Topic.new_byte
    Topic.publish_byte Topic.try_receive_byte Topic.len_byte Subscriber.new Subscriber.try_recv
    has_new mark_seen Subscriber.peek_latest Publisher.publish Publisher.topic_name
    Publisher.publish_byte
test_subscriber_peek_latest_passes = refl

abbrev test_publisher_publish : Passing
test_publisher_publish = do
  topic ← new_i32 "/test" 8
  (e1, topic1) ← Publisher.publish topic 10
  (e2, topic2) ← Publisher.publish topic1 20
  first ← assert_eq e1 1
  second ← assert_eq e2 2
  named ← assert (str_eq (Publisher.topic_name topic2) "/test")
  assert_eq (Topic.len topic2) 2

test_publisher_publish_passes : test_publisher_publish ≡ done tt
unfolding Ring.new Ring.push Ring.pop Ring.pop_loop Ring.pop_turn Ring.inspect Ring.peek_latest
    Ring.latest_epoch Ring.len ByteRing.new ByteRing.push ByteRing.pop ByteRing.pop_loop
    ByteRing.pop_turn ByteRing.inspect ByteRing.payload ByteRing.len Topic.new Topic.publish
    Topic.try_receive Topic.peek_latest Topic.latest_epoch Topic.len Topic.new_byte
    Topic.publish_byte Topic.try_receive_byte Topic.len_byte Subscriber.new Subscriber.try_recv
    has_new mark_seen Subscriber.peek_latest Publisher.publish Publisher.topic_name
    Publisher.publish_byte
test_publisher_publish_passes = refl

abbrev test_byte_publisher : Passing
test_byte_publisher = do
  topic ← Topic.new_byte "/bytes" 8
  (epoch, topic1) ← Publisher.publish_byte topic (1 ∷ 2 ∷ 3 ∷ [])
  e1 ← or_panic epoch
  first ← assert_eq e1 1
  assert_eq (Topic.len_byte topic1) 1

test_byte_publisher_passes : test_byte_publisher ≡ done tt
unfolding Ring.new Ring.push Ring.pop Ring.pop_loop Ring.pop_turn Ring.inspect Ring.peek_latest
    Ring.latest_epoch Ring.len ByteRing.new ByteRing.push ByteRing.pop ByteRing.pop_loop
    ByteRing.pop_turn ByteRing.inspect ByteRing.payload ByteRing.len Topic.new Topic.publish
    Topic.try_receive Topic.peek_latest Topic.latest_epoch Topic.len Topic.new_byte
    Topic.publish_byte Topic.try_receive_byte Topic.len_byte Subscriber.new Subscriber.try_recv
    has_new mark_seen Subscriber.peek_latest Publisher.publish Publisher.topic_name
    Publisher.publish_byte
test_byte_publisher_passes = refl
