-- ===== src/UnitTests/Registries.antt =====
-- pubsub/registry.rs: the unit tests, and those of python/mod.rs on byte topics.
use native.Mathlib.Decide.{ℕ_discrete}
use text.Mathlib.Text.{◌==◌ as str_eq}
use bibi_sync.Base.{
  ℕ, false, [], ◌∷◌, ◌≡◌, refl, index, set, lookup, insert, remove, Exec, done, panicked, ◌>>=◌,
  or_panic,
}
use bibi_sync.Ring
use bibi_sync.ByteRing
use bibi_sync.Topic
use bibi_sync.Topic.{Topic}
use bibi_sync.Registry
use bibi_sync.Registry.{ByteShelf}
use bibi_sync.Registry.Typed.{
  MessageTypes, TypedShelf, get_or_create, topic_count, create, downcast,
}
use bibi_sync.Python
use bibi_sync.Python.{PyResult, returned, value_error}
use bibi_sync.UnitTests.{Passing, assert, assert_eq, eq_list}

-- `i32` is type 0 and `f64` type 1.
abbrev numbers : MessageTypes
numbers = record {
  TypeId = ℕ;
  same = ℕ_discrete;
  Message = λ t. ℕ;
  default = λ t. 0;
  size_of_slot = λ t. 16;
}

-- `TopicRegistry::new`, its typed half
abbrev new_registry : TypedShelf numbers
new_registry = record { typed_topics = []; poisoned = false; heap = [] }

abbrev test_registry_get_or_create : Passing
test_registry_get_or_create = do
  let (made1, registry1) = get_or_create numbers new_registry 0 "/sensor/temp" 8
  arc1 ← made1
  let (made2, registry2) = get_or_create numbers registry1 1 "/sensor/humidity" 16
  arc2 ← made2
  topic1 ← index registry2.heap arc1
  named1 ← assert (str_eq topic1.1.name "/sensor/temp")
  topic2 ← index registry2.heap arc2
  named2 ← assert (str_eq topic2.1.name "/sensor/humidity")
  count ← topic_count numbers registry2 Registry.empty_shelf
  assert_eq count 2

test_registry_get_or_create_passes : test_registry_get_or_create ≡ done tt
unfolding ℕ_discrete get_or_create create downcast topic_count lookup insert remove
    Registry.empty_shelf Registry.get_or_create_byte Registry.create_byte Registry.publish_at
    Registry.try_receive_at Python.new_registry Python.get_byte_topic Python.name Python.publish
    Python.try_receive Topic.new Topic.publish Topic.try_receive Topic.peek_latest
    Topic.latest_epoch Topic.len Topic.new_byte Topic.publish_byte Topic.try_receive_byte
    Topic.len_byte Ring.new Ring.push Ring.pop Ring.pop_loop Ring.pop_turn Ring.inspect
    Ring.peek_latest Ring.latest_epoch Ring.len ByteRing.new ByteRing.push ByteRing.pop
    ByteRing.pop_loop ByteRing.pop_turn ByteRing.inspect ByteRing.payload ByteRing.len
test_registry_get_or_create_passes = refl

abbrev test_registry_same_topic_returns_same : Passing
test_registry_same_topic_returns_same = do
  let (made1, registry1) = get_or_create numbers new_registry 0 "/imu" 8
  arc1 ← made1
  topic1 ← index registry1.heap arc1
  (epoch, topic1') ← Topic.publish topic1.1 42
  let published = record registry1 { heap = set registry1.heap arc1 (topic1.0, topic1') }
  let (made2, registry2) = get_or_create numbers published 0 "/imu" 8
  arc2 ← made2
  topic2 ← index registry2.heap arc2
  (got, topic2') ← Topic.try_receive topic2.1
  val ← or_panic got
  same ← assert_eq val 42
  count ← topic_count numbers registry2 Registry.empty_shelf
  assert_eq count 1

test_registry_same_topic_returns_same_passes : test_registry_same_topic_returns_same ≡ done tt
unfolding ℕ_discrete get_or_create create downcast topic_count lookup insert remove
    Registry.empty_shelf Registry.get_or_create_byte Registry.create_byte Registry.publish_at
    Registry.try_receive_at Python.new_registry Python.get_byte_topic Python.name Python.publish
    Python.try_receive Topic.new Topic.publish Topic.try_receive Topic.peek_latest
    Topic.latest_epoch Topic.len Topic.new_byte Topic.publish_byte Topic.try_receive_byte
    Topic.len_byte Ring.new Ring.push Ring.pop Ring.pop_loop Ring.pop_turn Ring.inspect
    Ring.peek_latest Ring.latest_epoch Ring.len ByteRing.new ByteRing.push ByteRing.pop
    ByteRing.pop_loop ByteRing.pop_turn ByteRing.inspect ByteRing.payload ByteRing.len
test_registry_same_topic_returns_same_passes = refl

abbrev test_registry_byte_topics : Passing
test_registry_byte_topics = do
  let (made1, registry1) = Registry.get_or_create_byte Registry.empty_shelf "/camera/0" 32
  arc1 ← made1
  (epoch, registry2) ← Registry.publish_at registry1 arc1 (1 ∷ 2 ∷ 3 ∷ [])
  let (made2, registry3) = Registry.get_or_create_byte registry2 "/camera/0" 32
  arc2 ← made2
  (got, registry4) ← Registry.try_receive_at registry3 arc2
  (received, number) ← or_panic got
  assert (eq_list received (1 ∷ 2 ∷ 3 ∷ []))

test_registry_byte_topics_passes : test_registry_byte_topics ≡ done tt
unfolding ℕ_discrete get_or_create create downcast topic_count lookup insert remove
    Registry.empty_shelf Registry.get_or_create_byte Registry.create_byte Registry.publish_at
    Registry.try_receive_at Python.new_registry Python.get_byte_topic Python.name Python.publish
    Python.try_receive Topic.new Topic.publish Topic.try_receive Topic.peek_latest
    Topic.latest_epoch Topic.len Topic.new_byte Topic.publish_byte Topic.try_receive_byte
    Topic.len_byte Ring.new Ring.push Ring.pop Ring.pop_loop Ring.pop_turn Ring.inspect
    Ring.peek_latest Ring.latest_epoch Ring.len ByteRing.new ByteRing.push ByteRing.pop
    ByteRing.pop_loop ByteRing.pop_turn ByteRing.inspect ByteRing.payload ByteRing.len
test_registry_byte_topics_passes = refl

abbrev test_py_registry : Passing
test_py_registry = do
  let (made, registry) = Python.get_byte_topic Python.new_registry "/test" 8
  topic ← made
  name ← Python.name registry topic
  assert (str_eq name "/test")

test_py_registry_passes : test_py_registry ≡ done tt
unfolding ℕ_discrete get_or_create create downcast topic_count lookup insert remove
    Registry.empty_shelf Registry.get_or_create_byte Registry.create_byte Registry.publish_at
    Registry.try_receive_at Python.new_registry Python.get_byte_topic Python.name Python.publish
    Python.try_receive Topic.new Topic.publish Topic.try_receive Topic.peek_latest
    Topic.latest_epoch Topic.len Topic.new_byte Topic.publish_byte Topic.try_receive_byte
    Topic.len_byte Ring.new Ring.push Ring.pop Ring.pop_loop Ring.pop_turn Ring.inspect
    Ring.peek_latest Ring.latest_epoch Ring.len ByteRing.new ByteRing.push ByteRing.pop
    ByteRing.pop_loop ByteRing.pop_turn ByteRing.inspect ByteRing.payload ByteRing.len
test_py_registry_passes = refl

-- `unwrap`
abbrev unwrap : {A : Type 0} → PyResult A → Exec A
unwrap (returned a) = done a
unwrap value_error = panicked

abbrev test_py_publish_receive : Passing
test_py_publish_receive = do
  let (made, registry) = Python.get_byte_topic Python.new_registry "/test" 8
  topic ← made
  (result, registry1) ← Python.publish registry topic (1 ∷ 2 ∷ 3 ∷ [])
  epoch ← unwrap result
  first ← assert_eq epoch 1
  (got, registry2) ← Python.try_receive registry1 topic
  (received, number) ← or_panic got
  assert (eq_list received (1 ∷ 2 ∷ 3 ∷ []))

test_py_publish_receive_passes : test_py_publish_receive ≡ done tt
unfolding ℕ_discrete get_or_create create downcast topic_count lookup insert remove
    Registry.empty_shelf Registry.get_or_create_byte Registry.create_byte Registry.publish_at
    Registry.try_receive_at Python.new_registry Python.get_byte_topic Python.name Python.publish
    Python.try_receive Topic.new Topic.publish Topic.try_receive Topic.peek_latest
    Topic.latest_epoch Topic.len Topic.new_byte Topic.publish_byte Topic.try_receive_byte
    Topic.len_byte Ring.new Ring.push Ring.pop Ring.pop_loop Ring.pop_turn Ring.inspect
    Ring.peek_latest Ring.latest_epoch Ring.len ByteRing.new ByteRing.push ByteRing.pop
    ByteRing.pop_loop ByteRing.pop_turn ByteRing.inspect ByteRing.payload ByteRing.len
test_py_publish_receive_passes = refl

abbrev test_py_shared_topic : Passing
test_py_shared_topic = do
  let (made1, registry1) = Python.get_byte_topic Python.new_registry "/shared" 8
  topic1 ← made1
  let (made2, registry2) = Python.get_byte_topic registry1 "/shared" 8
  topic2 ← made2
  (result, registry3) ← Python.publish registry2 topic1 (0xab ∷ 0xcd ∷ [])
  epoch ← unwrap result
  (got, registry4) ← Python.try_receive registry3 topic2
  (received, number) ← or_panic got
  assert (eq_list received (0xab ∷ 0xcd ∷ []))

test_py_shared_topic_passes : test_py_shared_topic ≡ done tt
unfolding ℕ_discrete get_or_create create downcast topic_count lookup insert remove
    Registry.empty_shelf Registry.get_or_create_byte Registry.create_byte Registry.publish_at
    Registry.try_receive_at Python.new_registry Python.get_byte_topic Python.name Python.publish
    Python.try_receive Topic.new Topic.publish Topic.try_receive Topic.peek_latest
    Topic.latest_epoch Topic.len Topic.new_byte Topic.publish_byte Topic.try_receive_byte
    Topic.len_byte Ring.new Ring.push Ring.pop Ring.pop_loop Ring.pop_turn Ring.inspect
    Ring.peek_latest Ring.latest_epoch Ring.len ByteRing.new ByteRing.push ByteRing.pop
    ByteRing.pop_loop ByteRing.pop_turn ByteRing.inspect ByteRing.payload ByteRing.len
test_py_shared_topic_passes = refl
