-- ===== src/UnitTests/Interfaces.antt =====
-- ffi/mod.rs: the unit tests.
use bibi_sync.Base.{
  Bool, true, false, some, [], ◌∷◌, ◌≡◌, refl, lookup, insert, remove, length, done, ◌>>=◌,
  or_panic,
}
use bibi_sync.ByteRing
use bibi_sync.ByteRing.{Bytes}
use bibi_sync.Protocol
use bibi_sync.Topic
use bibi_sync.Registry
use bibi_sync.Ffi.{
  Code, received, text, registry_get_byte_topic, byte_topic_publish, byte_topic_try_receive,
  registry_get_typed_topic, typed_topic_publish, typed_topic_try_receive,
}
use bibi_sync.UnitTests.{Passing, assert, assert_eq, eq_list, is_some}

-- `== 1`
abbrev is_received : Code → Bool
is_received received = true
is_received _ = false

abbrev test_ffi_byte_topic_publish_receive : Passing
test_ffi_byte_topic_publish_receive = do
  let registry = Registry.empty_shelf
  let (made, registry1) = registry_get_byte_topic false registry (text "/test/ffi") 8
  topic ← made
  not_null ← assert (is_some topic)
  (epoch, registry2) ← byte_topic_publish registry1 topic (some (1 ∷ 2 ∷ 3 ∷ []))
  first ← assert_eq epoch 1
  ((result, out), registry3) ← byte_topic_try_receive registry2 topic true 256
  one ← assert (is_received result)
  out_data ← or_panic out
  three ← assert_eq (length out_data) 3
  assert (eq_list out_data (1 ∷ 2 ∷ 3 ∷ []))

test_ffi_byte_topic_publish_receive_passes : test_ffi_byte_topic_publish_receive ≡ done tt
unfolding registry_get_byte_topic byte_topic_publish byte_topic_try_receive registry_get_typed_topic
    typed_topic_publish typed_topic_try_receive Protocol.write_words Protocol.word_bytes
    Protocol.read_words ByteRing.new ByteRing.push ByteRing.pop ByteRing.pop_loop ByteRing.pop_turn
    ByteRing.inspect ByteRing.payload Topic.new_byte Topic.publish_byte Topic.try_receive_byte
    lookup insert remove Registry.empty_shelf Registry.get_or_create_byte Registry.create_byte
    Registry.publish_at Registry.try_receive_at
test_ffi_byte_topic_publish_receive_passes = refl

-- The bytes of the floats 1.0, 2.0 and 9.8.
abbrev imu_bytes : Bytes
imu_bytes = Protocol.write_words (0x3f800000 ∷ 0x40000000 ∷ 0x411ccccd ∷ [])

abbrev test_ffi_typed_topic : Passing
test_ffi_typed_topic = do
  let registry = Registry.empty_shelf
  let (made, registry1) = registry_get_typed_topic false registry (text "/imu") 8 12
  topic ← made
  (epoch, registry2) ← typed_topic_publish registry1 topic (some imu_bytes)
  first ← assert_eq epoch 1
  ((result, out), registry3) ← typed_topic_try_receive registry2 topic true
  one ← assert (is_received result)
  (out_msg, number) ← or_panic out
  assert (eq_list (Protocol.read_words 3 out_msg) (0x3f800000 ∷ 0x40000000 ∷ 0x411ccccd ∷ []))

test_ffi_typed_topic_passes : test_ffi_typed_topic ≡ done tt
unfolding registry_get_byte_topic byte_topic_publish byte_topic_try_receive registry_get_typed_topic
    typed_topic_publish typed_topic_try_receive Protocol.write_words Protocol.word_bytes
    Protocol.read_words ByteRing.new ByteRing.push ByteRing.pop ByteRing.pop_loop ByteRing.pop_turn
    ByteRing.inspect ByteRing.payload Topic.new_byte Topic.publish_byte Topic.try_receive_byte
    lookup insert remove Registry.empty_shelf Registry.get_or_create_byte Registry.create_byte
    Registry.publish_at Registry.try_receive_at
test_ffi_typed_topic_passes = refl

abbrev test_ffi_shared_topic : Passing
test_ffi_shared_topic = do
  let registry = Registry.empty_shelf
  let (made1, registry1) = registry_get_byte_topic false registry (text "/shared") 8
  topic1 ← made1
  let (made2, registry2) = registry_get_byte_topic false registry1 (text "/shared") 8
  topic2 ← made2
  (epoch, registry3) ← byte_topic_publish registry2 topic1 (some (0xab ∷ 0xcd ∷ []))
  ((result, out), registry4) ← byte_topic_try_receive registry3 topic2 true 256
  one ← assert (is_received result)
  out_data ← or_panic out
  assert (eq_list out_data (0xab ∷ 0xcd ∷ []))

test_ffi_shared_topic_passes : test_ffi_shared_topic ≡ done tt
unfolding registry_get_byte_topic byte_topic_publish byte_topic_try_receive registry_get_typed_topic
    typed_topic_publish typed_topic_try_receive Protocol.write_words Protocol.word_bytes
    Protocol.read_words ByteRing.new ByteRing.push ByteRing.pop ByteRing.pop_loop ByteRing.pop_turn
    ByteRing.inspect ByteRing.payload Topic.new_byte Topic.publish_byte Topic.try_receive_byte
    lookup insert remove Registry.empty_shelf Registry.get_or_create_byte Registry.create_byte
    Registry.publish_at Registry.try_receive_at
test_ffi_shared_topic_passes = refl
