-- ===== src/UnitTests/Messages.antt =====
-- uart/mod.rs and uart/protocol.rs: the unit tests.
use text.Mathlib.Text.{◌==◌ as str_eq}
use bibi_sync.Base.{
  ℕ, ◌+◌, ◌%◌, ◌==◌, Bool, false, Option, none, some, [], ◌∷◌, ◌≡◌, refl, length, done, ◌>>=◌,
  or_panic,
}
use bibi_sync.Protocol.{pwm_to_bytes, pwm_from_bytes, write_words, word_bytes, read_words}
use bibi_sync.Mixer.{six}
use bibi_sync.Controller.Run.{pwm_cmd}
use bibi_sync.Uart.Message.{MsgType, imu, depth, to_u8, from_u8, to_topic_name}
use bibi_sync.Uart.Wire.{calculate_checksum}
use bibi_sync.UnitTests.{Passing, assert, assert_eq, is_none}

-- `== Some(t)`
abbrev is_type : Option MsgType → MsgType → Bool
unfolding to_u8
is_type none t = false
is_type (some s) t = to_u8 s == to_u8 t

abbrev test_msg_type_conversion : Passing
test_msg_type_conversion = do
  first ← assert (is_type (from_u8 0x01) imu)
  second ← assert (is_type (from_u8 0x02) depth)
  assert (is_none (from_u8 0xff))

test_msg_type_conversion_passes : test_msg_type_conversion ≡ done tt
unfolding from_u8 to_u8 to_topic_name calculate_checksum pwm_to_bytes pwm_from_bytes write_words
    word_bytes read_words
test_msg_type_conversion_passes = refl

abbrev test_topic_names : Passing
test_topic_names = do
  first ← assert (str_eq (to_topic_name imu) "/stm32/imu")
  assert (str_eq (to_topic_name depth) "/stm32/depth")

test_topic_names_passes : test_topic_names ≡ done tt
unfolding from_u8 to_u8 to_topic_name calculate_checksum pwm_to_bytes pwm_from_bytes write_words
    word_bytes read_words
test_topic_names_passes = refl

-- `a.wrapping_add(b)`
abbrev wrapping_add : ℕ → ℕ → ℕ
wrapping_add a b = (a + b) % 256

abbrev test_checksum : Passing
test_checksum = do
  let checksum = calculate_checksum (0x01 ∷ 0x05 ∷ 0xab ∷ 0xcd ∷ [])
  assert_eq checksum (wrapping_add (wrapping_add (wrapping_add 0x01 0x05) 0xab) 0xcd)

test_checksum_passes : test_checksum ≡ done tt
unfolding from_u8 to_u8 to_topic_name calculate_checksum pwm_to_bytes pwm_from_bytes write_words
    word_bytes read_words
test_checksum_passes = refl

abbrev test_thruster_pwm_cmd : Passing
test_thruster_pwm_cmd = do
  let bytes = pwm_to_bytes (pwm_cmd (six 1500 1600 1400 1550 1450 1500))
  sized ← assert_eq (length bytes) 24
  decoded ← or_panic (pwm_from_bytes bytes)
  p0 ← assert_eq decoded.pwm_0 1500
  p2 ← assert_eq decoded.pwm_2 1400
  p3 ← assert_eq decoded.pwm_3 1550
  p1 ← assert_eq decoded.pwm_1 1600
  assert_eq decoded.pwm_5 1500

test_thruster_pwm_cmd_passes : test_thruster_pwm_cmd ≡ done tt
unfolding from_u8 to_u8 to_topic_name calculate_checksum pwm_to_bytes pwm_from_bytes write_words
    word_bytes read_words
test_thruster_pwm_cmd_passes = refl
