-- ===== src/Protocol.antt =====
-- uart/protocol.rs: the messages of the STM32, as bytes. The structs are `repr(C, packed)` and the
-- program's targets are little-endian; an `f32` or an `i32` is its 32-bit pattern.
pub mod Roundtrip
use bibi_sync.Base.{
  ℕ, Bool, zero, suc, ◌+◌, ◌*◌, ◌/◌, ◌%◌, ◌^◌, Option, none, some, List, [], ◌∷◌, ◌++◌, ltb,
  if◌then◌else◌, length,
}

abbrev pub Bytes : Type 0
Bytes = List ℕ

-- The four bytes of a 32-bit pattern in memory, and back.
unfoldable pub word_bytes : ℕ → Bytes
word_bytes w = w % 256 ∷ w / 256 % 256 ∷ w / 65536 % 256 ∷ w / 16777216 % 256 ∷ []

abbrev pub word_of : ℕ → ℕ → ℕ → ℕ → ℕ
word_of a b c d = a + b * 256 + c * 65536 + d * 16777216

-- An array of `n` words at the front of some bytes. The caller has tested the length.
unfoldable pub read_words : ℕ → Bytes → List ℕ
read_words zero bs = []
read_words (suc n) (a ∷ b ∷ c ∷ d ∷ bs) = word_of a b c d ∷ read_words n bs
read_words (suc n) _ = []

unfoldable pub write_words : List ℕ → Bytes
unfolding word_bytes
write_words [] = []
write_words (w ∷ ws) = word_bytes w ++ write_words ws

pub record ImuMsg : Type 0 where
  pub accel_x : ℕ
  pub accel_y : ℕ
  pub accel_z : ℕ
  pub gyro_x : ℕ
  pub gyro_y : ℕ
  pub gyro_z : ℕ
  pub mag_x : ℕ
  pub mag_y : ℕ
  pub mag_z : ℕ

pub record OrientationMsg : Type 0 where
  pub roll : ℕ
  pub pitch : ℕ
  pub yaw : ℕ

pub record DepthMsg : Type 0 where
  pub depth : ℕ

-- `[i32; 6]`
pub record ThrusterPwmCmd : Type 0 where
  pub pwm_0 : ℕ
  pub pwm_1 : ℕ
  pub pwm_2 : ℕ
  pub pwm_3 : ℕ
  pub pwm_4 : ℕ
  pub pwm_5 : ℕ

-- An `i16` is its 16-bit pattern.
pub record LedCmd : Type 0 where
  pub indicator : ℕ

pub record CalibrationCmd : Type 0 where
  pub enable : Bool

abbrev pub imu_msg_size : ℕ
imu_msg_size = 36

abbrev pub orientation_msg_size : ℕ
orientation_msg_size = 12

abbrev pub depth_msg_size : ℕ
depth_msg_size = 4

abbrev pub thruster_pwm_size : ℕ
thruster_pwm_size = 24

abbrev pub led_cmd_size : ℕ
led_cmd_size = 2

abbrev pub calibration_cmd_size : ℕ
calibration_cmd_size = 1

-- `read_unaligned`: the fields in their order in memory. With the tested length each list of words
-- has the length that is matched.
abbrev pub imu_of_words : List ℕ → Option ImuMsg
imu_of_words (a ∷ b ∷ c ∷ d ∷ e ∷ f ∷ g ∷ h ∷ i ∷ []) = some (record {
  accel_x = a;
  accel_y = b;
  accel_z = c;
  gyro_x = d;
  gyro_y = e;
  gyro_z = f;
  mag_x = g;
  mag_y = h;
  mag_z = i;
})
imu_of_words _ = none

abbrev pub orientation_of_words : List ℕ → Option OrientationMsg
orientation_of_words (a ∷ b ∷ c ∷ []) = some (record { roll = a; pitch = b; yaw = c })
orientation_of_words _ = none

abbrev pub depth_of_words : List ℕ → Option DepthMsg
depth_of_words (a ∷ []) = some (record { depth = a })
depth_of_words _ = none

abbrev pub pwm_of_words : List ℕ → Option ThrusterPwmCmd
pwm_of_words (a ∷ b ∷ c ∷ d ∷ e ∷ f ∷ []) =
    some (record { pwm_0 = a; pwm_1 = b; pwm_2 = c; pwm_3 = d; pwm_4 = e; pwm_5 = f })
pwm_of_words _ = none

unfoldable pub imu_from_bytes : Bytes → Option ImuMsg
unfolding read_words
imu_from_bytes bs = if ltb (length bs) imu_msg_size then none else imu_of_words (read_words 9 bs)

unfoldable pub orientation_from_bytes : Bytes → Option OrientationMsg
unfolding read_words
orientation_from_bytes bs =
    if ltb (length bs) orientation_msg_size then none else orientation_of_words (read_words 3 bs)

unfoldable pub depth_from_bytes : Bytes → Option DepthMsg
unfolding read_words
depth_from_bytes bs =
    if ltb (length bs) depth_msg_size then none else depth_of_words (read_words 1 bs)

unfoldable pub pwm_from_bytes : Bytes → Option ThrusterPwmCmd
unfolding read_words
pwm_from_bytes bs =
    if ltb (length bs) thruster_pwm_size then none else pwm_of_words (read_words 6 bs)

abbrev pub pwm_words : ThrusterPwmCmd → List ℕ
pwm_words c = c.pwm_0 ∷ c.pwm_1 ∷ c.pwm_2 ∷ c.pwm_3 ∷ c.pwm_4 ∷ c.pwm_5 ∷ []

unfoldable pub pwm_to_bytes : ThrusterPwmCmd → Bytes
unfolding write_words
pwm_to_bytes c = write_words (pwm_words c)
