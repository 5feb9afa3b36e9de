-- ===== src/Protocol/Roundtrip.antt =====
-- uart/protocol.rs: messages to bytes and back.
use bibi_sync.Base.{
  ℕ, ◌*◌, ◌/◌, ◌%◌, ◌^◌, ◌<◌, ◌≡◌, refl, ap, ap₂, Option, none, some, List, [], ◌∷◌, ◌++◌, arith,
  length, length-append, lt→ltb, ltb, if◌then◌else◌, false,
}
use bibi_sync.Protocol.{
  Bytes, word_of, read_words, write_words, ThrusterPwmCmd, ImuMsg, pwm_from_bytes, pwm_to_bytes,
  pwm_words, pwm_of_words, thruster_pwm_size, imu_from_bytes, imu_of_words, imu_msg_size,
  orientation_from_bytes, orientation_of_words, orientation_msg_size, depth_from_bytes,
  depth_of_words, depth_msg_size, OrientationMsg, DepthMsg,
}

abbrev pub AllWords : List ℕ → Type 0
AllWords [] = Unit
AllWords (w ∷ ws) = (w < 2 ^ 32) × AllWords ws

word_of-word_bytes :
    (w : ℕ)
    → w < 2 ^ 32
    → word_of (w % 256) (w / 256 % 256) (w / 65536 % 256) (w / 16777216 % 256) ≡ w
word_of-word_bytes w h = omega arith

pub read_words-write_words :
    (ws : List ℕ) (rest : Bytes)
    → AllWords ws
    → read_words (length ws) (write_words ws ++ rest) ≡ ws
unfolding read_words write_words
read_words-write_words [] rest h = refl
read_words-write_words (w ∷ ws) rest h =
    ap₂ ◌∷◌ (word_of-word_bytes w h.0) (read_words-write_words ws rest h.1)

pub length-write_words : (ws : List ℕ) → length (write_words ws) ≡ 4 * length ws
unfolding write_words
length-write_words [] = refl
length-write_words (w ∷ ws) = omega (arith, length-write_words ws)

-- A message of `n` words, each of the program's decoders being an instance: too few bytes give
-- nothing, enough give the words at the front.
abbrev decode {ℓ} : {A : Type ℓ} → ℕ → (List ℕ → Option A) → ℕ → Bytes → Option A
decode size of_words n bs = if ltb (length bs) size then none else of_words (read_words n bs)

decode-write_words {ℓ} :
    {A : Type ℓ} (size : ℕ) (of_words : List ℕ → Option A) (ws : List ℕ) (rest : Bytes)
    → size ≡ 4 * length ws
    → AllWords ws
    → decode size of_words (length ws) (write_words ws ++ rest) ≡ of_words ws
decode-write_words size of_words ws rest exact h =
    rw enough (ap of_words (read_words-write_words ws rest h))
  where
    enough : ltb (length (write_words ws ++ rest)) size ≡ false
    enough = ground (arith, length-append (write_words ws) rest, length-write_words ws)

decode-short {ℓ} :
    {A : Type ℓ} (size : ℕ) (of_words : List ℕ → Option A) (n : ℕ) (bs : Bytes)
    → length bs < size
    → decode size of_words n bs ≡ none
decode-short size of_words n bs short = rw (lt→ltb (length bs) size short)

-- If the six values of a thruster command are 32-bit patterns, `to_bytes` gives 24 bytes and
-- `from_bytes` reads the command back from them, whatever stands behind them.
pub pwm_from_bytes-pwm_to_bytes :
    (c : ThrusterPwmCmd) (rest : Bytes)
    → AllWords (pwm_words c)
    → (length (pwm_to_bytes c) ≡ thruster_pwm_size)
      × (pwm_from_bytes (pwm_to_bytes c ++ rest) ≡ some c)
unfolding pwm_from_bytes pwm_to_bytes
pwm_from_bytes-pwm_to_bytes c rest h =
    (refl, decode-write_words thruster_pwm_size pwm_of_words (pwm_words c) rest refl h)

abbrev pub imu_words : ImuMsg → List ℕ
imu_words m =
    m.accel_x ∷ m.accel_y ∷ m.accel_z ∷ m.gyro_x ∷ m.gyro_y ∷ m.gyro_z ∷ m.mag_x ∷ m.mag_y ∷ m.mag_z
    ∷ []

-- If the fields of the three sensor messages are 32-bit patterns, `from_bytes` reads each message
-- back from the little-endian words of its fields in their order, whatever stands behind them.
pub sensors_from_bytes :
    (m : ImuMsg) (o : OrientationMsg) (d : DepthMsg) (rest : Bytes)
    → AllWords (imu_words m)
    → AllWords (o.roll ∷ o.pitch ∷ o.yaw ∷ [])
    → AllWords (d.depth ∷ [])
    → (imu_from_bytes (write_words (imu_words m) ++ rest) ≡ some m)
      × (orientation_from_bytes (write_words (o.roll ∷ o.pitch ∷ o.yaw ∷ []) ++ rest) ≡ some o)
      × (depth_from_bytes (write_words (d.depth ∷ []) ++ rest) ≡ some d)
unfolding imu_from_bytes orientation_from_bytes depth_from_bytes
sensors_from_bytes m o d rest hm ho hd = (
  decode-write_words imu_msg_size imu_of_words (imu_words m) rest refl hm,
  decode-write_words orientation_msg_size orientation_of_words (o.roll ∷ o.pitch ∷ o.yaw ∷ []) rest
      refl ho,
  decode-write_words depth_msg_size depth_of_words (d.depth ∷ []) rest refl hd,
)

-- Too few bytes give no message.
pub short_from_bytes :
    (bs : Bytes)
    → (length bs < imu_msg_size → imu_from_bytes bs ≡ none)
      × (length bs < orientation_msg_size → orientation_from_bytes bs ≡ none)
      × (length bs < depth_msg_size → depth_from_bytes bs ≡ none)
      × (length bs < thruster_pwm_size → pwm_from_bytes bs ≡ none)
unfolding imu_from_bytes orientation_from_bytes depth_from_bytes pwm_from_bytes
short_from_bytes bs = (
  decode-short imu_msg_size imu_of_words 9 bs,
  decode-short orientation_msg_size orientation_of_words 3 bs,
  decode-short depth_msg_size depth_of_words 1 bs,
  decode-short thruster_pwm_size pwm_of_words 6 bs,
)
