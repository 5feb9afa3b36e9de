-- ===== src/EndToEnd.antt =====
-- examples/stm32_test.rs: the test that sends thruster frames over the port and counts the sensor
-- messages that come in.
pub mod Counts
pub mod Stream
pub mod Outcome
use mathlib.Core.List.{foldl}
use bibi_sync.Base.{
  ℕ, zero, suc, ◌+◌, ◌%◌, ◌^◌, ◌&&◌, Bool, Option, none, some, List, [], ◌∷◌, ◌++◌, ltb, ◌==◌,
  if◌then◌else◌, length, Exec, done, panicked, out_of_fuel, ◌>>=◌,
}
use bibi_sync.Protocol.{
  ImuMsg, OrientationMsg, DepthMsg, imu_from_bytes, orientation_from_bytes, depth_from_bytes,
  pwm_to_bytes,
}
use bibi_sync.Mixer.{Six, six}
use bibi_sync.Uart.{SerialPort, IoResult, ok}
use bibi_sync.Uart.Loop.{ReadResult, bytes_read, timed_out, read_error}
use bibi_sync.Uart.Message.{MsgType, imu, depth, thruster, orientation}
use bibi_sync.Uart.Wire.{Bytes, scan}
use bibi_sync.Controller.{build_frame, finish}
use bibi_sync.Controller.Run.{pwm_cmd}

-- The same text as the controller's parser.
unfoldable pub try_parse_frame : Bytes → Exec (Option (MsgType × Bytes) × Bytes)
try_parse_frame rx = do found ← scan rx; finish found

-- The counters are `i32`. A line is printed of some messages.
pub record Tally : Type 0 where
  pub imu_count : ℕ
  pub orientation_count : ℕ
  pub depth_count : ℕ
  pub imu_lines : List ImuMsg
  pub orientation_lines : List OrientationMsg
  pub depth_lines : List DepthMsg

abbrev pub nothing_received : Tally
nothing_received = record {
  imu_count = 0;
  orientation_count = 0;
  depth_count = 0;
  imu_lines = [];
  orientation_lines = [];
  depth_lines = [];
}

-- `count += 1`
abbrev pub next_count : ℕ → ℕ
next_count n = (n + 1) % 2 ^ 32

-- `count % 10 == 1`; the remainder of a negative number is not positive.
abbrev pub is_printed : ℕ → Bool
is_printed n = ltb n (2 ^ 31) && n % 10 == 1

-- `count > 0`
abbrev pub is_positive : ℕ → Bool
is_positive n = ltb 0 n && ltb n (2 ^ 31)

-- The lines, with the next one if it is printed.
abbrev pub printed : {A : Type 0} → (n : ℕ) → A → List A → List A
printed n a lines = if is_printed n then lines ++ a ∷ [] else lines

-- The arms of the `match` with their `if let`.
abbrev pub count_imu : Tally → Option ImuMsg → Tally
count_imu t none = t
count_imu t (some msg) =
    let n = next_count t.imu_count in
    record t { imu_count = n; imu_lines = printed n msg t.imu_lines }

abbrev pub count_orientation : Tally → Option OrientationMsg → Tally
count_orientation t none = t
count_orientation t (some msg) =
    let n = next_count t.orientation_count in
    record t { orientation_count = n; orientation_lines = printed n msg t.orientation_lines }

abbrev pub count_depth : Tally → Option DepthMsg → Tally
count_depth t none = t
count_depth t (some msg) =
    let n = next_count t.depth_count in
    record t { depth_count = n; depth_lines = printed n msg t.depth_lines }

unfoldable pub count_frame : Tally → MsgType × Bytes → Tally
count_frame t (imu, payload) = count_imu t (imu_from_bytes payload)
count_frame t (orientation, payload) = count_orientation t (orientation_from_bytes payload)
count_frame t (depth, payload) = count_depth t (depth_from_bytes payload)
count_frame t (_, payload) = t

-- The inner `while let`. Every round with a frame takes bytes away.
unfoldable pub count_frames : ℕ → Tally → Bytes → Exec (Tally × Bytes)
count_frames zero t rx = out_of_fuel
count_frames (suc fuel) t rx = do
  (parsed, rest) ← try_parse_frame rx
  elim parsed [ none ↦ done (t, rest) | some msg ↦ count_frames fuel (count_frame t msg) rest ]

-- A round of the outer loop; an error is printed.
unfoldable pub on_read : Tally → Bytes → ReadResult → Exec (Tally × Bytes)
on_read t rx (bytes_read []) = done (t, rx)
on_read t rx (bytes_read (b ∷ bs)) = count_frames (suc (length (rx ++ b ∷ bs))) t (rx ++ b ∷ bs)
on_read t rx timed_out = done (t, rx)
on_read t rx (read_error code) = done (t, rx)

-- The reads of the ten seconds.
unfoldable pub receive_all : Tally → Bytes → List ReadResult → Exec (Tally × Bytes)
receive_all t rx [] = done (t, rx)
receive_all t rx (result ∷ results) = do
  (t', rest) ← on_read t rx result
  receive_all t' rest results

-- Whether the test says that all is well.
abbrev pub all_received : Tally → Bool
all_received t =
    is_positive t.imu_count && is_positive t.orientation_count && is_positive t.depth_count

abbrev pub all_six : ℕ → Six ℕ
all_six pwm = six pwm pwm pwm pwm pwm pwm

abbrev pub neutral : ℕ
neutral = 1500

abbrev pub ramp : List ℕ
ramp = 1500 ∷ 1520 ∷ 1540 ∷ 1520 ∷ 1500 ∷ []

module _ (port : SerialPort) where
  open port use {State, write_all, flush}

  -- There is no test of the length.
  unfoldable pub send_frame : State → MsgType → Bytes → IoResult × State
  send_frame s msg_type payload =
      let (written, s') = write_all s (build_frame msg_type payload) in
      elim written [ ok ↦ flush s' | error ↦ (error, s') ]

  -- `expect`
  abbrev pub expect_sent : IoResult × State → Exec State
  expect_sent (ok, s) = done s
  expect_sent (_, s) = panicked

  unfoldable pub send_pwm : State → ℕ → Exec State
  send_pwm s pwm = expect_sent (send_frame s thruster (pwm_to_bytes (pwm_cmd (all_six pwm))))

  unfoldable pub send_ramp : State → List ℕ → Exec State
  send_ramp s [] = done s
  send_ramp s (pwm ∷ pwms) = do s' ← send_pwm s pwm; send_ramp s' pwms

  -- `main` on an open port, with the reads of the ten seconds.
  unfoldable pub run : State → List ReadResult → Exec (Tally × Bool × State)
  run s results = do
    s' ← send_pwm s neutral
    (t, rest) ← receive_all nothing_received [] results
    s'' ← send_ramp s' ramp
    done (t, all_received t, s'')
