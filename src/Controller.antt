-- ===== src/Controller.antt =====
-- auv/controller.rs: what `AuvController` shares between its threads, and what it does with the
-- bytes of the serial port. An `f32` is its 32-bit pattern.
pub mod Receive
pub mod Run
use bibi_sync.Base.{
  ℕ, zero, suc, ◌+◌, ◌%◌, Bool, false, Option, none, some, List, [], ◌∷◌, ◌++◌, ◌==◌, if◌then◌else◌,
  length, Exec, done, panicked, out_of_fuel, ◌>>=◌,
}
use bibi_sync.Protocol.{
  ImuMsg, OrientationMsg, DepthMsg, imu_from_bytes, orientation_from_bytes, depth_from_bytes,
}
use bibi_sync.Mixer.{ThrustCommand, no_thrust}
use bibi_sync.Uart.Message.{
  MsgType, to_u8, imu, depth, thruster, heartbeat, orientation, command, ack, led, calibration,
}
use bibi_sync.Uart.Wire.{
  Bytes, sync_byte, calculate_checksum, slice, drain, Scan, waiting, framed, scan,
}

pub record SensorData : Type 0 where
  pub imu : Option ImuMsg
  pub orientation : Option OrientationMsg
  pub depth : Option DepthMsg

-- What the controller's threads share.
pub record Shared : Type 0 where
  pub running : Bool
  pub sensors : SensorData
  pub thrust_cmd : ThrustCommand

unfoldable pub new : Shared
new = record {
  running = false;
  sensors = record { imu = none; orientation = none; depth = none };
  thrust_cmd = no_thrust;
}

unfoldable pub set_thrust : Shared → ThrustCommand → Shared
set_thrust c cmd = record c { thrust_cmd = cmd }

unfoldable pub set_surge : Shared → ℕ → Shared
set_surge c value = record c { thrust_cmd = record c.thrust_cmd { surge = value } }

unfoldable pub set_sway : Shared → ℕ → Shared
set_sway c value = record c { thrust_cmd = record c.thrust_cmd { sway = value } }

unfoldable pub set_heave : Shared → ℕ → Shared
set_heave c value = record c { thrust_cmd = record c.thrust_cmd { heave = value } }

unfoldable pub set_roll : Shared → ℕ → Shared
set_roll c value = record c { thrust_cmd = record c.thrust_cmd { roll = value } }

unfoldable pub set_pitch : Shared → ℕ → Shared
set_pitch c value = record c { thrust_cmd = record c.thrust_cmd { pitch = value } }

unfoldable pub set_yaw : Shared → ℕ → Shared
set_yaw c value = record c { thrust_cmd = record c.thrust_cmd { yaw = value } }

unfoldable pub get_orientation : Shared → Option (ℕ × ℕ × ℕ)
get_orientation c = elim c.sensors.orientation [
  | none ↦ none
  | some o ↦ some (o.roll, o.pitch, o.yaw)
]

unfoldable pub get_depth : Shared → Option ℕ
get_depth c = elim c.sensors.depth [ none ↦ none | some d ↦ some d.depth ]

unfoldable pub stop : Shared → Shared
unfolding set_thrust
stop c = set_thrust c no_thrust

unfoldable pub shutdown : Shared → Shared
shutdown c = record c { running = false }

-- The frame that the controller's `send_frame` writes; it has no test of the length.
unfoldable pub build_frame : MsgType → Bytes → Bytes
build_frame msg_type payload =
    let body = to_u8 msg_type ∷ length payload % 256 ∷ payload in
    sync_byte ∷ body ++ calculate_checksum body ∷ []

-- The type bytes that the controller reads.
unfoldable pub sensor_type : ℕ → Option MsgType
sensor_type msg_type_byte =
    if msg_type_byte == 0x01
    then some imu
    else if msg_type_byte == 0x02
    then some depth
    else if msg_type_byte == 0x05
    then some orientation
    else none

-- The end of `try_parse_frame`. A frame of another type is drained.
unfoldable pub finish : Scan → Exec (Option (MsgType × Bytes) × Bytes)
finish (waiting rx) = done (none, rx)
finish (framed msg_type_byte len rx) = elim (sensor_type msg_type_byte) [
  | none ↦ (do rest ← drain (4 + len) rx; done (none, rest))
  | some msg_type ↦ (do
    payload ← slice 3 (3 + len) rx
    rest ← drain (4 + len) rx
    done (some (msg_type, payload), rest))
]

-- Up to the test of the type it is the same text as the bridge's.
unfoldable pub try_parse_frame : Bytes → Exec (Option (MsgType × Bytes) × Bytes)
try_parse_frame rx = do found ← scan rx; finish found

-- `if let Some(msg) = from_bytes(&payload) { sensors.field = Some(msg) }` leaves what was there if
-- the payload is too short.
abbrev pub or_keep : {A : Type 0} → Option A → Option A → Option A
or_keep none old = old
or_keep (some a) old = some a

-- The arms of `process_rx`.
unfoldable pub handle : SensorData → MsgType × Bytes → SensorData
handle s (imu, payload) = record s { imu = or_keep (imu_from_bytes payload) s.imu }
handle s (orientation, payload) = record s {
  orientation = or_keep (orientation_from_bytes payload) s.orientation;
}
handle s (depth, payload) = record s { depth = or_keep (depth_from_bytes payload) s.depth }
handle s (_, payload) = s

unfoldable pub rx_loop : ℕ → SensorData → Bytes → Exec (SensorData × Bytes)
rx_loop zero s rx = out_of_fuel
rx_loop (suc fuel) s rx = do
  (parsed, rest) ← try_parse_frame rx
  elim parsed [ none ↦ done (s, rest) | some msg ↦ rx_loop fuel (handle s msg) rest ]

-- Every round with a message takes bytes away; the fuel is one more than the buffer's length.
unfoldable pub process_rx : SensorData → Bytes → Exec (SensorData × Bytes)
process_rx s rx = rx_loop (suc (length rx)) s rx
