-- ===== src/Uart.antt =====
-- uart/mod.rs: `UartBridge`. It cuts frames out of the bytes that the serial port delivers and
-- publishes each to the byte topic of its message type; and it writes frames to the port.
pub mod Message
pub mod Wire
pub mod Scanned
pub mod ScanCases
pub mod Roundtrip
pub mod Sound
pub mod Stream
pub mod Stuck
pub mod Total
pub mod Send
pub mod Loop
pub mod Bridge
pub mod Names
pub mod Carries
pub mod Received
pub mod Delivery
use Message.{MsgType, to_u8, from_u8, to_topic_name}
use Wire.{
  Bytes, sync_byte, max_msg_size, calculate_checksum, slice, drain, Scan, waiting, framed, scan,
}
use bibi_sync.Base.{
  ℕ, zero, suc, ◌+◌, ◌%◌, Bool, true, false, Option, none, some, List, [], ◌∷◌, ◌++◌, ltb,
  if◌then◌else◌, length, Exec, done, panicked, out_of_fuel, ◌>>=◌,
}
use bibi_sync.Registry
use bibi_sync.Registry.{ByteShelf}

pub record UartFrame : Type 0 where
  pub msg_type : MsgType
  pub payload : Bytes

-- The end of `try_parse_frame`. The `?` on an unknown type leaves the buffer as it is.
unfoldable pub finish : Scan → Exec (Option UartFrame × Bytes)
finish (waiting rx) = done (none, rx)
finish (framed msg_type_byte len rx) = elim (from_u8 msg_type_byte) [
  | none ↦ done (none, rx)
  | some msg_type ↦ (do
    payload ← slice 3 (3 + len) rx
    rest ← drain (4 + len) rx
    done (some (record { msg_type = msg_type; payload = payload }), rest))
]

unfoldable pub try_parse_frame : Bytes → Exec (Option UartFrame × Bytes)
try_parse_frame rx = do found ← scan rx; finish found

unfoldable pub publish_frame : ByteShelf → UartFrame → Exec ByteShelf
publish_frame shelf frame = do
  let (topic, shelf') = Registry.get_or_create_byte shelf (to_topic_name frame.msg_type) 32
  arc ← topic
  (epoch, shelf'') ← Registry.publish_at shelf' arc frame.payload
  done shelf''

-- The loop of `process_buffer`.
unfoldable pub process_loop : ℕ → ByteShelf → Bytes → Exec (ByteShelf × Bytes)
process_loop zero shelf rx = out_of_fuel
process_loop (suc fuel) shelf rx = do
  (parsed, rest) ← try_parse_frame rx
  elim parsed [
    | none ↦ done (shelf, rest)
    | some frame ↦ (do shelf' ← publish_frame shelf frame; process_loop fuel shelf' rest)
  ]

-- Every round with a frame takes bytes away; the fuel is one more than the buffer's length.
unfoldable pub process_buffer : ByteShelf → Bytes → Exec (ByteShelf × Bytes)
process_buffer shelf rx = process_loop (suc (length rx)) shelf rx

-- What `run_loop` does with the bytes of one read.
unfoldable pub on_read : ByteShelf → Bytes → Bytes → Exec (ByteShelf × Bytes)
on_read shelf rx chunk = process_buffer shelf (rx ++ chunk)

-- The frame that `send_frame` builds.
unfoldable pub build_frame : MsgType → Bytes → Bytes
build_frame msg_type payload =
    let body = to_u8 msg_type ∷ length payload % 256 ∷ payload in
    sync_byte ∷ body ++ calculate_checksum body ∷ []

pub data IoResult : Type 0 where
  ok : IoResult
  invalid_input : IoResult
  port_error : ℕ → IoResult

-- What `send_frame` uses of `serialport::SerialPort`.
pub record SerialPort : Type 1 where
  pub State : Type 0
  pub write_all : State → Bytes → IoResult × State
  pub flush : State → IoResult × State

module _ (port : SerialPort) where
  open port use {State, write_all, flush}

  unfoldable pub send_frame : State → MsgType → Bytes → IoResult × State
  send_frame s msg_type payload =
      if ltb max_msg_size (length payload)
      then (invalid_input, s)
      else let (written, s') = write_all s (build_frame msg_type payload) in
        elim written [ ok ↦ flush s' | error ↦ (error, s') ]
