-- ===== src/Tests/Frames.antt =====
-- The bridge on two frames: a depth of the bytes 1 and 2, and a heartbeat without a payload.
use mathlib.Core.List.{flatten}
use bibi_sync.Base.{ℕ, ◌≡◌, ◌≢◌, refl, none, some, List, [], ◌∷◌, ◌++◌, arith, done, true, false}
use bibi_sync.Registry.{ByteShelf, empty_shelf}
use bibi_sync.Registry.Byte.{empty_shelf-IsValid}
use bibi_sync.Uart.{
  UartFrame, finish, try_parse_frame, build_frame, SerialPort, ok, send_frame, process_buffer,
}
use bibi_sync.Uart.Message.{depth, heartbeat, to_u8, from_u8}
use bibi_sync.Uart.Wire.{Bytes, scan, scan_synced, sync_position, verify, calculate_checksum}
use bibi_sync.Uart.Scanned.{frame_bytes}
use bibi_sync.Uart.ScanCases.{candidate}
use bibi_sync.Uart.Sound.{Parse, try_parse_frame_cases}
use bibi_sync.Uart.Stream.{encode_all, publish_all, read_all}
use bibi_sync.Uart.Stuck.{unknown_type_blocks, bad_checksum_stalls}
use bibi_sync.Uart.Total.{read_all-total, read_all_publishes}
use bibi_sync.Uart.Loop.{ReadResult, bytes_read, timed_out, chunks_read}
use bibi_sync.Uart.Bridge.{
  UartBridge, new, start, stop_bridge, run_thread, returned, undisturbed, all_reads,
  run_thread_delivers,
}
use bibi_sync.Uart.Received.{Delivered}
use bibi_sync.Uart.Delivery.{payloads}
use bibi_sync.Uart.Send.{IsOpen, send_all, send_all-read_all}

abbrev two_sent : List UartFrame
two_sent =
    record { msg_type = depth; payload = 1 ∷ 2 ∷ [] }
    ∷ record { msg_type = heartbeat; payload = [] }
    ∷ []

two_sent_bytes : encode_all two_sent ≡ 0xaa ∷ 2 ∷ 2 ∷ 1 ∷ 2 ∷ 7 ∷ 0xaa ∷ 4 ∷ 0 ∷ 4 ∷ []
unfolding encode_all build_frame to_u8 calculate_checksum
two_sent_bytes = refl

-- The same bytes in three reads.
abbrev in_pieces : List Bytes
in_pieces = (0xaa ∷ 2 ∷ []) ∷ (2 ∷ 1 ∷ 2 ∷ 7 ∷ 0xaa ∷ []) ∷ (4 ∷ 0 ∷ 4 ∷ []) ∷ []

in_pieces_bytes : flatten in_pieces ≡ encode_all two_sent
unfolding flatten encode_all build_frame to_u8 calculate_checksum
in_pieces_bytes = refl

parsed :
    try_parse_frame (9 ∷ 0xaa ∷ 2 ∷ 2 ∷ 1 ∷ 2 ∷ 7 ∷ 3 ∷ [])
    ≡ done (some (record { msg_type = depth; payload = 1 ∷ 2 ∷ [] }), 3 ∷ [])
unfolding try_parse_frame finish scan scan_synced sync_position verify calculate_checksum from_u8
parsed = refl

read_all_publishes_example :
    (shelf' : ByteShelf) × (publish_all empty_shelf two_sent ≡ done shelf')
    × (read_all empty_shelf [] in_pieces ≡ done (shelf', []))
read_all_publishes_example =
    read_all_publishes empty_shelf 0 two_sent in_pieces empty_shelf-IsValid (omega arith)
      (omega arith, (omega arith, tt)) in_pieces_bytes

try_parse_frame_cases_example :
    Parse (9 ∷ 0xaa ∷ 4 ∷ 0 ∷ 4 ∷ []) (try_parse_frame (9 ∷ 0xaa ∷ 4 ∷ 0 ∷ 4 ∷ []))
try_parse_frame_cases_example = try_parse_frame_cases (9 ∷ 0xaa ∷ 4 ∷ 0 ∷ 4 ∷ [])

read_all-total_example :
    (shelf' : ByteShelf) × (rest : Bytes) × (read_all empty_shelf (9 ∷ []) in_pieces
      ≡ done (shelf', rest))
unfolding flatten
read_all-total_example =
    read_all-total in_pieces (9 ∷ []) empty_shelf 0 empty_shelf-IsValid (omega arith)

nine_is_junk : ◌≢◌ {A = ℕ} 9 0xaa
nine_is_junk = omega arith

unknown_0x20 : from_u8 0x20 ≡ none
unfolding from_u8
unknown_0x20 = refl

unknown_type_blocks_example :
    read_all empty_shelf (frame_bytes 0x20 (1 ∷ []) ++ []) in_pieces
    ≡ done (empty_shelf, frame_bytes 0x20 (1 ∷ []) ++ ([] ++ flatten in_pieces))
unknown_type_blocks_example =
    unknown_type_blocks 0x20 (1 ∷ []) unknown_0x20 (omega arith) empty_shelf in_pieces []

-- A checksum of 8 where 7 is due, before a whole frame.
wrong_checksum : 8 ≢ calculate_checksum (2 ∷ 2 ∷ 1 ∷ 2 ∷ [])
unfolding calculate_checksum
wrong_checksum = omega arith

bad_checksum_stalls_example :
    process_buffer empty_shelf (candidate 2 (1 ∷ 2 ∷ []) 8 (0xaa ∷ 4 ∷ 0 ∷ 4 ∷ []))
    ≡ done (empty_shelf, 2 ∷ 2 ∷ 1 ∷ 2 ∷ 8 ∷ 0xaa ∷ 4 ∷ 0 ∷ 4 ∷ [])
bad_checksum_stalls_example =
    bad_checksum_stalls 2 (1 ∷ 2 ∷ []) 8 (0xaa ∷ 4 ∷ 0 ∷ 4 ∷ []) empty_shelf (omega arith)
      wrong_checksum

-- A port that keeps what is written.
abbrev pub wire : SerialPort
wire = record { State = Bytes; write_all = λ s bs. (ok, s ++ bs); flush = λ s. (ok, s) }

abbrev pub open_wire : IsOpen wire
open_wire = record {
  sent = λ s. s;
  write_ok = λ s bs. refl;
  write_sent = λ s bs. refl;
  flush_ok = λ s. refl;
  flush_sent = λ s. refl;
}

sent_on_wire : flatten in_pieces ≡ send_all wire open_wire [] two_sent
unfolding flatten send_all send_frame build_frame to_u8 calculate_checksum
sent_on_wire = refl

send_all-read_all_example :
    (shelf' : ByteShelf) × (publish_all empty_shelf two_sent ≡ done shelf')
    × (read_all empty_shelf [] in_pieces ≡ done (shelf', []))
send_all-read_all_example =
    send_all-read_all wire open_wire [] two_sent in_pieces empty_shelf 0 refl
      (omega arith, (omega arith, tt)) sent_on_wire empty_shelf-IsValid (omega arith)

two_sent_depths : payloads depth two_sent ≡ (1 ∷ 2 ∷ []) ∷ []
unfolding payloads to_u8
two_sent_depths = refl

-- The same reads with a time-out among them, then `stop_bridge`, with bytes that are not read any more.
abbrev some_reads : List ReadResult
some_reads =
    bytes_read (0xaa ∷ 2 ∷ [])
    ∷ timed_out
    ∷ bytes_read (2 ∷ 1 ∷ 2 ∷ 7 ∷ 0xaa ∷ [])
    ∷ bytes_read (4 ∷ 0 ∷ 4 ∷ [])
    ∷ []

abbrev idle_bridge : UartBridge
idle_bridge = record { running = false; rx_buffer = [] }

idle_bridge-new : new true ≡ some idle_bridge
unfolding new
idle_bridge-new = refl

some_reads_bytes : flatten (chunks_read (all_reads some_reads)) ≡ encode_all two_sent
unfolding flatten chunks_read encode_all build_frame to_u8 calculate_checksum
some_reads_bytes = refl

run_thread_delivers_example :
    (shelf : ByteShelf) × (run_thread empty_shelf (start idle_bridge) (
        undisturbed some_reads
        ++ record { stops = true; result = bytes_read (0xaa ∷ []) }
          ∷ record { stops = false; result = bytes_read (4 ∷ []) }
          ∷ [])
      ≡ done (returned shelf (stop_bridge idle_bridge)))
    × Delivered shelf depth (payloads depth two_sent)
run_thread_delivers_example =
    run_thread_delivers depth two_sent some_reads (bytes_read (0xaa ∷ []))
      (record { stops = false; result = bytes_read (4 ∷ []) } ∷ []) idle_bridge idle_bridge-new
      (omega arith) (omega arith, (omega arith, tt)) some_reads_bytes
