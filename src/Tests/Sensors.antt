-- ===== src/Tests/Sensors.antt =====
-- The end-to-end test with the board, at fixed reads.
use bibi_sync.Base.{
  ◌&&◌, ◌≡◌, refl, List, [], ◌∷◌, ◌++◌, map, arith, ltb, some, done, panicked, take, drop,
}
use bibi_sync.Protocol.{imu_msg_size, orientation_msg_size, depth_msg_size}
use bibi_sync.Uart.{UartFrame, SerialPort, ok, port_error, build_frame}
use bibi_sync.Uart.Loop.{ReadResult, bytes_read, timed_out, read_error}
use bibi_sync.Uart.Message.{imu, orientation, depth, to_u8}
use bibi_sync.Uart.Wire.{Bytes, calculate_checksum}
use bibi_sync.Uart.Stream.{encode_all}
use bibi_sync.Controller.{sensor_type}
use bibi_sync.Controller.Run.Sent.{frames}
use bibi_sync.EndToEnd.{Tally, all_received, all_six, neutral, ramp, send_frame, send_pwm, run}
use bibi_sync.EndToEnd.Counts.{carried, Counted}
use bibi_sync.EndToEnd.Stream.{bytes_of}
use bibi_sync.EndToEnd.Outcome.{run-counts, run-total}
use bibi_sync.Tests.Frames.{wire, open_wire}

-- A depth of four bytes, and an orientation that is too short.
abbrev sensed : List UartFrame
sensed =
    record { msg_type = depth; payload = 1 ∷ 2 ∷ 3 ∷ 4 ∷ [] }
    ∷ record { msg_type = orientation; payload = 5 ∷ [] }
    ∷ []

abbrev reads : List ReadResult
unfolding encode_all build_frame to_u8 calculate_checksum
reads =
    bytes_read (take 3 (encode_all sensed))
    ∷ timed_out
    ∷ bytes_read (drop 3 (encode_all sensed))
    ∷ read_error 5
    ∷ []

sensed_come_in : bytes_of reads ≡ encode_all sensed
unfolding bytes_of encode_all build_frame to_u8 calculate_checksum
sensed_come_in = refl

depth_known : sensor_type (to_u8 depth) ≡ some depth
unfolding sensor_type to_u8
depth_known = refl

orientation_known : sensor_type (to_u8 orientation) ≡ some orientation
unfolding sensor_type to_u8
orientation_known = refl

run-counts_example :
    let i = carried imu imu_msg_size sensed in
    let n = carried orientation orientation_msg_size sensed in
    let d = carried depth depth_msg_size sensed in
    (t : Tally) × (s' : Bytes) × (run wire [] reads ≡ done (t, ltb 0 i && ltb 0 n && ltb 0 d, s'))
    × Counted t i n d
run-counts_example =
    run-counts wire open_wire [] reads sensed (omega arith, (omega arith, tt))
      (depth_known, (orientation_known, tt)) (omega arith) sensed_come_in

one_depth : carried depth depth_msg_size sensed ≡ 1
unfolding to_u8
one_depth = refl

no_orientation : carried orientation orientation_msg_size sensed ≡ 0
unfolding to_u8
no_orientation = refl

run-total_example :
    (t : Tally) × (s' : Bytes) × (run wire [] (bytes_read (0xaa ∷ 9 ∷ 0 ∷ 9 ∷ 1 ∷ []) ∷ reads)
      ≡ done (t, all_received t, s'))
    × (s' ≡ [] ++ frames (map all_six (neutral ∷ ramp)))
run-total_example = run-total wire open_wire [] (bytes_read (0xaa ∷ 9 ∷ 0 ∷ 9 ∷ 1 ∷ []) ∷ reads)

-- A port that is gone.
abbrev unplugged : SerialPort
unplugged = record { State = Bytes; write_all = λ s bs. (port_error 5, s); flush = λ s. (ok, s) }

unplugged_panics : run unplugged [] reads ≡ panicked
unfolding run send_pwm send_frame
unplugged_panics = refl
