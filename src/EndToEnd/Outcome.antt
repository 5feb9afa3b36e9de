-- ===== src/EndToEnd/Outcome.antt =====
-- examples/stm32_test.rs: what `main` comes to on a port that accepts every write.
use bibi_sync.Base.{
  ℕ, zero, suc, ◌+◌, ◌^◌, ◌&&◌, ◌≤◌, ◌<◌, ◌≡◌, refl, sym, ap, ◌∙◌, inl, inr, Option-cases, Bool,
  true, false, List, [], ◌∷◌, ◌++◌, append_assoc, append-nil, arith, ltb, length, map, done, ◌>>=◌,
}
use bibi_sync.Protocol.{imu_msg_size, orientation_msg_size, depth_msg_size, pwm_to_bytes}
use bibi_sync.Uart.{UartFrame, SerialPort, IoResult, ok}
use bibi_sync.Uart.Loop.{ReadResult, bytes_read, timed_out, read_error}
use bibi_sync.Uart.Message.{MsgType, imu, orientation, depth, thruster}
use bibi_sync.Uart.Wire.{Bytes}
use bibi_sync.Uart.Send.{IsOpen}
use bibi_sync.Uart.Stream.{encode_all, AllFit, IsShort}
use bibi_sync.Controller.{build_frame}
use bibi_sync.Controller.Receive.{AllSensor, try_parse_frame-Progress}
use bibi_sync.Controller.Run.{pwm_cmd}
use bibi_sync.Controller.Run.Sent.{frames}
use bibi_sync.EndToEnd.{
  Tally, nothing_received, count_frame, count_frames, on_read, receive_all, all_received, all_six,
  neutral, ramp, expect_sent, send_frame, send_pwm, send_ramp, run,
}
use bibi_sync.EndToEnd.Counts.{
  carried, carries, one_if, Counted, Counted-same, count_frame-Counted, verdict,
}
use bibi_sync.EndToEnd.Stream.{bytes_of, count_all, parse_same, receive_all-count_all}

one_if_bound : (b : Bool) → one_if b ≤ 1
one_if_bound true = omega arith
one_if_bound false = omega arith

carried_bound : (t : MsgType) (size : ℕ) (fs : List UartFrame) → carried t size fs ≤ length fs
carried_bound t size [] = omega arith
carried_bound t size (f ∷ fs) =
    omega (arith, carried_bound t size fs, one_if_bound (carries t size (f.msg_type, f.payload)))

-- Each counter counts the frames of its type.
count_all-Counted :
    (frames : List UartFrame) (t : Tally) (i o d : ℕ)
    → Counted t i o d
    → (i + length frames < 2 ^ 31) × (o + length frames < 2 ^ 31) × (d + length frames < 2 ^ 31)
    → Counted
        (count_all t frames)
        (i + carried imu imu_msg_size frames)
        (o + carried orientation orientation_msg_size frames)
        (d + carried depth depth_msg_size frames)
count_all-Counted [] t i o d v small = Counted-same v (omega arith) (omega arith) (omega arith)
count_all-Counted (f ∷ fs) t i o d v (small_i, small_o, small_d) =
    let m : MsgType × Bytes = (f.msg_type, f.payload) in
    let w =
      count_frame-Counted t i o d v m
        (omega (arith, small_i), omega (arith, small_o), omega (arith, small_d)) in
    Counted-same
      (count_all-Counted fs (count_frame t m) _ _ _ w (
        omega (arith, small_i, one_if_bound (carries imu imu_msg_size m)),
        omega (arith, small_o, one_if_bound (carries orientation orientation_msg_size m)),
        omega (arith, small_d, one_if_bound (carries depth depth_msg_size m)),
      ))
      (omega arith) (omega arith) (omega arith)

count_frames-total :
    (fuel : ℕ) (t : Tally) (rx : Bytes)
    → length rx < fuel
    → (t' : Tally) × (rest : Bytes) × (count_frames fuel t rx ≡ done (t', rest))
unfolding count_frames
count_frames-total zero t rx enough = absurd (omega arith)
count_frames-total (suc fuel) t rx enough =
    let c = try_parse_frame-Progress rx in
    let parsed = parse_same rx ∙ c.returned in
    elim (Option-cases c.msg) [
      | inl nothing ↦ (t, c.rest, ground (arith, parsed, nothing))
      | inr (m, found) ↦
          let (t', rest, e) =
            count_frames-total fuel (count_frame t m) c.rest
              (omega (arith, c.shorter m found, enough)) in
          (t', rest, ground (arith, parsed, found, e))
    ]

receive_all-total :
    (results : List ReadResult) (t : Tally) (rx : Bytes)
    → (t' : Tally) × (rest : Bytes) × (receive_all t rx results ≡ done (t', rest))
unfolding receive_all on_read
receive_all-total [] t rx = (t, rx, refl)
receive_all-total (timed_out ∷ results) t rx = receive_all-total results t rx
receive_all-total (read_error code ∷ results) t rx = receive_all-total results t rx
receive_all-total (bytes_read [] ∷ results) t rx = receive_all-total results t rx
receive_all-total (bytes_read (b ∷ bs) ∷ results) t rx =
    let (t', rest, e) =
      count_frames-total (suc (length (rx ++ b ∷ bs))) t (rx ++ b ∷ bs) (omega arith) in
    let (t'', rest', e') = receive_all-total results t' rest in
    (t'', rest', ap (λ m. m >>= λ (s, l). receive_all s l results) e ∙ e')

nothing-Counted : Counted nothing_received 0 0 0
nothing-Counted = record {
  imu_counted = refl;
  orientation_counted = refl;
  depth_counted = refl;
  imu_printed = refl;
  orientation_printed = refl;
  depth_printed = refl;
}

module _ (port : SerialPort) (o : IsOpen port) where
  abbrev pwm_frame : ℕ → Bytes
  pwm_frame pwm = build_frame thruster (pwm_to_bytes (pwm_cmd (all_six pwm)))

  expect-ok : (r : IoResult × port.State) → r.0 ≡ ok → expect_sent port r ≡ done r.1
  expect-ok (ok, s) e = refl
  expect-ok (_, s) e = cc

  after_write :
      (r : IoResult × port.State)
      → r.0 ≡ ok
      → (let (written, s') = r in elim written [ ok ↦ port.flush s' | error ↦ (error, s') ])
        ≡ port.flush r.1
  after_write (ok, s) e = refl
  after_write (_, s) e = cc

  send_pwm-sent :
      (s : port.State) (pwm : ℕ)
      → (s' : port.State) × (send_pwm port s pwm ≡ done s')
        × (o.sent s' ≡ o.sent s ++ pwm_frame pwm)
  unfolding send_pwm send_frame
  send_pwm-sent s pwm =
      let written = (port.write_all s (pwm_frame pwm)).1 in
      let flushes : send_frame port s thruster (pwm_to_bytes (pwm_cmd (all_six pwm)))
          ≡ port.flush written =
        after_write (port.write_all s (pwm_frame pwm)) (o.write_ok s (pwm_frame pwm)) in
      (
        (port.flush written).1,
        ap (expect_sent port) flushes ∙ expect-ok (port.flush written) (o.flush_ok written),
        o.flush_sent written ∙ o.write_sent s (pwm_frame pwm),
      )

  send_ramp-sent :
      (pwms : List ℕ) (s : port.State)
      → (s' : port.State) × (send_ramp port s pwms ≡ done s')
        × (o.sent s' ≡ o.sent s ++ frames (map all_six pwms))
  unfolding send_ramp frames
  send_ramp-sent [] s = (s, refl, sym (append-nil (o.sent s)))
  send_ramp-sent (pwm ∷ pwms) s =
      let (s', e, f) = send_pwm-sent s pwm in
      let (s'', e', f') = send_ramp-sent pwms s' in
      (
        s'',
        ap (λ m. m >>= λ u. send_ramp port u pwms) e ∙ e',
        f'
            ∙ ap (λ l. l ++ frames (map all_six pwms)) f
            ∙ append_assoc (o.sent s) (pwm_frame pwm) (frames (map all_six pwms)),
      )

  -- The frames go out, whatever the reads make of the tally.
  runs :
      (s : port.State) (results : List ReadResult) (t : Tally) (rest : Bytes)
      → receive_all nothing_received [] results ≡ done (t, rest)
      → (s' : port.State) × (run port s results ≡ done (t, all_received t, s'))
        × (o.sent s' ≡ o.sent s ++ frames (map all_six (neutral ∷ ramp)))
  unfolding run frames
  runs s results t rest received =
      let (s1, e1, f1) = send_pwm-sent s neutral in
      let (s2, e2, f2) = send_ramp-sent ramp s1 in
      (
        s2,
        ground (arith, e1, received, e2),
        f2
            ∙ ap (λ l. l ++ frames (map all_six ramp)) f1
            ∙ append_assoc (o.sent s) (pwm_frame neutral) (frames (map all_six ramp)),
      )

  -- Whatever the reads of the end-to-end test come to, over a port that accepts every write and
  -- flush, it ends without a panic and every loop within its fuel; its verdict is that of its
  -- counters; and what it has sent is a thruster frame of six pulses of 1500 and then the frames of
  -- the ramp.
  pub run-total :
      (s : port.State) (results : List ReadResult)
      → (t : Tally) × (s' : port.State) × (run port s results ≡ done (t, all_received t, s'))
        × (o.sent s' ≡ o.sent s ++ frames (map all_six (neutral ∷ ramp)))
  run-total s results =
      let (t, rest, e) = receive_all-total results nothing_received [] in
      let (s', f, g) = runs s results t rest e in (t, s', f, g)

  -- Let the reads of the end-to-end test bring in the bytes of fewer than 2^31 frames with payloads
  -- of at most 244 bytes, all of sensor types, cut in any way and with any time-outs, errors and
  -- empty reads among them, over a port that accepts every write and flush. Then the test ends
  -- without a panic; each of its three counters is the number of frames of that type with enough
  -- bytes for the message; of every ten messages of a type, from the first on, one is printed; and
  -- the test says that all is well if and only if all three numbers are positive.
  pub run-counts :
      (s : port.State) (results : List ReadResult) (sensors : List UartFrame)
      → AllFit sensors
      → AllSensor sensors
      → length sensors < 2 ^ 31
      → bytes_of results ≡ encode_all sensors
      → let i = carried imu imu_msg_size sensors in
        let n = carried orientation orientation_msg_size sensors in
        let d = carried depth depth_msg_size sensors in
        (t : Tally) × (s' : port.State) × (run port s results
          ≡ done (t, ltb 0 i && ltb 0 n && ltb 0 d, s'))
        × Counted t i n d
  run-counts s results sensors fit known few e =
      let t = count_all nothing_received sensors in
      let small : 0 + length sensors < 2 ^ 31 = omega (arith, few) in
      let v =
        Counted-same
          (count_all-Counted sensors nothing_received 0 0 0 nothing-Counted (small, small, small))
          (omega arith) (omega arith) (omega arith) in
      let (s', f, _) = runs s results t [] (
        receive_all-count_all results sensors [] nothing_received fit known e
          (short_nil sensors)) in
      (
        t,
        s',
        f
            ∙ ap (λ b. done (t, b, s'))
                (verdict t _ _ _ v (omega (arith, few, carried_bound imu imu_msg_size sensors))
                  (omega (arith, few, carried_bound orientation orientation_msg_size sensors))
                  (omega (arith, few, carried_bound depth depth_msg_size sensors))),
        v,
      )
    where
      short_nil : (fs : List UartFrame) → IsShort [] fs
      short_nil [] = refl
      short_nil (f ∷ fs) = omega arith
