-- ===== src/Controller/Receive.antt =====
-- auv/controller.rs: `process_rx` and its parser on the bytes that come in.
use mathlib.Core.List.{foldl}
use bibi_sync.Base.{
  ℕ, zero, suc, ◌≤◌, ◌<◌, ◌≡◌, refl, sym, ap, ◌∙◌, inl, inr, Option, none, some, List, [], ◌∷◌,
  ◌++◌, arith, append_assoc, length, length-append, Exec, done, ◌>>=◌, Option-cases,
}
use bibi_sync.Uart.{UartFrame, build_frame}
use bibi_sync.Uart.Message.{MsgType, to_u8}
use bibi_sync.Uart.Wire.{Bytes, max_msg_size, Scan, scan}
use bibi_sync.Uart.Scanned.{
  frame_bytes, whole, whole-eq, length-whole, scan-frame, payload-whole, drain-whole,
}
use bibi_sync.Uart.ScanCases.{Outcome, waits, finds, scan_cases}
use bibi_sync.Uart.Roundtrip.{build_frame-eq}
use bibi_sync.Uart.Stream.{encode_all, AllFit, length-build_frame}
use bibi_sync.Controller.{
  SensorData, sensor_type, finish, try_parse_frame, handle, rx_loop, process_rx,
}

-- What a parse leaves is an end of the buffer, and shorter if there was a message.
pub record Progress (rx : Bytes) (r : Exec (Option (MsgType × Bytes) × Bytes)) : Type 0 where
  pub msg : Option (MsgType × Bytes)
  pub dropped : Bytes
  pub rest : Bytes
  pub returned : r ≡ done (msg, rest)
  pub split : rx ≡ dropped ++ rest
  pub shorter : (m : MsgType × Bytes) → msg ≡ some m → length rest < length rx

with_whole :
    (junk : Bytes) (t : ℕ) (p rest : Bytes)
    → junk ++ whole t p rest ≡ (junk ++ frame_bytes t p) ++ rest
with_whole junk t p rest =
    ap (λ l. junk ++ l) (sym (whole-eq t p rest)) ∙ sym (append_assoc junk (frame_bytes t p) rest)

pub try_parse_frame-Progress : (rx : Bytes) → Progress rx (try_parse_frame rx)
unfolding try_parse_frame finish
try_parse_frame-Progress rx = go (scan rx) (scan_cases rx)
  where
    go : (s : Exec Scan) → Outcome rx s → Progress rx (s >>= finish)
    go s (waits dropped rest e f) = record {
      msg = none;
      dropped = dropped;
      rest = rest;
      returned = ap (λ m. m >>= finish) e;
      split = f;
      shorter = λ m g. cc;
    }
    go s (finds junk t p rest e j f small) = elim (Option-cases (sensor_type t)) [
      | inl unknown ↦ record {
        msg = none;
        dropped = junk ++ frame_bytes t p;
        rest = rest;
        returned = ap (λ m. m >>= finish) e ∙ ground (arith, unknown, drain-whole t p rest);
        split = f ∙ with_whole junk t p rest;
        shorter = λ m g. cc;
      }
      | inr (msg_type, known) ↦ record {
        msg = some (msg_type, p);
        dropped = junk ++ frame_bytes t p;
        rest = rest;
        returned =
            ap (λ m. m >>= finish) e
            ∙ ground (arith, known, payload-whole t p rest, drain-whole t p rest);
        split = f ∙ with_whole junk t p rest;
        shorter = λ m g.
            omega (arith, ap length f, length-append junk (whole t p rest), length-whole t p rest);
      }
    ]

abbrev Returned : Bytes → Exec (SensorData × Bytes) → Type 0
Returned rx r =
    (s' : SensorData) × (dropped : Bytes) × (rest : Bytes) × (r ≡ done (s', rest))
    × (rx ≡ dropped ++ rest)

rx_loop-Returned :
    (fuel : ℕ) (s : SensorData) (rx : Bytes) → length rx < fuel → Returned rx (rx_loop fuel s rx)
unfolding rx_loop
rx_loop-Returned zero s rx enough = absurd (omega arith)
rx_loop-Returned (suc fuel) s rx enough =
    let c = try_parse_frame-Progress rx in
    elim (Option-cases c.msg) [
      | inl nothing ↦ (s, c.dropped, c.rest, ground (arith, c.returned, nothing), c.split)
      | inr (m, found) ↦
          let (s', dropped, rest, e, f) =
            rx_loop-Returned fuel (handle s m) c.rest (omega (arith, c.shorter m found)) in
          (
            s',
            c.dropped ++ dropped,
            rest,
            ground (arith, c.returned, found, e),
            c.split ∙ ap (λ l. c.dropped ++ l) f ∙ sym (append_assoc c.dropped dropped rest),
          )
    ]

-- Whatever sensor data and bytes the controller has, its receive loop ends within its fuel, does
-- not panic, and leaves an end of the buffer.
pub process_rx-total :
    (s : SensorData) (rx : Bytes)
    → (s' : SensorData) × (dropped : Bytes) × (rest : Bytes) × (process_rx s rx ≡ done (s', rest))
      × (rx ≡ dropped ++ rest)
unfolding process_rx
process_rx-total s rx = rx_loop-Returned (suc (length rx)) s rx (omega arith)

-- The controller has an arm for the type of every frame.
abbrev pub AllSensor : List UartFrame → Type 0
AllSensor [] = Unit
AllSensor (f ∷ fs) = (sensor_type (to_u8 f.msg_type) ≡ some f.msg_type) × AllSensor fs

pub parse_sensor :
    (f : UartFrame) (rest : Bytes)
    → length f.payload ≤ max_msg_size
    → sensor_type (to_u8 f.msg_type) ≡ some f.msg_type
    → try_parse_frame (build_frame f.msg_type f.payload ++ rest)
      ≡ done (some (f.msg_type, f.payload), rest)
unfolding try_parse_frame finish
parse_sensor f rest small known =
    let t = to_u8 f.msg_type in
    ap (λ l. scan (l ++ rest) >>= finish) (build_frame-eq f.msg_type f.payload small)
    ∙ ap (λ l. scan l >>= finish) (whole-eq t f.payload rest)
    ∙ ap (λ m. m >>= finish) (scan-frame t f.payload rest [] tt small)
    ∙ ground (arith, known, payload-whole t f.payload rest, drain-whole t f.payload rest)

handle_frame : SensorData → UartFrame → SensorData
handle_frame s f = handle s (f.msg_type, f.payload)

rx_loop-encode_all :
    (frames : List UartFrame) (fuel : ℕ) (s : SensorData)
    → AllFit frames
    → AllSensor frames
    → length (encode_all frames) < fuel
    → rx_loop fuel s (encode_all frames) ≡ done (foldl handle_frame s frames, [])
unfolding rx_loop encode_all try_parse_frame scan finish handle_frame
rx_loop-encode_all frames zero s fit known enough = absurd (omega arith)
rx_loop-encode_all [] (suc fuel) s fit known enough = refl
rx_loop-encode_all (f ∷ fs) (suc fuel) s fit known enough =
    let frame = build_frame f.msg_type f.payload in
    rw (parse_sensor f (encode_all fs) fit.0 known.0) (
      rx_loop-encode_all fs fuel (handle_frame s f) fit.1 known.1
        (omega (arith, enough, length-append frame (encode_all fs), length-build_frame f fit.0)))

-- If frames with payloads of at most 244 bytes, all of types that the controller has an arm for,
-- stand in its buffer one behind the other, it handles each of them, in order, and leaves nothing
-- in the buffer.
pub process_rx-encode_all :
    (frames : List UartFrame) (s : SensorData)
    → AllFit frames
    → AllSensor frames
    → process_rx s (encode_all frames)
      ≡ done (foldl (λ s f. handle s (f.msg_type, f.payload)) s frames, [])
unfolding process_rx handle_frame
process_rx-encode_all frames s fit known =
    rx_loop-encode_all frames (suc (length (encode_all frames))) s fit known (omega arith)

parse_other :
    (t : ℕ) (p rest : Bytes)
    → sensor_type t ≡ none
    → length p ≤ max_msg_size
    → try_parse_frame (frame_bytes t p ++ rest) ≡ done (none, rest)
unfolding try_parse_frame finish
parse_other t p rest unknown small =
    rw (whole-eq t p rest)
      (ground (arith, scan-frame t p rest [] tt small, unknown, drain-whole t p rest))

-- If a frame with a good checksum, at most 244 bytes of payload and a type byte that the controller
-- has no arm for stands at the front of its buffer, the controller takes it away, leaves its sensor
-- data as they are and stops there: what stands behind the frame waits for the next read.
pub other_type_drained :
    (t : ℕ) (p rest : Bytes) (s : SensorData)
    → sensor_type t ≡ none
    → length p ≤ max_msg_size
    → process_rx s (frame_bytes t p ++ rest) ≡ done (s, rest)
unfolding process_rx rx_loop
other_type_drained t p rest s unknown small = rw (parse_other t p rest unknown small) refl
