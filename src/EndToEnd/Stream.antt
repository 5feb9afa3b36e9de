-- ===== src/EndToEnd/Stream.antt =====
-- examples/stm32_test.rs: what comes in of a stream of frames, cut into reads.
use mathlib.Core.List.{foldl, foldl-append}
use native.Mathlib.Decide.{dec_lt}
use bibi_sync.Base.{
  ℕ, zero, suc, ◌+◌, ◌≤◌, ◌<◌, ◌≡◌, refl, sym, ap, subst, ◌∙◌, none, some, List, [], ◌∷◌, ◌++◌,
  append_assoc, append-nil, arith, length, length-append, done, ◌>>=◌,
}
use bibi_sync.Uart.{UartFrame, build_frame}
use bibi_sync.Uart.Loop.{ReadResult, bytes_read, timed_out, read_error}
use bibi_sync.Uart.Message.{to_u8}
use bibi_sync.Uart.Wire.{Bytes, max_msg_size, scan}
use bibi_sync.Uart.Scanned.{scan-prefix}
use bibi_sync.Uart.Roundtrip.{build_frame-eq}
use bibi_sync.Uart.Stream.{
  encode_all, AllFit, IsShort, split_prefix, nil_of_append, AllFit-later, length-build_frame,
}
use bibi_sync.Controller
use bibi_sync.Controller.{sensor_type, finish}
use bibi_sync.Controller.Receive.{AllSensor, parse_sensor}
use bibi_sync.EndToEnd.{Tally, try_parse_frame, count_frame, count_frames, on_read, receive_all}

-- What the reads bring in.
unfoldable pub bytes_of : List ReadResult → Bytes
bytes_of [] = []
bytes_of (bytes_read bs ∷ results) = bs ++ bytes_of results
bytes_of (result ∷ results) = bytes_of results

abbrev pub count_all : Tally → List UartFrame → Tally
count_all = foldl (λ t f. count_frame t (f.msg_type, f.payload))

pub parse_same : (rx : Bytes) → try_parse_frame rx ≡ Controller.try_parse_frame rx
unfolding try_parse_frame Controller.try_parse_frame
parse_same rx = refl

parse_short :
    (f : UartFrame) (rx future more : Bytes)
    → length f.payload ≤ max_msg_size
    → rx ++ future ≡ build_frame f.msg_type f.payload ++ more
    → length rx < 4 + length f.payload
    → try_parse_frame rx ≡ done (none, rx)
unfolding try_parse_frame finish
parse_short f rx future more small e short =
    ap (λ s. s >>= finish)
      (scan-prefix (to_u8 f.msg_type) f.payload rx future more
        (e ∙ ap (λ l. l ++ more) (build_frame-eq f.msg_type f.payload small)) short small)

parse_nil : try_parse_frame [] ≡ done (none, [])
unfolding try_parse_frame finish scan
parse_nil = refl

AllSensor-later : (first later : List UartFrame) → AllSensor (first ++ later) → AllSensor later
AllSensor-later [] later h = h
AllSensor-later (f ∷ first) later h = AllSensor-later first later h.1

-- What the loop makes of a buffer whose bytes, with those still to come, encode `frames`.
record Consumed (fuel : ℕ) (rx future : Bytes) (frames : List UartFrame) : Type 0 where
  first : List UartFrame
  later : List UartFrame
  rest : Bytes
  split : frames ≡ first ++ later
  result : (t : Tally) → count_frames fuel t rx ≡ done (count_all t first, rest)
  remaining : rest ++ future ≡ encode_all later
  short : IsShort rest later

consumes_nothing :
    (fuel : ℕ) (rx future : Bytes) (frames : List UartFrame)
    → rx ++ future ≡ encode_all frames
    → IsShort rx frames
    → try_parse_frame rx ≡ done (none, rx)
    → Consumed (suc fuel) rx future frames
unfolding count_frames
consumes_nothing fuel rx future frames e short waits = record {
  first = [];
  later = frames;
  rest = rx;
  split = refl;
  result = λ t. rw waits;
  remaining = e;
  short = short;
}

consumes_frame :
    (f : UartFrame) (fs : List UartFrame) (fuel : ℕ) (rx rest future : Bytes)
    → try_parse_frame rx ≡ done (some (f.msg_type, f.payload), rest)
    → Consumed fuel rest future fs
    → Consumed (suc fuel) rx future (f ∷ fs)
unfolding count_frames
consumes_frame f fs fuel rx rest future parsed c = record {
  first = f ∷ c.first;
  later = c.later;
  rest = c.rest;
  split = ap (λ l. f ∷ l) c.split;
  result = λ t. rw parsed (c.result (count_frame t (f.msg_type, f.payload)));
  remaining = c.remaining;
  short = c.short;
}

consumes :
    (frames : List UartFrame) (fuel : ℕ) (rx future : Bytes)
    → AllFit frames
    → AllSensor frames
    → rx ++ future ≡ encode_all frames
    → length rx < fuel
    → Consumed fuel rx future frames
consumes frames zero rx future fit known e enough = absurd (omega arith)
consumes [] (suc fuel) rx future fit known e enough =
    let nothing : rx ≡ [] = nil_of_append rx future (unfold encode_all in e) in
    consumes_nothing fuel rx future [] e nothing (rw nothing parse_nil)
consumes (f ∷ fs) (suc fuel) rx future fit known e enough =
    elim (dec_lt (length rx) (4 + length f.payload)) [
      | yes short ↦
          consumes_nothing fuel rx future (f ∷ fs) e short
            (parse_short f rx future (encode_all fs) fit.0 (unfold encode_all in e) short)
      | no long ↦
          let frame = build_frame f.msg_type f.payload in
          let (rest, same, tail) =
            split_prefix frame rx future (encode_all fs) (unfold encode_all in e)
              (omega (arith, length-build_frame f fit.0)) in
          consumes_frame f fs fuel rx rest future
            (rw same (parse_same (frame ++ rest) ∙ parse_sensor f rest fit.0 known.0))
            (consumes fs fuel rest future fit.1 known.1 tail
              (omega (arith, ap length same, length-append frame rest, length-build_frame f fit.0)))
    ]

-- The bytes that were read and not parsed, with those still to come, encode the frames to come.
pub receive_all-count_all :
    (results : List ReadResult) (frames : List UartFrame) (rx : Bytes) (t : Tally)
    → AllFit frames
    → AllSensor frames
    → rx ++ bytes_of results ≡ encode_all frames
    → IsShort rx frames
    → receive_all t rx results ≡ done (count_all t frames, [])
unfolding receive_all on_read bytes_of
receive_all-count_all [] [] rx t fit known e short = rw short refl
receive_all-count_all [] (f ∷ fs) rx t fit known e short =
    let frame = build_frame f.msg_type f.payload in
    let all : rx ≡ frame ++ encode_all fs = sym (append-nil rx) ∙ (unfold encode_all in e) in
    absurd (
      omega (
        arith,
        ap length all,
        length-append frame (encode_all fs),
        length-build_frame f fit.0,
        short,
      ))
receive_all-count_all (timed_out ∷ results) frames rx t fit known e short =
    receive_all-count_all results frames rx t fit known e short
receive_all-count_all (read_error code ∷ results) frames rx t fit known e short =
    receive_all-count_all results frames rx t fit known e short
receive_all-count_all (bytes_read [] ∷ results) frames rx t fit known e short =
    receive_all-count_all results frames rx t fit known e short
receive_all-count_all (bytes_read (b ∷ bs) ∷ results) frames rx t fit known e short =
    let c =
      consumes frames (suc (length (rx ++ b ∷ bs))) (rx ++ b ∷ bs) (bytes_of results) fit known
        (append_assoc rx (b ∷ bs) (bytes_of results) ∙ e) (omega arith) in
    ap (λ m. m >>= λ (s, rest). receive_all s rest results) (c.result t)
    ∙ receive_all-count_all results c.later c.rest (count_all t c.first)
        (AllFit-later c.first c.later (subst AllFit c.split fit))
        (AllSensor-later c.first c.later (subst AllSensor c.split known)) c.remaining c.short
    ∙ ap (λ s. done (s, []))
        (sym (foldl-append _ t c.first c.later) ∙ ap (count_all t) (sym c.split))
