-- ===== src/Uart/Stream.antt =====
-- uart/mod.rs: `run_loop` on a stream of frames that is cut into reads.
use mathlib.Core.List.{flatten}
use native.Mathlib.Decide.{dec_lt}
use bibi_sync.Base.{
  ℕ, zero, suc, ◌+◌, ◌≤◌, ◌<◌, ◌≡◌, refl, sym, ap, fun_ext, subst, ◌∙◌, none, some, List, [], ◌∷◌,
  ◌++◌, append_assoc, append-nil, arith, length, length-append, Exec, done, ◌>>=◌, >>=_assoc,
}
use bibi_sync.Registry.{ByteShelf}
use bibi_sync.Uart.{
  UartFrame, try_parse_frame, finish, publish_frame, process_loop, process_buffer, on_read,
  build_frame,
}
use bibi_sync.Uart.Message.{to_u8}
use bibi_sync.Uart.Wire.{Bytes, max_msg_size, scan}
use bibi_sync.Uart.Scanned.{length-frame_bytes, scan-prefix}
use bibi_sync.Uart.Roundtrip.{build_frame-eq, parse-build_frame}

unfoldable pub encode_all : List UartFrame → Bytes
encode_all [] = []
encode_all (f ∷ fs) = build_frame f.msg_type f.payload ++ encode_all fs

abbrev pub AllFit : List UartFrame → Type 0
AllFit [] = Unit
AllFit (f ∷ fs) = (length f.payload ≤ max_msg_size) × AllFit fs

unfoldable pub publish_all : ByteShelf → List UartFrame → Exec ByteShelf
publish_all shelf [] = done shelf
publish_all shelf (f ∷ fs) = do shelf' ← publish_frame shelf f; publish_all shelf' fs

-- The reads of `run_loop`, one after the other.
unfoldable pub read_all : ByteShelf → Bytes → List Bytes → Exec (ByteShelf × Bytes)
read_all shelf rx [] = done (shelf, rx)
read_all shelf rx (chunk ∷ chunks) = do
  (shelf', rest) ← on_read shelf rx chunk
  read_all shelf' rest chunks

-- The buffer does not hold the first of the frames that are still to come.
abbrev pub IsShort : Bytes → List UartFrame → Type 0
IsShort rx [] = rx ≡ []
IsShort rx (f ∷ fs) = length rx < 4 + length f.payload

-- A list that reaches past a prefix begins with it.
pub split_prefix :
    (front xs ys back : Bytes)
    → xs ++ ys ≡ front ++ back
    → length front ≤ length xs
    → (zs : Bytes) × (xs ≡ front ++ zs) × (zs ++ ys ≡ back)
split_prefix [] xs ys back e h = (xs, refl, e)
split_prefix (a ∷ front) [] ys back e h = absurd (omega arith)
split_prefix (a ∷ front) (x ∷ xs) ys back e h =
    let (zs, f, g) = split_prefix front xs ys back (ground arith) (omega arith) in
    (zs, ground arith, g)

pub length-build_frame :
    (f : UartFrame)
    → length f.payload ≤ max_msg_size
    → length (build_frame f.msg_type f.payload) ≡ 4 + length f.payload
length-build_frame f small =
    ap length (build_frame-eq f.msg_type f.payload small)
    ∙ length-frame_bytes (to_u8 f.msg_type) f.payload

parse_short :
    (f : UartFrame) (rx future more : Bytes)
    → length f.payload ≤ max_msg_size
    → rx ++ future ≡ build_frame f.msg_type f.payload ++ more
    → length rx < 4 + length f.payload
    → try_parse_frame rx ≡ done (none, rx)
unfolding try_parse_frame finish
parse_short f rx future more small e short =
    ap (λ s. s >>= finish)
      (scan-prefix (to_u8 f.msg_type) f.payload rx future more
        (e ∙ ap (λ l. l ++ more) (build_frame-eq f.msg_type f.payload small)) short small)

-- What the loop makes of a buffer whose bytes, with those still to come, encode `frames`.
record Consumed (fuel : ℕ) (rx future : Bytes) (frames : List UartFrame) : Type 0 where
  first : List UartFrame
  later : List UartFrame
  rest : Bytes
  split : frames ≡ first ++ later
  result :
      (shelf : ByteShelf)
      → process_loop fuel shelf rx ≡ (publish_all shelf first >>= λ s. done (s, rest))
  remaining : rest ++ future ≡ encode_all later
  short : IsShort rest later

consumes_nothing :
    (fuel : ℕ) (rx future : Bytes) (frames : List UartFrame)
    → rx ++ future ≡ encode_all frames
    → IsShort rx frames
    → try_parse_frame rx ≡ done (none, rx)
    → Consumed (suc fuel) rx future frames
unfolding process_loop publish_all
consumes_nothing fuel rx future frames e short waits = record {
  first = [];
  later = frames;
  rest = rx;
  split = refl;
  result = λ shelf. rw waits;
  remaining = e;
  short = short;
}

pub nil_of_append : (xs ys : Bytes) → xs ++ ys ≡ [] → xs ≡ []
nil_of_append [] ys e = refl
nil_of_append (x ∷ xs) ys e = cc

consumes_frame :
    (f : UartFrame) (fs : List UartFrame) (fuel : ℕ) (rx rest future : Bytes)
    → try_parse_frame rx ≡ done (some f, rest)
    → Consumed fuel rest future fs
    → Consumed (suc fuel) rx future (f ∷ fs)
unfolding process_loop publish_all
consumes_frame f fs fuel rx rest future parsed c = record {
  first = f ∷ c.first;
  later = c.later;
  rest = c.rest;
  split = ap (λ l. f ∷ l) c.split;
  result = λ shelf. rw parsed (
      ap (λ k. publish_frame shelf f >>= k) (fun_ext c.result)
      ∙ sym (>>=_assoc (publish_frame shelf f) (λ s. publish_all s c.first) _));
  remaining = c.remaining;
  short = c.short;
}

parse_nil : try_parse_frame [] ≡ done (none, [])
unfolding try_parse_frame finish scan
parse_nil = refl

process_consumes :
    (frames : List UartFrame) (fuel : ℕ) (rx future : Bytes)
    → AllFit frames
    → rx ++ future ≡ encode_all frames
    → length rx < fuel
    → Consumed fuel rx future frames
process_consumes frames zero rx future fit e enough = absurd (omega arith)
process_consumes [] (suc fuel) rx future fit e enough =
    let nothing : rx ≡ [] = nil_of_append rx future (unfold encode_all in e) in
    consumes_nothing fuel rx future [] e nothing (rw nothing parse_nil)
process_consumes (f ∷ fs) (suc fuel) rx future fit e enough =
    elim (dec_lt (length rx) (4 + length f.payload)) [
      | yes short ↦
          consumes_nothing fuel rx future (f ∷ fs) e short
            (parse_short f rx future (encode_all fs) fit.0 (unfold encode_all in e) short)
      | no long ↦
          let frame = build_frame f.msg_type f.payload in
          let (rest, same, tail) =
            split_prefix frame rx future (encode_all fs) (unfold encode_all in e)
              (omega (arith, length-build_frame f fit.0)) in
          consumes_frame f fs fuel rx rest future
            (rw same (parse-build_frame f.msg_type f.payload rest fit.0 [] tt))
            (process_consumes fs fuel rest future fit.1 tail
              (omega (arith, ap length same, length-append frame rest, length-build_frame f fit.0)))
    ]

publish_all-append :
    (shelf : ByteShelf) (xs ys : List UartFrame)
    → publish_all shelf (xs ++ ys) ≡ (publish_all shelf xs >>= λ s. publish_all s ys)
unfolding publish_all
publish_all-append shelf [] ys = refl
publish_all-append shelf (f ∷ xs) ys =
    ap (λ k. publish_frame shelf f >>= k) (fun_ext (λ s. publish_all-append s xs ys))
    ∙ sym (>>=_assoc (publish_frame shelf f) (λ s. publish_all s xs) (λ s. publish_all s ys))

pub AllFit-later : (first later : List UartFrame) → AllFit (first ++ later) → AllFit later
AllFit-later [] later h = h
AllFit-later (f ∷ first) later h = AllFit-later first later h.1

-- The bytes that were read and not parsed, with those still to come, encode the frames to come.
read_all-publishes :
    (chunks : List Bytes) (frames : List UartFrame) (rx : Bytes) (shelf : ByteShelf)
    → AllFit frames
    → rx ++ flatten chunks ≡ encode_all frames
    → IsShort rx frames
    → read_all shelf rx chunks ≡ (publish_all shelf frames >>= λ s. done (s, []))
unfolding read_all on_read process_buffer flatten
read_all-publishes [] [] rx shelf fit e short = unfold publish_all in rw short
read_all-publishes [] (f ∷ fs) rx shelf fit e short =
    let frame = build_frame f.msg_type f.payload in
    let all : rx ≡ frame ++ encode_all fs = sym (append-nil rx) ∙ (unfold encode_all in e) in
    absurd (
      omega (arith, ap length all, length-append frame (encode_all fs), length-build_frame f fit.0))
read_all-publishes (chunk ∷ chunks) frames rx shelf fit e short =
    let c =
      process_consumes frames (suc (length (rx ++ chunk))) (rx ++ chunk) (flatten chunks) fit
        (append_assoc rx chunk (flatten chunks) ∙ e) (omega arith) in
    let rest_fits = AllFit-later c.first c.later (subst AllFit c.split fit) in
    ap (λ m. m >>= λ (s, rest). read_all s rest chunks) (c.result shelf)
    ∙ >>=_assoc (publish_all shelf c.first) _ _
    ∙ ap (λ k. publish_all shelf c.first >>= k)
        (fun_ext (λ s. read_all-publishes chunks c.later c.rest s rest_fits c.remaining c.short))
    ∙ sym (>>=_assoc (publish_all shelf c.first) (λ s. publish_all s c.later) _)
    ∙ ap (λ m. m >>= λ s. done (s, []))
        (sym (publish_all-append shelf c.first c.later) ∙ ap (publish_all shelf) (sym c.split))

-- The bytes of any frames, cut into reads in any way, make the bridge publish exactly these frames,
-- in order, and leave its buffer empty.
pub read_all-encode_all :
    (shelf : ByteShelf) (frames : List UartFrame) (chunks : List Bytes)
    → AllFit frames
    → flatten chunks ≡ encode_all frames
    → read_all shelf [] chunks ≡ (publish_all shelf frames >>= λ s. done (s, []))
read_all-encode_all shelf frames chunks fit e =
    read_all-publishes chunks frames [] shelf fit e (short_nil frames)
  where
    short_nil : (fs : List UartFrame) → IsShort [] fs
    short_nil [] = refl
    short_nil (f ∷ fs) = omega arith
