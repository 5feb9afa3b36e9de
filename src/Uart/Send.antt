-- ===== src/Uart/Send.antt =====
-- uart/mod.rs: `send_frame` at one end of a line, `UartBridge` at the other.
use mathlib.Core.List.{flatten}
use bibi_sync.Base.{
  ℕ, ◌+◌, ◌≤◌, ◌<◌, ◌≡◌, sym, ap, ◌∙◌, List, [], ◌∷◌, ◌++◌, append-nil, append_assoc, arith, length,
  ltb, done, word_mod, false,
}
use bibi_sync.Registry.{ByteShelf}
use bibi_sync.Registry.Byte.{IsValid}
use bibi_sync.Uart.{UartFrame, SerialPort, ok, invalid_input, send_frame, build_frame}
use bibi_sync.Uart.Message.{MsgType}
use bibi_sync.Uart.Wire.{Bytes, max_msg_size}
use bibi_sync.Uart.Stream.{AllFit, encode_all, publish_all, read_all}
use bibi_sync.Uart.Total.{read_all_publishes}

-- A payload that a frame cannot carry is refused, and nothing is written.
pub send_frame-too_large :
    (port : SerialPort) (s : port.State) (t : MsgType) (p : Bytes)
    → max_msg_size < length p
    → send_frame port s t p ≡ (invalid_input, s)
unfolding send_frame
send_frame-too_large port s t p large = ground arith

-- A port that accepts every write: `sent` is what has gone out.
pub record IsOpen (port : SerialPort) : Type 0 where
  pub sent : port.State → Bytes
  pub write_ok : (s : port.State) (bs : Bytes) → (port.write_all s bs).0 ≡ ok
  pub write_sent : (s : port.State) (bs : Bytes) → sent (port.write_all s bs).1 ≡ sent s ++ bs
  pub flush_ok : (s : port.State) → (port.flush s).0 ≡ ok
  pub flush_sent : (s : port.State) → sent (port.flush s).1 ≡ sent s

module _ (port : SerialPort) (o : IsOpen port) where
  -- The state of the port after the frames.
  unfoldable pub send_all : port.State → List UartFrame → port.State
  send_all s [] = s
  send_all s (f ∷ fs) = send_all (send_frame port s f.msg_type f.payload).1 fs

  send_frame-sent :
      (s : port.State) (t : MsgType) (p : Bytes)
      → length p ≤ max_msg_size
      → ((send_frame port s t p).0 ≡ ok)
        × (o.sent (send_frame port s t p).1 ≡ o.sent s ++ build_frame t p)
  unfolding send_frame
  send_frame-sent s t p small =
      let written = (port.write_all s (build_frame t p)).1 in
      let accepted : ltb max_msg_size (length p) ≡ false = ground arith in
      let flushes : send_frame port s t p ≡ port.flush written =
        rw (accepted, o.write_ok s (build_frame t p)) in
      (
        ap (λ r. r.0) flushes ∙ o.flush_ok written,
        ap (λ r. o.sent r.1) flushes ∙ o.flush_sent written ∙ o.write_sent s (build_frame t p),
      )

  sent-send_all :
      (frames : List UartFrame) (s : port.State)
      → AllFit frames
      → o.sent (send_all s frames) ≡ o.sent s ++ encode_all frames
  unfolding send_all encode_all
  sent-send_all [] s fit = sym (append-nil (o.sent s))
  sent-send_all (f ∷ fs) s fit =
      sent-send_all fs _ fit.1
      ∙ ap (λ l. l ++ encode_all fs) (send_frame-sent s f.msg_type f.payload fit.0).1
      ∙ append_assoc (o.sent s) (build_frame f.msg_type f.payload) (encode_all fs)

  -- If a port accepts every write and flush and nothing has gone out on it, the frames of payloads
  -- of at most 244 bytes that `send_frame` writes to it, read at the other end in any pieces by a
  -- bridge over a valid registry of topics with at most `n` messages each, where `n` plus the
  -- number of frames is below 2^64, are all published there, in order.
  pub send_all-read_all :
      (s : port.State) (frames : List UartFrame) (chunks : List Bytes) (shelf : ByteShelf) (n : ℕ)
      → o.sent s ≡ []
      → AllFit frames
      → flatten chunks ≡ o.sent (send_all s frames)
      → IsValid shelf n
      → n + length frames < word_mod
      → (shelf' : ByteShelf) × (publish_all shelf frames ≡ done shelf')
        × (read_all shelf [] chunks ≡ done (shelf', []))
  send_all-read_all s frames chunks shelf n empty fit e v fits =
      read_all_publishes shelf n frames chunks v fits fit
        (e ∙ sent-send_all frames s fit ∙ ap (λ l. l ++ encode_all frames) empty)
