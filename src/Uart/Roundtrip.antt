-- ===== src/Uart/Roundtrip.antt =====
-- uart/mod.rs: `try_parse_frame` on the frames of `send_frame`.
use bibi_sync.Base.{
  ◌%◌, ◌≤◌, ◌≡◌, refl, ap, ◌∙◌, some, [], ◌∷◌, ◌++◌, append_assoc, arith, length, done,
}
use bibi_sync.Uart.{finish, try_parse_frame, build_frame}
use bibi_sync.Uart.Message.{MsgType, to_u8, from_u8, imu}
use bibi_sync.Uart.Wire.{Bytes, sync_byte, calculate_checksum, max_msg_size}
use bibi_sync.Uart.Scanned.{
  IsJunk, frame_bytes, whole, whole-eq, scan-frame, payload-whole, drain-whole,
}

-- The byte of a message type determines it.
pub from_u8-to_u8 : (t : MsgType) → from_u8 (to_u8 t) ≡ some t
unfolding from_u8 to_u8
from_u8-to_u8 imu = refl
from_u8-to_u8 _ = refl

pub build_frame-eq :
    (t : MsgType) (p : Bytes) → length p ≤ max_msg_size → build_frame t p ≡ frame_bytes (to_u8 t) p
unfolding build_frame
build_frame-eq t p small =
    ap (λ n. sync_byte ∷ to_u8 t ∷ n ∷ p ++ calculate_checksum (to_u8 t ∷ n ∷ p) ∷ []) fits
  where
    fits : length p % 256 ≡ length p
    fits = omega arith

module _ (t : MsgType) (p rest : Bytes) (small : length p ≤ max_msg_size) where
  parse-whole :
      (junk : Bytes)
      → IsJunk junk
      → try_parse_frame (junk ++ whole (to_u8 t) p rest)
        ≡ done (some (record { msg_type = t; payload = p }), rest)
  unfolding try_parse_frame finish
  parse-whole junk h = ground (
    arith,
    scan-frame (to_u8 t) p rest junk h small,
    from_u8-to_u8 t,
    payload-whole (to_u8 t) p rest,
    drain-whole (to_u8 t) p rest,
  )

  -- For a payload of at most 244 bytes, the frame that `send_frame` builds is parsed back behind
  -- any bytes that hold no sync byte, with its message type and its payload, and the bytes after it
  -- stay in the buffer.
  pub parse-build_frame :
      (junk : Bytes)
      → IsJunk junk
      → try_parse_frame (junk ++ build_frame t p ++ rest)
        ≡ done (some (record { msg_type = t; payload = p }), rest)
  parse-build_frame junk h =
      ap (λ f. try_parse_frame ((junk ++ f) ++ rest)) (build_frame-eq t p small)
      ∙ ap try_parse_frame (
          append_assoc junk (frame_bytes (to_u8 t) p) rest
          ∙ ap (λ l. junk ++ l) (whole-eq (to_u8 t) p rest))
      ∙ parse-whole junk h
