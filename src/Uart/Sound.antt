-- ===== src/Uart/Sound.antt =====
-- uart/mod.rs: what `try_parse_frame` can come to, for any buffer.
use bibi_sync.Base.{
  ℕ, ◌≤◌, ◌≡◌, sym, ap, ◌∙◌, inl, inr, Option, none, some, ◌++◌, arith, length, Exec, done, ◌>>=◌,
  Option-cases,
}
use bibi_sync.Uart.{UartFrame, finish, try_parse_frame, build_frame}
use bibi_sync.Uart.Message.{MsgType, to_u8, from_u8, imu}
use bibi_sync.Uart.Wire.{Bytes, max_msg_size, Scan, scan}
use bibi_sync.Uart.Scanned.{IsJunk, frame_bytes, whole, whole-eq, payload-whole, drain-whole}
use bibi_sync.Uart.ScanCases.{Outcome, waits, finds, scan_cases}
use bibi_sync.Uart.Roundtrip.{build_frame-eq}

pub data Parse (rx : Bytes) (r : Exec (Option UartFrame × Bytes)) : Type 0 where
  leaves : (dropped rest : Bytes) → r ≡ done (none, rest) → rx ≡ dropped ++ rest → Parse rx r
  takes :
      (junk : Bytes) (f : UartFrame) (rest : Bytes)
      → r ≡ done (some f, rest)
      → IsJunk junk
      → rx ≡ junk ++ (build_frame f.msg_type f.payload ++ rest)
      → length f.payload ≤ max_msg_size
      → Parse rx r

to_u8-from_u8 : (t : ℕ) (m : MsgType) → from_u8 t ≡ some m → to_u8 m ≡ t
unfolding from_u8 to_u8
to_u8-from_u8 t imu e = ground arith
to_u8-from_u8 t _ e = ground arith

-- For any buffer, a parse never panics. Either it gives no frame and leaves an end of the buffer;
-- or the buffer was a frame of a known type with at most 244 bytes of payload, as `send_frame`
-- builds it, behind bytes that hold no sync byte, and the parse gives this frame and leaves what
-- stands after it.
pub try_parse_frame_cases : (rx : Bytes) → Parse rx (try_parse_frame rx)
unfolding try_parse_frame finish
try_parse_frame_cases rx = go (scan rx) (scan_cases rx)
  where
    go : (s : Exec Scan) → Outcome rx s → Parse rx (s >>= finish)
    go s (waits dropped rest e f) = leaves dropped rest (ap (λ m. m >>= finish) e) f
    go s (finds junk t p rest e j f small) = elim (Option-cases (from_u8 t)) [
      | inl unknown ↦
          leaves junk (whole t p rest) (ap (λ m. m >>= finish) e ∙ ground (arith, unknown)) f
      | inr (m, known) ↦
          takes junk (record { msg_type = m; payload = p }) rest
            (ap (λ m. m >>= finish) e
              ∙ ground (arith, known, payload-whole t p rest, drain-whole t p rest))
            j
            (f
              ∙ ap (λ l. junk ++ l)
                  (sym (whole-eq t p rest)
                    ∙ ap (λ b. frame_bytes b p ++ rest) (sym (to_u8-from_u8 t m known))
                    ∙ ap (λ l. l ++ rest) (sym (build_frame-eq m p small))))
            small
    ]
