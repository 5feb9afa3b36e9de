-- ===== src/Uart/Stuck.antt =====
-- uart/mod.rs: `process_buffer` on frames of unknown types and with wrong checksums.
use mathlib.Core.List.{flatten}
use bibi_sync.Base.{
  ℕ, ◌≤◌, ◌≡◌, sym, ap, ◌∙◌, ◌≢◌, none, List, [], ◌∷◌, ◌++◌, append_assoc, append-nil, arith,
  length, done, ◌>>=◌,
}
use bibi_sync.Registry.{ByteShelf}
use bibi_sync.Uart.{finish, try_parse_frame, process_loop, process_buffer, on_read}
use bibi_sync.Uart.Message.{from_u8}
use bibi_sync.Uart.Wire.{Bytes, max_msg_size, calculate_checksum}
use bibi_sync.Uart.Scanned.{frame_bytes, whole-eq, scan-frame}
use bibi_sync.Uart.ScanCases.{candidate, scan-bad}
use bibi_sync.Uart.Stream.{read_all}

-- A parse that finds no frame ends the loop.
process_none :
    (shelf : ByteShelf) (rx rest : Bytes)
    → try_parse_frame rx ≡ done (none, rest)
    → process_buffer shelf rx ≡ done (shelf, rest)
unfolding process_buffer process_loop
process_none shelf rx rest e = rw e

module _ (t : ℕ) (p : Bytes) (unknown : from_u8 t ≡ none) (small : length p ≤ max_msg_size) where
  -- A frame with a good checksum and a type byte that is not known is never taken away.
  parse_unknown :
      (rest : Bytes)
      → try_parse_frame (frame_bytes t p ++ rest) ≡ done (none, frame_bytes t p ++ rest)
  unfolding try_parse_frame finish
  parse_unknown rest =
      rw (whole-eq t p rest) (ground (arith, scan-frame t p rest [] tt small, unknown))

  on_read_unknown :
      (shelf : ByteShelf) (rest chunk : Bytes)
      → on_read shelf (frame_bytes t p ++ rest) chunk
        ≡ done (shelf, frame_bytes t p ++ (rest ++ chunk))
  unfolding on_read
  on_read_unknown shelf rest chunk =
      ap (process_buffer shelf) (append_assoc (frame_bytes t p) rest chunk)
      ∙ process_none shelf _ _ (parse_unknown (rest ++ chunk))

  -- If a frame with a good checksum, at most 244 bytes of payload and a type byte that `from_u8`
  -- does not know stands at the front of the receive buffer, then whatever reads follow, the bridge
  -- publishes nothing, and its buffer keeps this frame and all bytes that come in.
  pub unknown_type_blocks :
      (shelf : ByteShelf) (chunks : List Bytes) (rest : Bytes)
      → read_all shelf (frame_bytes t p ++ rest) chunks
        ≡ done (shelf, frame_bytes t p ++ (rest ++ flatten chunks))
  unfolding read_all flatten
  unknown_type_blocks shelf [] rest =
      ap (λ l. done (shelf, frame_bytes t p ++ l)) (sym (append-nil rest))
  unknown_type_blocks shelf (chunk ∷ chunks) rest =
      ap (λ m. m >>= λ (s, rx). read_all s rx chunks) (on_read_unknown shelf rest chunk)
      ∙ unknown_type_blocks shelf chunks (rest ++ chunk)
      ∙ ap (λ l. done (shelf, frame_bytes t p ++ l)) (append_assoc rest chunk (flatten chunks))

module _ (t : ℕ) (p : Bytes) (k : ℕ) (more : Bytes) where
  -- If a frame with at most 244 bytes of payload and a wrong checksum stands at the front of the
  -- receive buffer, processing the buffer drops its sync byte and stops: nothing that stands behind
  -- it is published in that call, whole frames included.
  pub bad_checksum_stalls :
      (shelf : ByteShelf)
      → length p ≤ max_msg_size
      → k ≢ calculate_checksum (t ∷ length p ∷ p)
      → process_buffer shelf (candidate t p k more) ≡ done (shelf, t ∷ length p ∷ p ++ k ∷ more)
  unfolding try_parse_frame finish
  bad_checksum_stalls shelf small bad =
      process_none shelf (candidate t p k more) (t ∷ length p ∷ p ++ k ∷ more)
        (ap (λ m. m >>= finish) (scan-bad t p k more small bad))
