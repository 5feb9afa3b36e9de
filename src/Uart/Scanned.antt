-- ===== src/Uart/Scanned.antt =====
-- uart/mod.rs: the search on whole frames and on prefixes of frames.
use bibi_sync.Base.{
  ℕ, suc, ◌+◌, ◌-◌, ◌≤◌, ◌<◌, ◌≡◌, refl, ap, ◌∙◌, ◌≢◌, some, [], ◌∷◌, ◌++◌, append_assoc, arith,
  length, length-append, take, drop, take-append, drop-append, get_elem?, get_elem?-append_at, done,
}
use bibi_sync.Uart.Wire.{
  Bytes, sync_byte, max_msg_size, calculate_checksum, sync_position, slice, drain, waiting, framed,
  scan, scan_synced, verify,
}

-- The bytes of a frame: type, length, payload and checksum behind the sync byte.
abbrev pub frame_bytes : ℕ → Bytes → Bytes
frame_bytes msg_type payload =
    sync_byte ∷ msg_type ∷ length payload ∷ payload
    ++ calculate_checksum (msg_type ∷ length payload ∷ payload) ∷ []

-- No byte of it is the sync byte.
abbrev pub IsJunk : Bytes → Type 0
IsJunk [] = Unit
IsJunk (b ∷ bs) = (b ≢ sync_byte) × IsJunk bs

pub length-frame_bytes : (t : ℕ) (p : Bytes) → length (frame_bytes t p) ≡ 4 + length p
length-frame_bytes t p = omega (arith, length-append p (calculate_checksum (t ∷ length p ∷ p) ∷ []))

sync_position-junk :
    (junk rest : Bytes)
    → IsJunk junk
    → sync_position (junk ++ sync_byte ∷ rest) ≡ some (length junk)
unfolding sync_position
sync_position-junk [] rest h = refl
sync_position-junk (b ∷ junk) rest h = ground (arith, sync_position-junk junk rest h.1)

pub slice-eq :
    (lo hi : ℕ) (xs ys : Bytes)
    → lo ≤ hi
    → hi ≤ length xs
    → take (hi - lo) (drop lo xs) ≡ ys
    → slice lo hi xs ≡ done ys
slice-eq lo hi xs ys h k e = ground arith

pub drain-eq : (n : ℕ) (xs : Bytes) → n ≤ length xs → drain n xs ≡ done (drop n xs)
drain-eq n xs h = ground arith

module _ (t : ℕ) (p rest : Bytes) where
  -- A frame at the front, with what follows.
  abbrev pub whole : Bytes
  whole = sync_byte ∷ t ∷ length p ∷ p ++ calculate_checksum (t ∷ length p ∷ p) ∷ rest

  pub whole-eq : frame_bytes t p ++ rest ≡ whole
  whole-eq = append_assoc (sync_byte ∷ t ∷ length p ∷ p) _ rest

  pub length-whole : length whole ≡ 4 + length p + length rest
  length-whole = omega (arith, length-append p (calculate_checksum (t ∷ length p ∷ p) ∷ rest))

  checksum_at : get_elem? whole (3 + length p) ≡ some (calculate_checksum (t ∷ length p ∷ p))
  checksum_at =
      ap (get_elem? whole) three_more
      ∙ get_elem?-append_at p rest (calculate_checksum (t ∷ length p ∷ p)) (length p) refl
    where
      three_more : 3 + length p ≡ suc (suc (suc (length p)))
      three_more = omega arith

  body_at : slice 1 (3 + length p) whole ≡ done (t ∷ length p ∷ p)
  body_at =
      slice-eq 1 (3 + length p) whole (t ∷ length p ∷ p) (omega arith) (omega (arith, length-whole))
        (ap (λ n. take n (drop 1 whole)) two_more
          ∙ ap (λ l. t ∷ length p ∷ l) (take-append p _ (length p) refl))
    where
      two_more : 3 + length p - 1 ≡ suc (suc (length p))
      two_more = omega arith

  pub verify-frame : verify t (length p) whole ≡ done (framed t (length p) whole)
  unfolding verify
  verify-frame = ground (arith, checksum_at, body_at)

  scan_synced-frame : length p ≤ max_msg_size → scan_synced whole ≡ done (framed t (length p) whole)
  unfolding scan_synced
  scan_synced-frame small = ground (arith, verify-frame, length-whole)

  -- A frame is found behind any bytes that hold no sync byte.
  pub scan-frame :
      (junk : Bytes)
      → IsJunk junk
      → length p ≤ max_msg_size
      → scan (junk ++ whole) ≡ done (framed t (length p) whole)
  unfolding scan sync_position
  scan-frame [] h small = ground (arith, scan_synced-frame small, length-whole)
  scan-frame (b ∷ junk) h small = ground (
    arith,
    scan_synced-frame small,
    length-append (b ∷ junk) whole,
    length-whole,
    sync_position-junk (b ∷ junk) (t ∷ length p ∷ p ++ calculate_checksum (t ∷ length p ∷ p) ∷ rest)
        h,
    drain-eq (length (b ∷ junk)) ((b ∷ junk) ++ whole),
    drop-append (b ∷ junk) whole (length (b ∷ junk)) refl,
  )

  -- The payload, and what follows the frame.
  pub payload-whole : slice 3 (3 + length p) whole ≡ done p
  payload-whole =
      slice-eq 3 (3 + length p) whole p (omega arith) (omega (arith, length-whole))
        (ap (λ n. take n (drop 3 whole)) (omega arith) ∙ take-append p _ (length p) refl)

  pub drain-whole : drain (4 + length p) whole ≡ done rest
  drain-whole =
      drain-eq (4 + length p) whole (omega (arith, length-whole))
      ∙ ap (λ n. done (drop n whole)) four_more
      ∙ ap done (drop-past p (calculate_checksum (t ∷ length p ∷ p)))
    where
      four_more : 4 + length p ≡ suc (suc (suc (suc (length p))))
      four_more = omega arith

      drop-past : (xs : Bytes) (c : ℕ) → drop (suc (length xs)) (xs ++ c ∷ rest) ≡ rest
      drop-past [] c = refl
      drop-past (x ∷ xs) c = drop-past xs c

-- A frame that has not come in whole is waited for.
pub scan-prefix :
    (t : ℕ) (p xs ys more : Bytes)
    → xs ++ ys ≡ frame_bytes t p ++ more
    → length xs < 4 + length p
    → length p ≤ max_msg_size
    → scan xs ≡ done (waiting xs)
unfolding scan scan_synced sync_position
scan-prefix t p [] ys more e short small = refl
scan-prefix t p (a ∷ []) ys more e short small = refl
scan-prefix t p (a ∷ b ∷ []) ys more e short small = refl
scan-prefix t p (a ∷ b ∷ c ∷ []) ys more e short small = refl
scan-prefix t p (a ∷ b ∷ c ∷ d ∷ xs) ys more e short small = ground arith
