-- ===== src/Uart/ScanCases.antt =====
-- uart/mod.rs: what the search for a frame can come to, for any buffer.
use native.Mathlib.Decide.{dec_lt, ℕ_discrete}
use bibi_sync.Base.{
  ℕ, zero, suc, ◌+◌, ◌-◌, ◌≤◌, ◌<◌, ◌≡◌, refl, sym, ap, subst, ◌∙◌, ◌≢◌, ◌⊎◌, inl, inr, false, none,
  some, [], ◌∷◌, ◌++◌, append_assoc, arith, ltb, length, length-append, take, drop, take-append,
  drop-append, get_elem?, get_elem?-append_at, Exec, done, Bool-cases,
}
use bibi_sync.Uart.Wire.{
  Bytes, sync_byte, max_msg_size, calculate_checksum, sync_position, slice, Scan, waiting, framed,
  scan, scan_synced, verify,
}
use bibi_sync.Uart.Scanned.{IsJunk, whole, slice-eq, drain-eq, verify-frame}

-- Either the search leaves an end of the buffer, or it stops at a frame behind bytes that hold no
-- sync byte.
pub data Outcome (rx : Bytes) (r : Exec Scan) : Type 0 where
  waits : (dropped rest : Bytes) → r ≡ done (waiting rest) → rx ≡ dropped ++ rest → Outcome rx r
  finds :
      (junk : Bytes) (t : ℕ) (p rest : Bytes)
      → r ≡ done (framed t (length p) (whole t p rest))
      → IsJunk junk
      → rx ≡ junk ++ whole t p rest
      → length p ≤ max_msg_size
      → Outcome rx r

-- The buffer from the sync byte on: payload and checksum byte, and what follows.
split_at :
    (n : ℕ) (xs : Bytes)
    → n < length xs
    → (p : Bytes) × (k : ℕ) × (more : Bytes) × (length p ≡ n) × (xs ≡ p ++ k ∷ more)
split_at n [] h = absurd (omega arith)
split_at zero (x ∷ xs) h = ([], x, xs, refl, refl)
split_at (suc n) (x ∷ xs) h =
    let (p, k, more, e, f) = split_at n xs (omega arith) in
    (x ∷ p, k, more, ap suc e, ap (λ l. x ∷ l) f)

module _ (t : ℕ) (p : Bytes) (k : ℕ) (more : Bytes) where
  -- A candidate: its checksum byte may be any.
  abbrev pub candidate : Bytes
  candidate = sync_byte ∷ t ∷ length p ∷ p ++ k ∷ more

  candidate_at : get_elem? candidate (3 + length p) ≡ some k
  candidate_at = ap (get_elem? candidate) three_more ∙ get_elem?-append_at p more k (length p) refl
    where
      three_more : 3 + length p ≡ suc (suc (suc (length p)))
      three_more = omega arith

  candidate_body : slice 1 (3 + length p) candidate ≡ done (t ∷ length p ∷ p)
  candidate_body =
      slice-eq 1 (3 + length p) candidate (t ∷ length p ∷ p) (omega arith)
        (omega (arith, length-append p (k ∷ more)))
        (ap (λ n. take n (drop 1 candidate)) two_more
          ∙ ap (λ l. t ∷ length p ∷ l) (take-append p _ (length p) refl))
    where
      two_more : 3 + length p - 1 ≡ suc (suc (length p))
      two_more = omega arith

  pub verify-bad :
      k ≢ calculate_checksum (t ∷ length p ∷ p)
      → verify t (length p) candidate ≡ done (waiting (t ∷ length p ∷ p ++ k ∷ more))
  unfolding verify
  verify-bad bad = ground (arith, candidate_at, candidate_body)

  pub scan-bad :
      length p ≤ max_msg_size
      → k ≢ calculate_checksum (t ∷ length p ∷ p)
      → scan candidate ≡ done (waiting (t ∷ length p ∷ p ++ k ∷ more))
  unfolding scan scan_synced sync_position
  scan-bad small bad = ground (arith, verify-bad bad, length-append p (k ∷ more))

  verify_cases : length p ≤ max_msg_size → Outcome candidate (verify t (length p) candidate)
  verify_cases small = elim (ℕ_discrete k (calculate_checksum (t ∷ length p ∷ p))) [
    | yes good ↦
        finds [] t p more
          (subst
              (λ c.
                verify t (length p) (sync_byte ∷ t ∷ length p ∷ p ++ c ∷ more)
                ≡ done (framed t (length p) (sync_byte ∷ t ∷ length p ∷ p ++ c ∷ more)))
              (sym good) (verify-frame t p more)
            ∙ ap (λ c. done (framed t (length p) (sync_byte ∷ t ∷ length p ∷ p ++ c ∷ more))) good)
          tt (ap (λ c. sync_byte ∷ t ∷ length p ∷ p ++ c ∷ more) good) small
    | no bad ↦ waits (sync_byte ∷ []) _ (verify-bad bad) refl
  ]

-- With all bytes of the candidate in the buffer.
verify_any :
    (t n : ℕ) (tail p : Bytes) (k : ℕ) (more : Bytes)
    → length p ≡ n
    → tail ≡ p ++ k ∷ more
    → n ≤ max_msg_size
    → Outcome (sync_byte ∷ t ∷ n ∷ tail) (verify t n (sync_byte ∷ t ∷ n ∷ tail))
verify_any t n tail p k more e f small =
    subst (λ m. Outcome (sync_byte ∷ t ∷ m ∷ tail) (verify t m (sync_byte ∷ t ∷ m ∷ tail))) e
      (subst
        (λ l.
          Outcome (sync_byte ∷ t ∷ length p ∷ l)
            (verify t (length p) (sync_byte ∷ t ∷ length p ∷ l)))
        (sym f) (verify_cases t p k more (omega arith)))

scan_synced_cases : (rest : Bytes) → Outcome (sync_byte ∷ rest) (scan_synced (sync_byte ∷ rest))
unfolding scan_synced
scan_synced_cases [] = waits [] _ refl refl
scan_synced_cases (a ∷ []) = waits [] _ refl refl
scan_synced_cases (a ∷ b ∷ []) = waits [] _ refl refl
scan_synced_cases (a ∷ b ∷ c ∷ rest) = elim (Bool-cases (ltb max_msg_size b)) [
  | inl big ↦ waits (sync_byte ∷ []) (a ∷ b ∷ c ∷ rest) (ground arith) refl
  | inr fits ↦ elim (dec_lt (length rest) b) [
    | yes short ↦ waits [] (sync_byte ∷ a ∷ b ∷ c ∷ rest) (ground arith) refl
    | no long ↦
        let (p, k, more, e, f) = split_at b (c ∷ rest) (omega arith) in
        subst (Outcome (sync_byte ∷ a ∷ b ∷ c ∷ rest)) (sym (goes_on fits long))
          (verify_any a b (c ∷ rest) p k more e f (ground arith))
  ]
]
  where
    goes_on :
        ltb max_msg_size b ≡ false
        → ¬ (length rest < b)
        → scan_synced (sync_byte ∷ a ∷ b ∷ c ∷ rest) ≡ verify a b (sync_byte ∷ a ∷ b ∷ c ∷ rest)
    goes_on fits long = ground arith

sync_position_cases :
    (rx : Bytes)
    → (sync_position rx ≡ none)
      ⊎ ((junk : Bytes) × (rest : Bytes) × (sync_position rx ≡ some (length junk))
          × IsJunk junk
          × (rx ≡ junk ++ sync_byte ∷ rest))
unfolding sync_position
sync_position_cases [] = inl refl
sync_position_cases (b ∷ bs) = elim (ℕ_discrete b sync_byte) [
  | yes sync ↦ inr ([], bs, ground arith, tt, ap (λ n. n ∷ bs) sync)
  | no other ↦ elim (sync_position_cases bs) [
    | inl e ↦ inl (ground (arith, e))
    | inr (junk, rest, e, j, f) ↦
        inr (b ∷ junk, rest, ground (arith, e), (other, j), ap (λ l. b ∷ l) f)
  ]
]

IsJunk-append : (xs ys : Bytes) → IsJunk xs → IsJunk ys → IsJunk (xs ++ ys)
IsJunk-append [] ys h k = k
IsJunk-append (x ∷ xs) ys h k = (h.0, IsJunk-append xs ys h.1 k)

-- Junk in front changes nothing.
Outcome-append :
    (junk : Bytes) {rx rest : Bytes} {r : Exec Scan}
    → IsJunk junk
    → rx ≡ junk ++ rest
    → Outcome rest r
    → Outcome rx r
Outcome-append junk j e (waits dropped rest f g) =
    waits (junk ++ dropped) rest f
      (e ∙ ap (λ l. junk ++ l) g ∙ sym (append_assoc junk dropped rest))
Outcome-append junk j e (finds more t p rest f k g small) =
    finds (junk ++ more) t p rest f (IsJunk-append junk more j k)
      (e ∙ ap (λ l. junk ++ l) g ∙ sym (append_assoc junk more _)) small

scan-skip :
    (junk rest : Bytes)
    → ¬ (length (junk ++ rest) < 4)
    → sync_position (junk ++ rest) ≡ some (length junk)
    → scan (junk ++ rest) ≡ scan_synced rest
unfolding scan
scan-skip [] rest long e = ground arith
scan-skip (b ∷ junk) rest long e = ground (
  arith,
  length-append (b ∷ junk) rest,
  drain-eq (length (b ∷ junk)) ((b ∷ junk) ++ rest),
  drop-append (b ∷ junk) rest (length (b ∷ junk)) refl,
)

-- The search ends in one of the two ways, whatever the buffer holds.
pub scan_cases : (rx : Bytes) → Outcome rx (scan rx)
unfolding scan
scan_cases rx = elim (dec_lt (length rx) 4) [
  | yes short ↦ waits [] rx (ground arith) refl
  | no long ↦ elim (sync_position_cases rx) [
    | inl e ↦ waits [] rx (ground (arith, e)) refl
    | inr (junk, rest, e, j, f) ↦
        subst (Outcome rx)
          (sym (
            ap scan f
            ∙ scan-skip junk (sync_byte ∷ rest) (λ h. long (omega (arith, h, ap length f)))
                (sym (ap sync_position f) ∙ e)))
          (Outcome-append junk j f (scan_synced_cases rest))
  ]
]
