-- ===== src/EndToEnd/Counts.antt =====
-- examples/stm32_test.rs: how the counters and the lines go with the messages.
use native.Mathlib.Decide.{dec_lt}
use bibi_sync.Base.{
  ℕ, zero, suc, ◌+◌, ◌*◌, ◌/◌, ◌^◌, ◌&&◌, ◌≤◌, ◌<◌, ◌≡◌, refl, sym, subst, ap, ◌∙◌, ◌⊎◌, inl, inr,
  Bool, true, false, Option, none, some, List, [], ◌∷◌, ltb, leb, ◌==◌, if◌then◌else◌, length,
  length-append, arith,
}
use bibi_sync.Protocol.{
  Bytes, read_words, imu_msg_size, orientation_msg_size, depth_msg_size, imu_of_words,
  orientation_of_words, depth_of_words, ImuMsg, OrientationMsg, DepthMsg, imu_from_bytes,
  orientation_from_bytes, depth_from_bytes,
}
use bibi_sync.Uart.{UartFrame}
use bibi_sync.Uart.Message.{MsgType, to_u8, imu, depth, orientation}
use bibi_sync.EndToEnd.{
  Tally, next_count, printed, count_imu, count_orientation, count_depth, count_frame, all_received,
}

-- A frame of the type with enough bytes for the message.
abbrev pub carries : MsgType → (size : ℕ) → MsgType × Bytes → Bool
unfolding to_u8
carries t size (msg_type, payload) = (to_u8 msg_type == to_u8 t) && leb size (length payload)

abbrev pub one_if : Bool → ℕ
one_if true = 1
one_if false = 0

-- How many of the frames carry the message.
abbrev pub carried : MsgType → (size : ℕ) → List UartFrame → ℕ
carried t size [] = 0
carried t size (f ∷ fs) = one_if (carries t size (f.msg_type, f.payload)) + carried t size fs

length-read_words : (n : ℕ) (bs : Bytes) → 4 * n ≤ length bs → length (read_words n bs) ≡ n
unfolding read_words
length-read_words zero bs enough = refl
length-read_words (suc n) (a ∷ b ∷ c ∷ d ∷ bs) enough =
    ap suc (length-read_words n bs (omega (arith, enough)))
length-read_words (suc n) [] enough = absurd (omega (arith, enough))
length-read_words (suc n) (a ∷ []) enough = absurd (omega (arith, enough))
length-read_words (suc n) (a ∷ b ∷ []) enough = absurd (omega (arith, enough))
length-read_words (suc n) (a ∷ b ∷ c ∷ []) enough = absurd (omega (arith, enough))

imu_of_nine : (ws : List ℕ) → length ws ≡ 9 → (m : ImuMsg) × (imu_of_words ws ≡ some m)
imu_of_nine (a ∷ b ∷ c ∷ d ∷ e ∷ f ∷ g ∷ h ∷ i ∷ []) nine = (_, refl)
imu_of_nine _ nine = absurd (omega (arith, nine))

orientation_of_three :
    (ws : List ℕ) → length ws ≡ 3 → (m : OrientationMsg) × (orientation_of_words ws ≡ some m)
orientation_of_three (a ∷ b ∷ c ∷ []) three = (_, refl)
orientation_of_three _ three = absurd (omega (arith, three))

depth_of_one : (ws : List ℕ) → length ws ≡ 1 → (m : DepthMsg) × (depth_of_words ws ≡ some m)
depth_of_one (a ∷ []) one = (_, refl)
depth_of_one _ one = absurd (omega (arith, one))

-- Whether a message is read: enough bytes give one, too few give none.
abbrev Read : {A : Type 0} → Bool → Option A → Type 0
Read {A} enough x = ((enough ≡ false) × (x ≡ none)) ⊎ ((enough ≡ true) × (a : A) × (x ≡ some a))

module _ {A : Type 0} (n : ℕ) (of_words : List ℕ → Option A) where
  decode-Read :
      (bs : Bytes)
      → ((ws : List ℕ) → length ws ≡ n → (a : A) × (of_words ws ≡ some a))
      → Read
          (leb (4 * n) (length bs))
          (if ltb (length bs) (4 * n) then none else of_words (read_words n bs))
  decode-Read bs reads = elim (dec_lt (length bs) (4 * n)) [
    | yes short ↦ inl (ground (arith, short), ground (arith, short))
    | no long ↦
        let (a, e) = reads (read_words n bs) (length-read_words n bs (omega (arith, long))) in
        inr (ground (arith, long), a, ground (arith, long, e))
  ]

-- Of every ten messages, from the first on, one is printed.
abbrev pub tenth : ℕ → ℕ
tenth n = (n + 9) / 10

length-printed :
    {A : Type 0} (n : ℕ) (a : A) (lines : List A)
    → n + 1 < 2 ^ 31
    → length lines ≡ tenth n
    → length (printed (next_count n) a lines) ≡ tenth (n + 1)
length-printed n a lines small e = ground (arith, small, e, length-append lines (a ∷ []))

-- What the counters and the lines come to.
pub record Counted (t : Tally) (i o d : ℕ) : Type 0 where
  pub imu_counted : t.imu_count ≡ i
  pub orientation_counted : t.orientation_count ≡ o
  pub depth_counted : t.depth_count ≡ d
  pub imu_printed : length t.imu_lines ≡ tenth i
  pub orientation_printed : length t.orientation_lines ≡ tenth o
  pub depth_printed : length t.depth_lines ≡ tenth d

pub Counted-same :
    {t : Tally} {i o d i' o' d' : ℕ}
    → Counted t i o d
    → i ≡ i'
    → o ≡ o'
    → d ≡ d'
    → Counted t i' o' d'
Counted-same v e f g = record {
  imu_counted = v.imu_counted ∙ e;
  orientation_counted = v.orientation_counted ∙ f;
  depth_counted = v.depth_counted ∙ g;
  imu_printed = v.imu_printed ∙ ap tenth e;
  orientation_printed = v.orientation_printed ∙ ap tenth f;
  depth_printed = v.depth_printed ∙ ap tenth g;
}

-- The value that was read is there, or it is not.
Read-elim {ℓ} :
    {A : Type 0} {enough : Bool} {x : Option A} (P : Bool → Option A → Type ℓ)
    → Read enough x
    → P false none
    → ((a : A) → P true (some a))
    → P enough x
Read-elim {x} P (inl (e, f)) short long = subst (λ b. P b x) (sym e) (subst (P false) (sym f) short)
Read-elim {x} P (inr (e, a, f)) short long =
    subst (λ b. P b x) (sym e) (subst (P true) (sym f) (long a))

module _ (t : Tally) (i o d : ℕ) (v : Counted t i o d) where
  counts_on : (n m : ℕ) → n ≡ m → m + 1 < 2 ^ 31 → next_count n ≡ m + 1
  counts_on n m e small = omega (arith, e, small)

  prints_on :
      {A : Type 0} (n m : ℕ) (a : A) (lines : List A)
      → n ≡ m
      → m + 1 < 2 ^ 31
      → length lines ≡ tenth m
      → length (printed (next_count n) a lines) ≡ tenth (m + 1)
  prints_on n m a lines e small f =
      length-printed n a lines (omega (arith, e, small)) (f ∙ ap tenth (sym e))
      ∙ ap (λ k. tenth (k + 1)) e

  count_imu-Counted :
      {enough : Bool} {x : Option ImuMsg}
      → i + 1 < 2 ^ 31
      → Read enough x
      → Counted (count_imu t x) (i + one_if enough) o d
  count_imu-Counted small r =
      Read-elim (λ b y. Counted (count_imu t y) (i + one_if b) o d) r
        (Counted-same v (omega arith) refl refl)
        (λ msg. record {
          imu_counted = counts_on t.imu_count i v.imu_counted small;
          orientation_counted = v.orientation_counted;
          depth_counted = v.depth_counted;
          imu_printed = prints_on t.imu_count i msg t.imu_lines v.imu_counted small v.imu_printed;
          orientation_printed = v.orientation_printed;
          depth_printed = v.depth_printed;
        })

  count_orientation-Counted :
      {enough : Bool} {x : Option OrientationMsg}
      → o + 1 < 2 ^ 31
      → Read enough x
      → Counted (count_orientation t x) i (o + one_if enough) d
  count_orientation-Counted small r =
      Read-elim (λ b y. Counted (count_orientation t y) i (o + one_if b) d) r
        (Counted-same v refl (omega arith) refl)
        (λ msg. record {
          imu_counted = v.imu_counted;
          orientation_counted = counts_on t.orientation_count o v.orientation_counted small;
          depth_counted = v.depth_counted;
          imu_printed = v.imu_printed;
          orientation_printed =
              prints_on t.orientation_count o msg t.orientation_lines v.orientation_counted small
                v.orientation_printed;
          depth_printed = v.depth_printed;
        })

  count_depth-Counted :
      {enough : Bool} {x : Option DepthMsg}
      → d + 1 < 2 ^ 31
      → Read enough x
      → Counted (count_depth t x) i o (d + one_if enough)
  count_depth-Counted small r =
      Read-elim (λ b y. Counted (count_depth t y) i o (d + one_if b)) r
        (Counted-same v refl refl (omega arith))
        (λ msg. record {
          imu_counted = v.imu_counted;
          orientation_counted = v.orientation_counted;
          depth_counted = counts_on t.depth_count d v.depth_counted small;
          imu_printed = v.imu_printed;
          orientation_printed = v.orientation_printed;
          depth_printed =
              prints_on t.depth_count d msg t.depth_lines v.depth_counted small v.depth_printed;
        })

  -- One message.
  pub count_frame-Counted :
      (m : MsgType × Bytes)
      → (i + 1 < 2 ^ 31) × (o + 1 < 2 ^ 31) × (d + 1 < 2 ^ 31)
      → Counted
          (count_frame t m)
          (i + one_if (carries imu imu_msg_size m))
          (o + one_if (carries orientation orientation_msg_size m))
          (d + one_if (carries depth depth_msg_size m))
  unfolding count_frame imu_from_bytes orientation_from_bytes depth_from_bytes to_u8
  count_frame-Counted (imu, p) (small, _, _) =
      Counted-same (count_imu-Counted small (decode-Read 9 imu_of_words p imu_of_nine)) refl
        (omega arith) (omega arith)
  count_frame-Counted (orientation, p) (_, small, _) =
      Counted-same
        (count_orientation-Counted small
          (decode-Read 3 orientation_of_words p orientation_of_three))
        (omega arith) refl (omega arith)
  count_frame-Counted (depth, p) (_, _, small) =
      Counted-same (count_depth-Counted small (decode-Read 1 depth_of_words p depth_of_one))
        (omega arith) (omega arith) refl
  count_frame-Counted (_, p) small = Counted-same v (omega arith) (omega arith) (omega arith)

  -- The test's verdict.
  pub verdict :
      i < 2 ^ 31 → o < 2 ^ 31 → d < 2 ^ 31 → all_received t ≡ ltb 0 i && ltb 0 o && ltb 0 d
  verdict small_i small_o small_d =
      ground (arith, v.imu_counted, v.orientation_counted, v.depth_counted)
