-- ===== src/Mixer/Instance.antt =====
-- Numbers that obey the laws of `Floats`: the integers from -5000 up, and a NaN.
use bibi_sync.Base.{
  ℕ, ◌+◌, ◌-◌, ◌*◌, ◌^◌, ◌≤◌, ◌≡◌, refl, Bool, true, false, ltb, leb, ◌==◌, if◌then◌else◌, min,
  arith,
}
use bibi_sync.Mixer.{Floats}
use bibi_sync.Mixer.Laws.{IsIeee}

-- `num (5000 + k)` is the integer k.
pub data Whole : Type 0 where
  nan : Whole
  num : ℕ → Whole

abbrev whole_from_bits : ℕ → Whole
whole_from_bits bits =
    if bits == 0
    then num 5000
    else if bits == 0x3F800000
    then num 5001
    else if bits == 0x40800000
    then num 5004
    else if bits == 0x42C80000
    then num 5100
    else if bits == 0x44BB8000
    then num 6500
    else if bits == 0x43C80000
    then num 5400
    else if bits == 0x44ED8000
    then num 6900
    else if bits == 0x44898000
    then num 6100
    else if bits == 0x41F00000
    then num 5030
    else if bits == 0xC1F00000
    then num 4970
    else nan

abbrev whole_add : Whole → Whole → Whole
whole_add (num a) (num b) = num (a + b - 5000)
whole_add _ _ = nan

abbrev times : ℕ → ℕ → ℕ
times a b =
    if leb 5000 a
    then (if leb 5000 b then 5000 + (a - 5000) * (b - 5000) else 5000 - (a - 5000) * (5000 - b))
    else if leb 5000 b
    then 5000 - (5000 - a) * (b - 5000)
    else 5000 + (5000 - a) * (5000 - b)

abbrev whole_mul : Whole → Whole → Whole
whole_mul (num a) (num b) = num (times a b)
whole_mul _ _ = nan

abbrev whole_neg : Whole → Whole
whole_neg (num a) = num (10000 - a)
whole_neg nan = nan

abbrev whole_less : Whole → Whole → Bool
whole_less (num a) (num b) = ltb a b
whole_less _ _ = false

abbrev whole_at_most : Whole → Whole → Bool
whole_at_most (num a) (num b) = leb a b
whole_at_most _ _ = false

abbrev whole_to_i32 : Whole → ℕ
whole_to_i32 nan = 0
whole_to_i32 (num a) = if leb 5000 a then min (a - 5000) (2 ^ 31 - 1) else 2 ^ 32 - (5000 - a)

abbrev pub wholes : Floats
wholes = record {
  Float = Whole;
  from_bits = whole_from_bits;
  add = whole_add;
  mul = whole_mul;
  neg = whole_neg;
  less = whole_less;
  at_most = whole_at_most;
  to_i32 = whole_to_i32;
}

trans :
    (a b c : Whole) → whole_at_most a b ≡ true → whole_at_most b c ≡ true → whole_at_most a c ≡ true
trans (num a) (num b) (num c) h k = ground arith
trans a b c h k = ground arith

times_mono : (a b : ℕ) → a ≤ b → times a 5004 ≤ times b 5004
times_mono a b h = ground arith

pub wholes-IsIeee : IsIeee wholes
wholes-IsIeee = record {
  trans = trans;
  left_number = λ a b h. ground arith;
  right_number = λ a b h. ground arith;
  not_less = λ a b na nb h. ground arith;
  nan_less = λ a b h. ground arith;
  less_nan = λ a b h. ground arith;
  at_most_less = λ a b h. ground arith;
  mul_mono = λ a b h. ground arith;
  add_mono = λ a b h. ground arith;
  nan_mul = λ a b h. ground arith;
  add_nan = λ a b h. ground arith;
  hundred-four = refl;
  minus_hundred-four = refl;
  middle-up = refl;
  middle-down = refl;
  hundred_order = refl;
  positive = refl;
  minus_hundred-zero = refl;
  zero-hundred = refl;
  zero-IsZero = (refl, refl);
  add-IsZero = λ a b za zb. ground arith;
  zero-mul = (refl, refl);
  one-mul = (refl, refl);
  minus_one-mul = (refl, refl);
  mul-IsZero = λ a z. ground arith;
  middle-zero = λ a z. ground arith;
  to_i32_low = refl;
  to_i32_high = refl;
  to_i32_middle = refl;
  to_i32_mono = λ a b pos h. ground arith;
  to_i32_nan = λ a h. ground arith;
}
