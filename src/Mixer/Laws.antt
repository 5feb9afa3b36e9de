-- ===== src/Mixer/Laws.antt =====
-- What IEEE 754 says of the `f32` operations that the mixer uses.
use bibi_sync.Base.{◌≤◌, ◌≡◌, true, false}
use bibi_sync.Mixer.{Floats, zero, one, four, hundred, middle}

module _ (f : Floats) where
  open f use {Float, from_bits, add, mul, neg, less, at_most, to_i32}

  -- `x <= x` is false for a NaN, and true for all else.
  abbrev pub IsNumber : Float → Type 0
  IsNumber x = at_most x x ≡ true

  abbrev pub IsNan : Float → Type 0
  IsNan x = at_most x x ≡ false

  -- 0.0 or -0.0
  abbrev pub IsZero : Float → Type 0
  IsZero x = (at_most x (zero f) ≡ true) × (at_most (zero f) x ≡ true)

  pub record IsIeee : Type 0 where
    -- the order; comparisons with a NaN are false
    pub trans : (a b c : Float) → at_most a b ≡ true → at_most b c ≡ true → at_most a c ≡ true
    pub left_number : (a b : Float) → at_most a b ≡ true → IsNumber a
    pub right_number : (a b : Float) → at_most a b ≡ true → IsNumber b
    pub not_less : (a b : Float) → IsNumber a → IsNumber b → less a b ≡ false → at_most b a ≡ true
    pub nan_less : (a b : Float) → IsNan a → less a b ≡ false
    pub less_nan : (a b : Float) → IsNan b → less a b ≡ false
    pub at_most_less : (a b : Float) → at_most a b ≡ true → less b a ≡ false
    -- rounding keeps the order, and a NaN stays one
    pub mul_mono :
        (a b : Float) → at_most a b ≡ true → at_most (mul a (four f)) (mul b (four f)) ≡ true
    pub add_mono :
        (a b : Float) → at_most a b ≡ true → at_most (add (middle f) a) (add (middle f) b) ≡ true
    pub nan_mul : (a b : Float) → IsNan a → IsNan (mul a b)
    pub add_nan : (a b : Float) → IsNan b → IsNan (add a b)
    -- small integers are exact: 400.0, 1100.0 and 1900.0
    pub hundred-four : mul (hundred f) (four f) ≡ from_bits 0x43C80000
    pub minus_hundred-four : mul (neg (hundred f)) (four f) ≡ neg (from_bits 0x43C80000)
    pub middle-up : add (middle f) (from_bits 0x43C80000) ≡ from_bits 0x44ED8000
    pub middle-down : add (middle f) (neg (from_bits 0x43C80000)) ≡ from_bits 0x44898000
    pub hundred_order : at_most (neg (hundred f)) (hundred f) ≡ true
    pub positive : at_most (zero f) (from_bits 0x44898000) ≡ true
    pub minus_hundred-zero : at_most (neg (hundred f)) (zero f) ≡ true
    pub zero-hundred : at_most (zero f) (hundred f) ≡ true
    pub zero-IsZero : IsZero (zero f)
    pub add-IsZero : (a b : Float) → IsZero a → IsZero b → IsZero (add a b)
    pub zero-mul : IsZero (mul (zero f) (zero f))
    pub one-mul : IsZero (mul (one f) (zero f))
    pub minus_one-mul : IsZero (mul (neg (one f)) (zero f))
    pub mul-IsZero : (a : Float) → IsZero a → IsZero (mul a (four f))
    pub middle-zero : (a : Float) → IsZero a → add (middle f) a ≡ middle f
    -- the conversion cuts off the fraction, and a NaN gives 0
    pub to_i32_low : to_i32 (from_bits 0x44898000) ≡ 1100
    pub to_i32_high : to_i32 (from_bits 0x44ED8000) ≡ 1900
    pub to_i32_middle : to_i32 (middle f) ≡ 1500
    pub to_i32_mono :
        (a b : Float) → at_most (zero f) a ≡ true → at_most a b ≡ true → to_i32 a ≤ to_i32 b
    pub to_i32_nan : (a : Float) → IsNan a → to_i32 a ≡ 0
