-- ===== src/Mixer/Neutral.antt =====
-- auv/thrust_mixer.rs: what the mixer of the program makes of no thrust.
use bibi_sync.Base.{ℕ, ◌≡◌, ap, ◌∙◌, List, [], ◌∷◌, done}
use bibi_sync.Mixer.{
  Floats, Six, six, no_thrust, zero, hundred, default, clamp, row_sum, mix_row, mix_rows, mix,
  dof_of, thrust_to_pwm, to_pwm,
}
use bibi_sync.Mixer.Laws.{IsZero, IsIeee}

-- Six pulses of 1500 microseconds.
abbrev pub neutral : Six ℕ
neutral = six 1500 1500 1500 1500 1500 1500

module _ (f : Floats) (laws : IsIeee f) where
  open f use {Float, from_bits, add, mul, neg, less, at_most, to_i32}

  -- Coefficients whose product with 0.0 is a zero.
  abbrev ZeroRow : List Float → Type 0
  ZeroRow [] = Unit
  ZeroRow (c ∷ row) = IsZero f (mul c (zero f)) × ZeroRow row

  abbrev zeros : List Float → List Float
  zeros [] = []
  zeros (c ∷ row) = zero f ∷ zeros row

  row_sum-IsZero :
      (row : List Float) (sum : Float)
      → ZeroRow row
      → IsZero f sum
      → IsZero f (row_sum f row (zeros row) sum)
  unfolding row_sum
  row_sum-IsZero [] sum all z = z
  row_sum-IsZero (c ∷ row) sum all z =
      row_sum-IsZero row (add sum (mul c (zero f))) all.1 (laws.add-IsZero _ _ z all.0)

  clamp-IsZero :
      (value : Float) → IsZero f value → clamp f value (neg (hundred f)) (hundred f) ≡ done value
  unfolding clamp
  clamp-IsZero value z = rw (
    laws.hundred_order,
    laws.at_most_less _ _ (laws.trans _ _ _ laws.minus_hundred-zero z.1),
    laws.at_most_less _ _ (laws.trans _ _ _ z.0 laws.zero-hundred),
  )

  thrust_to_pwm-IsZero : (thrust : Float) → IsZero f thrust → thrust_to_pwm f thrust ≡ 1500
  unfolding thrust_to_pwm
  thrust_to_pwm-IsZero thrust z =
      ap to_i32 (laws.middle-zero _ (laws.mul-IsZero thrust z)) ∙ laws.to_i32_middle

  mix_row-neutral :
      {a b c d e g : Float}
      → IsZero f (mul a (zero f))
      → IsZero f (mul b (zero f))
      → IsZero f (mul c (zero f))
      → IsZero f (mul d (zero f))
      → IsZero f (mul e (zero f))
      → IsZero f (mul g (zero f))
      → (thrust : Float) × (mix_row f (default f) (dof_of f no_thrust) (six a b c d e g)
          ≡ done thrust)
        × (thrust_to_pwm f thrust ≡ 1500)
  unfolding mix_row default clamp row_sum
  mix_row-neutral {a} {b} {c} {d} {e} {g} za zb zc zd ze zg =
      let z =
        row_sum-IsZero (a ∷ b ∷ c ∷ d ∷ e ∷ g ∷ []) (zero f) (za, (zb, (zc, (zd, (ze, (zg, tt))))))
          laws.zero-IsZero in
      (_, clamp-IsZero _ z, thrust_to_pwm-IsZero _ z)

  -- If the floats obey IEEE 754 as far as the mixer needs it, the default mixer makes six pulses of
  -- 1500 of the command without thrust.
  pub mix-neutral :
      (thrusts : Six Float) × (mix f (default f) no_thrust ≡ done thrusts)
      × (to_pwm f thrusts ≡ neutral)
  unfolding mix mix_rows default to_pwm
  mix-neutral =
      let z = laws.zero-mul in
      let p = laws.one-mul in
      let n = laws.minus_one-mul in
      let (t0, e0, k0) = mix_row-neutral p n z z z n in
      let (t1, e1, k1) = mix_row-neutral p p z z z p in
      let (t2, e2, k2) = mix_row-neutral n n z z z p in
      let (t3, e3, k3) = mix_row-neutral n p z z z n in
      let (t4, e4, k4) = mix_row-neutral z z p n p z in
      let (t5, e5, k5) = mix_row-neutral z z p p p z in
      (six t0 t1 t2 t3 t4 t5, rw (e0, e1, e2, e3, e4, e5), rw (k0, k1, k2, k3, k4, k5))
