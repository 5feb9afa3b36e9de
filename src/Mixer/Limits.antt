-- ===== src/Mixer/Limits.antt =====
-- auv/thrust_mixer.rs: the limits of the thrusts and of the pulse widths.
use bibi_sync.Base.{
  ℕ, ◌≤◌, ◌≡◌, refl, sym, ap, subst, ◌∙◌, true, false≢true, List, inl, inr, done, arith, Bool-cases,
}
use bibi_sync.Mixer.{
  Floats, Six, six, to_list, ThrustCommand, ThrustMixer, zero, four, hundred, middle, clamp,
  row_sum, mix_row, mix_rows, mix, dof_of, thrust_to_pwm, to_pwm,
}
use bibi_sync.Mixer.Laws.{IsNumber, IsNan, IsIeee}

module _ (f : Floats) (laws : IsIeee f) where
  open f use {Float, from_bits, add, mul, neg, less, at_most, to_i32}

  -- Between the limits, or the NaN that came in.
  unfoldable Limited : (value low high result : Float) → Type 0
  Limited value low high result =
      (IsNumber f value → (at_most low result ≡ true) × (at_most result high ≡ true))
      × (IsNan f value → result ≡ value)

  clamp-Limited :
      (value low high : Float)
      → at_most low high ≡ true
      → (result : Float) × (clamp f value low high ≡ done result) × Limited value low high result
  unfolding clamp Limited
  clamp-Limited value low high order =
      let low_number = laws.left_number low high order in
      let high_number = laws.right_number low high order in
      elim (Bool-cases (less value low)) [
        | inl below ↦ elim (Bool-cases (less high low)) [
          | inl crossed ↦ (
            high,
            rw (order, below, crossed),
            (
              (λ num. (order, high_number)),
              λ nan. absurd (false≢true (sym (laws.nan_less value low nan) ∙ below)),
            ),
          )
          | inr fine ↦ (
            low,
            rw (order, below, fine),
            (
              (λ num. (low_number, order)),
              λ nan. absurd (false≢true (sym (laws.nan_less value low nan) ∙ below)),
            ),
          )
        ]
        | inr not_below ↦ elim (Bool-cases (less high value)) [
          | inl above ↦ (
            high,
            rw (order, not_below, above),
            (
              (λ num. (order, high_number)),
              λ nan. absurd (false≢true (sym (laws.less_nan high value nan) ∙ above)),
            ),
          )
          | inr fine ↦ (
            value,
            rw (order, not_below, fine),
            (
              (λ num. (
                laws.not_less value low num low_number not_below,
                laws.not_less high value high_number num fine,
              )),
              λ nan. refl,
            ),
          )
        ]
      ]

  -- The pulse width of a thrust that was limited to 100.
  abbrev pub PwmOf : (value : Float) (pwm : ℕ) → Type 0
  PwmOf value pwm = (IsNumber f value → (1100 ≤ pwm) × (pwm ≤ 1900)) × (IsNan f value → pwm ≡ 0)

  thrust_to_pwm-PwmOf :
      (value thrust : Float)
      → Limited value (neg (hundred f)) (hundred f) thrust
      → PwmOf value (thrust_to_pwm f thrust)
  unfolding thrust_to_pwm Limited
  thrust_to_pwm-PwmOf value thrust limited = (
    (λ num.
        let (low, high) = limited.0 num in
        let least =
          subst (λ x. at_most x (add (middle f) (mul thrust (four f))) ≡ true)
            (ap (add (middle f)) laws.minus_hundred-four ∙ laws.middle-down)
            (laws.add_mono _ _ (laws.mul_mono _ _ low)) in
        let most =
          subst (λ x. at_most (add (middle f) (mul thrust (four f))) x ≡ true)
            (ap (add (middle f)) laws.hundred-four ∙ laws.middle-up)
            (laws.add_mono _ _ (laws.mul_mono _ _ high)) in
        (
          omega (arith, laws.to_i32_mono _ _ laws.positive least, laws.to_i32_low),
          omega (
            arith,
            laws.to_i32_mono _ _ (laws.trans _ _ _ laws.positive least) most,
            laws.to_i32_high,
          ),
        )),
    λ nan.
        laws.to_i32_nan _
          (laws.add_nan _ _ (laws.nan_mul _ _ (subst (IsNan f) (sym (limited.1 nan)) nan))),
  )

  -- Row by row.
  pub data EachPwm : (rows : Six (Six Float)) (dof : List Float) → Six ℕ → Type 0 where
    each :
        {r0 r1 r2 r3 r4 r5 : Six Float} {dof : List Float} {p0 p1 p2 p3 p4 p5 : ℕ}
        → PwmOf (row_sum f (to_list r0) dof (zero f)) p0
        → PwmOf (row_sum f (to_list r1) dof (zero f)) p1
        → PwmOf (row_sum f (to_list r2) dof (zero f)) p2
        → PwmOf (row_sum f (to_list r3) dof (zero f)) p3
        → PwmOf (row_sum f (to_list r4) dof (zero f)) p4
        → PwmOf (row_sum f (to_list r5) dof (zero f)) p5
        → EachPwm (six r0 r1 r2 r3 r4 r5) dof (six p0 p1 p2 p3 p4 p5)

  module _ (m : ThrustMixer f) (limit : m.max_thrust ≡ hundred f) where
    mix_row-PwmOf :
        (dof row : Six Float)
        → (thrust : Float) × (mix_row f m dof row ≡ done thrust)
          × PwmOf (row_sum f (to_list row) (to_list dof) (zero f)) (thrust_to_pwm f thrust)
    unfolding mix_row
    mix_row-PwmOf dof row =
        let sum = row_sum f (to_list row) (to_list dof) (zero f) in
        let (thrust, e, limited) =
          clamp-Limited sum (neg (hundred f)) (hundred f) laws.hundred_order in
        (thrust, ap (λ t. clamp f sum (neg t) t) limit ∙ e, thrust_to_pwm-PwmOf sum thrust limited)

    mix_rows-EachPwm :
        (dof : Six Float) (rows : Six (Six Float))
        → (thrusts : Six Float) × (mix_rows f m dof rows ≡ done thrusts)
          × EachPwm rows (to_list dof) (to_pwm f thrusts)
    unfolding mix_rows to_pwm
    mix_rows-EachPwm dof (six r0 r1 r2 r3 r4 r5) =
        let (t0, e0, k0) = mix_row-PwmOf dof r0 in
        let (t1, e1, k1) = mix_row-PwmOf dof r1 in
        let (t2, e2, k2) = mix_row-PwmOf dof r2 in
        let (t3, e3, k3) = mix_row-PwmOf dof r3 in
        let (t4, e4, k4) = mix_row-PwmOf dof r4 in
        let (t5, e5, k5) = mix_row-PwmOf dof r5 in
        (six t0 t1 t2 t3 t4 t5, rw (e0, e1, e2, e3, e4, e5), each k0 k1 k2 k3 k4 k5)

    -- If the floats obey IEEE 754 as far as the mixer needs it and the mixer's limit is 100, then
    -- `mix` does not panic on any command, and after `to_pwm` the pulse width of each thruster is
    -- from 1100 to 1900 if the sum over its row is a number, and 0 if the sum is a NaN.
    pub mix-EachPwm :
        (cmd : ThrustCommand)
        → (thrusts : Six Float) × (mix f m cmd ≡ done thrusts)
          × EachPwm m.mix_matrix (to_list (dof_of f cmd)) (to_pwm f thrusts)
    unfolding mix
    mix-EachPwm cmd = mix_rows-EachPwm (dof_of f cmd) m.mix_matrix
