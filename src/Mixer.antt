-- ===== src/Mixer.antt =====
-- auv/thrust_mixer.rs: a command in six degrees of freedom, shared out to six thrusters. An `f32` is
-- what the parameter `Floats` says; a literal is given by its bits.
pub mod Laws
pub mod Limits
pub mod Neutral
pub mod Instance
use bibi_sync.Base.{ℕ, Bool, true, false, List, [], ◌∷◌, if◌then◌else◌, Exec, done, panicked, ◌>>=◌}

-- What the program uses of `f32`. The result of `to_i32` is a 32-bit pattern.
pub record Floats : Type 1 where
  pub Float : Type 0
  pub from_bits : ℕ → Float
  pub add : Float → Float → Float
  pub mul : Float → Float → Float
  pub neg : Float → Float
  pub less : Float → Float → Bool
  pub at_most : Float → Float → Bool
  pub to_i32 : Float → ℕ

-- `[A; 6]`
pub data Six (A : Type 0) : Type 0 where
  six : A → A → A → A → A → A → Six A

abbrev pub to_list : {A : Type 0} → Six A → List A
to_list (six a b c d e g) = a ∷ b ∷ c ∷ d ∷ e ∷ g ∷ []

-- The fields are bits.
pub record ThrustCommand : Type 0 where
  pub surge : ℕ
  pub sway : ℕ
  pub heave : ℕ
  pub roll : ℕ
  pub pitch : ℕ
  pub yaw : ℕ

-- `ThrustCommand::default()`: the pattern of 0.0 is 0.
abbrev pub no_thrust : ThrustCommand
no_thrust = record { surge = 0; sway = 0; heave = 0; roll = 0; pitch = 0; yaw = 0 }

module _ (f : Floats) where
  open f use {Float, from_bits, add, mul, neg, less, at_most, to_i32}

  pub record ThrustMixer : Type 0 where
    pub mix_matrix : Six (Six Float)
    pub max_thrust : Float

  -- 0.0, 1.0, 4.0, 100.0 and 1500.0
  abbrev pub zero : Float
  zero = from_bits 0

  abbrev pub one : Float
  one = from_bits 0x3F800000

  abbrev pub four : Float
  four = from_bits 0x40800000

  abbrev pub hundred : Float
  hundred = from_bits 0x42C80000

  abbrev pub middle : Float
  middle = from_bits 0x44BB8000

  unfoldable pub default : ThrustMixer
  default = record {
    mix_matrix =
        six (six one (neg one) zero zero zero (neg one)) (six one one zero zero zero one)
          (six (neg one) (neg one) zero zero zero one) (six (neg one) one zero zero zero (neg one))
          (six zero zero one (neg one) one zero) (six zero zero one one one zero);
    max_thrust = hundred;
  }

  -- `f32::clamp`
  unfoldable pub clamp : (value low high : Float) → Exec Float
  clamp value low high =
      if at_most low high
      then done (
          let raised = if less value low then low else value in
          if less high raised then high else raised)
      else panicked

  -- The loop over a row: `sum += coeff * dof[j]`.
  unfoldable pub row_sum : (row dof : List Float) (sum : Float) → Float
  row_sum (coeff ∷ row) (d ∷ dof) sum = row_sum row dof (add sum (mul coeff d))
  row_sum _ _ sum = sum

  -- One round of the loop over the rows.
  unfoldable pub mix_row : ThrustMixer → (dof row : Six Float) → Exec Float
  mix_row m dof row =
      clamp (row_sum (to_list row) (to_list dof) zero) (neg m.max_thrust) m.max_thrust

  abbrev pub dof_of : ThrustCommand → Six Float
  dof_of cmd =
      six (from_bits cmd.surge) (from_bits cmd.sway) (from_bits cmd.heave) (from_bits cmd.roll)
        (from_bits cmd.pitch) (from_bits cmd.yaw)

  unfoldable pub mix_rows : ThrustMixer → (dof : Six Float) → Six (Six Float) → Exec (Six Float)
  mix_rows m dof (six r0 r1 r2 r3 r4 r5) = do
    o0 ← mix_row m dof r0
    o1 ← mix_row m dof r1
    o2 ← mix_row m dof r2
    o3 ← mix_row m dof r3
    o4 ← mix_row m dof r4
    o5 ← mix_row m dof r5
    done (six o0 o1 o2 o3 o4 o5)

  unfoldable pub mix : ThrustMixer → ThrustCommand → Exec (Six Float)
  mix m cmd = mix_rows m (dof_of cmd) m.mix_matrix

  unfoldable pub thrust_to_pwm : Float → ℕ
  thrust_to_pwm thrust = to_i32 (add middle (mul thrust four))

  unfoldable pub to_pwm : Six Float → Six ℕ
  to_pwm (six a b c d e g) =
      six (thrust_to_pwm a) (thrust_to_pwm b) (thrust_to_pwm c) (thrust_to_pwm d) (thrust_to_pwm e)
        (thrust_to_pwm g)
