-- ===== src/Keyboard/Limits.antt =====
-- bin/auv_controller.rs: the thrust that the keyboard asks for, and the ways out of its loop.
use bibi_sync.Base.{
  ℕ, ◌≡◌, refl, ◌⊎◌, inl, inr, String, Bool, false, Option, none, some, List, [], ◌∷◌,
}
use bibi_sync.Mixer.{ThrustCommand, no_thrust}
use bibi_sync.Controller.{Shared, set_thrust, set_surge, set_heave, set_yaw, stop, shutdown}
use bibi_sync.Keyboard.{
  plus_thirty, minus_thirty, Arm, forward, backward, left, right, up, down, stop_all, show_sensors,
  exit, nothing, unknown, arm_of, press, Keyed, waiting, exited, broken_off, after_arm, key_loop,
}

-- 0.0, 30.0 or -30.0
abbrev pub IsStep : ℕ → Type 0
IsStep value = (value ≡ 0) ⊎ (value ≡ plus_thirty) ⊎ (value ≡ minus_thirty)

abbrev pub IsKeyed : ThrustCommand → Type 0
IsKeyed cmd =
    IsStep cmd.surge
    × IsStep cmd.heave
    × IsStep cmd.yaw
    × (cmd.sway ≡ 0)
    × (cmd.roll ≡ 0)
    × (cmd.pitch ≡ 0)

-- The loop is left with the thrusters stopped and the flag clear, unless a read failed.
abbrev pub KeyedOk : Bool → Keyed → Type 0
KeyedOk running (waiting c) = IsKeyed c.thrust_cmd × (c.running ≡ running)
KeyedOk running (exited c) = (c.thrust_cmd ≡ no_thrust) × (c.running ≡ false)
KeyedOk running (broken_off c) = IsKeyed c.thrust_cmd × (c.running ≡ running)

press-IsKeyed : (c : Shared) (arm : Arm) → IsKeyed c.thrust_cmd → IsKeyed (press c arm).thrust_cmd
unfolding press set_surge set_heave set_yaw set_thrust stop shutdown
press-IsKeyed c forward (s, h, y, w, r, p) = (inr (inl refl), h, y, w, r, p)
press-IsKeyed c backward (s, h, y, w, r, p) = (inr (inr refl), h, y, w, r, p)
press-IsKeyed c left (s, h, y, w, r, p) = (s, h, inr (inr refl), w, r, p)
press-IsKeyed c right (s, h, y, w, r, p) = (s, h, inr (inl refl), w, r, p)
press-IsKeyed c up (s, h, y, w, r, p) = (s, inr (inl refl), y, w, r, p)
press-IsKeyed c down (s, h, y, w, r, p) = (s, inr (inr refl), y, w, r, p)
press-IsKeyed c stop_all k = (inl refl, inl refl, inl refl, refl, refl, refl)
press-IsKeyed c exit k = (inl refl, inl refl, inl refl, refl, refl, refl)
press-IsKeyed c show_sensors k = k
press-IsKeyed c nothing k = k
press-IsKeyed c unknown k = k

after_arm-KeyedOk :
    (arm : Arm) (c : Shared) (rest : Shared → Keyed)
    → ((c' : Shared) → IsKeyed c'.thrust_cmd → KeyedOk c'.running (rest c'))
    → IsKeyed c.thrust_cmd
    → KeyedOk c.running (after_arm arm (press c arm) rest)
unfolding press set_surge set_heave set_yaw set_thrust stop shutdown
after_arm-KeyedOk exit c rest later k = (refl, refl)
after_arm-KeyedOk forward c rest later k = later (press c forward) (press-IsKeyed c forward k)
after_arm-KeyedOk backward c rest later k = later (press c backward) (press-IsKeyed c backward k)
after_arm-KeyedOk left c rest later k = later (press c left) (press-IsKeyed c left k)
after_arm-KeyedOk right c rest later k = later (press c right) (press-IsKeyed c right k)
after_arm-KeyedOk up c rest later k = later (press c up) (press-IsKeyed c up k)
after_arm-KeyedOk down c rest later k = later (press c down) (press-IsKeyed c down k)
after_arm-KeyedOk stop_all c rest later k = later (press c stop_all) (press-IsKeyed c stop_all k)
after_arm-KeyedOk show_sensors c rest later k =
    later (press c show_sensors) (press-IsKeyed c show_sensors k)
after_arm-KeyedOk nothing c rest later k = later (press c nothing) (press-IsKeyed c nothing k)
after_arm-KeyedOk unknown c rest later k = later (press c unknown) (press-IsKeyed c unknown k)

-- From a state in which surge, heave and yaw are each 0.0, 30.0 or -30.0 and the other thrusts are
-- 0.0, whatever lines are typed and however `trim` cuts them: that stays so while the loop waits or
-- when a read failed, and the controller's flag is then unchanged; if the loop was left by a
-- command, no thrust is asked for and the flag is clear.
pub key_loop-KeyedOk :
    (trim : String → String) (lines : List (Option String)) (c : Shared)
    → IsKeyed c.thrust_cmd
    → KeyedOk c.running (key_loop trim c lines)
unfolding key_loop
key_loop-KeyedOk trim [] c k = (k, refl)
key_loop-KeyedOk trim (none ∷ lines) c k = (k, refl)
key_loop-KeyedOk trim (some input ∷ lines) c k =
    after_arm-KeyedOk (arm_of (trim input)) c (λ c'. key_loop trim c' lines)
      (key_loop-KeyedOk trim lines) k
