-- ===== src/Keyboard.antt =====
-- bin/auv_controller.rs: the keyboard loop. `trim` is `str::trim`; what is printed is left out.
pub mod Limits
pub mod Session
use text.Mathlib.Text.{◌==◌ as str_eq}
use bibi_sync.Base.{
  ℕ, String, Bool, ◌||◌, Option, none, some, List, [], ◌∷◌, get_elem?, if◌then◌else◌,
}
use bibi_sync.Controller.{Shared, set_surge, set_heave, set_yaw, stop, shutdown}

-- The program's arguments: the port, and the baud rate if it is read as a `u32` by `parse`.
pub record Settings : Type 0 where
  pub port : String
  pub baud : ℕ

unfoldable pub settings : (parse : String → Option ℕ) → List String → Settings
settings parse args = record {
  port = elim (get_elem? args 1) [ none ↦ "/dev/ttyACM0" | some s ↦ s ];
  baud = elim (get_elem? args 2) [
    | none ↦ 9600
    | some s ↦ elim (parse s) [ none ↦ 9600 | some baud ↦ baud ]
  ];
}

-- 30.0 and -30.0
abbrev pub plus_thirty : ℕ
plus_thirty = 0x41F00000

abbrev pub minus_thirty : ℕ
minus_thirty = 0xC1F00000

-- The arms of the `match`.
pub data Arm : Type 0 where
  forward : Arm
  backward : Arm
  left : Arm
  right : Arm
  up : Arm
  down : Arm
  stop_all : Arm
  show_sensors : Arm
  exit : Arm
  nothing : Arm
  unknown : Arm

unfoldable pub arm_of : String → Arm
arm_of cmd =
    if str_eq cmd "w"
    then forward
    else if str_eq cmd "s"
    then backward
    else if str_eq cmd "a"
    then left
    else if str_eq cmd "d"
    then right
    else if str_eq cmd "q"
    then up
    else if str_eq cmd "e"
    then down
    else if str_eq cmd " " || str_eq cmd "stop"
    then stop_all
    else if str_eq cmd "sensors" || str_eq cmd "r"
    then show_sensors
    else if str_eq cmd "x" || str_eq cmd "exit" || str_eq cmd "quit"
    then exit
    else if str_eq cmd ""
    then nothing
    else unknown

-- What an arm does to the controller. `exit` leaves the loop too.
unfoldable pub press : Shared → Arm → Shared
press c forward = set_surge c plus_thirty
press c backward = set_surge c minus_thirty
press c left = set_yaw c minus_thirty
press c right = set_yaw c plus_thirty
press c up = set_heave c plus_thirty
press c down = set_heave c minus_thirty
press c stop_all = stop c
press c show_sensors = c
press c exit = shutdown (stop c)
press c nothing = c
press c unknown = c

-- The loop waits for the next line, or was left by a command or by an error of `read_line`.
pub data Keyed : Type 0 where
  waiting : Shared → Keyed
  exited : Shared → Keyed
  broken_off : Shared → Keyed

-- An arm, and then the rest of the loop.
abbrev pub after_arm : Arm → Shared → (Shared → Keyed) → Keyed
after_arm exit c rest = exited c
after_arm arm c rest = rest c

module _ (trim : String → String) where
  -- Over what the calls of `read_line` give; `none` is an error.
  unfoldable pub key_loop : Shared → List (Option String) → Keyed
  key_loop c [] = waiting c
  key_loop c (none ∷ lines) = broken_off c
  key_loop c (some input ∷ lines) =
      let arm = arm_of (trim input) in after_arm arm (press c arm) (λ c'. key_loop c' lines)
