-- ===== src/Tests/Vehicle.antt =====
-- The mixer, the loops of the controller and of the bridge, and the keyboard.
use text.Mathlib.Text.{◌==◌ as str_eq}
use bibi_sync.Base.{
  Option, ℕ, ◌≡◌, refl, inl, String, true, false, none, some, List, [], ◌∷◌, ◌++◌, if◌then◌else◌,
  Exec, done, panicked, out_of_fuel,
}
use bibi_sync.Registry.{empty_shelf}
use bibi_sync.Mixer.{
  Six, six, to_list, ThrustCommand, no_thrust, default, clamp, row_sum, mix_row, mix_rows, mix,
  dof_of, thrust_to_pwm, to_pwm,
}
use bibi_sync.Mixer.Limits.{EachPwm, mix-EachPwm}
use bibi_sync.Mixer.Neutral.{neutral, mix-neutral}
use bibi_sync.Mixer.Instance.{Whole, wholes, wholes-IsIeee}
use bibi_sync.Uart.Stream.{read_all}
use bibi_sync.Uart.Wire.{Bytes}
use bibi_sync.Uart.Loop
use bibi_sync.Python.Auv
use bibi_sync.Uart.Loop.{
  bytes_read, timed_out, read_error, run_loop, chunks_read, run_loop-read_all,
}
use bibi_sync.Controller.{stop, Shared, new, set_surge, shutdown}
use bibi_sync.Controller.Run.{calls, call, Round, sets_surge, stops, shuts_down, Ran, returned, run}
use bibi_sync.Controller.Run.Sent.{frames, Pulses, Sent, run-Sent}
use bibi_sync.Controller.Run.Exit.{run-shutdown}
use bibi_sync.Keyboard.{exited, waiting, broken_off, press, arm_of, key_loop, plus_thirty}
use bibi_sync.Keyboard.Session.{befores, key_calls, calls_of, exit-neutral}
use bibi_sync.Keyboard.Limits.{KeyedOk, key_loop-KeyedOk}
use bibi_sync.Tests.Frames.{wire, open_wire}

-- 30.0 forward, with a yaw that is not a number.
abbrev surging : ThrustCommand
surging = record no_thrust { surge = 0x41F00000 }

abbrev lost : ThrustCommand
lost = record no_thrust { surge = 0x41F00000; yaw = 0x7FC00000 }

abbrev pulses : Exec (Six Whole) → Exec (Six ℕ)
pulses (done thrusts) = done (to_pwm wholes thrusts)
pulses panicked = panicked
pulses out_of_fuel = out_of_fuel

pulses-surging :
    pulses (mix wholes (default wholes) surging) ≡ done (six 1620 1620 1380 1380 1500 1500)
unfolding mix mix_rows mix_row default clamp row_sum to_pwm thrust_to_pwm
pulses-surging = refl

-- The pulse width of a NaN is 0, also on the vertical thrusters.
pulses-lost : pulses (mix wholes (default wholes) lost) ≡ done (six 0 0 0 0 0 0)
unfolding mix mix_rows mix_row default clamp row_sum to_pwm thrust_to_pwm
pulses-lost = refl

mix-EachPwm_example :
    (thrusts : Six Whole) × (mix wholes (default wholes) lost ≡ done thrusts)
    × EachPwm wholes wholes-IsIeee
        (default wholes).mix_matrix
        (to_list (dof_of wholes lost))
        (to_pwm wholes thrusts)
unfolding default
mix-EachPwm_example = mix-EachPwm wholes wholes-IsIeee (default wholes) refl lost

mix-neutral_example :
    (thrusts : Six Whole) × (mix wholes (default wholes) no_thrust ≡ done thrusts)
    × (to_pwm wholes thrusts ≡ neutral)
mix-neutral_example = mix-neutral wholes wholes-IsIeee

-- A frame is due, the operator goes forward, a read fails, and then the controller is shut down.
abbrev first_round : Round
first_round = record {
  before = sets_surge 0x41F00000 ∷ [];
  result = timed_out;
  between = [];
  due = true;
}

abbrev second_round : Round
second_round = record { before = []; result = read_error 5; between = stops ∷ []; due = true }

abbrev last_round : Round
last_round = record {
  before = stops ∷ shuts_down ∷ [];
  result = timed_out;
  between = [];
  due = false;
}

run-Sent_example :
    (r : Ran wholes wire) × (run wholes wire new [] (first_round ∷ second_round ∷ []) ≡ done r)
    × Sent wholes wholes-IsIeee wire open_wire [] r
run-Sent_example =
    run-Sent wholes wholes-IsIeee wire open_wire (first_round ∷ second_round ∷ []) new []

run-shutdown_example :
    (c' : Shared) × (s' : Bytes) × (pwms : List (Six ℕ)) × (run wholes wire new []
        (first_round ∷ last_round ∷ second_round ∷ [])
      ≡ done (returned c' s'))
    × Pulses pwms
    × (s' ≡ [] ++ frames (pwms ++ neutral ∷ []))
run-shutdown_example =
    run-shutdown wholes wholes-IsIeee wire open_wire (first_round ∷ []) (second_round ∷ [])
      last_round (stops ∷ []) [] new [] refl

-- What is called before `run` sets the flag has no effect on it.
early_shutdown_lost :
    run wholes wire (shutdown new) [] (first_round ∷ []) ≡ run wholes wire new [] (first_round ∷ [])
unfolding run shutdown
early_shutdown_lost = refl

run_loop-read_all_example :
    run_loop empty_shelf [] (
      Loop.reads (bytes_read (0xaa ∷ 4 ∷ []))
      ∷ Loop.reads timed_out
      ∷ Loop.reads (bytes_read [])
      ∷ Loop.reads (bytes_read (0 ∷ 4 ∷ []))
      ∷ Loop.cleared
      ∷ [])
    ≡ read_all empty_shelf [] ((0xaa ∷ 4 ∷ []) ∷ (0 ∷ 4 ∷ []) ∷ [])
unfolding chunks_read
run_loop-read_all_example =
    run_loop-read_all
      (Loop.reads (bytes_read (0xaa ∷ 4 ∷ []))
        ∷ Loop.reads timed_out
        ∷ Loop.reads (bytes_read [])
        ∷ Loop.reads (bytes_read (0 ∷ 4 ∷ []))
        ∷ Loop.cleared
        ∷ [])
      empty_shelf []

-- `str::trim` on the lines that are typed here.
abbrev trim_line : String → String
trim_line line =
    if str_eq line "w\n"
    then "w"
    else if str_eq line "x\n"
    then "x"
    else if str_eq line " \n"
    then ""
    else line

key_loop-KeyedOk_example :
    KeyedOk false (key_loop trim_line new (some "w\n" ∷ some " \n" ∷ some "x\n" ∷ []))
unfolding new
key_loop-KeyedOk_example =
    key_loop-KeyedOk trim_line (some "w\n" ∷ some " \n" ∷ some "x\n" ∷ []) new
      (inl refl, inl refl, inl refl, refl, refl, refl)

-- A space does not stop the thrusters.
space_goes_on :
    key_loop trim_line new (some "w\n" ∷ some " \n" ∷ []) ≡ waiting (set_surge new plus_thirty)
unfolding key_loop press arm_of
space_goes_on = refl

-- When a read fails, nobody stops the thrusters or the controller.
failed_read_goes_on :
    key_loop trim_line new (some "w\n" ∷ none ∷ []) ≡ broken_off (set_surge new plus_thirty)
unfolding key_loop press arm_of
failed_read_goes_on = refl

-- What a Python program calls when it lets go of the controller.
drop_as_calls : (c : Shared) → Auv.drop c ≡ calls c (stops ∷ shuts_down ∷ [])
unfolding Auv.drop calls call
drop_as_calls c = refl

-- Two lines are typed while the controller's loop goes through two rounds.
abbrev two_lines : List (Option String)
two_lines = some "w\n" ∷ some "x\n" ∷ []

abbrev in_two_rounds : List Round
in_two_rounds = first_round ∷ last_round ∷ []

two_lines_exit :
    key_loop trim_line new two_lines ≡ exited (shutdown (stop (set_surge new plus_thirty)))
unfolding key_loop press arm_of
two_lines_exit = refl

two_lines_calls : befores in_two_rounds ≡ key_calls trim_line two_lines
unfolding key_calls calls_of arm_of
two_lines_calls = refl

exit-neutral_example :
    (calls new (befores in_two_rounds) ≡ shutdown (stop (set_surge new plus_thirty)))
    × (d : Shared) × (s' : Bytes) × (pwms : List (Six ℕ)) × (run wholes wire new [] in_two_rounds
        ≡ done (returned d s'))
    × Pulses pwms
    × (s' ≡ [] ++ frames (pwms ++ neutral ∷ []))
exit-neutral_example =
    exit-neutral wholes wholes-IsIeee wire open_wire trim_line two_lines new
      (shutdown (stop (set_surge new plus_thirty))) in_two_rounds [] two_lines_exit two_lines_calls
