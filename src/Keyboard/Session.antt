-- ===== src/Keyboard/Session.antt =====
-- bin/auv_controller.rs and auv/controller.rs: the calls that the keyboard loop makes, and the
-- controller's loop that runs beside it.
use bibi_sync.Base.{
  ℕ, ◌≡◌, refl, sym, ap, subst, ◌∙◌, String, Bool, true, false, ◌||◌, false≢true, inl, inr,
  Bool-cases, Option, none, some, List, [], ◌∷◌, ◌++◌, append-nil, done,
}
use bibi_sync.Mixer.{Floats, Six}
use bibi_sync.Mixer.Laws.{IsIeee}
use bibi_sync.Mixer.Neutral.{neutral}
use bibi_sync.Uart.{SerialPort}
use bibi_sync.Uart.Send.{IsOpen}
use bibi_sync.Controller.{Shared}
use bibi_sync.Controller.Run.{
  Call, sets_surge, sets_heave, sets_yaw, stops, shuts_down, call, calls, Round, returned, run,
}
use bibi_sync.Controller.Run.Sent.{frames, Pulses}
use bibi_sync.Controller.Run.Exit.{run-shutdown}
use bibi_sync.Keyboard.{
  plus_thirty, minus_thirty, Arm, forward, backward, left, right, up, down, stop_all, show_sensors,
  exit, nothing, unknown, arm_of, press, Keyed, exited, after_arm, key_loop,
}

-- The calls that an arm makes.
unfoldable pub calls_of : Arm → List Call
calls_of forward = sets_surge plus_thirty ∷ []
calls_of backward = sets_surge minus_thirty ∷ []
calls_of left = sets_yaw minus_thirty ∷ []
calls_of right = sets_yaw plus_thirty ∷ []
calls_of up = sets_heave plus_thirty ∷ []
calls_of down = sets_heave minus_thirty ∷ []
calls_of stop_all = stops ∷ []
calls_of exit = stops ∷ shuts_down ∷ []
calls_of _ = []

-- The arm's calls, and those of the rest of the loop.
abbrev pub then_calls : Arm → List Call → List Call
then_calls exit more = []
then_calls arm more = more

unfoldable pub key_calls : (String → String) → List (Option String) → List Call
unfolding calls_of
key_calls trim [] = []
key_calls trim (none ∷ lines) = []
key_calls trim (some input ∷ lines) =
    let arm = arm_of (trim input) in calls_of arm ++ then_calls arm (key_calls trim lines)

-- The calls do what the arm does.
press-calls : (c : Shared) (arm : Arm) → press c arm ≡ calls c (calls_of arm)
unfolding press calls call calls_of
press-calls c forward = refl
press-calls c backward = refl
press-calls c left = refl
press-calls c right = refl
press-calls c up = refl
press-calls c down = refl
press-calls c stop_all = refl
press-calls c show_sensors = refl
press-calls c exit = refl
press-calls c nothing = refl
press-calls c unknown = refl

abbrev shuts : List Call → Bool
shuts [] = false
shuts (shuts_down ∷ ks) = true
shuts (k ∷ ks) = shuts ks

shuts-append : (xs ys : List Call) → shuts (xs ++ ys) ≡ (shuts xs || shuts ys)
shuts-append [] ys = refl
shuts-append (shuts_down ∷ xs) ys = refl
shuts-append (k ∷ xs) ys = shuts-append xs ys

shutdown_found :
    (ks : List Call)
    → shuts ks ≡ true
    → (first : List Call) × (next : List Call) × (ks ≡ first ++ shuts_down ∷ next)
shutdown_found [] e = absurd (false≢true e)
shutdown_found (shuts_down ∷ ks) e = ([], ks, refl)
shutdown_found (k ∷ ks) e =
    let (first, next, f) = shutdown_found ks e in (k ∷ first, next, ap (λ l. k ∷ l) f)

calls-append : (c : Shared) (xs ys : List Call) → calls c (xs ++ ys) ≡ calls (calls c xs) ys
unfolding calls
calls-append c [] ys = refl
calls-append c (k ∷ xs) ys = calls-append (call c k) xs ys

-- What is known when the loop has been left by the exit command.
abbrev Exited : (c c' : Shared) → List Call → Type 0
Exited c c' ks = (shuts ks ≡ true) × (calls c ks ≡ c')

exited-injective : (a b : Shared) → exited a ≡ exited b → a ≡ b
exited-injective a b e = cc

-- An arm that does not leave the loop.
arm-goes_on :
    (arm : Arm) (c c' : Shared) (more : List Call)
    → Exited (press c arm) c' more
    → Exited c c' (calls_of arm ++ more)
arm-goes_on arm c c' more (e, f) = (
  shuts-append (calls_of arm) more
      ∙ ap (λ b. shuts (calls_of arm) || b) e
      ∙ or_true (shuts (calls_of arm)),
  calls-append c (calls_of arm) more ∙ ap (λ d. calls d more) (sym (press-calls c arm)) ∙ f,
)
  where
    or_true : (b : Bool) → (b || true) ≡ true
    or_true true = refl
    or_true false = refl

arm-Exited :
    (arm : Arm) (c c' : Shared) (rest : Shared → Keyed) (more : List Call)
    → after_arm arm (press c arm) rest ≡ exited c'
    → (rest (press c arm) ≡ exited c' → Exited (press c arm) c' more)
    → Exited c c' (calls_of arm ++ then_calls arm more)
arm-Exited exit c c' rest more e later = (
  (unfold calls_of in refl),
  ap (calls c) (append-nil (calls_of exit)) ∙ sym (press-calls c exit) ∙ exited-injective _ c' e,
)
arm-Exited forward c c' rest more e later = arm-goes_on forward c c' more (later e)
arm-Exited backward c c' rest more e later = arm-goes_on backward c c' more (later e)
arm-Exited left c c' rest more e later = arm-goes_on left c c' more (later e)
arm-Exited right c c' rest more e later = arm-goes_on right c c' more (later e)
arm-Exited up c c' rest more e later = arm-goes_on up c c' more (later e)
arm-Exited down c c' rest more e later = arm-goes_on down c c' more (later e)
arm-Exited stop_all c c' rest more e later = arm-goes_on stop_all c c' more (later e)
arm-Exited show_sensors c c' rest more e later = arm-goes_on show_sensors c c' more (later e)
arm-Exited nothing c c' rest more e later = arm-goes_on nothing c c' more (later e)
arm-Exited unknown c c' rest more e later = arm-goes_on unknown c c' more (later e)

key_loop-Exited :
    (trim : String → String) (lines : List (Option String)) (c c' : Shared)
    → key_loop trim c lines ≡ exited c'
    → Exited c c' (key_calls trim lines)
unfolding key_loop key_calls
key_loop-Exited trim [] c c' e = cc
key_loop-Exited trim (none ∷ lines) c c' e = cc
key_loop-Exited trim (some input ∷ lines) c c' e =
    arm-Exited (arm_of (trim input)) c c' (λ d. key_loop trim d lines) (key_calls trim lines) e
      (key_loop-Exited trim lines (press c (arm_of (trim input))) c')

-- The calls of all rounds before the flag is loaded.
abbrev pub befores : List Round → List Call
befores [] = []
befores (round ∷ rounds) = round.before ++ befores rounds

-- The round in which `shutdown` is called.
befores-split :
    (rounds : List Round)
    → shuts (befores rounds) ≡ true
    → (earlier : List Round) × (round : Round) × (later : List Round) × (first : List Call)
      × (next : List Call) × (rounds ≡ earlier ++ round ∷ later)
      × (round.before ≡ first ++ shuts_down ∷ next)
befores-split [] e = absurd (false≢true e)
befores-split (r ∷ rounds) e = elim (Bool-cases (shuts r.before)) [
  | inl here ↦
      let (first, next, f) = shutdown_found r.before here in ([], r, rounds, first, next, refl, f)
  | inr elsewhere ↦
      let (earlier, round, later, first, next, f, g) = befores-split rounds (
        ap (λ b. b || shuts (befores rounds)) (sym elsewhere)
        ∙ sym (shuts-append r.before (befores rounds))
        ∙ e) in
      (r ∷ earlier, round, later, first, next, ap (λ l. r ∷ l) f, g)
]

-- Let the keyboard loop be left by the exit command on some lines, however `trim` cuts them, and
-- let the controller's loop run beside it, the keyboard's calls falling in their order before the
-- loads of the flag, in any rounds, and any calls of others between the reads and the sends. If the
-- floats obey IEEE 754 as far as the mixer needs it and the port accepts every write and flush,
-- then these calls take the shared state to the one in which the keyboard loop left it, and `run`
-- returns without a panic: it has sent thruster frames with pulse widths that are 0 or from 1100 to
-- 1900, and last the frame with six pulses of 1500.
pub exit-neutral :
    (f : Floats) (laws : IsIeee f) (port : SerialPort) (o : IsOpen port) (trim : String → String)
    (lines : List (Option String)) (c c' : Shared) (rounds : List Round) (s : port.State)
    → key_loop trim c lines ≡ exited c'
    → befores rounds ≡ key_calls trim lines
    → (calls c (befores rounds) ≡ c')
      × (d : Shared) × (s' : port.State) × (pwms : List (Six ℕ)) × (run f port c s rounds
          ≡ done (returned d s'))
      × Pulses pwms
      × (o.sent s' ≡ o.sent s ++ frames (pwms ++ neutral ∷ []))
exit-neutral f laws port o trim lines c c' rounds s e same =
    let (shut, state) = subst (Exited c c') (sym same) (key_loop-Exited trim lines c c' e) in
    let (earlier, round, later, first, next, split, before) = befores-split rounds shut in
    let (d, s', pwms, runs, all, out) =
      run-shutdown f laws port o earlier later round first next c s before in
    (state, d, s', pwms, ap (run f port c s) split ∙ runs, all, out)
