-- ===== src/Controller/Run.antt =====
-- auv/controller.rs: `run`, over what the other threads call, what the reads return and when 20
-- milliseconds are over.
pub mod Sent
pub mod Exit
use bibi_sync.Base.{
  ℕ, Bool, true, false, List, [], ◌∷◌, ◌++◌, ltb, if◌then◌else◌, length, Exec, done, panicked,
  out_of_fuel, ◌>>=◌,
}
use bibi_sync.Protocol.{ThrusterPwmCmd, pwm_to_bytes}
use bibi_sync.Mixer.{Floats, Six, six, ThrustCommand, default, mix, to_pwm}
use bibi_sync.Uart.{SerialPort, IoResult}
use bibi_sync.Uart.Loop.{ReadResult, bytes_read, timed_out, read_error}
use bibi_sync.Uart.Message.{MsgType, thruster}
use bibi_sync.Uart.Wire.{Bytes}
use bibi_sync.Controller.{
  Shared, set_thrust, set_surge, set_sway, set_heave, set_roll, set_pitch, set_yaw, stop, shutdown,
  build_frame, process_rx,
}

-- The calls by which other threads change what is shared.
pub data Call : Type 0 where
  sets_thrust : ThrustCommand → Call
  sets_surge : ℕ → Call
  sets_sway : ℕ → Call
  sets_heave : ℕ → Call
  sets_roll : ℕ → Call
  sets_pitch : ℕ → Call
  sets_yaw : ℕ → Call
  stops : Call
  shuts_down : Call

unfoldable pub call : Shared → Call → Shared
call c (sets_thrust cmd) = set_thrust c cmd
call c (sets_surge value) = set_surge c value
call c (sets_sway value) = set_sway c value
call c (sets_heave value) = set_heave c value
call c (sets_roll value) = set_roll c value
call c (sets_pitch value) = set_pitch c value
call c (sets_yaw value) = set_yaw c value
call c stops = stop c
call c shuts_down = shutdown c

unfoldable pub calls : Shared → List Call → Shared
calls c [] = c
calls c (k ∷ ks) = calls (call c k) ks

-- A round of the `while`: the calls before the flag is loaded, what the read comes to, the calls
-- before the command is read, and whether 20 milliseconds are over since the last frame.
pub record Round : Type 0 where
  pub before : List Call
  pub result : ReadResult
  pub between : List Call
  pub due : Bool

-- `ThrusterPwmCmd::new`
abbrev pub pwm_cmd : Six ℕ → ThrusterPwmCmd
pwm_cmd (six a b c d e g) = record {
  pwm_0 = a;
  pwm_1 = b;
  pwm_2 = c;
  pwm_3 = d;
  pwm_4 = e;
  pwm_5 = g;
}

-- The read of a round.
unfoldable pub receive : Shared → Bytes → ReadResult → Exec (Shared × Bytes)
receive c rx (bytes_read []) = done (c, rx)
receive c rx (bytes_read (b ∷ bs)) = do
  (sensors, rest) ← process_rx c.sensors (rx ++ b ∷ bs)
  done (record c { sensors = sensors }, rest)
receive c rx timed_out = done (c, rx)
receive c rx (read_error code) = done (c, rx)

module _ (f : Floats) (port : SerialPort) where
  open port use {State, write_all, flush}

  -- The results of the write and of the flush are dropped.
  unfoldable pub send_frame : State → MsgType → Bytes → State
  send_frame s msg_type payload =
      let (written, s') = write_all s (build_frame msg_type payload) in
      let (flushed, s'') = flush s' in s''

  unfoldable pub send_pwm : State → Six ℕ → State
  send_pwm s pwm = send_frame s thruster (pwm_to_bytes (pwm_cmd pwm))

  -- The thrust command that is due.
  unfoldable pub transmit : Shared → State → Bool → Exec State
  transmit c s false = done s
  transmit c s true = do
    thrusts ← mix f (default f) c.thrust_cmd
    done (send_pwm s (to_pwm f thrusts))

  -- The frame that stops the thrusters, after the loop.
  unfoldable pub finish_run : State → State
  finish_run s = send_pwm s (six 1500 1500 1500 1500 1500 1500)

  -- `run` is still in its loop when no more rounds are given, or it has returned.
  pub data Ran : Type 0 where
    looping : Shared → Bytes → State → Ran
    returned : Shared → State → Ran

  -- The `while`.
  unfoldable pub run_rounds : Shared → Bytes → State → List Round → Exec Ran
  run_rounds c rx s [] = done (looping c rx s)
  run_rounds c rx s (round ∷ rounds) =
      let now = calls c round.before in
      elim now.running [
        | false ↦ done (returned now (finish_run s))
        | true ↦ (do
          (received, rest) ← receive now rx round.result
          s' ← transmit (calls received round.between) s round.due
          run_rounds (calls received round.between) rest s' rounds)
      ]

  unfoldable pub run : Shared → State → List Round → Exec Ran
  run c s rounds = run_rounds (record c { running = true }) [] s rounds
