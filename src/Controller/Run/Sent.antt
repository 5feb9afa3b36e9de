-- ===== src/Controller/Run/Sent.antt =====
-- auv/controller.rs: what `run` writes to the port.
use bibi_sync.Base.{
  ℕ, ◌≤◌, ◌≡◌, refl, sym, ap, subst, ◌∙◌, ◌⊎◌, inl, inr, Bool, true, false, List, [], ◌∷◌, ◌++◌,
  arith, append-nil, append_assoc, done, ◌>>=◌, Bool-cases,
}
use bibi_sync.Protocol.{pwm_to_bytes}
use bibi_sync.Mixer.{Floats, Six, hundred, default, to_pwm, to_list}
use bibi_sync.Mixer.Laws.{IsIeee}
use bibi_sync.Mixer.Limits.{PwmOf, EachPwm, each, mix-EachPwm}
use bibi_sync.Mixer.Neutral.{neutral}
use bibi_sync.Uart.{SerialPort}
use bibi_sync.Uart.Send.{IsOpen}
use bibi_sync.Uart.Loop.{ReadResult, bytes_read, timed_out, read_error}
use bibi_sync.Uart.Message.{thruster}
use bibi_sync.Uart.Wire.{Bytes}
use bibi_sync.Controller.{Shared, build_frame}
use bibi_sync.Controller.Receive.{process_rx-total}
use bibi_sync.Controller.Run.{
  Round, pwm_cmd, receive, calls, send_frame, send_pwm, transmit, finish_run, Ran, looping,
  returned, run_rounds, run,
}

-- The pulse width of a thruster, or the 0 of a NaN.
abbrev pub IsPwm : ℕ → Type 0
IsPwm p = (p ≡ 0) ⊎ ((1100 ≤ p) × (p ≤ 1900))

abbrev pub AllPwm : List ℕ → Type 0
AllPwm [] = Unit
AllPwm (p ∷ ps) = IsPwm p × AllPwm ps

-- The frames of the pulse widths.
unfoldable pub frames : List (Six ℕ) → Bytes
frames [] = []
frames (pwm ∷ pwms) = build_frame thruster (pwm_to_bytes (pwm_cmd pwm)) ++ frames pwms

abbrev pub Pulses : List (Six ℕ) → Type 0
Pulses [] = Unit
Pulses (pwm ∷ pwms) = AllPwm (to_list pwm) × Pulses pwms

frames-append : (xs ys : List (Six ℕ)) → frames (xs ++ ys) ≡ frames xs ++ frames ys
unfolding frames
frames-append [] ys = refl
frames-append (x ∷ xs) ys =
    ap (λ l. build_frame thruster (pwm_to_bytes (pwm_cmd x)) ++ l) (frames-append xs ys)
    ∙ sym (append_assoc _ (frames xs) (frames ys))

Pulses-append : (xs ys : List (Six ℕ)) → Pulses xs → Pulses ys → Pulses (xs ++ ys)
Pulses-append [] ys all rest = rest
Pulses-append (x ∷ xs) ys all rest = (all.0, Pulses-append xs ys all.1 rest)

pub receive-total :
    (c : Shared) (rx : Bytes) (result : ReadResult)
    → (c' : Shared) × (rest : Bytes) × (receive c rx result ≡ done (c', rest))
      × (c'.thrust_cmd ≡ c.thrust_cmd)
      × (c'.running ≡ c.running)
unfolding receive
receive-total c rx timed_out = (c, rx, refl, refl, refl)
receive-total c rx (read_error code) = (c, rx, refl, refl, refl)
receive-total c rx (bytes_read []) = (c, rx, refl, refl, refl)
receive-total c rx (bytes_read (b ∷ bs)) =
    let (sensors, dropped, rest, e, split) = process_rx-total c.sensors (rx ++ b ∷ bs) in
    (record c { sensors = sensors }, rest, rw e, refl, refl)

module _ (f : Floats) (laws : IsIeee f) (port : SerialPort) (o : IsOpen port) where
  IsPwm-PwmOf : (value : f.Float) (p : ℕ) → PwmOf f laws value p → IsPwm p
  IsPwm-PwmOf value p k = elim (Bool-cases (f.at_most value value)) [
    | inl number ↦ inr (k.0 number)
    | inr nan ↦ inl (k.1 nan)
  ]

  AllPwm-EachPwm :
      (rows : Six (Six f.Float)) (dof : List f.Float) (pwm : Six ℕ)
      → EachPwm f laws rows dof pwm
      → AllPwm (to_list pwm)
  AllPwm-EachPwm rows dof pwm (each k0 k1 k2 k3 k4 k5) = (
    IsPwm-PwmOf _ _ k0,
    (
      IsPwm-PwmOf _ _ k1,
      (IsPwm-PwmOf _ _ k2, (IsPwm-PwmOf _ _ k3, (IsPwm-PwmOf _ _ k4, (IsPwm-PwmOf _ _ k5, tt)))),
    ),
  )

  send_pwm-sent :
      (s : port.State) (pwm : Six ℕ)
      → o.sent (send_pwm f port s pwm)
        ≡ o.sent s ++ build_frame thruster (pwm_to_bytes (pwm_cmd pwm))
  unfolding send_pwm send_frame
  send_pwm-sent s pwm = o.flush_sent _ ∙ o.write_sent s _

  default_limit : (default f).max_thrust ≡ hundred f
  unfolding default
  default_limit = refl

  pub transmit-sent :
      (c : Shared) (s : port.State) (due : Bool)
      → (s' : port.State) × (pwms : List (Six ℕ)) × (transmit f port c s due ≡ done s')
        × Pulses pwms
        × (o.sent s' ≡ o.sent s ++ frames pwms)
  unfolding transmit frames
  transmit-sent c s false = (s, [], refl, tt, sym (append-nil (o.sent s)))
  transmit-sent c s true =
      let (thrusts, e, all) = mix-EachPwm f laws (default f) default_limit c.thrust_cmd in
      (
        send_pwm f port s (to_pwm f thrusts),
        to_pwm f thrusts ∷ [],
        ap (λ m. m >>= λ t. done (send_pwm f port s (to_pwm f t))) e,
        (AllPwm-EachPwm _ _ _ all, tt),
        send_pwm-sent s (to_pwm f thrusts) ∙ ap (λ l. o.sent s ++ l) (sym (append-nil _)),
      )

  abbrev pub Sent : Bytes → Ran f port → Type 0
  Sent start (looping c rx s) =
      (pwms : List (Six ℕ)) × Pulses pwms × (o.sent s ≡ start ++ frames pwms)
  Sent start (returned c s) =
      (pwms : List (Six ℕ)) × Pulses pwms × (o.sent s ≡ start ++ frames (pwms ++ neutral ∷ []))

  -- What was sent before counts too.
  Sent-after :
      (start : Bytes) (pwms : List (Six ℕ)) (r : Ran f port)
      → Pulses pwms
      → Sent (start ++ frames pwms) r
      → Sent start r
  Sent-after start pwms (looping c rx s) all (more, rest, e) = (
    pwms ++ more,
    Pulses-append pwms more all rest,
    e
        ∙ append_assoc start (frames pwms) (frames more)
        ∙ ap (λ l. start ++ l) (sym (frames-append pwms more)),
  )
  Sent-after start pwms (returned c s) all (more, rest, e) = (
    pwms ++ more,
    Pulses-append pwms more all rest,
    e
        ∙ append_assoc start (frames pwms) (frames (more ++ neutral ∷ []))
        ∙ ap (λ l. start ++ l)
            (sym (frames-append pwms (more ++ neutral ∷ []))
              ∙ ap frames (sym (append_assoc pwms more (neutral ∷ [])))),
  )

  run_rounds-Sent :
      (rounds : List Round) (c : Shared) (rx : Bytes) (s : port.State)
      → (r : Ran f port) × (run_rounds f port c rx s rounds ≡ done r) × Sent (o.sent s) r
  unfolding run_rounds frames finish_run
  run_rounds-Sent [] c rx s = (looping c rx s, refl, ([], tt, sym (append-nil (o.sent s))))
  run_rounds-Sent (round ∷ rounds) c rx s = elim (Bool-cases (calls c round.before).running) [
    | inl running ↦
        let now = calls c round.before in
        let (received, rest, e, _, _) = receive-total now rx round.result in
        let after = calls received round.between in
        let (s', pwms, sends, all, out) = transmit-sent after s round.due in
        let (r, runs, sent) = run_rounds-Sent rounds after rest s' in
        (
          r,
          ground (arith, running, e, sends, runs),
          Sent-after (o.sent s) pwms r all (subst (λ l. Sent l r) out sent),
        )
    | inr cleared ↦
        let now = calls c round.before in
        (
          returned now (finish_run f port s),
          ground (arith, cleared),
          ([], tt, send_pwm-sent s neutral ∙ ap (λ l. o.sent s ++ l) (sym (append-nil _))),
        )
  ]

  -- If the floats obey IEEE 754 as far as the mixer needs it and the port accepts every write and
  -- flush, then over any rounds `run` does not panic and every loop in it ends within its fuel.
  -- What it has sent is a sequence of thruster frames, each with six pulse widths that are 0 or
  -- from 1100 to 1900; if it has returned, the last frame after these has six pulses of 1500.
  pub run-Sent :
      (rounds : List Round) (c : Shared) (s : port.State)
      → (r : Ran f port) × (run f port c s rounds ≡ done r) × Sent (o.sent s) r
  unfolding run
  run-Sent rounds c s = run_rounds-Sent rounds (record c { running = true }) [] s
