-- ===== src/Controller/Run/Exit.antt =====
-- auv/controller.rs: `shutdown` while `run` is in its loop.
use bibi_sync.Base.{
  ℕ, ◌≡◌, refl, sym, ap, subst, ◌∙◌, inl, inr, true, false, List, [], ◌∷◌, ◌++◌, arith, done,
  done-injective, Bool-cases,
}
use bibi_sync.Mixer.{Floats, Six}
use bibi_sync.Mixer.Laws.{IsIeee}
use bibi_sync.Mixer.Neutral.{neutral}
use bibi_sync.Uart.{SerialPort}
use bibi_sync.Uart.Send.{IsOpen}
use bibi_sync.Uart.Wire.{Bytes}
use bibi_sync.Controller.{
  Shared, set_thrust, set_surge, set_sway, set_heave, set_roll, set_pitch, set_yaw, stop, shutdown,
}
use bibi_sync.Controller.Run.{
  Call, sets_thrust, sets_surge, sets_sway, sets_heave, sets_roll, sets_pitch, sets_yaw, stops,
  shuts_down, call, calls, Round, finish_run, returned, run_rounds, run,
}
use bibi_sync.Controller.Run.Sent.{frames, Pulses, Sent, receive-total, transmit-sent, run-Sent}

-- No call sets the flag again.
call-cleared : (c : Shared) (k : Call) → c.running ≡ false → (call c k).running ≡ false
unfolding call set_thrust set_surge set_sway set_heave set_roll set_pitch set_yaw stop shutdown
call-cleared c (sets_thrust cmd) e = e
call-cleared c (sets_surge value) e = e
call-cleared c (sets_sway value) e = e
call-cleared c (sets_heave value) e = e
call-cleared c (sets_roll value) e = e
call-cleared c (sets_pitch value) e = e
call-cleared c (sets_yaw value) e = e
call-cleared c stops e = e
call-cleared c shuts_down e = refl

calls-cleared : (c : Shared) (ks : List Call) → c.running ≡ false → (calls c ks).running ≡ false
unfolding calls
calls-cleared c [] e = e
calls-cleared c (k ∷ ks) e = calls-cleared (call c k) ks (call-cleared c k e)

calls-shutdown :
    (c : Shared) (first next : List Call) → (calls c (first ++ shuts_down ∷ next)).running ≡ false
unfolding calls call shutdown
calls-shutdown c [] next = calls-cleared (record c { running = false }) next refl
calls-shutdown c (k ∷ first) next = calls-shutdown (call c k) first next

module _ (f : Floats) (laws : IsIeee f) (port : SerialPort) (o : IsOpen port) where
  -- The round that finds the flag clear is the last one.
  run_rounds-returned :
      (earlier later : List Round) (round : Round) (first next : List Call) (c : Shared)
      (rx : Bytes) (s : port.State)
      → round.before ≡ first ++ shuts_down ∷ next
      → (c' : Shared) × (s' : port.State) × (run_rounds f port c rx s (earlier ++ round ∷ later)
          ≡ done (returned c' s'))
  unfolding run_rounds
  run_rounds-returned [] later round first next c rx s e =
      let cleared = ap (λ ks. (calls c ks).running) e ∙ calls-shutdown c first next in
      (calls c round.before, finish_run f port s, ground (arith, cleared))
  run_rounds-returned (r ∷ earlier) later round first next c rx s e =
      elim (Bool-cases (calls c r.before).running) [
        | inl running ↦
            let (received, rest, got, _, _) = receive-total (calls c r.before) rx r.result in
            let after = calls received r.between in
            let (s', _, sends, _, _) = transmit-sent f laws port o after s r.due in
            let (c'', s'', runs) =
              run_rounds-returned earlier later round first next after rest s' e in
            (c'', s'', ground (arith, running, got, sends, runs))
        | inr cleared ↦ (calls c r.before, finish_run f port s, ground (arith, cleared))
      ]

  -- If the floats obey IEEE 754 as far as the mixer needs it, the port accepts every write and
  -- flush, and `shutdown` is among the calls that other threads make before the flag is loaded in
  -- some round of the loop, then `run` returns without a panic, whatever is called, read and due in
  -- the other rounds. What it has sent is a sequence of thruster frames, each with six pulse widths
  -- that are 0 or from 1100 to 1900, and then the frame with six pulses of 1500.
  pub run-shutdown :
      (earlier later : List Round) (round : Round) (first next : List Call) (c : Shared)
      (s : port.State)
      → round.before ≡ first ++ shuts_down ∷ next
      → (c' : Shared) × (s' : port.State) × (pwms : List (Six ℕ)) × (run f port c s
            (earlier ++ round ∷ later)
          ≡ done (returned c' s'))
        × Pulses pwms
        × (o.sent s' ≡ o.sent s ++ frames (pwms ++ neutral ∷ []))
  unfolding run
  run-shutdown earlier later round first next c s e =
      let (c', s', runs) =
        run_rounds-returned earlier later round first next (record c { running = true }) [] s e in
      let (r, ran, sent) = run-Sent f laws port o (earlier ++ round ∷ later) c s in
      let (pwms, all, out) =
        subst (Sent f laws port o (o.sent s)) (done-injective r (returned c' s') (sym ran ∙ runs))
          sent in
      (c', s', pwms, runs, all, out)
