-- ===== src/Log/Calls.antt =====
-- A client's calls of a buffer, one after the other, and what each returns; on the log.
use bibi_sync.Base.{ℕ, suc, ◌≤◌, ◌≡◌, arith, length-append, Option, List, [], ◌∷◌, length}
use bibi_sync.Log.{Log, publish, receive, size, latest, oldest}

pub data Call {ℓ} (T : Type ℓ) : Type ℓ where
  pushes : T → Call T
  pops peeks_latest peeks_oldest counts : Call T

pub data Reply {ℓ} (T : Type ℓ) : Type ℓ where
  epoch : ℕ → Reply T
  item : Option T → Reply T
  peeked : Option (T × ℕ) → Reply T
  count : ℕ → Reply T

module _ {ℓ} {T : Type ℓ} where
  unfoldable pub step : Log T → Call T → Reply T × Log T
  step log (pushes x) = (epoch (length (publish log x).history), publish log x)
  step log pops = let (x, log') = receive log in (item x, log')
  step log peeks_latest = (peeked (latest log), log)
  step log peeks_oldest = (peeked (oldest log), log)
  step log counts = (count (size log), log)

  unfoldable pub run : Log T → List (Call T) → List (Reply T) × Log T
  run log [] = ([], log)
  run log (c ∷ cs) =
      let (reply, log') = step log c in let (replies, last) = run log' cs in (reply ∷ replies, last)

  pub length-publish :
      (log : Log T) (x : T) → length (publish log x).history ≡ suc (length log.history)
  unfolding publish
  length-publish log x = omega (arith, length-append log.history (x ∷ []))

  -- A call adds one message at most.
  pub length-step :
      (log : Log T) (c : Call T) → length (step log c).1.history ≤ suc (length log.history)
  unfolding step receive
  length-step log (pushes x) = omega (arith, length-publish log x)
  length-step log pops = ground arith
  length-step log peeks_latest = omega arith
  length-step log peeks_oldest = omega arith
  length-step log counts = omega arith
