-- ===== src/Log/Sized.antt =====
-- Logs of messages of bytes that all have one size.
use bibi_sync.Base.{
  ℕ, zero, suc, ◌≡◌, sym, ap, ◌∙◌, some, List, [], ◌∷◌, ◌++◌, arith, length, get_elem?,
}
use mathlib.Core.Option.{some-injective}
use bibi_sync.Log
use bibi_sync.Log.{Log}

abbrev pub Bytes : Type 0
Bytes = List ℕ

-- Every message has `size` bytes.
abbrev pub AllSized : ℕ → List Bytes → Type 0
AllSized size [] = Unit
AllSized size (x ∷ xs) = (length x ≡ size) × AllSized size xs

pub AllSized-append :
    (size : ℕ) (xs : List Bytes) (x : Bytes)
    → AllSized size xs
    → length x ≡ size
    → AllSized size (xs ++ x ∷ [])
AllSized-append size [] x h e = (e, tt)
AllSized-append size (y ∷ xs) x h e = (h.0, AllSized-append size xs x h.1 e)

pub AllSized-get_elem? :
    (size : ℕ) (xs : List Bytes) (i : ℕ) (x : Bytes)
    → AllSized size xs
    → get_elem? xs i ≡ some x
    → length x ≡ size
AllSized-get_elem? size [] i x h e = ground (arith, e)
AllSized-get_elem? size (y ∷ xs) zero x h e = ap length (sym (some-injective y x e)) ∙ h.0
AllSized-get_elem? size (y ∷ xs) (suc i) x h e = AllSized-get_elem? size xs i x h.1 e

pub history-receive : (log : Log Bytes) → (Log.receive log).1.history ≡ log.history
unfolding Log.receive
history-receive log = ground arith
