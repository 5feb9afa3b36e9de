-- ===== src/Base/Modular.antt =====
-- Arithmetic of indices that go round.
use Prim.Native.Nat.{ℕ, ◌+◌, ◌-◌, ◌*◌, ◌/◌, ◌%◌, ◌≤◌, ◌<◌}
use mathlib.Core.Path.{◌≡◌, ap, sym, ◌∙◌}
use mathlib.Core.Logic.{◌≢◌}
use native.Mathlib.Nat.{
  mod-lt, mod-add-mod, mod-eq_of_lt, mod-eq-sub-mod, mul-div-le, lt-mul-div-succ,
  add-mul-mod_self_left,
}
use native.Mathlib.Decide.{dec_lt}
use native.Mathlib.Omega.{arith}
use bibi_sync.Base.Word.{add_word, sub_word, word_mod}

-- Fewer than `c` steps round do not come back to the start.
add-mod-ne : (c h d : ℕ) → h < c → 0 < d → d < c → (h + d) % c ≢ h
add-mod-ne c h d hh pos small = elim (dec_lt (h + d) c) [
  | yes inside ↦ omega (arith, mod-eq_of_lt {n = h + d} {m = c} inside)
  | no wrapped ↦
      let once : (h + d) % c ≡ (h + d - c) % c = mod-eq-sub-mod (omega arith) in
      omega (arith, once, mod-eq_of_lt {n = h + d - c} {m = c} (omega arith))
]

-- Two positions less than a round apart have different indices.
pub mod-ne : (c i n : ℕ) → 0 < c → i < n → n < i + c → i % c ≢ n % c
mod-ne c i n pos lo hi e =
    add-mod-ne c (i % c) (n - i) (mod-lt i pos) (omega arith) (omega arith)
      (mod-add-mod i c (n - i) ∙ ap (λ k. k % c) (omega arith) ∙ sym e)

-- One step on from an index.
pub step-mod : (c n : ℕ) → 0 < c → c < word_mod → add_word (n % c) 1 % c ≡ (n + 1) % c
step-mod c n pos fits =
    ap (λ k. k % c) (mod-eq_of_lt {n = n % c + 1} {m = word_mod} (omega (arith, mod-lt n pos)))
    ∙ mod-add-mod n c 1

pub sub_word-eq : (a b : ℕ) → a < word_mod → b ≤ a → sub_word a b ≡ a - b
sub_word-eq a b fits le = omega arith

pub add_word-eq : (a b : ℕ) → a + b < word_mod → add_word a b ≡ a + b
add_word-eq a b fits = mod-eq_of_lt fits

-- The whole rounds of `c` that fit in `u` steps.
pub rounds-le : (c u : ℕ) → 0 < u → c * ((u - 1) / c) < u
rounds-le c u pos = omega (arith, mul-div-le (u - 1) c)

pub le-rounds : (c u : ℕ) → 0 < c → u ≤ c * ((u - 1) / c) + c
le-rounds c u pos = grind (arith, lt-mul-div-succ (u - 1) pos)

pub rounds-mod : (c r u : ℕ) → (r + c * u) % c ≡ r % c
rounds-mod c r u = add-mul-mod_self_left r c u
