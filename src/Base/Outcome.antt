-- ===== src/Base/Outcome.antt =====
-- What a call of the program comes to: a result, a panic, or fuel that ran out.
use Prim.Native.Nat.{ℕ}
use mathlib.Core.List.{List}
use mathlib.Core.Path.{◌≡◌, refl, sym}
use mathlib.Core.Option.{Option, none, some}
use bibi_sync.Base.Lists.{get_elem?}

pub data Exec {ℓ} (A : Type ℓ) : Type ℓ where
  done : A → Exec A
  panicked : Exec A
  out_of_fuel : Exec A

infixl 5 ◌>>=◌
abbrev pub ◌>>=◌ {ℓ κ} : {A : Type ℓ} {B : Type κ} → Exec A → (A → Exec B) → Exec B
done a >>= f = f a
panicked >>= f = panicked
out_of_fuel >>= f = out_of_fuel

abbrev pub or_panic {ℓ} : {A : Type ℓ} → Option A → Exec A
or_panic none = panicked
or_panic (some a) = done a

-- `xs[i]`, which panics out of bounds
abbrev pub index {ℓ} : {A : Type ℓ} → List A → ℕ → Exec A
index xs i = or_panic (get_elem? xs i)

pub done-injective {ℓ} : {A : Type ℓ} (a b : A) → done a ≡ done b → a ≡ b
done-injective a b e = cc

-- One round of a `loop`: go round again, or leave it with a result.
pub data Turn {ℓ κ} (S : Type ℓ) (A : Type κ) : Type (ℓ ⊔ κ) where
  again : S → Turn S A
  stop : A → Turn S A

pub >>=_assoc {ℓ κ μ} :
    {A : Type ℓ} {B : Type κ} {C : Type μ} (m : Exec A) (f : A → Exec B) (g : B → Exec C)
    → ((m >>= f) >>= g) ≡ (m >>= λ a. f a >>= g)
>>=_assoc (done a) f g = refl
>>=_assoc panicked f g = refl
>>=_assoc out_of_fuel f g = refl

-- A call that returns what it makes of a result has had that result.
pub done->>= {ℓ} :
    {A B : Type ℓ} (r : Exec A) (f : A → B) (b : B)
    → (let after : A → Exec B = λ a. done (f a) in r >>= after) ≡ done b
    → (a : A) × (r ≡ done a) × (b ≡ f a)
done->>= (done a) f b e = (a, refl, sym (done-injective (f a) b e))
done->>= panicked f b e = cc
done->>= out_of_fuel f b e = cc

-- A chain of calls that returns has had a first result.
pub >>=-done {ℓ} :
    {A B : Type ℓ} (r : Exec A) (f : A → Exec B) (b : B)
    → (r >>= f) ≡ done b
    → (a : A) × (r ≡ done a) × (f a ≡ done b)
>>=-done (done a) f b e = (a, refl, e)
>>=-done panicked f b e = cc
>>=-done out_of_fuel f b e = cc
