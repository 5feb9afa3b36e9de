-- ===== src/Base/Dict.antt =====
-- `HashMap<String, V>` as an association list. `HashMap::insert` puts the new entry in the place of
-- the old one.
use Prim.Native.String.{String}
use mathlib.Core.Option.{Option, none, some}
use mathlib.Core.Path.{◌≡◌}
use mathlib.Core.List.{List, [], ◌∷◌}
use native.Mathlib.Omega.{arith}
use text.Mathlib.Text.{◌==◌ as str_eq}
use text.Mathlib.TextEquality.{eq_iff}
use bibi_sync.Base.Tests.{if◌then◌else◌}

abbrev pub Entries {ℓ} : Type ℓ → Type ℓ
Entries V = List (String × V)

module _ {ℓ} {V : Type ℓ} where
  unfoldable pub lookup : String → Entries V → Option V
  lookup name [] = none
  lookup name (entry ∷ rest) = if str_eq entry.0 name then some entry.1 else lookup name rest

  unfoldable pub remove : String → Entries V → Entries V
  remove name [] = []
  remove name (entry ∷ rest) =
      if str_eq entry.0 name then remove name rest else entry ∷ remove name rest

  unfoldable pub insert : String → V → Entries V → Entries V
  insert name value dict = (name, value) ∷ remove name dict

  lookup-remove :
      (name other : String) (dict : Entries V)
      → lookup other (remove name dict) ≡ (if str_eq name other then none else lookup other dict)
  unfolding lookup remove
  lookup-remove name other [] = ground arith
  lookup-remove name other ((first, value) ∷ rest) = ground (
    arith,
    lookup-remove name other rest,
    eq_iff name other,
    eq_iff first name,
    eq_iff first other,
  )

  -- The inserted entry is found under its name, and all other names keep what they had.
  pub lookup-insert :
      (name other : String) (value : V) (dict : Entries V)
      → lookup other (insert name value dict)
        ≡ (if str_eq name other then some value else lookup other dict)
  unfolding lookup insert
  lookup-insert name other value dict = ground (arith, lookup-remove name other dict)
