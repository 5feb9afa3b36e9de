-- ===== src/UnitTests.antt =====
-- The unit tests of the source, as the model runs them: each is the body of the `#[test]` of its name.
-- An assertion that fails panics.
pub mod Rings
pub mod ByteRings
pub mod Topics
pub mod Registries
pub mod Interfaces
pub mod Messages
use bibi_sync.Base.{
  ℕ, Bool, true, false, ◌&&◌, Option, none, some, List, [], ◌∷◌, ◌==◌, if◌then◌else◌, Exec, done,
  panicked,
}

-- What a test comes to.
abbrev pub Passing : Type 0
Passing = Exec (Unit {0})

-- `assert!`
abbrev pub assert : Bool → Passing
assert true = done tt
assert false = panicked

-- `assert_eq!` on numbers
abbrev pub assert_eq : ℕ → ℕ → Passing
assert_eq m n = assert (m == n)

-- `==` on lists of numbers
abbrev pub eq_list : List ℕ → List ℕ → Bool
eq_list [] [] = true
eq_list (x ∷ xs) (y ∷ ys) = (x == y) && eq_list xs ys
eq_list xs ys = false

-- `== Some(n)`
abbrev pub is_some_of : Option ℕ → ℕ → Bool
is_some_of none n = false
is_some_of (some m) n = m == n

abbrev pub is_none : {A : Type 0} → Option A → Bool
is_none none = true
is_none (some a) = false

abbrev pub is_some : {A : Type 0} → Option A → Bool
is_some none = false
is_some (some a) = true
