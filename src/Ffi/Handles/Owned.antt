-- ===== src/Ffi/Handles/Owned.antt =====
-- ffi/mod.rs: how many owners a topic has.
use bibi_sync.Base.{
  ℕ, zero, suc, ◌+◌, ◌-◌, ◌≤◌, ◌<◌, ◌≡◌, refl, sym, ap, subst, ◌==◌, inl, inr, String, true, false,
  Option, none, some, Option-cases, Bool-cases, List, [], ◌∷◌, ◌++◌, if◌then◌else◌, length,
  length-append, set, get_elem?, lookup, insert, remove, arith, Exec, done, panicked, out_of_fuel,
}
use mathlib.Core.Option.{some-injective}
use bibi_sync.Topic
use bibi_sync.Topic.{ByteTopic}
use bibi_sync.Registry
use bibi_sync.Registry.{ByteShelf, get_or_create_byte, create_byte}
use bibi_sync.Ffi.Handles.{Memory, registry_new, dropped, dropped_all}

abbrev pub one_if_same : ℕ → ℕ → ℕ
one_if_same a b = if a == b then 1 else 0

-- How many entries of a map have the topic.
abbrev pub entries_of : ℕ → List (String × ℕ) → ℕ
entries_of a [] = 0
entries_of a (entry ∷ entries) = one_if_same a entry.1 + entries_of a entries

abbrev pub one_if_boxed : ℕ → Option ℕ → ℕ
one_if_boxed a none = 0
one_if_boxed a (some b) = one_if_same a b

-- How many boxes that are not freed have the topic.
abbrev pub boxes_of : ℕ → List (Option ℕ) → ℕ
boxes_of a [] = 0
boxes_of a (box ∷ boxes) = one_if_boxed a box + boxes_of a boxes

-- The owners of a topic.
abbrev pub owners : Memory → ℕ → ℕ
owners m a =
    (if m.registry_live then entries_of a m.shelf.byte_topics else 0) + boxes_of a m.handles

pub record Counted (m : Memory) : Type 0 where
  pub counts : (a : ℕ) → m.strong a ≡ owners m a
  pub made : (a : ℕ) → length m.shelf.heap ≤ a → m.strong a ≡ 0

pub boxes_of-append :
    (a : ℕ) (boxes : List (Option ℕ)) (box : Option ℕ)
    → boxes_of a (boxes ++ box ∷ []) ≡ boxes_of a boxes + one_if_boxed a box
boxes_of-append a [] box = omega arith
boxes_of-append a (b ∷ boxes) box = omega (arith, boxes_of-append a boxes box)

-- Freeing a box takes its topic's owner away.
pub boxes_of-set :
    (a : ℕ) (boxes : List (Option ℕ)) (i : ℕ) (arc : ℕ)
    → get_elem? boxes i ≡ some (some arc)
    → boxes_of a (set boxes i none) + one_if_same a arc ≡ boxes_of a boxes
boxes_of-set a [] i arc e = ground (arith, e)
boxes_of-set a (none ∷ boxes) zero arc e = cc
boxes_of-set a (some c ∷ boxes) zero arc e =
    let same : c ≡ arc = some-injective c arc (some-injective (some c) (some arc) e) in
    omega (arith, ap (one_if_same a) same)
boxes_of-set a (b ∷ boxes) (suc i) arc e = omega (arith, boxes_of-set a boxes i arc e)

pub dropped_all-entries :
    (entries : List (String × ℕ)) (strong : ℕ → ℕ) (a : ℕ)
    → dropped_all entries strong a ≡ strong a - entries_of a entries
dropped_all-entries [] strong a = omega arith
dropped_all-entries (entry ∷ entries) strong a =
    ground (arith, dropped_all-entries entries (dropped entry.1 strong) a)

remove_absent :
    (name : String) (entries : List (String × ℕ))
    → lookup name entries ≡ none
    → remove name entries ≡ entries
unfolding lookup remove
remove_absent name [] e = refl
remove_absent name (entry ∷ entries) e = ground (arith, e, remove_absent name entries)

lookup-entries :
    (name : String) (entries : List (String × ℕ)) (arc : ℕ)
    → lookup name entries ≡ some arc
    → 0 < entries_of arc entries
unfolding lookup
lookup-entries name [] arc e = cc
lookup-entries name (entry ∷ entries) arc e = ground (arith, e, lookup-entries name entries arc)

pub registry_new-Counted : Counted registry_new
unfolding registry_new Registry.empty_shelf
registry_new-Counted = record { counts = λ a. refl; made = λ a le. refl }

-- What asking for a topic comes to: one that the map has, or a new one.
pub data Asked (shelf : ByteShelf) (name : String) (capacity : ℕ)
    : Exec ℕ × ByteShelf → Type 0 where
  kept :
      (arc : ℕ) → 0 < entries_of arc shelf.byte_topics → Asked shelf name capacity (done arc, shelf)
  fresh :
      (shelf' : ByteShelf)
      → ((a : ℕ)
          → entries_of a shelf'.byte_topics
            ≡ one_if_same a (length shelf.heap) + entries_of a shelf.byte_topics)
      → length shelf'.heap ≡ suc (length shelf.heap)
      → Asked shelf name capacity (done (length shelf.heap), shelf')
  fails :
      (r : Exec ℕ) (shelf' : ByteShelf)
      → ((arc : ℕ) → ¬ (r ≡ done arc))
      → Asked shelf name capacity (r, shelf')

pub asked :
    (shelf : ByteShelf) (name : String) (capacity : ℕ)
    → Asked shelf name capacity (get_or_create_byte shelf name capacity)
unfolding get_or_create_byte create_byte insert
asked shelf name capacity = elim (Bool-cases shelf.poisoned) [
  | inl bad ↦
      subst (Asked shelf name capacity) (sym (poisoned bad)) (fails panicked shelf (λ arc e. cc))
  | inr good ↦ elim (Option-cases (lookup name shelf.byte_topics)) [
    | inl absent ↦ creates good absent (Topic.new_byte name capacity) refl
    | inr (arc, there) ↦
        subst (Asked shelf name capacity) (sym (existing good arc there))
          (kept arc (lookup-entries name shelf.byte_topics arc there))
  ]
]
  where
    poisoned : shelf.poisoned ≡ true → get_or_create_byte shelf name capacity ≡ (panicked, shelf)
    poisoned bad = ground (arith, bad)

    existing :
        shelf.poisoned ≡ false
        → (arc : ℕ) → lookup name shelf.byte_topics ≡ some arc
        → get_or_create_byte shelf name capacity ≡ (done arc, shelf)
    existing good arc there = ground (arith, good, there)

    creates :
        shelf.poisoned ≡ false
        → lookup name shelf.byte_topics ≡ none
        → (r : Exec ByteTopic) → Topic.new_byte name capacity ≡ r
        → Asked shelf name capacity (get_or_create_byte shelf name capacity)
    creates good absent (done topic) e =
        let shelf' = record shelf {
          byte_topics = (name, length shelf.heap) ∷ remove name shelf.byte_topics;
          heap = shelf.heap ++ topic ∷ [];
        } in
        let step : get_or_create_byte shelf name capacity ≡ (done (length shelf.heap), shelf') =
          ground (arith, good, absent, e) in
        subst (Asked shelf name capacity) (sym step) (
          fresh shelf'
            (λ a.
              ap (λ l. one_if_same a (length shelf.heap) + entries_of a l)
                (remove_absent name shelf.byte_topics absent))
            (omega (arith, length-append shelf.heap (topic ∷ []))))
    creates good absent panicked e =
        let step : get_or_create_byte shelf name capacity
            ≡ (panicked, record shelf { poisoned = true }) =
          ground (arith, good, absent, e) in
        subst (Asked shelf name capacity) (sym step) (fails panicked _ (λ arc f. cc))
    creates good absent out_of_fuel e =
        let step : get_or_create_byte shelf name capacity ≡ (out_of_fuel, shelf) =
          ground (arith, good, absent, e) in
        subst (Asked shelf name capacity) (sym step) (fails out_of_fuel _ (λ arc f. cc))
