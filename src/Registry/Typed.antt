-- ===== src/Registry/Typed.antt =====
-- pubsub/registry.rs: the typed topics. A `dyn Any` knows the type it was made from; a downcast
-- compares that type with the one asked for.
use bibi_sync.Base.{
  ℕ, ◌+◌, ◌≡◌, String, Bool, true, Option, none, some, List, [], ◌∷◌, ◌++◌, length, get_elem?, Exec,
  done, panicked, out_of_fuel, Entries, lookup, insert, if◌then◌else◌, ◌||◌,
}
use bibi_sync.Topic
use bibi_sync.Topic.{Topic}
use bibi_sync.Registry.{ByteShelf}

-- The types `T: Message` that a program sends, by their `TypeId`, and their `T::default()`, and
-- the size of a `Slot<T>`.
pub record MessageTypes : Type 1 where
  pub TypeId : Type 0
  pub same : (a b : TypeId) → Dec (a ≡ b)
  pub Message : TypeId → Type 0
  pub default : (t : TypeId) → Message t
  pub size_of_slot : TypeId → ℕ

module _ (types : MessageTypes) where
  open types use {TypeId, same, Message}

  -- An `Arc<dyn Any>`'s topic, with its type.
  abbrev pub AnyTopic : Type 0
  AnyTopic = (t : TypeId) × Topic (Message t)

  -- `RwLock<HashMap<String, Arc<dyn Any>>>`, and the topics that the `Arc`s point to
  pub record TypedShelf : Type 0 where
    pub typed_topics : Entries ℕ
    pub poisoned : Bool
    pub heap : List AnyTopic

  -- `existing.clone().downcast::<Topic<T>>().ok()`
  unfoldable pub downcast : TypedShelf → TypeId → ℕ → Option ℕ
  downcast shelf t arc = elim (get_elem? shelf.heap arc) [
    | none ↦ none
    | some any ↦ elim (same any.0 t) [ yes is_t ↦ some arc | no other ↦ none ]
  ]

  -- `Topic::new` runs with the lock held.
  unfoldable pub create : TypedShelf → TypeId → String → ℕ → Exec ℕ × TypedShelf
  create shelf t name capacity =
      elim (Topic.new (types.default t) (types.size_of_slot t) name capacity) [
        | done topic ↦ (
          done (length shelf.heap),
          record shelf {
            typed_topics = insert name (length shelf.heap) shelf.typed_topics;
            heap = shelf.heap ++ (t, topic) ∷ [];
          },
        )
        | panicked ↦ (panicked, record shelf { poisoned = true })
        | out_of_fuel ↦ (out_of_fuel, shelf)
      ]

  unfoldable pub get_or_create : TypedShelf → TypeId → String → ℕ → Exec ℕ × TypedShelf
  unfolding create downcast
  get_or_create shelf t name capacity =
      if shelf.poisoned then (panicked, shelf) else elim (lookup name shelf.typed_topics) [
        | none ↦ create shelf t name capacity
        | some existing ↦ elim (downcast shelf t existing) [
          | some topic ↦ (done topic, shelf)
          | none ↦ create shelf t name capacity
        ]
      ]

  unfoldable pub topic_count : TypedShelf → ByteShelf → Exec ℕ
  topic_count typed bytes =
      if typed.poisoned || bytes.poisoned
      then panicked
      else done (length typed.typed_topics + length bytes.byte_topics)
