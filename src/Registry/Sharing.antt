-- ===== src/Registry/Sharing.antt =====
-- pubsub/registry.rs: `get_or_create`, and who shares a typed topic.
use bibi_sync.Base.{
  ℕ, ◌<◌, ◌≡◌, ◌≢◌, refl, ap, sym, ◌∙◌, String, false, none, some, [], ◌∷◌, ◌++◌, arith, length,
  length-append, get_elem?, get_elem?-append_at, done, lookup, insert, lookup-insert, word_mod,
  isize_max, ◌*◌, ◌≤◌, if◌then◌else◌,
}
use text.Mathlib.TextPositions.{eq_refl}
use bibi_sync.Ring.Refine.{new-Represents}
use bibi_sync.Topic
use bibi_sync.Topic.{Topic}
use bibi_sync.Registry.Typed.{MessageTypes, TypedShelf, downcast, create, get_or_create}

module _ {types : MessageTypes} where
  open types use {TypeId, same, Message}

  -- The lock is free, and every entry is a topic.
  pub record IsFree (shelf : TypedShelf types) : Type 0 where
    pub free : shelf.poisoned ≡ false
    pub entry :
        (name : String) (arc : ℕ)
        → lookup name shelf.typed_topics ≡ some arc
        → arc < length shelf.heap

  -- A name stands for a topic of a type, behind `arc`.
  pub record IsNamed (shelf : TypedShelf types) (name : String) (t : TypeId) (arc : ℕ)
      : Type 0 where
    pub named : lookup name shelf.typed_topics ≡ some arc
    pub topic : Topic (Message t)
    pub there : get_elem? shelf.heap arc ≡ some (t, topic)

  downcast-same :
      (shelf : TypedShelf types) (name : String) (t : TypeId) (arc : ℕ)
      → IsNamed shelf name t arc
      → downcast types shelf t arc ≡ some arc
  unfolding downcast
  downcast-same shelf name t arc n = rw (downcast, n.there) (go (same t t))
    where
      go : (d : Dec (t ≡ t)) → (elim d [ yes is_t ↦ some arc | no other ↦ none ]) ≡ some arc
      go (yes is_t) = refl
      go (no other) = absurd (other refl)

  downcast-other :
      (shelf : TypedShelf types) (name : String) (t u : TypeId) (arc : ℕ)
      → t ≢ u
      → IsNamed shelf name t arc
      → downcast types shelf u arc ≡ none
  unfolding downcast
  downcast-other shelf name t u arc ne n = rw (downcast, n.there) (go (same t u))
    where
      go : (d : Dec (t ≡ u)) → (elim d [ yes is_u ↦ some arc | no other ↦ none ]) ≡ none
      go (yes is_u) = absurd (ne is_u)
      go (no other) = refl

  module _ {shelf : TypedShelf types} (v : IsFree shelf) where
    -- The shelf with one more topic.
    added : String → (t : TypeId) → Topic (Message t) → TypedShelf types
    added name t topic = record shelf {
      typed_topics = insert name (length shelf.heap) shelf.typed_topics;
      heap = shelf.heap ++ (t, topic) ∷ [];
    }

    added-IsFree :
        (name : String) (t : TypeId) (topic : Topic (Message t)) → IsFree (added name t topic)
    unfolding added
    added-IsFree name t topic = record {
      free = v.free;
      entry = λ other arc e. ground (
        arith,
        lookup-insert name other (length shelf.heap) shelf.typed_topics,
        v.entry other arc,
        length-append shelf.heap ((t, topic) ∷ []),
      );
    }

    added-IsNamed :
        (name : String) (t : TypeId) (topic : Topic (Message t))
        → IsNamed (added name t topic) name t (length shelf.heap)
    unfolding added
    added-IsNamed name t topic = record {
      named =
          lookup-insert name name (length shelf.heap) shelf.typed_topics
          ∙ ap (λ b. if b then some (length shelf.heap) else lookup name shelf.typed_topics)
              (eq_refl name);
      topic = topic;
      there = get_elem?-append_at shelf.heap [] (t, topic) (length shelf.heap) refl;
    }

    -- The new topic is the last of the heap.
    create_lem :
        (t : TypeId) (name : String) (capacity : ℕ)
        → 0 < capacity
        → capacity < word_mod
        → capacity * types.size_of_slot t ≤ isize_max
        → (shelf' : TypedShelf types) × (create types shelf t name capacity
            ≡ (done (length shelf.heap), shelf'))
          × IsFree shelf'
          × IsNamed shelf' name t (length shelf.heap)
    unfolding create Topic.new added
    create_lem t name capacity pos fits alloc =
        let (rb, e, w) =
          new-Represents (types.default t) (types.size_of_slot t) capacity pos fits alloc in
        let topic : Topic (Message t) = record { name = name; buffer = rb } in
        (
          added name t topic,
          ground (arith, e),
          added-IsFree name t topic,
          added-IsNamed name t topic,
        )

    get_or_create-same :
        (t : TypeId) (name : String) (capacity arc : ℕ)
        → IsNamed shelf name t arc
        → get_or_create types shelf t name capacity ≡ (done arc, shelf)
    unfolding get_or_create
    get_or_create-same t name capacity arc n =
        ground (arith, v.free, n.named, downcast-same shelf name t arc n)

    get_or_create-other :
        (t u : TypeId) (name : String) (capacity arc : ℕ)
        → t ≢ u
        → IsNamed shelf name t arc
        → get_or_create types shelf u name capacity ≡ create types shelf u name capacity
    unfolding get_or_create
    get_or_create-other t u name capacity arc ne n =
        ground (arith, v.free, n.named, downcast-other shelf name t u arc ne n)

    get_or_create-absent :
        (t : TypeId) (name : String) (capacity : ℕ)
        → lookup name shelf.typed_topics ≡ none
        → get_or_create types shelf t name capacity ≡ create types shelf t name capacity
    unfolding get_or_create
    get_or_create-absent t name capacity absent = ground (arith, v.free, absent)

  -- If the lock of the typed topics is free, every entry is a topic and a name has no entry, then
  -- asking for the name with a type, and a capacity between 1 and 2^64-1 whose slots of that type
  -- take at most 2^63-1 bytes, makes a topic, and asking again with the same type and any capacity
  -- gives the same topic and changes nothing.
  pub typed_shared :
      (shelf : TypedShelf types) (t : TypeId) (name : String) (first second : ℕ)
      → IsFree shelf
      → lookup name shelf.typed_topics ≡ none
      → 0 < first
      → first < word_mod
      → first * types.size_of_slot t ≤ isize_max
      → (arc : ℕ) × (shelf' : TypedShelf types) × (get_or_create types shelf t name first
          ≡ (done arc, shelf'))
        × (get_or_create types shelf' t name second ≡ (done arc, shelf'))
  typed_shared shelf t name first second v absent pos fits alloc =
      let (shelf', e, w, n) = create_lem v t name first pos fits alloc in
      (
        length shelf.heap,
        shelf',
        get_or_create-absent v t name first absent ∙ e,
        get_or_create-same w t name second (length shelf.heap) n,
      )

  -- If the lock is free, every entry is a topic and a name stands for a topic of type `t`, then
  -- asking for the name with another type (and a capacity between 1 and 2^64-1 whose slots take at
  -- most 2^63-1 bytes) makes a second topic under that name, and asking with `t` again (with such a
  -- capacity) makes a third: those who asked with `t` before and after no longer share a topic.
  pub other_type_splits :
      (shelf : TypedShelf types) (t u : TypeId) (name : String) (arc first second : ℕ)
      → IsFree shelf
      → t ≢ u
      → IsNamed shelf name t arc
      → 0 < first
      → first < word_mod
      → first * types.size_of_slot u ≤ isize_max
      → 0 < second
      → second < word_mod
      → second * types.size_of_slot t ≤ isize_max
      → (arc_u : ℕ) × (arc_t : ℕ) × (shelf' : TypedShelf types) × (shelf'' : TypedShelf types)
        × (get_or_create types shelf u name first ≡ (done arc_u, shelf'))
        × (get_or_create types shelf' t name second ≡ (done arc_t, shelf''))
        × (arc < arc_u)
        × (arc_u < arc_t)
  other_type_splits shelf t u name arc first second v ne n pos fits alloc pos' fits' alloc' =
      let (shelf', e, w, m) = create_lem v u name first pos fits alloc in
      let (shelf'', f, _, _) = create_lem w t name second pos' fits' alloc' in
      (
        length shelf.heap,
        length shelf'.heap,
        shelf',
        shelf'',
        get_or_create-other v t u name first arc ne n ∙ e,
        get_or_create-other w u t name second (length shelf.heap) (λ same. ne (sym same)) m ∙ f,
        v.entry name arc n.named,
        w.entry name (length shelf.heap) m.named,
      )
