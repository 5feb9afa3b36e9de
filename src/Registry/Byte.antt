-- ===== src/Registry/Byte.antt =====
-- pubsub/registry.rs: the well-formed registries of byte topics, and `get_or_create_byte`.
use native.Mathlib.Decide.{dec_lt, ℕ_discrete}
use text.Mathlib.TextPositions.{eq_refl}
use bibi_sync.Base.{
  isize_max, ◌*◌, ℕ, suc, ◌≤◌, ◌<◌, ◌≡◌, refl, sym, ap, subst, ◌∙◌, inl, inr, String, false, Option,
  none, some, [], ◌∷◌, ◌++◌, arith, length, length-append, length-set, get_elem?, set,
  get_elem?-exists, get_elem?-lt, get_elem?-append_left, get_elem?-append_at, get_elem?-set_self,
  get_elem?-set_ne, done, panicked, lookup, insert, lookup-insert, Option-cases, word_mod,
  if◌then◌else◌,
}
use mathlib.Core.Option.{some-injective}
use bibi_sync.Log
use bibi_sync.Log.{Log}
use bibi_sync.ByteRing
use bibi_sync.ByteRing.{Bytes, max_payload_size, byte_slot_size}
use bibi_sync.ByteRing.Refine.{
  ByteRepresents, new-ByteRepresents, push-ByteRepresents, push-too_large,
}
use bibi_sync.Topic
use bibi_sync.Topic.{ByteTopic}
use bibi_sync.Registry.{ByteShelf, empty_shelf, create_byte, get_or_create_byte, publish_at}

-- The lock is free, every entry is a topic, and every topic's buffer represents a log of at most
-- `n` messages.
pub record IsValid (shelf : ByteShelf) (n : ℕ) : Type 0 where
  pub free : shelf.poisoned ≡ false
  pub entry :
      (name : String) (arc : ℕ) → lookup name shelf.byte_topics ≡ some arc → arc < length shelf.heap
  pub topic :
      (arc : ℕ) (t : ByteTopic)
      → get_elem? shelf.heap arc ≡ some t
      → (log : Log Bytes) × ByteRepresents t.buffer log × (length log.history ≤ n)

pub empty_shelf-IsValid : IsValid empty_shelf 0
unfolding empty_shelf lookup
empty_shelf-IsValid = record { free = refl; entry = λ name arc e. cc; topic = λ arc t e. cc }

module _ {shelf : ByteShelf} {n : ℕ} (v : IsValid shelf n) where
  -- A name that has a topic gives that topic, whatever the capacity asked for.
  pub get_existing :
      (name : String) (capacity arc : ℕ)
      → lookup name shelf.byte_topics ≡ some arc
      → get_or_create_byte shelf name capacity ≡ (done arc, shelf)
  unfolding get_or_create_byte
  get_existing name capacity arc e = ground (arith, v.free, e)

  pub IsValid-mono : (m : ℕ) → n ≤ m → IsValid shelf m
  IsValid-mono m le = record {
    free = v.free;
    entry = v.entry;
    topic = λ arc t e. let (log, w, h) = v.topic arc t e in (log, w, omega arith);
  }

  -- The shelf with one more topic.
  added : String → ByteTopic → ByteShelf
  added name t = record shelf {
    byte_topics = insert name (length shelf.heap) shelf.byte_topics;
    heap = shelf.heap ++ t ∷ [];
  }

  added_topic :
      (t : ByteTopic)
      → (log : Log Bytes) × ByteRepresents t.buffer log × (length log.history ≤ n)
      → (arc : ℕ) (u : ByteTopic) → get_elem? (shelf.heap ++ t ∷ []) arc ≡ some u
      → (log : Log Bytes) × ByteRepresents u.buffer log × (length log.history ≤ n)
  added_topic t good arc u e = elim (dec_lt arc (length shelf.heap)) [
    | yes old ↦ v.topic arc u (sym (get_elem?-append_left shelf.heap (t ∷ []) arc old) ∙ e)
    | no late ↦
        let at_end : arc ≡ length shelf.heap =
          omega (
            arith,
            get_elem?-lt (shelf.heap ++ t ∷ []) arc u e,
            length-append shelf.heap (t ∷ []),
          ) in
        subst
          (λ (w : ByteTopic).
            (log : Log Bytes) × ByteRepresents w.buffer log × (length log.history ≤ n))
          (some-injective t u (sym (get_elem?-append_at shelf.heap [] t arc at_end) ∙ e)) good
  ]

  added-IsValid :
      (name : String) (t : ByteTopic)
      → (log : Log Bytes) × ByteRepresents t.buffer log × (length log.history ≤ n)
      → IsValid (added name t) n
  unfolding added
  added-IsValid name t good = record {
    free = v.free;
    entry = λ other arc e. ground (
      arith,
      lookup-insert name other (length shelf.heap) shelf.byte_topics,
      v.entry other arc,
      length-append shelf.heap (t ∷ []),
    );
    topic = added_topic t good;
  }

  -- A new name gets a topic of its own.
  pub get_new :
      (name : String) (capacity : ℕ)
      → 0 < capacity
      → capacity * byte_slot_size ≤ isize_max
      → lookup name shelf.byte_topics ≡ none
      → (shelf' : ByteShelf) × (get_or_create_byte shelf name capacity
          ≡ (done (length shelf.heap), shelf'))
        × (lookup name shelf'.byte_topics ≡ some (length shelf.heap))
        × IsValid shelf' n
  unfolding get_or_create_byte create_byte Topic.new_byte added
  get_new name capacity pos fits absent =
      let (rb, e, w) = new-ByteRepresents capacity pos fits in
      let t : ByteTopic = record { name = name; buffer = rb } in
      (
        added name t,
        ground (arith, v.free, absent, e),
        lookup-insert name name (length shelf.heap) shelf.byte_topics
            ∙ ap (λ b. if b then some (length shelf.heap) else lookup name shelf.byte_topics)
                (eq_refl name),
        added-IsValid name t (_, w, unfold Log.empty in omega arith),
      )

  set-IsValid :
      (arc : ℕ) (t : ByteTopic) (m : ℕ)
      → n ≤ m
      → (log : Log Bytes) × ByteRepresents t.buffer log × (length log.history ≤ m)
      → IsValid (record shelf { heap = set shelf.heap arc t }) m
  set-IsValid arc t m le good = record {
    free = v.free;
    entry = λ name i e. omega (arith, v.entry name i e, length-set shelf.heap arc t);
    topic = λ i u e. elim (ℕ_discrete arc i) [
      | yes same ↦
          let in_range : arc < length shelf.heap =
            omega (
              arith,
              same,
              get_elem?-lt (set shelf.heap arc t) i u e,
              length-set shelf.heap arc t,
            ) in
          subst
            (λ (w : ByteTopic).
              (log : Log Bytes) × ByteRepresents w.buffer log × (length log.history ≤ m))
            (some-injective t u (
              sym (get_elem?-set_self shelf.heap arc t in_range)
              ∙ ap (get_elem? (set shelf.heap arc t)) same
              ∙ e))
            good
      | no other ↦
          let (log, w, h) = v.topic i u (sym (get_elem?-set_ne shelf.heap arc i t other) ∙ e) in
          (log, w, omega arith)
    ];
  }

  -- Publishing through an `Arc` returns, whatever the size of the message.
  pub publish_at-IsValid :
      (arc : ℕ) (p : Bytes)
      → arc < length shelf.heap
      → suc n < word_mod
      → (e : Option ℕ) × (shelf' : ByteShelf) × (publish_at shelf arc p ≡ done (e, shelf'))
        × IsValid shelf' (suc n)
  unfolding publish_at Topic.publish_byte
  publish_at-IsValid arc p h fits =
      let (t, found) = get_elem?-exists shelf.heap arc h in
      let (log, w, le) = v.topic arc t found in
      elim (dec_lt max_payload_size (length p)) [
        | yes large ↦ (
          none,
          record shelf { heap = set shelf.heap arc t },
          ground (arith, found, push-too_large w p large),
          set-IsValid arc t (suc n) (omega arith) (log, w, omega arith),
        )
        | no small ↦
            let (rb, pushed, u) = push-ByteRepresents w p (omega arith) (omega arith) in
            (
              some (suc (length log.history)),
              record shelf { heap = set shelf.heap arc (record t { buffer = rb }) },
              ground (arith, found, pushed),
              set-IsValid arc (record t { buffer = rb }) (suc n) (omega arith)
                  (_, u, unfold Log.publish in omega (arith, length-append log.history (p ∷ []))),
            )
      ]

  -- What a frame's publication does: the topic is there or is made, and the message goes in.
  pub get_or_create-IsValid :
      (name : String) (capacity : ℕ)
      → 0 < capacity
      → capacity * byte_slot_size ≤ isize_max
      → (arc : ℕ) × (shelf' : ByteShelf) × (get_or_create_byte shelf name capacity
          ≡ (done arc, shelf'))
        × (lookup name shelf'.byte_topics ≡ some arc)
        × IsValid shelf' n
  get_or_create-IsValid name capacity pos fits =
      elim (Option-cases (lookup name shelf.byte_topics)) [
        | inl absent ↦
            let (shelf', e, f, w) = get_new name capacity pos fits absent in
            (length shelf.heap, shelf', e, f, w)
        | inr (arc, there) ↦ (arc, shelf, get_existing name capacity arc there, there, v)
      ]

-- In a valid registry, if a name is asked for with a positive capacity whose slots of 264 bytes
-- take at most 2^63-1 bytes, asking for it again, with any capacity, gives the same topic and
-- changes nothing.
pub get_or_create_twice :
    {shelf : ByteShelf} {n : ℕ} (name : String) (first second : ℕ)
    → IsValid shelf n
    → 0 < first
    → first * byte_slot_size ≤ isize_max
    → (arc : ℕ) × (shelf' : ByteShelf) × (get_or_create_byte shelf name first ≡ (done arc, shelf'))
      × (get_or_create_byte shelf' name second ≡ (done arc, shelf'))
get_or_create_twice name first second v pos fits =
    let (arc, shelf', e, there, w) = get_or_create-IsValid v name first pos fits in
    (arc, shelf', e, get_existing w name second arc there)

-- In a valid registry, asking for a name that has no topic with a capacity of 0 panics with the
-- lock held: every later call, for any name and capacity, panics too and changes nothing.
pub zero_capacity_poisons :
    {shelf : ByteShelf} {n : ℕ} (name other : String) (capacity : ℕ)
    → IsValid shelf n
    → lookup name shelf.byte_topics ≡ none
    → let (result, shelf') = get_or_create_byte shelf name 0 in
      (result ≡ panicked) × (get_or_create_byte shelf' other capacity ≡ (panicked, shelf'))
unfolding get_or_create_byte create_byte Topic.new_byte ByteRing.new
zero_capacity_poisons name other capacity v absent =
    (ground (arith, v.free, absent), ground (arith, v.free, absent))
