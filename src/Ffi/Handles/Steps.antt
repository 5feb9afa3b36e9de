-- ===== src/Ffi/Handles/Steps.antt =====
-- ffi/mod.rs: the calls keep the strong counts.
use native.Mathlib.Decide.{dec_lt}
use bibi_sync.Base.{
  ℕ, ◌+◌, ◌≤◌, ◌<◌, ◌≡◌, refl, sym, ap, subst, ◌∙◌, ◌==◌, inl, inr, String, true, false, Option,
  none, some, Option-cases, Bool-cases, [], ◌∷◌, ◌++◌, if◌then◌else◌, length, length-set, set,
  get_elem?, arith, Exec, done, panicked, out_of_fuel, ◌>>=◌, done-injective,
}
use bibi_sync.ByteRing.{Bytes}
use bibi_sync.Topic
use bibi_sync.Topic.{ByteTopic}
use bibi_sync.Registry
use bibi_sync.Registry.{ByteShelf, get_or_create_byte, create_byte}
use bibi_sync.Ffi
use bibi_sync.Ffi.Handles.{
  Memory, cloned, dropped, dropped_all, registry_free, get_byte_topic, byte_topic_free,
}
use bibi_sync.Ffi.Handles.Owned.{
  entries_of, boxes_of, Counted, boxes_of-append, boxes_of-set, dropped_all-entries, Asked, kept,
  fresh, fails, asked,
}

-- One more box for a topic, and one more entry if it is new.
boxed :
    (m : Memory) (shelf : ByteShelf) (arc : ℕ) (strong : ℕ → ℕ)
    → m.registry_live ≡ true
    → arc < length shelf.heap
    → ((a : ℕ) → strong a ≡ entries_of a shelf.byte_topics + boxes_of a m.handles)
    → ((a : ℕ) → length shelf.heap ≤ a → strong a ≡ 0)
    → Counted (record m {
      shelf = shelf;
      handles = m.handles ++ some arc ∷ [];
      strong = cloned arc strong;
    })
boxed m shelf arc strong live inside counts made = record {
  counts = λ a. ground (arith, live, counts a, boxes_of-append a m.handles (some arc));
  made = λ a le. ground (arith, made a le, inside, le);
}

module _ (m m' : Memory) (v : Counted m) where
  -- Each call keeps the counts.
  pub get_byte_topic-Counted :
      (name : String) (capacity handle : ℕ)
      → get_byte_topic m name capacity ≡ done (handle, m')
      → Counted m'
  unfolding get_byte_topic
  get_byte_topic-Counted name capacity handle e = elim (Bool-cases m.registry_live) [
    | inl live ↦
        got live (get_or_create_byte m.shelf name capacity) (asked m.shelf name capacity)
          (sym (enters live) ∙ e)
    | inr gone ↦ absurd (ground (arith, gone, e))
  ]
    where
      after : Exec ℕ × ByteShelf → Exec (ℕ × Memory)
      after (made, shelf) = do
        arc ← made
        let held = if arc == length m.shelf.heap then cloned arc m.strong else m.strong
        done (
          length m.handles,
          record m {
            shelf = shelf;
            handles = m.handles ++ some arc ∷ [];
            strong = cloned arc held;
          },
        )

      enters :
          m.registry_live ≡ true
          → get_byte_topic m name capacity ≡ after (get_or_create_byte m.shelf name capacity)
      enters live = ground (arith, live)

      outcome : ℕ → Memory → Exec (ℕ × Memory)
      outcome h m1 = done (h, m1)

      same : (m1 : Memory) → outcome (length m.handles) m1 ≡ outcome handle m' → m1 ≡ m'
      same m1 f =
          ap (λ (r : ℕ × Memory). r.1) (done-injective (length m.handles, m1) (handle, m') f)

      got :
          m.registry_live ≡ true
          → (r : Exec ℕ × ByteShelf) → Asked m.shelf name capacity r
          → after r ≡ done (handle, m')
          → Counted m'
      got live r (kept arc owned) e =
          let inside : arc < length m.shelf.heap = elim (dec_lt arc (length m.shelf.heap)) [
            | yes lt ↦ lt
            | no ge ↦
                let gone : m.strong arc ≡ 0 = v.made arc (omega (arith, ge)) in
                absurd (ground (arith, gone, v.counts arc, live, owned))
          ] in
          let m1 = record m {
            handles = m.handles ++ some arc ∷ [];
            strong = cloned arc m.strong;
          } in
          let step : after (done arc, m.shelf) ≡ done (length m.handles, m1) =
            ground (arith, inside) in
          subst Counted (same m1 (sym step ∙ e)) (
            boxed m m.shelf arc m.strong live inside (λ a. ground (arith, v.counts a, live)) v.made)
      got live r (fresh shelf' entries longer) e =
          let arc = length m.shelf.heap in
          let m1 = record m {
            shelf = shelf';
            handles = m.handles ++ some arc ∷ [];
            strong = cloned arc (cloned arc m.strong);
          } in
          let step : after (done arc, shelf') ≡ done (length m.handles, m1) = ground arith in
          subst Counted (same m1 (sym step ∙ e)) (
            boxed m shelf' arc (cloned arc m.strong) live (omega (arith, longer))
              (λ a. ground (arith, entries a, v.counts a, live))
              (λ a le. ground (arith, v.made a (omega (arith, longer, le)), longer, le)))
      got live r (fails (done arc) shelf' never) e = absurd (never arc refl)
      got live r (fails panicked shelf' never) e = cc
      got live r (fails out_of_fuel shelf' never) e = cc

  pub registry_free-Counted : registry_free m ≡ done m' → Counted m'
  unfolding registry_free
  registry_free-Counted e = elim (Bool-cases m.registry_live) [
    | inl live ↦
        let freed = record m {
          registry_live = false;
          strong = dropped_all m.shelf.byte_topics m.strong;
        } in
        let step : registry_free m ≡ done freed = ground (arith, live) in
        subst Counted (done-injective freed m' (sym step ∙ e)) (record {
          counts = λ a.
              ground (arith, dropped_all-entries m.shelf.byte_topics m.strong a, v.counts a, live);
          made = λ a le.
              ground (arith, dropped_all-entries m.shelf.byte_topics m.strong a, v.made a le);
        })
    | inr gone ↦ absurd (ground (arith, gone, e))
  ]

  pub byte_topic_free-Counted : (handle : ℕ) → byte_topic_free m handle ≡ done m' → Counted m'
  unfolding byte_topic_free
  byte_topic_free-Counted handle e = elim (Option-cases (get_elem? m.handles handle)) [
    | inl outside ↦ absurd (ground (arith, outside, e))
    | inr (none, there) ↦ absurd (ground (arith, there, e))
    | inr (some arc, there) ↦
        let freed = record m {
          handles = set m.handles handle none;
          strong = dropped arc m.strong;
        } in
        let step : byte_topic_free m handle ≡ done freed = ground (arith, there) in
        subst Counted (done-injective freed m' (sym step ∙ e)) (record {
          counts = λ a. ground (arith, v.counts a, boxes_of-set a m.handles handle arc there);
          made = λ a le. ground (arith, v.made a le);
        })
  ]

-- A message in a topic changes no owner.
pub keeps_owners :
    (shelf shelf' : ByteShelf) (arc epoch : ℕ) (payload : Option Bytes)
    → Ffi.byte_topic_publish shelf (some arc) payload ≡ done (epoch, shelf')
    → (shelf'.byte_topics ≡ shelf.byte_topics) × (length shelf'.heap ≡ length shelf.heap)
unfolding Ffi.byte_topic_publish Registry.publish_at
keeps_owners shelf shelf' arc epoch none e =
    let same : shelf ≡ shelf' =
      ap (λ (r : ℕ × ByteShelf). r.1) (done-injective (0, shelf) (epoch, shelf') e) in
    (
      ap (λ (o : ByteShelf). o.byte_topics) (sym same),
      ap (λ (o : ByteShelf). length o.heap) (sym same),
    )
keeps_owners shelf shelf' arc epoch (some p) e = elim (Option-cases (get_elem? shelf.heap arc)) [
  | inl outside ↦ absurd (ground (arith, outside, e))
  | inr (topic, there) ↦ published topic there (Topic.publish_byte topic p) refl
]
  where
    published :
        (topic : ByteTopic)
        → get_elem? shelf.heap arc ≡ some topic
        → (r : Exec (Option ℕ × ByteTopic)) → Topic.publish_byte topic p ≡ r
        → (shelf'.byte_topics ≡ shelf.byte_topics) × (length shelf'.heap ≡ length shelf.heap)
    published topic there (done (number, topic')) f =
        let stored = record shelf { heap = set shelf.heap arc topic' } in
        let step : Ffi.byte_topic_publish shelf (some arc) (some p)
            ≡ done (Ffi.epoch_or_zero number, stored) =
          ground (arith, there, f) in
        let same : stored ≡ shelf' =
          ap (λ (r : ℕ × ByteShelf). r.1)
            (done-injective (Ffi.epoch_or_zero number, stored) (epoch, shelf') (sym step ∙ e)) in
        (
          ap (λ (o : ByteShelf). o.byte_topics) (sym same),
          ap (λ (o : ByteShelf). length o.heap) (sym same) ∙ length-set shelf.heap arc topic',
        )
    published topic there panicked f = absurd (ground (arith, there, f, e))
    published topic there out_of_fuel f = absurd (ground (arith, there, f, e))
