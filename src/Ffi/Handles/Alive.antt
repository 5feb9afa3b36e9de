-- ===== src/Ffi/Handles/Alive.antt =====
-- ffi/mod.rs: a topic lives as long as something owns it, and no longer.
use native.Mathlib.Decide.{ℕ_discrete}
use bibi_sync.Base.{
  done->>=, >>=-done, ℕ, ◌+◌, ◌<◌, ◌≡◌, refl, sym, ap, subst, ◌∙◌, inl, inr, Option, none, some,
  Option-cases, List, [], ◌∷◌, if◌then◌else◌, get_elem?, arith, Exec, done, panicked, out_of_fuel,
  done-injective,
}
use bibi_sync.ByteRing.{Bytes}
use bibi_sync.Registry.{ByteShelf}
use bibi_sync.Ffi
use bibi_sync.Ffi.Handles.{
  Memory, registry_new, get_byte_topic, publish, Call, gets, publishes, frees, frees_registry, call,
  run,
}
use bibi_sync.Ffi.Handles.Owned.{
  one_if_same, entries_of, boxes_of, owners, Counted, boxes_of-set, registry_new-Counted,
}
use bibi_sync.Ffi.Handles.Steps.{
  get_byte_topic-Counted, registry_free-Counted, byte_topic_free-Counted, keeps_owners,
}

publish-Counted :
    (m m' : Memory) (handle epoch : ℕ) (payload : Option Bytes)
    → Counted m
    → publish m handle payload ≡ done (epoch, m')
    → Counted m'
unfolding publish
publish-Counted m m' handle epoch payload v e = elim (Option-cases (get_elem? m.handles handle)) [
  | inl outside ↦ absurd (ground (arith, outside, e))
  | inr (none, there) ↦ absurd (ground (arith, there, e))
  | inr (some arc, there) ↦ elim (ℕ_discrete (m.strong arc) 0) [
    | yes gone ↦ absurd (ground (arith, there, gone, e))
    | no owned ↦ published arc there owned (Ffi.byte_topic_publish m.shelf (some arc) payload) refl
  ]
]
  where
    published :
        (arc : ℕ)
        → get_elem? m.handles handle ≡ some (some arc)
        → ¬ (m.strong arc ≡ 0)
        → (r : Exec (ℕ × ByteShelf)) → Ffi.byte_topic_publish m.shelf (some arc) payload ≡ r
        → Counted m'
    published arc there owned (done (number, shelf)) f =
        let (entries, size) = keeps_owners m.shelf shelf arc number payload f in
        let m1 = record m { shelf = shelf } in
        let step : publish m handle payload ≡ done (number, m1) = ground (arith, there, owned, f) in
        let same : m1 ≡ m' =
          ap (λ (r : ℕ × Memory). r.1) (done-injective (number, m1) (epoch, m') (sym step ∙ e)) in
        subst Counted same (record {
          counts = λ a.
              v.counts a
              ∙ ap (λ l. (if m.registry_live then entries_of a l else 0) + boxes_of a m.handles)
                  (sym entries);
          made = λ a le. v.made a (omega (arith, size, le));
        })
    published arc there owned panicked f = absurd (ground (arith, there, owned, f, e))
    published arc there owned out_of_fuel f = absurd (ground (arith, there, owned, f, e))

call-Counted : (c : Call) (m m' : Memory) → Counted m → call m c ≡ done m' → Counted m'
unfolding call
call-Counted (gets name capacity) m m' v e =
    let ((handle, m1), made, same) = done->>= (get_byte_topic m name capacity) _ m' e in
    get_byte_topic-Counted m m' v name capacity handle
      (made ∙ ap (λ (n : Memory). done (handle, n)) (sym same))
call-Counted (publishes handle payload) m m' v e =
    let ((epoch, m1), made, same) = done->>= (publish m handle payload) _ m' e in
    publish-Counted m m' handle epoch payload v
      (made ∙ ap (λ (n : Memory). done (epoch, n)) (sym same))
call-Counted (frees handle) m m' v e = byte_topic_free-Counted m m' v handle e
call-Counted frees_registry m m' v e = registry_free-Counted m m' v e

run-Counted : (cs : List Call) (m m' : Memory) → Counted m → run m cs ≡ done m' → Counted m'
unfolding run
run-Counted [] m m' v e = subst Counted (done-injective m m' e) v
run-Counted (c ∷ cs) m m' v e =
    let (n, first, rest) = >>=-done (call m c) _ m' e in
    run-Counted cs n m' (call-Counted c m n v first) rest

-- After any calls of a C program that gets handles, publishes, frees handles and frees the
-- registry, if none of them used a freed pointer or panicked, the strong count of every topic is
-- the number of its owners: the entries of the registry, if it is not freed, and the handles that
-- are not freed. So a topic lives while something owns it, and no topic without an owner is left.
pub run-owners :
    (cs : List Call) (m : Memory) (arc : ℕ)
    → run registry_new cs ≡ done m
    → m.strong arc ≡ owners m arc
run-owners cs m arc e = (run-Counted cs registry_new m registry_new-Counted e).counts arc

boxed_once :
    (boxes : List (Option ℕ)) (i arc : ℕ)
    → get_elem? boxes i ≡ some (some arc)
    → 0 < boxes_of arc boxes
boxed_once boxes i arc e = omega (arith, boxes_of-set arc boxes i arc e, one_same arc)
  where
    one_same : (a : ℕ) → one_if_same a a ≡ 1
    one_same a = ground arith

-- After such calls, also when the registry is freed and other handles of the topic are, a handle
-- that is not freed reaches its topic: if `bibi_byte_topic_publish` on the topic returns an epoch,
-- then through this handle it returns that epoch and leaves the topics as it does there.
pub publish-live :
    (cs : List Call) (m : Memory) (handle arc epoch : ℕ) (payload : Option Bytes)
    (shelf : ByteShelf)
    → run registry_new cs ≡ done m
    → get_elem? m.handles handle ≡ some (some arc)
    → Ffi.byte_topic_publish m.shelf (some arc) payload ≡ done (epoch, shelf)
    → publish m handle payload ≡ done (epoch, record m { shelf = shelf })
unfolding publish
publish-live cs m handle arc epoch payload shelf e there f =
    let owned : 0 < m.strong arc =
      omega (arith, run-owners cs m arc e, boxed_once m.handles handle arc there) in
    ground (arith, there, owned, f)
