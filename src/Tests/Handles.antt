-- ===== src/Tests/Handles.antt =====
-- A C program that frees the registry and one of two handles on a topic.
use bibi_sync.Base.{
  ℕ, ◌≡◌, refl, some, List, [], ◌∷◌, lookup, insert, remove, get_elem?, Exec, done, panicked,
  out_of_fuel,
}
use bibi_sync.ByteRing
use bibi_sync.ByteRing.{Bytes}
use bibi_sync.Topic
use bibi_sync.Registry
use bibi_sync.Registry.{ByteShelf}
use bibi_sync.Ffi
use bibi_sync.Ffi.Handles.{
  Memory, registry_new, registry_free, get_byte_topic, byte_topic_free, publish, Call, gets, frees,
  publishes, frees_registry, call, run,
}
use bibi_sync.Ffi.Handles.Owned.{owners}
use bibi_sync.Ffi.Handles.Alive.{run-owners, publish-live}

abbrev calls : List Call
calls = gets "/a" 2 ∷ gets "/a" 2 ∷ publishes 0 (some (7 ∷ [])) ∷ frees 0 ∷ frees_registry ∷ []

abbrev memory_of : Exec Memory → Memory
memory_of (done m) = m
memory_of panicked = registry_new
memory_of out_of_fuel = registry_new

abbrev left_over : Memory
left_over = memory_of (run registry_new calls)

left_over_runs : run registry_new calls ≡ done left_over
unfolding run call registry_new registry_free get_byte_topic byte_topic_free publish
    Ffi.byte_topic_publish lookup insert remove Registry.empty_shelf Registry.get_or_create_byte
    Registry.create_byte Registry.publish_at Topic.new_byte Topic.publish_byte ByteRing.new
    ByteRing.push
left_over_runs = refl

one_owner : left_over.strong 0 ≡ 1
unfolding run call registry_new registry_free get_byte_topic byte_topic_free publish
    Ffi.byte_topic_publish lookup insert remove Registry.empty_shelf Registry.get_or_create_byte
    Registry.create_byte Registry.publish_at Topic.new_byte Topic.publish_byte ByteRing.new
    ByteRing.push
one_owner = refl

run-owners_example : left_over.strong 0 ≡ owners left_over 0
run-owners_example = run-owners calls left_over 0 left_over_runs

second_live : get_elem? left_over.handles 1 ≡ some (some 0)
unfolding run call registry_new registry_free get_byte_topic byte_topic_free publish
    Ffi.byte_topic_publish lookup insert remove Registry.empty_shelf Registry.get_or_create_byte
    Registry.create_byte Registry.publish_at Topic.new_byte Topic.publish_byte ByteRing.new
    ByteRing.push
second_live = refl

abbrev shelf_of : Exec (ℕ × ByteShelf) → ByteShelf
shelf_of (done (epoch, shelf)) = shelf
shelf_of panicked = Registry.empty_shelf
shelf_of out_of_fuel = Registry.empty_shelf

abbrev next_shelf : ByteShelf
next_shelf = shelf_of (Ffi.byte_topic_publish left_over.shelf (some 0) (some (8 ∷ [])))

second_publishes :
    Ffi.byte_topic_publish left_over.shelf (some 0) (some (8 ∷ [])) ≡ done (2, next_shelf)
unfolding run call registry_new registry_free get_byte_topic byte_topic_free publish
    Ffi.byte_topic_publish lookup insert remove Registry.empty_shelf Registry.get_or_create_byte
    Registry.create_byte Registry.publish_at Topic.new_byte Topic.publish_byte ByteRing.new
    ByteRing.push
second_publishes = refl

publish-live_example :
    publish left_over 1 (some (8 ∷ [])) ≡ done (2, record left_over { shelf = next_shelf })
publish-live_example =
    publish-live calls left_over 1 0 2 (some (8 ∷ [])) next_shelf left_over_runs second_live
      second_publishes
