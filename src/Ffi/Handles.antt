-- ===== src/Ffi/Handles.antt =====
-- ffi/mod.rs: who owns what: the box of the registry, the boxes of the handles, and the strong counts
-- of the topics' `Arc`s. A pointer is the index of its box; use of a pointer that was freed is
-- undefined behaviour, which the model shows as a panic.
pub mod Owned
pub mod Steps
pub mod Alive
use bibi_sync.Base.{
  ℕ, suc, ◌-◌, ◌==◌, String, Bool, true, false, Option, none, some, List, [], ◌∷◌, ◌++◌,
  if◌then◌else◌, length, set, Exec, done, panicked, out_of_fuel, ◌>>=◌, index, or_panic,
}
use bibi_sync.ByteRing.{Bytes}
use bibi_sync.Registry
use bibi_sync.Registry.{ByteShelf}
use bibi_sync.Ffi

pub record Memory : Type 0 where
  pub shelf : ByteShelf
  pub registry_live : Bool
  pub handles : List (Option ℕ)
  pub strong : ℕ → ℕ

-- `bibi_registry_new`
unfoldable pub registry_new : Memory
registry_new = record {
  shelf = Registry.empty_shelf;
  registry_live = true;
  handles = [];
  strong = λ arc. 0;
}

-- `Arc::clone`, and the count that `Arc::new` makes
abbrev pub cloned : ℕ → (ℕ → ℕ) → ℕ → ℕ
cloned arc strong a = if a == arc then suc (strong a) else strong a

-- `drop` of an `Arc`
abbrev pub dropped : ℕ → (ℕ → ℕ) → ℕ → ℕ
dropped arc strong a = if a == arc then strong a - 1 else strong a

-- `drop` of the map of a registry, with all its `Arc`s
abbrev pub dropped_all : List (String × ℕ) → (ℕ → ℕ) → ℕ → ℕ
dropped_all [] strong = strong
dropped_all (entry ∷ entries) strong = dropped_all entries (dropped entry.1 strong)

-- `bibi_registry_free` of a pointer that is not null
unfoldable pub registry_free : Memory → Exec Memory
registry_free m =
    if m.registry_live
    then done
        (record m { registry_live = false; strong = dropped_all m.shelf.byte_topics m.strong })
    else panicked

-- `bibi_registry_get_byte_topic`: a new topic is in the map and in the handle's box.
unfoldable pub get_byte_topic : Memory → String → ℕ → Exec (ℕ × Memory)
get_byte_topic m name capacity =
    let (made, shelf) = Registry.get_or_create_byte m.shelf name capacity in
    if m.registry_live
    then (do
      arc ← made
      let held = if arc == length m.shelf.heap then cloned arc m.strong else m.strong
      done (
        length m.handles,
        record m { shelf = shelf; handles = m.handles ++ some arc ∷ []; strong = cloned arc held },
      ))
    else panicked

-- The `Arc` in the box of a handle.
abbrev pub arc_of : Memory → ℕ → Exec ℕ
arc_of m handle = do box ← index m.handles handle; or_panic box

-- `bibi_byte_topic_free` of a pointer that is not null
unfoldable pub byte_topic_free : Memory → ℕ → Exec Memory
byte_topic_free m handle = do
  arc ← arc_of m handle
  done (record m { handles = set m.handles handle none; strong = dropped arc m.strong })

-- `bibi_byte_topic_publish` through a handle; the topic is gone if nothing owns it.
unfoldable pub publish : Memory → ℕ → Option Bytes → Exec (ℕ × Memory)
publish m handle payload = do
  arc ← arc_of m handle
  if m.strong arc == 0 then panicked else (do
    (epoch, shelf) ← Ffi.byte_topic_publish m.shelf (some arc) payload
    done (epoch, record m { shelf = shelf }))

-- The calls of a C program.
pub data Call : Type 0 where
  gets : (name : String) (capacity : ℕ) → Call
  publishes : (handle : ℕ) → Option Bytes → Call
  frees : (handle : ℕ) → Call
  frees_registry : Call

unfoldable pub call : Memory → Call → Exec Memory
call m (gets name capacity) = do (handle, m') ← get_byte_topic m name capacity; done m'
call m (publishes handle payload) = do (epoch, m') ← publish m handle payload; done m'
call m (frees handle) = byte_topic_free m handle
call m frees_registry = registry_free m

unfoldable pub run : Memory → List Call → Exec Memory
run m [] = done m
run m (c ∷ cs) = do m' ← call m c; run m' cs
