-- ===== src/Tests/Sharing.antt =====
-- Typed topics of numbers, and a topic that is used from Python.
use native.Mathlib.Decide.{ℕ_discrete}
use bibi_sync.Base.{
  ℕ, ◌<◌, ◌≡◌, ◌≢◌, refl, false, none, some, List, [], ◌∷◌, arith, replicate, done, ◌>>=◌, lookup,
}
use bibi_sync.Log
use bibi_sync.Log.{Log}
use bibi_sync.Log.Calls.{Call, pushes, pops, peeks_latest, counts}
use bibi_sync.ByteRing
use bibi_sync.ByteRing.{Bytes, ByteRingBuffer}
use bibi_sync.ByteRing.Run.{epoch, message, count, byte_run, byte_step, log_run, byte_run_refines}
use bibi_sync.Registry.Typed.{MessageTypes, TypedShelf, get_or_create}
use bibi_sync.Registry.Sharing.{IsFree, IsNamed, typed_shared, other_type_splits}
use bibi_sync.Tests.Buffers.{two_items}

-- Many types with the same messages.
abbrev numbers : MessageTypes
numbers = record {
  TypeId = ℕ;
  same = ℕ_discrete;
  Message = λ t. ℕ;
  default = λ t. 0;
  size_of_slot = λ t. 16;
}

abbrev nothing_yet : TypedShelf numbers
nothing_yet = record { typed_topics = []; poisoned = false; heap = [] }

nothing_yet-IsFree : IsFree nothing_yet
unfolding lookup
nothing_yet-IsFree = record { free = refl; entry = λ name arc e. cc }

no_temp : lookup "/temp" nothing_yet.typed_topics ≡ none
unfolding lookup
no_temp = refl

typed_shared_example :
    (arc : ℕ) × (shelf' : TypedShelf numbers) × (get_or_create numbers nothing_yet 1 "/temp" 8
      ≡ (done arc, shelf'))
    × (get_or_create numbers shelf' 1 "/temp" 16 ≡ (done arc, shelf'))
typed_shared_example =
    typed_shared nothing_yet 1 "/temp" 8 16 nothing_yet-IsFree no_temp (omega arith) (omega arith)
      (omega arith)

-- The type 1 has the name already.
abbrev temp : TypedShelf numbers
temp = record {
  typed_topics = ("/temp", 0) ∷ [];
  poisoned = false;
  heap = (1, record { name = "/temp"; buffer = two_items }) ∷ [];
}

temp-IsFree : IsFree temp
unfolding lookup
temp-IsFree = record { free = refl; entry = λ name arc e. ground (arith, e) }

temp-IsNamed : IsNamed temp "/temp" 1 0
unfolding lookup
temp-IsNamed = record {
  named = refl;
  topic = record { name = "/temp"; buffer = two_items };
  there = refl;
}

other_types : ◌≢◌ {A = ℕ} 1 2
other_types = omega arith

other_type_splits_example :
    (arc_u : ℕ) × (arc_t : ℕ) × (shelf' : TypedShelf numbers) × (shelf'' : TypedShelf numbers)
    × (get_or_create numbers temp 2 "/temp" 8 ≡ (done arc_u, shelf'))
    × (get_or_create numbers shelf' 1 "/temp" 8 ≡ (done arc_t, shelf''))
    × (0 < arc_u)
    × (arc_u < arc_t)
other_type_splits_example =
    other_type_splits temp 1 2 "/temp" 0 8 8 temp-IsFree other_types temp-IsNamed (omega arith)
      (omega arith) (omega arith) (omega arith) (omega arith) (omega arith)

-- A message that is too large among others.
abbrev byte_calls : List (Call Bytes)
byte_calls = pushes (1 ∷ []) ∷ pushes (replicate 245 0) ∷ counts ∷ peeks_latest ∷ pops ∷ pops ∷ []

byte_replies :
    (ByteRing.new 2 >>= λ rb. byte_run rb byte_calls >>= λ (replies, last). done replies)
    ≡ done (
        epoch (some 1)
        ∷ epoch none
        ∷ count 1
        ∷ message (some (1 ∷ [], 1))
        ∷ message (some (1 ∷ [], 1))
        ∷ message none
        ∷ [])
unfolding ByteRing.new byte_run byte_step ByteRing.push ByteRing.pop ByteRing.peek_latest
    ByteRing.len
byte_replies = refl

byte_run_refines_example :
    (rb : ByteRingBuffer) × ((ByteRing.new 2 >>= λ start. byte_run start byte_calls)
      ≡ done ((log_run (Log.empty 2) byte_calls).0, rb))
byte_run_refines_example = byte_run_refines 2 byte_calls (omega arith) (omega arith) (omega arith)
