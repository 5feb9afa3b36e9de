-- ===== src/Tests/Buffers.antt =====
-- The typed and the byte ring buffer, of two slots.
use bibi_sync.Base.{
  ◌-◌, ◌^◌, ℕ, zero, suc, ◌+◌, ◌%◌, ◌≤◌, ◌≡◌, refl, subst, none, some, List, [], ◌∷◌, arith, length,
  get_elem?, done, panicked, ◌>>=◌,
}
use mathlib.Core.Option.{some-injective}
use bibi_sync.Log
use bibi_sync.Log.{Log, unread}
use bibi_sync.Log.Calls
use bibi_sync.Log.Calls.{
  Call, pushes, pops, peeks_latest, peeks_oldest, counts, Reply, epoch, item, peeked, count,
}
use bibi_sync.Log.Fifo.{queue_run, received}
use bibi_sync.Ring
use bibi_sync.Ring.{RingBuffer, Slot, new, push, pop, pop_loop, len}
use bibi_sync.Ring.Represents.{Represents}
use bibi_sync.Ring.Run.{run, run_refines}
use bibi_sync.Ring.Fifo.{run_fifo, overrun_drops_all}
use bibi_sync.ByteRing.{ByteRingBuffer, ByteSlot, new_slot, store, max_payload_size}
use bibi_sync.ByteRing.Refine.{ByteRepresents, view, IsSound}
use bibi_sync.Topic.{Topic}

-- Three messages into two slots: the reader gets the last one only.
abbrev lapping : List (Call ℕ)
lapping = pushes 7 ∷ pushes 8 ∷ pushes 9 ∷ counts ∷ pops ∷ pops ∷ counts ∷ []

lapping_replies :
    (new 0 16 2 >>= λ rb. run rb lapping >>= λ (replies, last). done replies)
    ≡ done (epoch 1 ∷ epoch 2 ∷ epoch 3 ∷ count 2 ∷ item (some 9) ∷ item none ∷ count 0 ∷ [])
unfolding new run Ring.Run.step push pop len
lapping_replies = refl

no_slots : new {T = ℕ} 0 16 0 ≡ panicked
unfolding new
no_slots = refl

too_many_slots : new {T = ℕ} 0 16 (2 ^ 64 - 1) ≡ panicked
unfolding new
too_many_slots = refl

abbrev in_turn : List (Call ℕ)
in_turn =
    pushes 7 ∷ pushes 8 ∷ pops ∷ peeks_latest ∷ pushes 9 ∷ pops ∷ peeks_oldest ∷ pops ∷ pops ∷ []

in_turn_queue : queue_run [] in_turn ≡ some 7 ∷ some 8 ∷ some 9 ∷ none ∷ []
unfolding queue_run
in_turn_queue = refl

run_refines_example :
    (rb : RingBuffer ℕ) × ((new 0 16 2 >>= λ start. run start lapping)
      ≡ done ((Calls.run (Log.empty 2) lapping).0, rb))
run_refines_example =
    run_refines 0 16 2 lapping (omega arith) (omega arith) (omega arith) (omega arith)

run_fifo_example :
    (replies : List (Reply ℕ)) × (rb : RingBuffer ℕ) × ((new 0 16 2 >>= λ start. run start in_turn)
      ≡ done (replies, rb))
    × (received replies ≡ queue_run [] in_turn)
run_fifo_example =
    run_fifo 0 16 2 in_turn (omega arith) (omega arith) (omega arith) (omega arith)
      (omega arith, (omega arith, (omega arith, tt)))

-- Two messages, none of them received.
abbrev pub two_items : RingBuffer ℕ
two_items = record {
  buffer = record { value = 7; epoch = 1 } ∷ record { value = 8; epoch = 2 } ∷ [];
  head = 0;
  tail = 0;
  write_epoch = 2;
  read_epoch = 0;
  capacity = 2;
}

abbrev two_log : Log ℕ
two_log = record { history = 7 ∷ 8 ∷ []; cursor = 0; capacity = 2 }

two_live :
    (i : ℕ) (x : ℕ)
    → get_elem? two_log.history i ≡ some x
    → length two_log.history ≤ i + 2
    → get_elem? two_items.buffer (i % 2) ≡ some (record { value = x; epoch = suc i })
two_live zero x e near = ground (arith, e)
two_live (suc zero) x e near = ground (arith, e)
two_live (suc (suc i)) x e near = ground (arith, e)

two_items-Represents : Represents two_items two_log
two_items-Represents = record {
  capacity_pos = omega arith;
  capacity_fits = omega arith;
  same_capacity = refl;
  written = refl;
  read = refl;
  read_le = omega arith;
  shape = refl;
  head_at = refl;
  tail_at = refl;
  live = two_live;
  fresh = λ i late inside. absurd (omega arith);
}

overrun_drops_all_example :
    (full : RingBuffer ℕ) × (drained : RingBuffer ℕ) × (push two_items 9 ≡ done (3, full))
    × (len full ≡ 2)
    × (pop full ≡ done (some 9, drained))
    × (pop drained ≡ done (none, drained))
overrun_drops_all_example = overrun_drops_all two_items-Represents 9 refl (omega arith)

abbrev two_topic : Topic ℕ
two_topic = record { name = "depth"; buffer = two_items }

abbrev pub two_frames : ByteRingBuffer
two_frames = record {
  buffer = store new_slot (1 ∷ 2 ∷ 3 ∷ []) 1 ∷ store new_slot (4 ∷ []) 2 ∷ [];
  head = 0;
  tail = 0;
  write_epoch = 2;
  read_epoch = 0;
  capacity = 2;
}

abbrev pub two_frames_log : Log (List ℕ)
two_frames_log = record { history = (1 ∷ 2 ∷ 3 ∷ []) ∷ (4 ∷ []) ∷ []; cursor = 0; capacity = 2 }

two_frames_live :
    (i : ℕ) (x : List ℕ)
    → get_elem? two_frames_log.history i ≡ some x
    → length two_frames_log.history ≤ i + 2
    → get_elem? (view two_frames).buffer (i % 2) ≡ some (record { value = x; epoch = suc i })
two_frames_live zero x e near = ground (arith, e)
two_frames_live (suc zero) x e near = ground (arith, e)
two_frames_live (suc (suc i)) x e near = ground (arith, e)

abbrev IsFull : ByteSlot → Type 0
IsFull slot = (length slot.bytes ≡ max_payload_size) × (slot.len ≤ max_payload_size)

two_frames-IsSound : IsSound two_frames.buffer
two_frames-IsSound zero slot e =
    subst IsFull (some-injective (store new_slot (1 ∷ 2 ∷ 3 ∷ []) 1) slot e) (refl, omega arith)
two_frames-IsSound (suc zero) slot e =
    subst IsFull (some-injective (store new_slot (4 ∷ []) 2) slot e) (refl, omega arith)
two_frames-IsSound (suc (suc i)) slot e = ground (arith, e)

pub two_frames-ByteRepresents : ByteRepresents two_frames two_frames_log
two_frames-ByteRepresents = record {
  viewed = record {
    capacity_pos = omega arith;
    capacity_fits = omega arith;
    same_capacity = refl;
    written = refl;
    read = refl;
    read_le = omega arith;
    shape = refl;
    head_at = refl;
    tail_at = refl;
    live = two_frames_live;
    fresh = λ i late inside. absurd (omega arith);
  };
  sound = two_frames-IsSound;
}

-- One slot, and one message in it.
abbrev pub one_frame : ByteRingBuffer
one_frame = record {
  buffer = store new_slot (1 ∷ 2 ∷ 3 ∷ []) 1 ∷ [];
  head = 0;
  tail = 0;
  write_epoch = 1;
  read_epoch = 0;
  capacity = 1;
}

abbrev pub one_frame_log : Log (List ℕ)
one_frame_log = record { history = (1 ∷ 2 ∷ 3 ∷ []) ∷ []; cursor = 0; capacity = 1 }

one_frame_live :
    (i : ℕ) (x : List ℕ)
    → get_elem? one_frame_log.history i ≡ some x
    → length one_frame_log.history ≤ i + 1
    → get_elem? (view one_frame).buffer (i % 1) ≡ some (record { value = x; epoch = suc i })
one_frame_live zero x e near = ground (arith, e)
one_frame_live (suc i) x e near = ground (arith, e)

one_frame-IsSound : IsSound one_frame.buffer
one_frame-IsSound zero slot e =
    subst IsFull (some-injective (store new_slot (1 ∷ 2 ∷ 3 ∷ []) 1) slot e) (refl, omega arith)
one_frame-IsSound (suc i) slot e = ground (arith, e)

pub one_frame-ByteRepresents : ByteRepresents one_frame one_frame_log
one_frame-ByteRepresents = record {
  viewed = record {
    capacity_pos = omega arith;
    capacity_fits = omega arith;
    same_capacity = refl;
    written = refl;
    read = refl;
    read_le = omega arith;
    shape = refl;
    head_at = refl;
    tail_at = refl;
    live = one_frame_live;
    fresh = λ i late inside. absurd (omega arith);
  };
  sound = one_frame-IsSound;
}
