-- ===== src/ByteRing/Refine.antt =====
-- ring_buffer/byte_buffer.rs: `new` and `push`. The byte buffer is viewed as the typed buffer at
-- `T = Vec<u8>`, each slot read up to its length.
use bibi_sync.Base.{
  isize_max, ◌*◌, ℕ, suc, ◌%◌, ◌^◌, ◌≤◌, ◌<◌, ◌≡◌, refl, sym, ap, subst, ◌∙◌, none, some, List, [],
  get_elem?-map, ltb, length, get_elem?, set, arith, map, take, drop, done, word_mod, false,
  length-append, length-set, length-drop, length-map, take-append, map-set, get_elem?-exists,
  get_elem?-lt, get_elem?-set_self, get_elem?-set_ne, replicate, length-replicate,
  get_elem?-replicate,
}
use native.Mathlib.Decide.{ℕ_discrete}
use mathlib.Core.Option
use mathlib.Core.Option.{some-injective}
use bibi_sync.Log
use bibi_sync.Log.{Log, landing, unread}
use bibi_sync.Ring.{RingBuffer, Slot}
use bibi_sync.Ring.Represents.{Represents}
use bibi_sync.Ring.Refine
use bibi_sync.ByteRing.{
  byte_slot_size, ByteRingBuffer, ByteSlot, Bytes, new, new_slot, max_payload_size, push, store,
  payload,
}

abbrev pub view_slot : ByteSlot → Slot Bytes
view_slot slot = record { value = take slot.len slot.bytes; epoch = slot.epoch }

abbrev pub view : ByteRingBuffer → RingBuffer Bytes
view rb = record {
  buffer = map view_slot rb.buffer;
  head = rb.head;
  tail = rb.tail;
  write_epoch = rb.write_epoch;
  read_epoch = rb.read_epoch;
  capacity = rb.capacity;
}

-- Every array has its full size, and no length passes it.
abbrev pub IsSound : List ByteSlot → Type 0
IsSound slots =
    (i : ℕ) (slot : ByteSlot)
    → get_elem? slots i ≡ some slot
    → (length slot.bytes ≡ max_payload_size) × (slot.len ≤ max_payload_size)

pub record ByteRepresents (rb : ByteRingBuffer) (log : Log Bytes) : Type 0 where
  pub viewed : Represents (view rb) log
  pub sound : IsSound rb.buffer

set-IsSound :
    (slots : List ByteSlot) (i : ℕ) (new : ByteSlot)
    → (length new.bytes ≡ max_payload_size) × (new.len ≤ max_payload_size)
    → IsSound slots
    → IsSound (set slots i new)
set-IsSound slots i new fine sound j slot e = elim (ℕ_discrete i j) [
  | yes same ↦
      let in_range : i < length slots =
        omega (arith, same, get_elem?-lt (set slots i new) j slot e, length-set slots i new) in
      let found : new ≡ slot = some-injective new slot (
        sym (get_elem?-set_self slots i new in_range)
        ∙ ap (get_elem? (set slots i new)) same
        ∙ e) in
      rw found at fine
  | no other ↦ sound j slot (sym (get_elem?-set_ne slots i j new other) ∙ e)
]

new_slot-IsSound : (capacity : ℕ) → IsSound (replicate capacity new_slot)
new_slot-IsSound capacity i slot e =
    let h : i < capacity =
      omega (arith, get_elem?-lt _ i slot e, length-replicate capacity new_slot) in
    subst (λ (s : ByteSlot). (length s.bytes ≡ max_payload_size) × (s.len ≤ max_payload_size))
      (some-injective new_slot slot (sym (get_elem?-replicate capacity i new_slot h) ∙ e)) new_sound
  where
    new_sound : (length new_slot.bytes ≡ max_payload_size) × (new_slot.len ≤ max_payload_size)
    new_sound = (length-replicate {A = ℕ} max_payload_size 0, omega arith)

pub payload_sound :
    (slot : ByteSlot)
    → (length slot.bytes ≡ max_payload_size) × (slot.len ≤ max_payload_size)
    → payload slot ≡ done (take slot.len slot.bytes)
unfolding payload
payload_sound slot fine = ground arith

-- What is stored is read back, whatever the array held.
payload-store :
    (slot : ByteSlot) (p : Bytes) (e : ℕ)
    → length p ≤ max_payload_size
    → view_slot (store slot p e) ≡ record { value = p; epoch = e }
payload-store slot p e small =
    ap (λ x. record { value = x; epoch = e })
      (take-append p (drop (length p) slot.bytes) (length p % 2 ^ 32) (omega arith))

initial : ℕ → ByteRingBuffer
initial capacity = record {
  buffer = replicate capacity new_slot;
  head = 0;
  tail = 0;
  write_epoch = 0;
  read_epoch = 0;
  capacity = capacity;
}

-- A new byte buffer represents the empty log.
pub new-ByteRepresents :
    (capacity : ℕ)
    → 0 < capacity
    → capacity * byte_slot_size ≤ isize_max
    → (rb : ByteRingBuffer) × (new capacity ≡ done rb) × ByteRepresents rb (Log.empty capacity)
unfolding new initial Log.empty
new-ByteRepresents capacity pos fits = (
  initial capacity,
  ground arith,
  record {
    viewed = record {
      capacity_pos = pos;
      capacity_fits = omega (arith, fits);
      same_capacity = refl;
      written = refl;
      read = refl;
      read_le = omega arith;
      shape = length-map view_slot _ ∙ length-replicate capacity new_slot;
      head_at = omega arith;
      tail_at = omega arith;
      live = λ i x e _. cc;
      fresh = λ i _ h. (
        [],
        get_elem?-map view_slot (replicate capacity new_slot) i
            ∙ ap (Option.map view_slot) (get_elem?-replicate capacity i new_slot h),
      );
    };
    sound = λ i slot e. new_slot-IsSound capacity i slot e;
  },
)

module _ {rb : ByteRingBuffer} {log : Log Bytes} (v : ByteRepresents rb log) where
  -- The state after `push`.
  pushed : ByteSlot → Bytes → ByteRingBuffer
  pushed slot p = record rb {
    write_epoch = suc (length log.history);
    buffer = set rb.buffer rb.head (store slot p (suc (length log.history)));
    head = suc (length log.history) % rb.capacity;
  }

  view-pushed :
      (slot : ByteSlot) (p : Bytes)
      → length p ≤ max_payload_size
      → view (pushed slot p) ≡ Refine.pushed v.viewed p
  unfolding pushed Refine.pushed
  view-pushed slot p small =
      ap (λ slots. record (view (pushed slot p)) { buffer = slots })
        (map-set view_slot rb.buffer rb.head _
          ∙ ap (set (map view_slot rb.buffer) rb.head) (payload-store slot p _ small))

  pushed-ByteRepresents :
      (slot : ByteSlot) (p : Bytes)
      → get_elem? rb.buffer rb.head ≡ some slot
      → length p ≤ max_payload_size
      → ByteRepresents (pushed slot p) (Log.publish log p)
  unfolding pushed
  pushed-ByteRepresents slot p found small = record {
    viewed = rw (view-pushed slot p small) (Refine.pushed-Represents v.viewed p);
    sound =
        set-IsSound rb.buffer rb.head (store slot p (suc (length log.history)))
          (
            omega (
              arith,
              length-append p (drop (length p) slot.bytes),
              length-drop (length p) slot.bytes,
              (v.sound rb.head slot found).0,
            ),
            omega arith,
          )
          v.sound;
  }

  -- `push` refuses what does not fit, and appends the rest to the log.
  pub push-too_large : (p : Bytes) → max_payload_size < length p → push rb p ≡ done (none, rb)
  unfolding push
  push-too_large p large = ground arith

  -- If a byte buffer represents a log and the log has fewer than 2^64-1 messages, a message of at
  -- most 244 bytes is pushed without a panic, its epoch is the new number of messages, and the new
  -- buffer represents the log with the message at its end.
  pub push-ByteRepresents :
      (p : Bytes)
      → length p ≤ max_payload_size
      → suc (length log.history) < word_mod
      → (rb' : ByteRingBuffer) × (push rb p ≡ done (some (suc (length log.history)), rb'))
        × ByteRepresents rb' (Log.publish log p)
  unfolding push pushed
  push-ByteRepresents p small fits =
      let (slot, found) = get_elem?-exists rb.buffer rb.head head_in in
      (
        pushed slot p,
        ground (arith, found, accepted, Refine.epoch_next v.viewed fits, Refine.head_next v.viewed),
        pushed-ByteRepresents slot p found small,
      )
    where
      head_in : rb.head < length rb.buffer
      head_in = omega (arith, Refine.head_in v.viewed, length-map view_slot rb.buffer)

      accepted : ltb max_payload_size (length p) ≡ false
      accepted = ground arith
