-- ===== src/ByteRing.antt =====
-- ring_buffer/byte_buffer.rs: `ByteRingBuffer`, whose slots are fixed arrays of bytes with a length.
pub mod Refine
pub mod Read
pub mod Run
use bibi_sync.Base.{
  ℕ, zero, suc, ◌+◌, ◌-◌, ◌*◌, ◌%◌, ◌^◌, min, Option, none, some, List, ◌++◌, Bool, ltb, leb, ◌==◌,
  if◌then◌else◌, length, take, drop, replicate, set, Exec, done, panicked, out_of_fuel, ◌>>=◌,
  index, Turn, again, stop, add_word, sub_word, isize_max, ◌&&◌,
}

abbrev pub slot_size : ℕ
slot_size = 256

abbrev pub header_size : ℕ
header_size = 12

abbrev pub max_payload_size : ℕ
max_payload_size = slot_size - header_size

abbrev pub Bytes : Type 0
Bytes = List ℕ

-- `ByteSlotInner`, whose field `data` is `bytes` here
pub record ByteSlot : Type 0 where
  pub len : ℕ
  pub epoch : ℕ
  pub bytes : Bytes

-- `ByteSlot::new`
abbrev pub new_slot : ByteSlot
new_slot = record { len = 0; epoch = 0; bytes = replicate max_payload_size 0 }

pub record ByteRingBuffer : Type 0 where
  pub buffer : List ByteSlot
  pub head : ℕ
  pub tail : ℕ
  pub write_epoch : ℕ
  pub read_epoch : ℕ
  pub capacity : ℕ

-- The size of a `ByteSlot`, laid out as in C: a `u32` and 4 bytes of padding, a `u64`, 244 bytes, and
-- 4 bytes up to a multiple of 8.
abbrev pub byte_slot_size : ℕ
byte_slot_size = 264

-- The assertion comes first, then the test in `Vec::with_capacity`.
unfoldable pub new : ℕ → Exec ByteRingBuffer
new capacity =
    if ltb 0 capacity && leb (capacity * byte_slot_size) isize_max
    then done (record {
      buffer = replicate capacity new_slot;
      head = 0;
      tail = 0;
      write_epoch = 0;
      read_epoch = 0;
      capacity = capacity;
    })
    else panicked

-- The index after `i`. `capacity` is positive in every buffer that `new` returns.
abbrev pub next_index : ByteRingBuffer → ℕ → ℕ
next_index rb i = add_word i 1 % rb.capacity

-- `slot.data[..data.len()].copy_from_slice(data)`: the rest of the array keeps its bytes.
abbrev pub store : ByteSlot → Bytes → ℕ → ByteSlot
store slot payload new_epoch = record {
  len = length payload % 2 ^ 32;
  bytes = payload ++ drop (length payload) slot.bytes;
  epoch = new_epoch;
}

unfoldable pub push : ByteRingBuffer → Bytes → Exec (Option ℕ × ByteRingBuffer)
push rb payload = if ltb max_payload_size (length payload) then done (none, rb) else (do
  let new_epoch = add_word rb.write_epoch 1
  slot ← index rb.buffer rb.head
  done (
    some new_epoch,
    record rb {
      write_epoch = new_epoch;
      buffer = set rb.buffer rb.head (store slot payload new_epoch);
      head = next_index rb rb.head;
    },
  ))

-- `slot.data[..len]`, which panics if the array is shorter
unfoldable pub payload : ByteSlot → Exec Bytes
payload slot =
    if leb slot.len (length slot.bytes) then done (take slot.len slot.bytes) else panicked

abbrev pub Popped : Type 0
Popped = Option (Bytes × ℕ) × ByteRingBuffer

-- The rest of the body of the `loop` of `pop`, once the slot at `tail` is loaded.
unfoldable pub inspect : ByteRingBuffer → ByteSlot → Exec (Turn ByteRingBuffer Popped)
unfolding payload
inspect rb slot =
    if leb slot.epoch rb.read_epoch
    then (if rb.tail == rb.head
        then done (stop (none, rb))
        else done (again (record rb { tail = new_tail })))
    else if ltb slot.epoch min_valid_epoch
    then done (again (record rb { read_epoch = slot.epoch; tail = new_tail }))
    else (do
      p ← payload slot
      done (stop (some (p, slot.epoch), record rb { read_epoch = slot.epoch; tail = new_tail })))
  where
    new_tail : ℕ
    new_tail = next_index rb rb.tail

    min_valid_epoch : ℕ
    min_valid_epoch = rb.write_epoch - sub_word rb.capacity 1

-- The body of the `loop` of `pop`.
unfoldable pub pop_turn : ByteRingBuffer → Exec (Turn ByteRingBuffer Popped)
unfolding inspect
pop_turn rb =
    if rb.write_epoch == 0
    then done (stop (none, rb))
    else (do slot ← index rb.buffer rb.tail; inspect rb slot)

unfoldable pub pop_loop : ℕ → ByteRingBuffer → Exec Popped
pop_loop zero rb = out_of_fuel
pop_loop (suc fuel) rb = do
  turn ← pop_turn rb
  elim turn [ again rb' ↦ pop_loop fuel rb' | stop result ↦ done result ]

-- The fuel is two rounds of the slots and one turn.
unfoldable pub pop : ByteRingBuffer → Exec Popped
unfolding pop_loop pop_turn
pop rb = pop_loop (suc (2 * rb.capacity)) rb

abbrev pub latest_idx : ByteRingBuffer → ℕ
latest_idx rb = if rb.head == 0 then sub_word rb.capacity 1 else rb.head - 1

unfoldable pub peek_latest : ByteRingBuffer → Exec (Option (Bytes × ℕ))
unfolding payload
peek_latest rb =
    if rb.write_epoch == 0
    then done none
    else (do slot ← index rb.buffer (latest_idx rb); p ← payload slot; done (some (p, slot.epoch)))

-- A slice that is returned is the bytes it points to.
unfoldable pub peek_latest_ref : ByteRingBuffer → Exec (Option (Bytes × ℕ))
unfolding payload
peek_latest_ref rb =
    if rb.write_epoch == 0
    then done none
    else (do slot ← index rb.buffer (latest_idx rb); p ← payload slot; done (some (p, slot.epoch)))

unfoldable pub peek_oldest_ref : ByteRingBuffer → Exec (Option (Bytes × ℕ))
unfolding payload
peek_oldest_ref rb = if rb.write_epoch == 0 then done none else (do
  slot ← index rb.buffer rb.tail
  if leb slot.epoch rb.read_epoch
      then done none
      else (do p ← payload slot; done (some (p, slot.epoch))))

unfoldable pub latest_epoch : ByteRingBuffer → ℕ
latest_epoch rb = rb.write_epoch

unfoldable pub len : ByteRingBuffer → ℕ
len rb = if rb.write_epoch == 0 then 0 else min (rb.write_epoch - rb.read_epoch) rb.capacity

unfoldable pub is_empty : ByteRingBuffer → Bool
unfolding len
is_empty rb = len rb == 0

unfoldable pub is_full : ByteRingBuffer → Bool
unfolding len
is_full rb = len rb == rb.capacity
