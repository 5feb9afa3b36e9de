-- ===== src/Ring.antt =====
-- ring_buffer/mod.rs: the typed ring buffer `RingBuffer<T>`, one call at a time. Each method takes
-- the buffer's state and returns the new state beside its result.
pub mod Represents
pub mod Refine
pub mod Read
pub mod Run
pub mod Fifo
use bibi_sync.Base.{
  ℕ, zero, suc, ◌+◌, ◌-◌, ◌*◌, ◌%◌, min, Option, none, some, List, Bool, ltb, leb, ◌==◌,
  if◌then◌else◌, replicate, set, Exec, done, panicked, out_of_fuel, ◌>>=◌, index, Turn, again, stop,
  add_word, sub_word, isize_max, ◌&&◌,
}

-- `SlotInner`, whose field `data` is `value` here
pub record Slot {ℓ} (T : Type ℓ) : Type ℓ where
  pub value : T
  pub epoch : ℕ

pub record RingBuffer {ℓ} (T : Type ℓ) : Type ℓ where
  pub buffer : List (Slot T)
  pub head : ℕ
  pub tail : ℕ
  pub write_epoch : ℕ
  pub read_epoch : ℕ
  pub capacity : ℕ

module _ {ℓ} {T : Type ℓ} where
  -- `Slot::default`, over `T::default()`
  abbrev pub default_slot : T → Slot T
  default_slot default = record { value = default; epoch = 0 }

  -- `slot_size` is the size of a `Slot<T>` in bytes, which the compiler chooses. The assertion comes
  -- first, then the test in `Vec::with_capacity`.
  unfoldable pub new : (default : T) (slot_size capacity : ℕ) → Exec (RingBuffer T)
  new default slot_size capacity =
      if ltb 0 capacity && leb (capacity * slot_size) isize_max
      then done (record {
        buffer = replicate capacity (default_slot default);
        head = 0;
        tail = 0;
        write_epoch = 0;
        read_epoch = 0;
        capacity = capacity;
      })
      else panicked

  -- The index after `i`. `capacity` is positive in every buffer that `new` returns.
  abbrev pub next_index : RingBuffer T → ℕ → ℕ
  next_index rb i = add_word i 1 % rb.capacity

  unfoldable pub push : RingBuffer T → T → Exec (ℕ × RingBuffer T)
  push rb item = do
    let new_epoch = add_word rb.write_epoch 1
    slot ← index rb.buffer rb.head
    done (
      new_epoch,
      record rb {
        write_epoch = new_epoch;
        buffer = set rb.buffer rb.head (record { value = item; epoch = new_epoch });
        head = next_index rb rb.head;
      },
    )

  -- The rest of the body of the `loop` of `pop`, once the slot at `tail` is loaded.
  unfoldable pub inspect : RingBuffer T → Slot T → Turn (RingBuffer T) (Option T × RingBuffer T)
  inspect rb slot =
      if leb slot.epoch rb.read_epoch
      then (if rb.tail == rb.head then stop (none, rb) else again (record rb { tail = new_tail }))
      else if ltb slot.epoch min_valid_epoch
      then again (record rb { read_epoch = slot.epoch; tail = new_tail })
      else stop (some slot.value, record rb { read_epoch = slot.epoch; tail = new_tail })
    where
      new_tail : ℕ
      new_tail = next_index rb rb.tail

      min_valid_epoch : ℕ
      min_valid_epoch = rb.write_epoch - sub_word rb.capacity 1

  -- The body of the `loop` of `pop`.
  unfoldable pub pop_turn : RingBuffer T → Exec (Turn (RingBuffer T) (Option T × RingBuffer T))
  unfolding inspect
  pop_turn rb =
      if rb.write_epoch == 0
      then done (stop (none, rb))
      else (do slot ← index rb.buffer rb.tail; done (inspect rb slot))

  unfoldable pub pop_loop : ℕ → RingBuffer T → Exec (Option T × RingBuffer T)
  pop_loop zero rb = out_of_fuel
  pop_loop (suc fuel) rb = do
    turn ← pop_turn rb
    elim turn [ again rb' ↦ pop_loop fuel rb' | stop result ↦ done result ]

  -- The fuel is two rounds of the slots and one turn.
  unfoldable pub pop : RingBuffer T → Exec (Option T × RingBuffer T)
  unfolding pop_loop pop_turn
  pop rb = pop_loop (suc (2 * rb.capacity)) rb

  abbrev pub latest_idx : RingBuffer T → ℕ
  latest_idx rb = if rb.head == 0 then sub_word rb.capacity 1 else rb.head - 1

  unfoldable pub peek_latest : RingBuffer T → Exec (Option (T × ℕ))
  peek_latest rb =
      if rb.write_epoch == 0
      then done none
      else (do slot ← index rb.buffer (latest_idx rb); done (some (slot.value, slot.epoch)))

  -- A reference that is returned is the value it points to.
  unfoldable pub peek_latest_ref : RingBuffer T → Exec (Option (T × ℕ))
  peek_latest_ref rb =
      if rb.write_epoch == 0
      then done none
      else (do slot ← index rb.buffer (latest_idx rb); done (some (slot.value, slot.epoch)))

  unfoldable pub peek_oldest_ref : RingBuffer T → Exec (Option (T × ℕ))
  peek_oldest_ref rb = if rb.write_epoch == 0 then done none else (do
    slot ← index rb.buffer rb.tail
    done (if leb slot.epoch rb.read_epoch then none else some (slot.value, slot.epoch)))

  unfoldable pub latest_epoch : RingBuffer T → ℕ
  latest_epoch rb = rb.write_epoch

  unfoldable pub len : RingBuffer T → ℕ
  len rb = if rb.write_epoch == 0 then 0 else min (rb.write_epoch - rb.read_epoch) rb.capacity

  unfoldable pub is_empty : RingBuffer T → Bool
  unfolding len
  is_empty rb = len rb == 0

  unfoldable pub is_full : RingBuffer T → Bool
  unfolding len
  is_full rb = len rb == rb.capacity
