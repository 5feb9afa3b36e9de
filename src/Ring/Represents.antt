-- ===== src/Ring/Represents.antt =====
-- The buffer's invariant: its slots hold the last `capacity` messages of a log, each at its index.
use bibi_sync.Base.{ℕ, suc, ◌+◌, ◌%◌, ◌≤◌, ◌<◌, ◌≡◌, some, length, get_elem?, word_mod}
use bibi_sync.Log.{Log}
use bibi_sync.Ring.{RingBuffer}

module _ {ℓ} {T : Type ℓ} where
  pub record Represents (rb : RingBuffer T) (log : Log T) : Type ℓ where
    pub capacity_pos : 0 < rb.capacity
    pub capacity_fits : rb.capacity < word_mod
    pub same_capacity : rb.capacity ≡ log.capacity
    pub written : rb.write_epoch ≡ length log.history
    pub read : rb.read_epoch ≡ log.cursor
    pub read_le : log.cursor ≤ length log.history
    pub shape : length rb.buffer ≡ rb.capacity
    pub head_at : rb.head ≡ length log.history % rb.capacity
    pub tail_at : rb.tail ≡ log.cursor % rb.capacity
    -- the last `capacity` messages are in their slots
    pub live :
        (i : ℕ) (x : T)
        → get_elem? log.history i ≡ some x
        → length log.history ≤ i + rb.capacity
        → get_elem? rb.buffer (i % rb.capacity) ≡ some (record { value = x; epoch = suc i })
    -- a slot that was never written has epoch 0
    pub fresh :
        (i : ℕ)
        → length log.history ≤ i
        → i < rb.capacity
        → (x : T) × (get_elem? rb.buffer i ≡ some (record { value = x; epoch = 0 }))
