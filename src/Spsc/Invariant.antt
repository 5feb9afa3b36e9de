-- ===== src/Spsc/Invariant.antt =====
-- ring_buffer/mod.rs: how the shared buffer, the two threads' local variables and the messages so far
-- hang together, while the producer stays within one round of the consumer.
use bibi_sync.Base.{
  ℕ, suc, ◌+◌, ◌%◌, ◌≤◌, ◌<◌, ◌≡◌, ◌≢◌, refl, sym, ap, ◌∙◌, Option, none, some, List, [], length,
  get_elem?, take, map, replicate, length-replicate, get_elem?-replicate, get_elem?-lt, arith,
  word_mod,
}
use mathlib.Core.Option.{some-injective}
use native.Mathlib.Nat.{zero-mod}
use bibi_sync.Ring.{Slot, default_slot}
use bibi_sync.Spsc.{
  Pushing, pushed, wants, got_head, numbered, announced, writing, wrote, stamped, Popping, popped,
  looping, got_tail, got_heads, got_read, got_write, skipping, moving, taking, taken, marked,
  System, Choice, calls_push, calls_pop,
}

module _ {ℓ} {T : Type ℓ} where
  -- The producer's side: the shared `head`, `write_epoch` and slots of a buffer of `c` slots, when
  -- `n` messages are published and `r` are received.
  module _ (head write_epoch c : ℕ) (buffer : List (Slot (Option T))) where
    abbrev pub Stands : (index epoch : ℕ) → Type 0
    Stands index epoch = (head ≡ index % c) × (write_epoch ≡ epoch)

    abbrev pub PushOk : (n r : ℕ) → Pushing T → Type ℓ
    PushOk n r (pushed e) = Stands n n × Unit
    PushOk n r (wants x) = Stands n n × (n < r + c) × (suc n < word_mod) × Unit
    PushOk n r (got_head x h) = Stands n n × (n < r + c) × (suc n < word_mod) × (h ≡ n % c) × Unit
    PushOk n r (numbered x h e) =
        Stands n n × (n < r + c) × (suc n < word_mod) × (h ≡ n % c) × (e ≡ suc n) × Unit
    PushOk n r (announced x h e) =
        Stands n (suc n) × (n < r + c) × (suc n < word_mod) × (h ≡ n % c) × (e ≡ suc n) × Unit
    PushOk n r (writing x h e) =
        Stands n (suc n) × (n < r + c) × (suc n < word_mod) × (h ≡ n % c) × (e ≡ suc n) × Unit
    PushOk n r (wrote x h e) =
        Stands n (suc n)
        × (n < r + c)
        × (suc n < word_mod)
        × (h ≡ n % c)
        × (e ≡ suc n)
        × (old : ℕ) × (get_elem? buffer h ≡ some (record { value = some x; epoch = old }))
    PushOk n r (stamped h e) = (k : ℕ) × (n ≡ suc k) × Stands k n × (h ≡ k % c) × Unit

  -- The message of index `r`.
  abbrev pub IsNext : (r : ℕ) (history : List T) → Option T → Type ℓ
  IsNext r history y = (x : T) × (get_elem? history r ≡ some x) × (y ≡ some x)

  -- The consumer's side: the shared `head` and `read_epoch` of a buffer of `c` slots, when `r`
  -- messages are received. Until it has loaded the head, the head is not behind what was received.
  module _ (head read_epoch c r : ℕ) (history : List T) where
    abbrev pub PopOk : Popping T → Type ℓ
    PopOk (popped x) = (read_epoch ≡ r) × Unit
    PopOk looping = (read_epoch ≡ r) × (r % c ≢ head → r < length history) × Unit
    PopOk (got_tail t) = (read_epoch ≡ r) × (t ≡ r % c) × (r % c ≢ head → r < length history) × Unit
    PopOk (got_heads t h) = (read_epoch ≡ r) × (t ≡ r % c) × (t ≢ h → r < length history) × Unit
    PopOk (got_read t h e) =
        (read_epoch ≡ r) × (t ≡ r % c) × (t ≢ h → r < length history) × (e ≡ r) × Unit
    PopOk (got_write t h e w) =
        (read_epoch ≡ r) × (t ≡ r % c) × (t ≢ h → r < length history) × (e ≡ r) × (w ≤ r + c) × Unit
    PopOk (skipping t s) = ⊥ × Unit
    PopOk (moving t) = ⊥ × Unit
    PopOk (taking t s) = (read_epoch ≡ r) × (t ≡ r % c) × (s ≡ suc r) × (r < length history) × Unit
    PopOk (taken t s y) = (read_epoch ≡ r) × (t ≡ r % c) × (s ≡ suc r) × IsNext r history y
    PopOk (marked t y) = (read_epoch ≡ suc r) × (t ≡ r % c) × IsNext r history y

  -- The slots, while `r` of the messages are received.
  pub record Slots (buffer : List (Slot (Option T))) (c r : ℕ) (history : List T) : Type ℓ where
    pub shape : length buffer ≡ c
    -- a message that is not received is in its slot, whole
    pub live :
        (i : ℕ) (x : T)
        → get_elem? history i ≡ some x
        → r ≤ i
        → get_elem? buffer (i % c) ≡ some (record { value = some x; epoch = suc i })
    -- no slot has an epoch that was not published
    pub old :
        (j : ℕ) (slot : Slot (Option T))
        → get_elem? buffer j ≡ some slot
        → slot.epoch ≤ length history

  pub record Inv (s : System T) : Type ℓ where
    pub capacity_pos : 0 < s.shared.capacity
    pub capacity_fits : s.shared.capacity < word_mod
    pub behind : length s.received ≤ length s.history
    pub ahead : length s.history ≤ length s.received + s.shared.capacity
    pub counted : length s.history < word_mod
    pub announces : (s.shared.write_epoch ≤ length s.received + s.shared.capacity)
    pub tail_at : s.shared.tail ≡ length s.received % s.shared.capacity
    pub slots : Slots s.shared.buffer s.shared.capacity (length s.received) s.history
    pub pushing :
        PushOk s.shared.head s.shared.write_epoch s.shared.capacity s.shared.buffer
          (length s.history)
          (length s.received)
          s.producer
    pub popping :
        PopOk s.shared.head s.shared.read_epoch s.shared.capacity
          (length s.received)
          s.history
          s.consumer
    pub in_order : s.received ≡ map some (take (length s.received) s.history)

  -- `RingBuffer::new`, before both threads.
  unfoldable pub initial : T → ℕ → System T
  initial default capacity = record {
    shared = record {
      buffer = replicate capacity (default_slot (some default));
      head = 0;
      tail = 0;
      write_epoch = 0;
      read_epoch = 0;
      capacity = capacity;
    };
    producer = pushed 0;
    consumer = popped none;
    history = [];
    received = [];
  }

  -- Between the store of the epoch and the store of the head.
  abbrev pub IsStamped : Pushing T → Type 0
  IsStamped (stamped h e) = Unit
  IsStamped p = ⊥

  -- The producer starts a call only while fewer than `capacity` messages are not received, and fewer
  -- than 2^64-1 are published. The consumer starts none while a store of the head is due.
  abbrev pub Allowed : System T → Choice T → Type 0
  Allowed s (calls_push x) =
      (length s.history < length s.received + s.shared.capacity)
      × (suc (length s.history) < word_mod)
  Allowed s calls_pop = ¬ (IsStamped s.producer)
  Allowed s _ = Unit

  pub initial-Inv :
      (default : T) (capacity : ℕ)
      → 0 < capacity
      → capacity < word_mod
      → Inv (initial default capacity)
  unfolding initial
  initial-Inv default capacity pos fits = record {
    capacity_pos = pos;
    capacity_fits = fits;
    behind = omega arith;
    ahead = omega arith;
    counted = omega arith;
    announces = omega arith;
    tail_at = sym (zero-mod capacity);
    slots = record {
      shape = length-replicate capacity (default_slot (some default));
      live = λ i x e le. cc;
      old = λ j slot e.
          let inside : j < capacity = omega (
            arith,
            get_elem?-lt _ j slot e,
            length-replicate capacity (default_slot (some default)),
          ) in
          omega (
            arith,
            ap (λ (o : Slot (Option T)). o.epoch)
                (some-injective (default_slot (some default)) slot
                  (sym (get_elem?-replicate capacity j (default_slot (some default)) inside) ∙ e)),
          );
    };
    pushing = ((sym (zero-mod capacity), refl), tt);
    popping = (refl, tt);
    in_order = refl;
  }
