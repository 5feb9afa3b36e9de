-- ===== src/Spsc.antt =====
-- ring_buffer/mod.rs: `push` and `pop` on two threads, one load or store of the shared buffer at a
-- time, in any order that is sequentially consistent. The item is not atomic: between the first and
-- the last of its bytes a slot's value is `none`, and a reader that clones it then gets a torn item.
pub mod Invariant
pub mod Slots
pub mod Moves
pub mod Push
pub mod Pop
pub mod Empty
pub mod Reach
pub mod Turns
pub mod Anytime
use bibi_sync.Base.{
  ℕ, suc, ◌+◌, ◌-◌, ◌%◌, ◌<◌, Option, none, some, List, [], ◌∷◌, ◌++◌, ltb, leb, ◌==◌,
  if◌then◌else◌, length, map, set, Exec, done, panicked, out_of_fuel, ◌>>=◌, index, sub_word,
  add_word,
}
use bibi_sync.Ring.{RingBuffer, Slot, next_index}

module _ {ℓ} (T : Type ℓ) where
  abbrev pub Shared : Type ℓ
  Shared = RingBuffer (Option T)

  -- Where the producer stands, with its live local variables.
  pub data Pushing : Type ℓ where
    pushed : (epoch : ℕ) → Pushing  -- no call is running; the last one returned this
    wants : T → Pushing
    got_head : T → (head : ℕ) → Pushing
    numbered : T → (head new_epoch : ℕ) → Pushing
    announced : T → (head new_epoch : ℕ) → Pushing
    writing : T → (head new_epoch : ℕ) → Pushing
    wrote : T → (head new_epoch : ℕ) → Pushing
    stamped : (head new_epoch : ℕ) → Pushing

  -- Where the consumer stands. A cloned item is `none` if it is torn.
  pub data Popping : Type ℓ where
    popped : Option (Option T) → Popping  -- no call is running; the last one returned this
    looping : Popping  -- the head of the `loop`
    got_tail : (tail : ℕ) → Popping
    got_heads : (tail head : ℕ) → Popping
    got_read : (tail head read_epoch : ℕ) → Popping
    got_write : (tail head read_epoch write_epoch : ℕ) → Popping
    skipping : (tail slot_epoch : ℕ) → Popping
    moving : (tail : ℕ) → Popping
    taking : (tail slot_epoch : ℕ) → Popping
    taken : (tail slot_epoch : ℕ) → Option T → Popping
    marked : (tail : ℕ) → Option T → Popping

module _ {ℓ} {T : Type ℓ} where
  -- The next load or store of `push`.
  unfoldable pub push_step : Shared T → Pushing T → Exec (Shared T × Pushing T)
  push_step m (pushed e) = done (m, pushed e)
  push_step m (wants x) = done (m, got_head x m.head)
  push_step m (got_head x h) = done (m, numbered x h (add_word m.write_epoch 1))
  push_step m (numbered x h e) = done (record m { write_epoch = e }, announced x h e)
  push_step m (announced x h e) = do
    slot ← index m.buffer h
    done (record m { buffer = set m.buffer h (record slot { value = none }) }, writing x h e)
  push_step m (writing x h e) = do
    slot ← index m.buffer h
    done (record m { buffer = set m.buffer h (record slot { value = some x }) }, wrote x h e)
  push_step m (wrote x h e) = do
    slot ← index m.buffer h
    done (record m { buffer = set m.buffer h (record slot { epoch = e }) }, stamped h e)
  push_step m (stamped h e) = done (record m { head = next_index m h }, pushed e)

  -- The tests of `pop` once the slot's epoch is loaded.
  abbrev pub test : Shared T → (tail head read_epoch write_epoch slot_epoch : ℕ) → Popping T
  test m t h r w s =
      if leb s r
      then (if t == h then popped none else moving t)
      else if ltb s (w - sub_word m.capacity 1)
      then skipping t s
      else taking t s

  -- The next load or store of `pop`.
  unfoldable pub pop_step : Shared T → Popping T → Exec (Shared T × Popping T)
  pop_step m (popped x) = done (m, popped x)
  pop_step m looping = done (m, got_tail m.tail)
  pop_step m (got_tail t) = done (m, got_heads t m.head)
  pop_step m (got_heads t h) = done (m, got_read t h m.read_epoch)
  pop_step m (got_read t h r) =
      done (m, if m.write_epoch == 0 then popped none else got_write t h r m.write_epoch)
  pop_step m (got_write t h r w) = do slot ← index m.buffer t; done (m, test m t h r w slot.epoch)
  pop_step m (skipping t s) = done (record m { read_epoch = s }, moving t)
  pop_step m (moving t) = done (record m { tail = next_index m t }, looping)
  pop_step m (taking t s) = do slot ← index m.buffer t; done (m, taken t s slot.value)
  pop_step m (taken t s x) = done (record m { read_epoch = s }, marked t x)
  pop_step m (marked t x) = done (record m { tail = next_index m t }, popped (some x))

  -- A thread starts a call when its last one has returned.
  abbrev pub start_push : T → Pushing T → Pushing T
  start_push x (pushed e) = wants x
  start_push x p = p

  abbrev pub start_pop : Popping T → Popping T
  start_pop (popped x) = looping
  start_pop p = p

  -- The message whose slot is marked with its epoch by the next step.
  abbrev pub publishes : Pushing T → List T
  publishes (wrote x h e) = x ∷ []
  publishes p = []

  -- The item that the next step returns.
  abbrev pub delivers : Popping T → List (Option T)
  delivers (marked t x) = x ∷ []
  delivers p = []

module _ {ℓ} (T : Type ℓ) where
  -- The two threads, with all messages published and all items received so far.
  pub record System : Type ℓ where
    pub shared : Shared T
    pub producer : Pushing T
    pub consumer : Popping T
    pub history : List T
    pub received : List (Option T)

  -- What happens next: a call starts, or a thread takes its next step.
  pub data Choice : Type ℓ where
    calls_push : T → Choice
    pushes : Choice
    calls_pop : Choice
    pops : Choice

module _ {ℓ} {T : Type ℓ} where
  unfoldable pub advance : System T → Choice T → Exec (System T)
  advance s (calls_push x) = done (record s { producer = start_push x s.producer })
  advance s calls_pop = done (record s { consumer = start_pop s.consumer })
  advance s pushes = do
    (m, p) ← push_step s.shared s.producer
    done (record s { shared = m; producer = p; history = s.history ++ publishes s.producer })
  advance s pops = do
    (m, p) ← pop_step s.shared s.consumer
    done (record s { shared = m; consumer = p; received = s.received ++ delivers s.consumer })

  -- A schedule.
  unfoldable pub play : System T → List (Choice T) → Exec (System T)
  play s [] = done s
  play s (c ∷ cs) = do t ← advance s c; play t cs
