-- ===== src/ByteSpsc.antt =====
-- ring_buffer/byte_buffer.rs: `push` and `pop` on two threads, one load or store of the shared buffer
-- at a time, in any order that is sequentially consistent. The length and the bytes of a slot are not
-- atomic: while a store of them is under way the slot is `torn`, and a reader that clones the bytes
-- then gets a torn payload. The producer's places are those of Spsc.
pub mod View
pub mod Push
pub mod Pop
pub mod Reach
use bibi_sync.Base.{
  ℕ, ◌+◌, ◌-◌, ◌%◌, ◌^◌, Bool, true, false, Option, none, some, List, [], ◌∷◌, ◌++◌, ltb, leb, ◌==◌,
  if◌then◌else◌, length, take, drop, set, replicate, Exec, done, panicked, out_of_fuel, ◌>>=◌,
  index, sub_word, add_word,
}
use bibi_sync.Ring.{RingBuffer, Slot, next_index}
use bibi_sync.ByteRing.{Bytes, max_payload_size}
use bibi_sync.Spsc.{
  Pushing, pushed, wants, got_head, numbered, announced, writing, wrote, stamped, start_push,
  publishes, Choice, calls_push, pushes, calls_pop, pops,
}

-- `len` and `data` of a slot.
pub record Payload : Type 0 where
  pub len : ℕ
  pub bytes : Bytes
  pub torn : Bool

abbrev pub Shared : Type 0
Shared = RingBuffer Payload

-- A cloned payload is `none` if it is torn.
abbrev pub Cloned : Type 0
Cloned = Option Bytes

-- Where the consumer stands, with its live local variables.
pub data Popping : Type 0 where
  popped : Option (Cloned × ℕ) → Popping  -- no call is running; the last one returned this
  looping : Popping  -- the head of the `loop`
  got_tail : (tail : ℕ) → Popping
  got_heads : (tail head : ℕ) → Popping
  got_read : (tail head read_epoch : ℕ) → Popping
  got_write : (tail head read_epoch write_epoch : ℕ) → Popping
  skipping : (tail slot_epoch : ℕ) → Popping
  moving : (tail : ℕ) → Popping
  taking : (tail : ℕ) → Popping
  measured : (tail len : ℕ) → Popping
  cloned : (tail : ℕ) → Cloned → Popping
  taken : (tail : ℕ) → Cloned → (epoch : ℕ) → Popping
  marked : (tail : ℕ) → Cloned → (epoch : ℕ) → Popping

-- The next load or store of `push`.
unfoldable pub push_step : Shared → Pushing Bytes → Exec (Shared × Pushing Bytes)
push_step m (pushed e) = done (m, pushed e)
push_step m (wants x) = done (m, got_head x m.head)
push_step m (got_head x h) = done (m, numbered x h (add_word m.write_epoch 1))
push_step m (numbered x h e) = done (record m { write_epoch = e }, announced x h e)
push_step m (announced x h e) = do
  slot ← index m.buffer h
  let sized = record slot { value = record slot.value { len = length x % 2 ^ 32; torn = true } }
  done (record m { buffer = set m.buffer h sized }, writing x h e)
push_step m (writing x h e) = do
  slot ← index m.buffer h
  let value = record slot.value { bytes = x ++ drop (length x) slot.value.bytes; torn = false }
  done (record m { buffer = set m.buffer h (record slot { value = value }) }, wrote x h e)
push_step m (wrote x h e) = do
  slot ← index m.buffer h
  done (record m { buffer = set m.buffer h (record slot { epoch = e }) }, stamped h e)
push_step m (stamped h e) = done (record m { head = next_index m h }, pushed e)

-- The tests of `pop` once the slot's epoch is loaded.
abbrev pub test : Shared → (tail head read_epoch write_epoch slot_epoch : ℕ) → Popping
test m t h r w s =
    if leb s r
    then (if t == h then popped none else moving t)
    else if ltb s (w - sub_word m.capacity 1)
    then skipping t s
    else taking t

-- `slot.data[..len].to_vec()`
unfoldable pub clone : Payload → (len : ℕ) → Exec Cloned
clone value len =
    if leb len (length value.bytes)
    then done (if value.torn then none else some (take len value.bytes))
    else panicked

-- The next load or store of `pop`.
unfoldable pub pop_step : Shared → Popping → Exec (Shared × Popping)
unfolding clone
pop_step m (popped x) = done (m, popped x)
pop_step m looping = done (m, got_tail m.tail)
pop_step m (got_tail t) = done (m, got_heads t m.head)
pop_step m (got_heads t h) = done (m, got_read t h m.read_epoch)
pop_step m (got_read t h r) =
    done (m, if m.write_epoch == 0 then popped none else got_write t h r m.write_epoch)
pop_step m (got_write t h r w) = do slot ← index m.buffer t; done (m, test m t h r w slot.epoch)
pop_step m (skipping t s) = done (record m { read_epoch = s }, moving t)
pop_step m (moving t) = done (record m { tail = next_index m t }, looping)
pop_step m (taking t) = do slot ← index m.buffer t; done (m, measured t slot.value.len)
pop_step m (measured t len) = do
  slot ← index m.buffer t
  x ← clone slot.value len
  done (m, cloned t x)
pop_step m (cloned t x) = do slot ← index m.buffer t; done (m, taken t x slot.epoch)
pop_step m (taken t x e) = done (record m { read_epoch = e }, marked t x e)
pop_step m (marked t x e) = done (record m { tail = next_index m t }, popped (some (x, e)))

-- A thread starts a call when its last one has returned.
abbrev pub start_pop : Popping → Popping
start_pop (popped x) = looping
start_pop p = p

-- The payload and epoch that the next step returns.
abbrev pub delivers : Popping → List (Cloned × ℕ)
delivers (marked t x e) = (x, e) ∷ []
delivers p = []

-- The two threads, with all payloads published and all received so far.
pub record System : Type 0 where
  pub shared : Shared
  pub producer : Pushing Bytes
  pub consumer : Popping
  pub history : List Bytes
  pub received : List (Cloned × ℕ)

-- What happens next. A call of `push` with too many bytes returns `None` without a load or store.
unfoldable pub advance : System → Choice Bytes → Exec System
advance b (calls_push x) =
    if ltb max_payload_size (length x)
    then done b
    else done (record b { producer = start_push x b.producer })
advance b calls_pop = done (record b { consumer = start_pop b.consumer })
advance b pushes = do
  (m, p) ← push_step b.shared b.producer
  done (record b { shared = m; producer = p; history = b.history ++ publishes b.producer })
advance b pops = do
  (m, p) ← pop_step b.shared b.consumer
  done (record b { shared = m; consumer = p; received = b.received ++ delivers b.consumer })

-- A schedule.
unfoldable pub play : System → List (Choice Bytes) → Exec System
play b [] = done b
play b (c ∷ cs) = do t ← advance b c; play t cs

abbrev pub new_payload : Payload
new_payload = record { len = 0; bytes = replicate max_payload_size 0; torn = false }

-- `ByteRingBuffer::new`, before both threads.
unfoldable pub initial : ℕ → System
initial capacity = record {
  shared = record {
    buffer = replicate capacity (record { value = new_payload; epoch = 0 });
    head = 0;
    tail = 0;
    write_epoch = 0;
    read_epoch = 0;
    capacity = capacity;
  };
  producer = pushed 0;
  consumer = popped none;
  history = [];
  received = [];
}
