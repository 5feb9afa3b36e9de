-- ===== src/ByteSpsc/View.antt =====
-- ring_buffer/byte_buffer.rs: two threads on the byte buffer, seen as two threads on a typed buffer of
-- byte vectors.
use bibi_sync.Base.{
  ℕ, suc, ◌≤◌, ◌<◌, ◌≡◌, refl, sym, ap, subst, ◌∙◌, Option, none, some, List, [], ◌∷◌,
  if◌then◌else◌, length, get_elem?, take, map, map-replicate, arith, word_mod, get_elem?-replicate,
  get_elem?-lt, length-replicate, ◌⊎◌, inl, inr, done, done-injective,
}
use mathlib.Core.Option.{some-injective}
use bibi_sync.Ring.{Slot}
use bibi_sync.ByteRing.{Bytes, max_payload_size}
use bibi_sync.Spsc
use bibi_sync.Spsc.{
  Choice, Pushing, pushed, wants, got_head, numbered, announced, writing, wrote, stamped,
}
use bibi_sync.Spsc.Invariant
use bibi_sync.Spsc.Invariant.{Inv, initial-Inv, Allowed}
use bibi_sync.Spsc.Reach.{advance-Inv}
use bibi_sync.ByteSpsc.{
  Payload, Shared, Cloned, Popping, popped, looping, got_tail, got_heads, got_read, got_write,
  skipping, moving, taking, measured, cloned, taken, marked, System, new_payload, initial,
}

abbrev pub view_value : Payload → Option Bytes
view_value v = if v.torn then none else some (take v.len v.bytes)

abbrev pub view_slot : Slot Payload → Slot (Option Bytes)
view_slot s = record { value = view_value s.value; epoch = s.epoch }

abbrev pub view_shared : Shared → Spsc.Shared Bytes
view_shared m = record {
  buffer = map view_slot m.buffer;
  head = m.head;
  tail = m.tail;
  write_epoch = m.write_epoch;
  read_epoch = m.read_epoch;
  capacity = m.capacity;
}

-- When `r` payloads are received. The clone of the bytes is the step that counts.
abbrev pub view_pop : (r : ℕ) → Popping → Spsc.Popping Bytes
view_pop r (popped none) = Spsc.popped none
view_pop r (popped (some (x, e))) = Spsc.popped (some x)
view_pop r looping = Spsc.looping
view_pop r (got_tail t) = Spsc.got_tail t
view_pop r (got_heads t h) = Spsc.got_heads t h
view_pop r (got_read t h k) = Spsc.got_read t h k
view_pop r (got_write t h k w) = Spsc.got_write t h k w
view_pop r (skipping t s) = Spsc.skipping t s
view_pop r (moving t) = Spsc.moving t
view_pop r (taking t) = Spsc.taking t (suc r)
view_pop r (measured t len) = Spsc.taking t (suc r)
view_pop r (cloned t x) = Spsc.taken t (suc r) x
view_pop r (taken t x e) = Spsc.taken t e x
view_pop r (marked t x e) = Spsc.marked t x

abbrev pub payloads : List (Cloned × ℕ) → List Cloned
payloads received = map (λ r. r.0) received

abbrev pub view : System → Spsc.System Bytes
view b = record {
  shared = view_shared b.shared;
  producer = b.producer;
  consumer = view_pop (length (payloads b.received)) b.consumer;
  history = b.history;
  received = payloads b.received;
}

-- With the epochs from `k + 1` on.
abbrev pub tagged : (k : ℕ) → List Cloned → List (Cloned × ℕ)
tagged k [] = []
tagged k (x ∷ xs) = (x, suc k) ∷ tagged (suc k) xs

module _ (buffer : List (Slot Payload)) where
  -- Every slot's array is whole, and its length within it.
  abbrev pub AllFit : Type 0
  AllFit =
      (j : ℕ) (slot : Slot Payload)
      → get_elem? buffer j ≡ some slot
      → (slot.value.len ≤ max_payload_size) × (length slot.value.bytes ≡ max_payload_size)

  -- The producer's payload fits, and once the slot's length is stored it is the payload's.
  abbrev pub PushFits : Pushing Bytes → Type 0
  PushFits (pushed e) = Unit
  PushFits (stamped h e) = Unit
  PushFits (writing x h e) =
      (slot : Slot Payload) × (get_elem? buffer h ≡ some slot)
      × (slot.value.len ≡ length x)
      × (length x ≤ max_payload_size)
  PushFits (wants x) = length x ≤ max_payload_size
  PushFits (got_head x h) = length x ≤ max_payload_size
  PushFits (numbered x h e) = length x ≤ max_payload_size
  PushFits (announced x h e) = length x ≤ max_payload_size
  PushFits (wrote x h e) = length x ≤ max_payload_size

  -- What the consumer has loaded is still in the slot.
  abbrev pub PopKnows : (r : ℕ) → Popping → Type 0
  PopKnows r (measured t len) =
      (slot : Slot Payload) × (get_elem? buffer t ≡ some slot) × (slot.value.len ≡ len)
  PopKnows r (cloned t x) =
      (slot : Slot Payload) × (get_elem? buffer t ≡ some slot) × (slot.epoch ≡ suc r)
  PopKnows r (marked t x e) = e ≡ suc r
  PopKnows r p = Unit

pub record ByteInv (b : System) : Type 0 where
  pub base : Inv (view b)
  pub fits : AllFit b.shared.buffer
  pub pushing : PushFits b.shared.buffer b.producer
  pub popping : PopKnows b.shared.buffer (length (payloads b.received)) b.consumer
  pub epochs : b.received ≡ tagged 0 (payloads b.received)

pub view-initial : (capacity : ℕ) → view (initial capacity) ≡ Invariant.initial [] capacity
unfolding initial Invariant.initial
view-initial capacity =
    ap
      (λ (buffer : List (Slot (Option Bytes))). record {
        shared = record {
          buffer = buffer;
          head = 0;
          tail = 0;
          write_epoch = 0;
          read_epoch = 0;
          capacity = capacity;
        };
        producer = pushed 0;
        consumer = Spsc.popped none;
        history = [];
        received = [];
      })
      (map-replicate view_slot capacity (record { value = new_payload; epoch = 0 }))

pub initial-ByteInv :
    (capacity : ℕ) → 0 < capacity → capacity < word_mod → ByteInv (initial capacity)
unfolding initial
initial-ByteInv capacity pos small = record {
  base = subst Inv (sym (view-initial capacity)) (initial-Inv [] capacity pos small);
  fits = λ j slot e.
      let fresh : Slot Payload = record { value = new_payload; epoch = 0 } in
      let inside : j < capacity =
        omega (arith, get_elem?-lt _ j slot e, length-replicate capacity fresh) in
      let same : fresh ≡ slot =
        some-injective fresh slot (sym (get_elem?-replicate capacity j fresh inside) ∙ e) in
      subst
        (λ (o : Slot Payload).
          (o.value.len ≤ max_payload_size) × (length o.value.bytes ≡ max_payload_size))
        same (omega arith, length-replicate {A = ℕ} max_payload_size 0);
  pushing = tt;
  popping = tt;
  epochs = refl;
}

-- The step is one of the typed buffer, or cannot be seen there.
abbrev pub Follows : System → Choice Bytes → System → Type 0
Follows b c b' = (view b' ≡ view b) ⊎ (Spsc.advance (view b) c ≡ done (view b'))

pub step-Inv :
    (s t : Spsc.System Bytes) (c : Choice Bytes)
    → Inv s
    → Allowed s c
    → Spsc.advance s c ≡ done t
    → Inv t
step-Inv s t c v allowed e =
    let (u, f, w) = advance-Inv s c v allowed in subst Inv (done-injective u t (sym f ∙ e)) w

pub follows :
    (b b' : System) (c : Choice Bytes)
    → Inv (view b)
    → Allowed (view b) c
    → Follows b c b'
    → Inv (view b')
follows b b' c v allowed (inl same) = subst Inv (sym same) v
follows b b' c v allowed (inr e) = step-Inv (view b) (view b') c v allowed e
