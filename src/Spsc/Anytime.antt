-- ===== src/Spsc/Anytime.antt =====
-- ring_buffer/mod.rs: what holds of the two threads when `pop` may be called at any time, also between
-- the stores of a slot's epoch and of the head.
pub mod Push
pub mod Pop
pub mod Reach
pub mod Few
use bibi_sync.Base.{
  ℕ, suc, ◌+◌, ◌-◌, ◌%◌, ◌≤◌, ◌<◌, ◌≡◌, ◌≢◌, refl, sym, ap, subst, ◌∙◌, Option, none, some, List,
  [], ◌∷◌, ◌++◌, length, get_elem?, set, take, map, replicate, length-replicate,
  get_elem?-replicate, get_elem?-lt, get_elem?-set_self, get_elem?-set_ne, arith, word_mod,
}
use mathlib.Core.List.{Sublist, nil-sublist}
use mathlib.Core.Option.{some-injective}
use native.Mathlib.Decide.{ℕ_discrete}
use native.Mathlib.Nat.{zero-mod, mod-lt}
use bibi_sync.Ring.{Slot, default_slot}
use bibi_sync.Spsc.{
  Popping, popped, looping, got_tail, got_heads, got_read, got_write, skipping, moving, taking,
  taken, marked, System, Choice, calls_push,
}
use bibi_sync.Spsc.Invariant.{PushOk, IsNext, Slots, Inv, initial, initial-Inv}

-- The message of the slot that the consumer has chosen is not read yet.
abbrev pub IsChosen : (c read_epoch n t i epoch : ℕ) → Type 0
IsChosen c read_epoch n t i epoch = (epoch ≡ suc i) × (read_epoch ≤ i) × (i < n) × (t ≡ i % c)

module _ {ℓ} {T : Type ℓ} where
  -- A slot whose epoch is not read is the one of its message.
  abbrev pub Placed : List (Slot (Option T)) → (c read_epoch : ℕ) → Type ℓ
  Placed buffer c read_epoch =
      (j : ℕ) (slot : Slot (Option T))
      → get_elem? buffer j ≡ some slot
      → read_epoch < slot.epoch
      → (i : ℕ) × (slot.epoch ≡ suc i) × (j ≡ i % c)

  -- What the consumer has loaded, when `n` messages are published.
  module _ (c read_epoch : ℕ) (history : List T) where
    abbrev pub PopKeeps : Popping T → Type ℓ
    PopKeeps (popped x) = Unit
    PopKeeps looping = Unit
    PopKeeps (got_tail t) = (t < c) × Unit
    PopKeeps (got_heads t h) = (t < c) × Unit
    PopKeeps (got_read t h k) = (t < c) × (k ≡ read_epoch) × Unit
    PopKeeps (got_write t h k w) = (t < c) × (k ≡ read_epoch) × (w ≤ read_epoch + c) × Unit
    PopKeeps (skipping t e) = ⊥ × Unit
    PopKeeps (moving t) = (t < c) × Unit
    PopKeeps (taking t e) = (i : ℕ) × IsChosen c read_epoch (length history) t i e × Unit
    PopKeeps (taken t e y) =
        (i : ℕ) × IsChosen c read_epoch (length history) t i e × IsNext i history y
    PopKeeps (marked t y) = (i : ℕ) × (read_epoch ≡ suc i) × (t < c) × IsNext i history y

  -- The messages that the calls that have returned may have passed.
  abbrev pub settled : (read_epoch : ℕ) → Popping T → ℕ
  settled read_epoch (marked t y) = read_epoch - 1
  settled read_epoch p = read_epoch

  pub record Loose (s : System T) : Type ℓ where
    pub capacity_pos : 0 < s.shared.capacity
    pub capacity_fits : s.shared.capacity < word_mod
    pub behind : s.shared.read_epoch ≤ length s.history
    pub counted : length s.history < word_mod
    pub announces : (s.shared.write_epoch ≤ s.shared.read_epoch + s.shared.capacity)
    pub tail_in : s.shared.tail < s.shared.capacity
    pub slots : Slots s.shared.buffer s.shared.capacity s.shared.read_epoch s.history
    pub placed : Placed s.shared.buffer s.shared.capacity s.shared.read_epoch
    pub pushing :
        PushOk s.shared.head s.shared.write_epoch s.shared.capacity s.shared.buffer
          (length s.history)
          s.shared.read_epoch
          s.producer
    pub popping : PopKeeps s.shared.capacity s.shared.read_epoch s.history s.consumer
    pub in_order :
        Sublist s.received (map some (take (settled s.shared.read_epoch s.consumer) s.history))

  -- `push` is called while fewer than `capacity` messages are after the last one that was read.
  abbrev pub InRound : System T → Choice T → Type 0
  InRound s (calls_push x) =
      (length s.history < s.shared.read_epoch + s.shared.capacity)
      × (suc (length s.history) < word_mod)
  InRound s c = Unit

  pub initial-Loose :
      (default : T) (capacity : ℕ)
      → 0 < capacity
      → capacity < word_mod
      → Loose (initial default capacity)
  unfolding initial
  initial-Loose default capacity pos fits =
      let v = initial-Inv default capacity pos fits in
      record {
        capacity_pos = pos;
        capacity_fits = fits;
        behind = omega arith;
        counted = omega arith;
        announces = omega arith;
        tail_in = pos;
        slots = v.slots;
        placed = λ j slot e fresh. absurd (omega (arith, v.slots.old j slot e, fresh));
        pushing = v.pushing;
        popping = tt;
        in_order = nil-sublist [];
      }

  -- A store of a slot that is its message's, or is read.
  pub Placed-set :
      (buffer : List (Slot (Option T))) (c read_epoch j : ℕ) (new : Slot (Option T))
      → j < length buffer
      → (read_epoch < new.epoch → (i : ℕ) × (new.epoch ≡ suc i) × (j ≡ i % c))
      → Placed buffer c read_epoch
      → Placed (set buffer j new) c read_epoch
  Placed-set buffer c k j new inside own placed l slot e fresh = elim (ℕ_discrete j l) [
    | yes here ↦
        let found : new ≡ slot = some-injective new slot (
          sym (get_elem?-set_self buffer j new inside)
          ∙ ap (get_elem? (set buffer j new)) here
          ∙ e) in
        subst (λ m. (i : ℕ) × (slot.epoch ≡ suc i) × (m ≡ i % c)) here
          (subst (λ (o : Slot (Option T)). k < o.epoch → (i : ℕ) × (o.epoch ≡ suc i) × (j ≡ i % c))
            found own fresh)
    | no other ↦ placed l slot (sym (get_elem?-set_ne buffer j l new other) ∙ e) fresh
  ]
