-- ===== src/Ring/Read.antt =====
-- ring_buffer/mod.rs: `pop`, the peeks and `len`, against the log that the slots represent.
use bibi_sync.Base.{
  ℕ, suc, ◌+◌, ◌-◌, ◌*◌, ◌/◌, ◌%◌, ◌≤◌, ◌<◌, ◌≡◌, refl, sym, ap, ◌∙◌, inl, inr, none, some, false,
  true, get_elem?-none, leb, ltb, ◌==◌, length, get_elem?, arith, done, stop, add_word, sub_word,
  step-mod, sub_word-eq, rounds-le, le-rounds, rounds-mod, get_elem?-exists, Bool-cases,
}
use native.Mathlib.Decide.{dec_lt}
use native.Mathlib.Nat.{mod-lt, mod-add-mod, mod-eq_of_lt, mod-eq-sub-mod}
use bibi_sync.Log
use bibi_sync.Log.{Log, landing, unread}
use bibi_sync.Ring.{
  RingBuffer, Slot, inspect, pop_turn, pop_loop, pop, peek_latest, peek_oldest_ref, len, latest_idx,
  next_index,
}
use bibi_sync.Ring.Represents.{Represents}

module _ {ℓ} {T : Type ℓ} {rb : RingBuffer T} {log : Log T} (v : Represents rb log) where
  -- A lagging reader finds at `tail` the message it lands on.
  pub landing_lt : log.cursor < length log.history → landing log < length log.history
  landing_lt h = omega (arith, rounds-le log.capacity (unread log) (omega arith))

  landing_near : length log.history ≤ landing log + rb.capacity
  landing_near = omega (
    arith,
    v.same_capacity,
    v.read_le,
    le-rounds log.capacity (unread log) (omega (arith, v.same_capacity, v.capacity_pos)),
  )

  landing_at : landing log % rb.capacity ≡ rb.tail
  landing_at =
      ap (λ c. landing log % c) v.same_capacity
      ∙ rounds-mod log.capacity log.cursor ((unread log - 1) / log.capacity)
      ∙ ap (λ c. log.cursor % c) (sym v.same_capacity)
      ∙ sym v.tail_at

  pub tail_slot :
      (x : T)
      → get_elem? log.history (landing log) ≡ some x
      → get_elem? rb.buffer rb.tail ≡ some (record { value = x; epoch = suc (landing log) })
  tail_slot x e = rw landing_at at (v.live (landing log) x e landing_near)

  -- A reader that has caught up finds an old message there, or none.
  pub caught_up_slot :
      log.cursor ≡ length log.history
      → (slot : Slot T) × (get_elem? rb.buffer rb.tail ≡ some slot) × (slot.epoch ≤ log.cursor)
  caught_up_slot same = elim (dec_lt (length log.history) rb.capacity) [
    | yes short ↦
        let (x, e) = v.fresh (length log.history) (omega arith) short in
        (_, ap (get_elem? rb.buffer) (tail_eq ∙ mod-eq_of_lt short) ∙ e, omega arith)
    | no long ↦
        let i : ℕ = length log.history - rb.capacity in
        let (x, e) = get_elem?-exists log.history i (omega (arith, v.capacity_pos)) in
        (
          _,
          ap (get_elem? rb.buffer) (tail_eq ∙ mod-eq-sub-mod (omega arith))
              ∙ v.live i x e (omega arith),
          omega (arith, v.capacity_pos),
        )
  ]
    where
      tail_eq : rb.tail ≡ length log.history % rb.capacity
      tail_eq = v.tail_at ∙ ap (λ n. n % rb.capacity) same

  -- The state after a `pop` that finds a message.
  unfoldable pub popped : RingBuffer T
  popped = record rb { read_epoch = suc (landing log); tail = suc (landing log) % rb.capacity }

  pub tail_next : next_index rb rb.tail ≡ suc (landing log) % rb.capacity
  tail_next =
      ap (λ n. add_word n 1 % rb.capacity) (sym landing_at)
      ∙ step-mod rb.capacity (landing log) v.capacity_pos v.capacity_fits
      ∙ ap (λ n. n % rb.capacity) (omega arith)

  pop_turn-none : log.cursor ≡ length log.history → pop_turn rb ≡ done (stop (none, rb))
  unfolding pop_turn inspect
  pop_turn-none same =
      let (slot, e, old) = caught_up_slot same in
      ground (arith, e, old, v.read, v.head_at, v.tail_at, ap (λ n. n % rb.capacity) same)

  pub is_written : 0 < length log.history → (rb.write_epoch == 0) ≡ false
  is_written h = ground (arith, v.written)

  pub unconsumed : leb (suc (landing log)) rb.read_epoch ≡ false
  unconsumed = ground (arith, v.read)

  pub not_overwritten : ltb (suc (landing log)) (rb.write_epoch - sub_word rb.capacity 1) ≡ false
  not_overwritten =
      ground
        (arith, landing_near, v.written, sub_word-eq rb.capacity 1 v.capacity_fits v.capacity_pos)

  pop_turn-some :
      (x : T)
      → log.cursor < length log.history
      → get_elem? log.history (landing log) ≡ some x
      → pop_turn rb ≡ done (stop (some x, popped))
  unfolding pop_turn inspect popped
  pop_turn-some x behind e =
      ground
        (arith, tail_slot x e, tail_next, is_written (omega arith), unconsumed, not_overwritten)

  pub popped-Represents :
      log.cursor < length log.history
      → Represents popped (record log { cursor = suc (landing log) })
  unfolding popped
  popped-Represents behind = record {
    capacity_pos = v.capacity_pos;
    capacity_fits = v.capacity_fits;
    same_capacity = v.same_capacity;
    written = v.written;
    read = refl;
    read_le = landing_lt behind;
    shape = v.shape;
    head_at = v.head_at;
    tail_at = refl;
    live = v.live;
    fresh = v.fresh;
  }

  -- If a buffer represents a log, one turn of the loop of `pop` is enough: with any positive fuel
  -- it returns the message that the log's reader receives, or `None`, and the new buffer represents
  -- the log with that message received.
  pub pop_loop-Represents :
      (fuel : ℕ)
      → (rb' : RingBuffer T) × (pop_loop (suc fuel) rb ≡ done ((Log.receive log).0, rb'))
        × Represents rb' (Log.receive log).1
  unfolding pop_loop Log.receive
  pop_loop-Represents fuel = elim (dec_lt log.cursor (length log.history)) [
    | yes behind ↦
        let (x, e) = get_elem?-exists log.history (landing log) (landing_lt behind) in
        (
          popped,
          ground (arith, pop_turn-some x behind e, e),
          ground (arith, popped-Represents behind),
        )
    | no caught ↦ (rb, ground (arith, pop_turn-none (omega (arith, v.read_le))), ground (arith, v))
  ]

  -- A reader that has caught up gets nothing, and `pop` changes nothing.
  pub pop_caught_up : log.cursor ≡ length log.history → pop rb ≡ done (none, rb)
  unfolding pop
  pop_caught_up same = ground (arith, pop_turn-none same)

  -- `pop` returns what the log's reader receives.
  pub pop-Represents :
      (rb' : RingBuffer T) × (pop rb ≡ done ((Log.receive log).0, rb'))
      × Represents rb' (Log.receive log).1
  unfolding pop
  pop-Represents = pop_loop-Represents (2 * rb.capacity)

  -- `len` is the number of unread messages, at most the capacity.
  pub len-eq-size : len rb ≡ Log.size log
  unfolding len Log.size
  len-eq-size = ground (arith, v.written, v.read, v.same_capacity)

  pub latest_at : 0 < length log.history → (length log.history - 1) % rb.capacity ≡ latest_idx rb
  latest_at pos = elim (dec_lt (last + 1) rb.capacity) [
    | yes inside ↦ ground (arith, head_eq, mod-eq_of_lt {n = last + 1} {m = rb.capacity} inside)
    | no wrapped ↦ ground (
      arith,
      head_eq,
      mod-lt (length log.history - 1) v.capacity_pos,
      mod-eq-sub-mod {n = last + 1} {m = rb.capacity} (omega arith),
      mod-eq_of_lt {n = last + 1 - rb.capacity} {m = rb.capacity}
          (omega (arith, mod-lt (length log.history - 1) v.capacity_pos)),
      sub_word-eq rb.capacity 1 v.capacity_fits v.capacity_pos,
    )
  ]
    where
      last : ℕ
      last = (length log.history - 1) % rb.capacity

      head_eq : rb.head ≡ (last + 1) % rb.capacity
      head_eq =
          v.head_at
          ∙ ap (λ n. n % rb.capacity) (omega arith)
          ∙ sym (mod-add-mod (length log.history - 1) rb.capacity 1)

  pub peek_latest-eq-latest : peek_latest rb ≡ done (Log.latest log)
  unfolding peek_latest Log.latest
  peek_latest-eq-latest = elim (dec_lt 0 (length log.history)) [
    | yes pos ↦
        let (x, e) = get_elem?-exists log.history (length log.history - 1) (omega arith) in
        let number : suc (length log.history - 1) ≡ length log.history = omega arith in
        let slot = v.live (length log.history - 1) x e (omega (arith, v.capacity_pos)) in
        ground (arith, e, slot, number, latest_at pos, is_written pos)
    | no nothing ↦
        let unwritten : (rb.write_epoch == 0) ≡ true = ground (arith, v.written) in
        ground (arith, unwritten, get_elem?-none log.history (length log.history - 1))
  ]

  pub peek_oldest_ref-eq-oldest : peek_oldest_ref rb ≡ done (Log.oldest log)
  unfolding peek_oldest_ref Log.oldest
  peek_oldest_ref-eq-oldest = elim (dec_lt log.cursor (length log.history)) [
    | yes behind ↦
        let (x, e) = get_elem?-exists log.history (landing log) (landing_lt behind) in
        ground (arith, e, tail_slot x e, is_written (omega arith), unconsumed)
    | no caught ↦
        let (slot, e, old) = caught_up_slot (omega (arith, v.read_le)) in
        let consumed : leb slot.epoch rb.read_epoch ≡ true = ground (arith, old, v.read) in
        let ended : leb (length log.history) log.cursor ≡ true = ground arith in
        elim (Bool-cases (rb.write_epoch == 0)) [
          | inl unwritten ↦ ground (arith, e, consumed, ended)
          | inr written ↦ ground (arith, e, consumed, ended)
        ]
  ]
