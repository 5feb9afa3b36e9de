-- ===== src/Ring/Refine.antt =====
-- ring_buffer/mod.rs: `new` and `push`, against the log that the slots represent.
use bibi_sync.Base.{
  ℕ, suc, ◌+◌, ◌%◌, ◌≤◌, ◌<◌, ◌≡◌, refl, sym, ap, ◌∙◌, some, [], ◌∷◌, ◌++◌, length, get_elem?, set,
  arith, done, word_mod, isize_max, ◌*◌, add_word, mod-ne, step-mod, length-append, length-set,
  get_elem?-set_self, get_elem?-set_ne, get_elem?-append_left, get_elem?-append_at,
  get_elem?-exists, get_elem?-lt, get_elem?-replicate, length-replicate, replicate,
}
use native.Mathlib.Decide.{dec_lt}
use native.Mathlib.Nat.{mod-lt, mod-eq_of_lt}
use bibi_sync.Log
use bibi_sync.Log.{Log, landing}
use bibi_sync.Ring.{RingBuffer, new, push, default_slot}
use bibi_sync.Ring.Represents.{Represents}

module _ {ℓ} {T : Type ℓ} where
  -- A new buffer represents the empty log.
  pub new-Represents :
      (default : T) (slot_size capacity : ℕ)
      → 0 < capacity
      → capacity < word_mod
      → capacity * slot_size ≤ isize_max
      → (rb : RingBuffer T) × (new default slot_size capacity ≡ done rb)
        × Represents rb (Log.empty capacity)
  unfolding new Log.empty
  new-Represents default slot_size capacity pos fits alloc = (
    record {
      buffer = replicate capacity (default_slot default);
      head = 0;
      tail = 0;
      write_epoch = 0;
      read_epoch = 0;
      capacity = capacity;
    },
    ground arith,
    record {
      capacity_pos = pos;
      capacity_fits = fits;
      same_capacity = refl;
      written = refl;
      read = refl;
      read_le = omega arith;
      shape = length-replicate capacity (default_slot default);
      head_at = omega arith;
      tail_at = omega arith;
      live = λ i x e _. cc;
      fresh = λ i _ h. (default, get_elem?-replicate capacity i (default_slot default) h);
    },
  )

module _ {ℓ} {T : Type ℓ} {rb : RingBuffer T} {log : Log T} (v : Represents rb log) where
  pub head_in : rb.head < length rb.buffer
  head_in = omega (arith, v.head_at, v.shape, mod-lt (length log.history) v.capacity_pos)

  -- The state after `push`.
  unfoldable pub pushed : T → RingBuffer T
  pushed item = record rb {
    write_epoch = suc (length log.history);
    buffer = set rb.buffer rb.head (record { value = item; epoch = suc (length log.history) });
    head = suc (length log.history) % rb.capacity;
  }

  pub epoch_next :
      suc (length log.history) < word_mod → add_word rb.write_epoch 1 ≡ suc (length log.history)
  epoch_next fits = omega (arith, v.written)

  pub head_next : add_word rb.head 1 % rb.capacity ≡ suc (length log.history) % rb.capacity
  head_next =
      ap (λ n. add_word n 1 % rb.capacity) v.head_at
      ∙ step-mod rb.capacity (length log.history) v.capacity_pos v.capacity_fits
      ∙ ap (λ n. n % rb.capacity) (omega arith)

  push-eq :
      (item : T)
      → suc (length log.history) < word_mod
      → push rb item ≡ done (suc (length log.history), pushed item)
  unfolding push pushed
  push-eq item fits =
      ground (arith, (get_elem?-exists rb.buffer rb.head head_in).1, epoch_next fits, head_next)

  newest :
      (item : T) (i : ℕ) (x : T)
      → get_elem? (log.history ++ item ∷ []) i ≡ some x
      → ¬ (i < length log.history)
      → i ≡ length log.history
  newest item i x e late =
      omega (
        arith,
        get_elem?-lt (log.history ++ item ∷ []) i x e,
        length-append log.history (item ∷ []),
      )

  pushed_live :
      (item : T) (i : ℕ) (x : T)
      → get_elem? (log.history ++ item ∷ []) i ≡ some x
      → suc (length log.history) ≤ i + rb.capacity
      → get_elem? (pushed item).buffer (i % rb.capacity)
        ≡ some (record { value = x; epoch = suc i })
  unfolding pushed
  pushed_live item i x e h = elim (dec_lt i (length log.history)) [
    | yes old ↦
        get_elem?-set_ne rb.buffer rb.head (i % rb.capacity) _ (λ same.
          mod-ne rb.capacity i (length log.history) v.capacity_pos old (omega arith)
            (sym same ∙ v.head_at))
        ∙ v.live i x (sym (get_elem?-append_left log.history (item ∷ []) i old) ∙ e) (omega arith)
    | no late ↦
        let at_end : i ≡ length log.history = newest item i x e late in
        ground (
          arith,
          get_elem?-append_at log.history [] item i at_end,
          get_elem?-set_self rb.buffer rb.head
              (record { value = item; epoch = suc (length log.history) }) head_in,
          v.head_at,
        )
  ]

  pushed_fresh :
      (item : T) (i : ℕ)
      → suc (length log.history) ≤ i
      → i < rb.capacity
      → (x : T) × (get_elem? (pushed item).buffer i ≡ some (record { value = x; epoch = 0 }))
  unfolding pushed
  pushed_fresh item i h k =
      let (x, e) = v.fresh i (omega arith) k in
      (x, get_elem?-set_ne rb.buffer rb.head i _ (λ same. omega (arith, same, head_before)) ∙ e)
    where
      head_before : rb.head < i
      head_before =
          omega (
            arith,
            v.head_at,
            mod-eq_of_lt {n = length log.history} {m = rb.capacity} (omega arith),
          )

  pub pushed-Represents : (item : T) → Represents (pushed item) (Log.publish log item)
  unfolding Log.publish pushed
  pushed-Represents item = record {
    capacity_pos = v.capacity_pos;
    capacity_fits = v.capacity_fits;
    same_capacity = v.same_capacity;
    written = omega (arith, one_more);
    read = v.read;
    read_le = omega (arith, v.read_le, one_more);
    shape = length-set _ _ _ ∙ v.shape;
    head_at = ap (λ n. n % rb.capacity) (omega (arith, one_more));
    tail_at = v.tail_at;
    live = λ i x e h. pushed_live item i x e (omega (arith, h, one_more));
    fresh = λ i h k. pushed_fresh item i (omega (arith, h, one_more)) k;
  }
    where
      one_more : length (log.history ++ item ∷ []) ≡ suc (length log.history)
      one_more = omega (arith, length-append log.history (item ∷ []))

  -- `push` appends to the log, and returns the epoch of its message.
  pub push-Represents :
      (item : T)
      → suc (length log.history) < word_mod
      → (rb' : RingBuffer T) × (push rb item ≡ done (suc (length log.history), rb'))
        × Represents rb' (Log.publish log item)
  push-Represents item fits = (pushed item, push-eq item fits, pushed-Represents item)
