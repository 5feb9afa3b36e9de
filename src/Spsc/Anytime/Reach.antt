-- ===== src/Spsc/Anytime/Reach.antt =====
-- ring_buffer/mod.rs: every schedule in which `push` stays within one round, whenever `pop` is called.
use bibi_sync.Base.{
  ℕ, ◌<◌, ◌≡◌, refl, sym, ap, subst, ◌∙◌, some, length, map, take, take_all, arith, word_mod, done,
  done-injective,
}
use mathlib.Core.List.{Sublist}
use mathlib.Core.List.Sublist
use bibi_sync.Spsc.{
  Popping, popped, start_push, start_pop, System, Choice, calls_push, pushes, calls_pop, pops,
  advance,
}
use bibi_sync.Spsc.Invariant.{initial}
use bibi_sync.Spsc.Reach.{start_push-PushOk}
use bibi_sync.Spsc.Anytime.{PopKeeps, settled, Loose, InRound, initial-Loose}
use bibi_sync.Spsc.Anytime.Push.{push_step-Loose, settled_bound}
use bibi_sync.Spsc.Anytime.Pop.{pop_step-Loose, take-Sublist}

module _ {ℓ} {T : Type ℓ} where
  -- The states that a new buffer comes to.
  pub data AnyReach (default : T) (capacity : ℕ) : System T → Type ℓ where
    starts : AnyReach default capacity (initial default capacity)
    later :
        {s t : System T} (c : Choice T)
        → AnyReach default capacity s
        → InRound s c
        → advance s c ≡ done t
        → AnyReach default capacity t

  pub advance-Loose :
      (s : System T) (c : Choice T)
      → Loose s
      → InRound s c
      → (t : System T) × (advance s c ≡ done t) × Loose t × (t.shared.capacity ≡ s.shared.capacity)
  unfolding advance
  advance-Loose s (calls_push x) v room = (
    record s { producer = start_push x s.producer },
    refl,
    record {
      capacity_pos = v.capacity_pos;
      capacity_fits = v.capacity_fits;
      behind = v.behind;
      counted = v.counted;
      announces = v.announces;
      tail_in = v.tail_in;
      slots = v.slots;
      placed = v.placed;
      pushing =
          start_push-PushOk x s.shared.head s.shared.write_epoch s.shared.capacity
            (length s.history) s.shared.read_epoch s.shared.buffer s.producer room v.pushing;
      popping = v.popping;
      in_order = v.in_order;
    },
    refl,
  )
  advance-Loose s calls_pop v room = (
    record s { consumer = start_pop s.consumer },
    refl,
    record {
      capacity_pos = v.capacity_pos;
      capacity_fits = v.capacity_fits;
      behind = v.behind;
      counted = v.counted;
      announces = v.announces;
      tail_in = v.tail_in;
      slots = v.slots;
      placed = v.placed;
      pushing = v.pushing;
      popping = started s.consumer v.popping;
      in_order =
          subst (λ n. Sublist s.received (map some (take n s.history))) (same s.consumer)
            v.in_order;
    },
    refl,
  )
    where
      started :
          (p : Popping T)
          → PopKeeps s.shared.capacity s.shared.read_epoch s.history p
          → PopKeeps s.shared.capacity s.shared.read_epoch s.history (start_pop p)
      started (popped x) k = tt
      started p k = k

      same :
          (p : Popping T)
          → settled s.shared.read_epoch p ≡ settled s.shared.read_epoch (start_pop p)
      same (popped x) = refl
      same p = refl
  advance-Loose s pushes v room = push_step-Loose s s.producer v
  advance-Loose s pops v room = pop_step-Loose s s.consumer v

  module _ (default : T) (capacity : ℕ) (pos : 0 < capacity) (fits : capacity < word_mod) where
    pub AnyReach-Loose : (s : System T) → AnyReach default capacity s → Loose s
    AnyReach-Loose s starts = initial-Loose default capacity pos fits
    AnyReach-Loose t (later {s} c before room e) =
        let (u, f, v, _) = advance-Loose s c (AnyReach-Loose s before) room in
        subst Loose (done-injective u t (sym f ∙ e)) v

    pub AnyReach-capacity :
        (s : System T) → AnyReach default capacity s → s.shared.capacity ≡ capacity
    unfolding initial
    AnyReach-capacity s starts = refl
    AnyReach-capacity t (later {s} c before room e) =
        let (u, f, _, same) = advance-Loose s c (AnyReach-Loose s before) room in
        ap (λ (w : System T). w.shared.capacity) (done-injective t u (sym e ∙ f))
        ∙ same
        ∙ AnyReach-capacity s before

    -- Let one thread call `push` and another `pop` on a new buffer of a capacity between 1 and
    -- 2^64-1, their loads and stores in any order and `pop` called at any time, where `push` is
    -- called only while fewer than `capacity` messages have epochs above `read_epoch` and fewer
    -- than 2^64-1 are published. Then the items received are some of the messages published, each
    -- whole, at most once and in order.
    pub received_among :
        (s : System T) → AnyReach default capacity s → Sublist s.received (map some s.history)
    received_among s reach =
        let v = AnyReach-Loose s reach in
        let settled_in = settled_bound s.shared.read_epoch (length s.history) s.consumer v.behind in
        subst (λ l. Sublist s.received (map some l))
          (take_all (length s.history) s.history (omega arith))
          (Sublist.trans v.in_order (
            take-Sublist (settled s.shared.read_epoch s.consumer) (length s.history) s.history
              settled_in))
