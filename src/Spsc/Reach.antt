-- ===== src/Spsc/Reach.antt =====
-- ring_buffer/mod.rs: `push` and `pop` under every schedule within one round.
use bibi_sync.Base.{
  ℕ, suc, ◌+◌, ◌%◌, ◌≤◌, ◌<◌, ◌≡◌, refl, sym, ap, subst, ◌∙◌, none, some, List, length, take,
  take_all, done-injective, map, arith, word_mod, done,
}
use bibi_sync.Spsc.{
  Shared, Pushing, pushed, stamped, start_push, Popping, popped, start_pop, pop_step, skipping,
  moving, System, Choice, calls_push, pushes, calls_pop, pops, advance,
}
use bibi_sync.Spsc.Invariant.{PushOk, PopOk, Inv, initial, initial-Inv, Allowed, IsStamped}
use bibi_sync.Spsc.Moves.{with_producer, with_consumer}
use bibi_sync.Spsc.Slots.{behind_of_ne}
use bibi_sync.Spsc.Empty.{pop_none}
use bibi_sync.Spsc.Push.{push_step-Inv}
use bibi_sync.Spsc.Pop.{pop_step-Inv, left}

module _ {ℓ} {T : Type ℓ} where
  -- The states that a new buffer comes to.
  pub data Reach (default : T) (capacity : ℕ) : System T → Type ℓ where
    starts : Reach default capacity (initial default capacity)
    later :
        {s t : System T} (c : Choice T)
        → Reach default capacity s
        → Allowed s c
        → advance s c ≡ done t
        → Reach default capacity t

  pub left_bound :
      (head read_epoch c r : ℕ) (history : List T) (p : Popping T)
      → PopOk head read_epoch c r history p
      → left p ≤ 8
  left_bound head read_epoch c r history (skipping t e) k = absurd k.0
  left_bound head read_epoch c r history (moving t) k = absurd k.0
  left_bound head read_epoch c r history p k = omega arith

  pub start_push-PushOk :
      (x : T) (head w c n r : ℕ) (buffer : _) (p : Pushing T)
      → (n < r + c) × (suc n < word_mod)
      → PushOk head w c buffer n r p
      → PushOk head w c buffer n r (start_push x p)
  start_push-PushOk x head w c n r buffer (pushed e) allowed k = (k.0, allowed.0, allowed.1, tt)
  start_push-PushOk x head w c n r buffer p allowed k = k

  -- The head is at the next message unless its store is due.
  head_due :
      (head w c n r : ℕ) (buffer : _) (p : Pushing T)
      → ¬ (IsStamped p)
      → PushOk head w c buffer n r p
      → head ≡ n % c
  head_due head w c n r buffer (stamped h e) no_store k = absurd (no_store tt)
  head_due head w c n r buffer p no_store k = k.0.0

  start_pop-PopOk :
      (head read_epoch c r : ℕ) (history : List T) (p : Popping T)
      → r ≤ length history
      → head ≡ length history % c
      → PopOk head read_epoch c r history p
      → PopOk head read_epoch c r history (start_pop p)
  start_pop-PopOk head read_epoch c r history (popped x) le due k =
      (k.0, (λ ne. behind_of_ne c r (length history) le (λ same. ne (same ∙ sym due))), tt)
  start_pop-PopOk head read_epoch c r history p le due k = k

  pub advance-Inv :
      (s : System T) (c : Choice T)
      → Inv s
      → Allowed s c
      → (t : System T) × (advance s c ≡ done t) × Inv t
  unfolding advance
  advance-Inv s (calls_push x) v allowed = (
    record s { producer = start_push x s.producer },
    refl,
    with_producer s (start_push x s.producer) v (
        start_push-PushOk x s.shared.head s.shared.write_epoch s.shared.capacity (length s.history)
          (length s.received) s.shared.buffer s.producer allowed v.pushing),
  )
  advance-Inv s pushes v allowed = push_step-Inv s s.producer v
  advance-Inv s calls_pop v allowed = (
    record s { consumer = start_pop s.consumer },
    refl,
    with_consumer s (start_pop s.consumer) v (
        start_pop-PopOk s.shared.head s.shared.read_epoch s.shared.capacity (length s.received)
          s.history s.consumer v.behind
          (head_due s.shared.head s.shared.write_epoch s.shared.capacity (length s.history)
            (length s.received) s.shared.buffer s.producer allowed v.pushing)
          v.popping),
  )
  advance-Inv s pops v allowed = let (t, e, w, _) = pop_step-Inv s s.consumer v in (t, e, w)

  module _ (default : T) (capacity : ℕ) (pos : 0 < capacity) (fits : capacity < word_mod) where
    pub Reach-Inv : (s : System T) → Reach default capacity s → Inv s
    Reach-Inv s starts = initial-Inv default capacity pos fits
    Reach-Inv t (later {s} c before allowed e) =
        let (u, f, v) = advance-Inv s c (Reach-Inv s before) allowed in
        subst Inv (done-injective u t (sym f ∙ e)) v

    -- no panic
    pub advance-total :
        (s : System T) (c : Choice T)
        → Reach default capacity s
        → Allowed s c
        → (t : System T) × (advance s c ≡ done t) × Reach default capacity t
    advance-total s c before allowed =
        let (t, e, _) = advance-Inv s c (Reach-Inv s before) allowed in
        (t, e, later c before allowed e)

    -- Let one thread call `push` and another `pop` on a new buffer of a capacity between 1 and
    -- 2^64-1, their loads and stores in any order, where `push` is called only while fewer than
    -- `capacity` messages are not received and fewer than 2^64-1 are published, and `pop` not
    -- between the stores of a slot's epoch and of the head. Then the items received so far are the
    -- first messages published, each whole, once and in order.
    pub received_in_order :
        (s : System T)
        → Reach default capacity s
        → s.received ≡ map some (take (length s.received) s.history)
    received_in_order s reach = (Reach-Inv s reach).in_order

    -- In a state that such a schedule leads to, if the next step of a running call of `pop` returns
    -- `None`, then all messages published so far have been received.
    pub pop-caught_up :
        (s : System T) (m : Shared T)
        → Reach default capacity s
        → 0 < left s.consumer
        → pop_step s.shared s.consumer ≡ done (m, popped none)
        → s.received ≡ map some s.history
    pop-caught_up s m reach running e =
        let v = Reach-Inv s reach in
        let caught = pop_none s s.consumer m v running e in
        v.in_order
        ∙ ap (λ l. map some l) (take_all (length s.received) s.history (omega (arith, caught)))

    pub pop-wait_free :
        (s : System T)
        → Reach default capacity s
        → 0 < left s.consumer
        → (t : System T) × (advance s pops ≡ done t)
          × (left t.consumer < left s.consumer)
          × (left s.consumer ≤ 8)
    pop-wait_free s reach running =
        let v = Reach-Inv s reach in
        let (t, e, _, fewer) = pop_step-Inv s s.consumer v in
        (t, e, omega (arith, fewer, running), left_bound _ _ _ _ _ s.consumer v.popping)
