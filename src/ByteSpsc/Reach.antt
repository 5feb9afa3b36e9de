-- ===== src/ByteSpsc/Reach.antt =====
-- ring_buffer/byte_buffer.rs: `push` and `pop` under every schedule within one round.
use bibi_sync.Base.{
  ℕ, ◌≤◌, ◌<◌, ◌≡◌, refl, sym, ap, subst, ◌∙◌, ◌⊎◌, inl, inr, none, some, List, [], length, take,
  map, length-map, arith, word_mod, done, done-injective,
}
use native.Mathlib.Decide.{dec_lt}
use bibi_sync.ByteRing.{Bytes, max_payload_size}
use bibi_sync.Spsc
use bibi_sync.Spsc.{Pushing, pushed, start_push, Choice, calls_push, pushes, calls_pop, pops}
use bibi_sync.Spsc.Invariant.{PopOk, Allowed}
use bibi_sync.Spsc.Reach
use bibi_sync.ByteSpsc.{
  Cloned, Popping, popped, skipping, moving, System, start_pop, advance, initial,
}
use bibi_sync.ByteSpsc.View.{
  Follows, follows, view_pop, view, view-initial, payloads, tagged, PushFits, PopKnows, ByteInv,
  initial-ByteInv,
}
use bibi_sync.ByteSpsc.Push.{push_step-ByteInv}
use bibi_sync.ByteSpsc.Pop.{pop_step-ByteInv, left}

-- A call of `push` with too many bytes is always allowed.
abbrev pub ByteAllowed : System → Choice Bytes → Type 0
ByteAllowed b (calls_push x) = (max_payload_size < length x) ⊎ Allowed (view b) (calls_push x)
ByteAllowed b c = Allowed (view b) c

-- The states that a new buffer comes to.
pub data ByteReach (capacity : ℕ) : System → Type 0 where
  starts : ByteReach capacity (initial capacity)
  later :
      {b b' : System} (c : Choice Bytes)
      → ByteReach capacity b
      → ByteAllowed b c
      → advance b c ≡ done b'
      → ByteReach capacity b'

start_push-PushFits :
    (x : Bytes) (buffer : _) (p : Pushing Bytes)
    → length x ≤ max_payload_size
    → PushFits buffer p
    → PushFits buffer (start_push x p)
start_push-PushFits x buffer (pushed e) small k = small
start_push-PushFits x buffer p small k = k

start_pop-PopKnows :
    (r : ℕ) (buffer : _) (p : Popping) → PopKnows buffer r p → PopKnows buffer r (start_pop p)
start_pop-PopKnows r buffer (popped x) k = tt
start_pop-PopKnows r buffer p k = k

view_pop-start_pop :
    (r : ℕ) (p : Popping) → Spsc.start_pop (view_pop r p) ≡ view_pop r (start_pop p)
view_pop-start_pop r (popped none) = refl
view_pop-start_pop r (popped (some x)) = refl
view_pop-start_pop r p = refl

-- The step is one that is allowed on the typed buffer, or cannot be seen there.
abbrev Sees : System → Choice Bytes → System → Type 0
Sees b c b' = (view b' ≡ view b) ⊎ (Allowed (view b) c × (Spsc.advance (view b) c ≡ done (view b')))

allows : (b b' : System) (c : Choice Bytes) → Allowed (view b) c → Follows b c b' → Sees b c b'
allows b b' c allowed (inl same) = inl same
allows b b' c allowed (inr e) = inr (allowed, e)

abbrev Kept : System → Choice Bytes → Type 0
Kept b c = (t : System) × (advance b c ≡ done t) × ByteInv t × Sees b c t

calls_push-ByteInv :
    (b : System) (x : Bytes) → ByteInv b → ByteAllowed b (calls_push x) → Kept b (calls_push x)
unfolding advance Spsc.advance
calls_push-ByteInv b x v allowed = elim (dec_lt max_payload_size (length x)) [
  | yes large ↦ (b, ground arith, v, inl refl)
  | no small ↦
      let b' = record b { producer = start_push x b.producer } in
      let allowed' : Allowed (view b) (calls_push x) = elim allowed [
        | inl large ↦ absurd (small large)
        | inr a ↦ a
      ] in
      (
        b',
        ground arith,
        record {
          base = follows b b' (calls_push x) v.base allowed' (inr refl);
          fits = v.fits;
          pushing =
              start_push-PushFits x b.shared.buffer b.producer (omega (arith, small)) v.pushing;
          popping = v.popping;
          epochs = v.epochs;
        },
        inr (allowed', refl),
      )
]

calls_pop-ByteInv : (b : System) → ByteInv b → Allowed (view b) calls_pop → Kept b calls_pop
unfolding advance Spsc.advance
calls_pop-ByteInv b v allowed =
    let b' = record b { consumer = start_pop b.consumer } in
    let seen : Follows b calls_pop b' = inr (
      ap (λ p. done (record (view b) { consumer = p }))
        (view_pop-start_pop (length (payloads b.received)) b.consumer)) in
    (
      b',
      refl,
      record {
        base = follows b b' calls_pop v.base allowed seen;
        fits = v.fits;
        pushing = v.pushing;
        popping =
            start_pop-PopKnows (length (payloads b.received)) b.shared.buffer b.consumer v.popping;
        epochs = v.epochs;
      },
      allows b b' calls_pop allowed seen,
    )

advance-ByteInv : (b : System) (c : Choice Bytes) → ByteInv b → ByteAllowed b c → Kept b c
advance-ByteInv b (calls_push x) v allowed = calls_push-ByteInv b x v allowed
advance-ByteInv b calls_pop v allowed = calls_pop-ByteInv b v allowed
advance-ByteInv b pushes v allowed =
    let (t, e, w, seen) = push_step-ByteInv b b.producer v in (t, e, w, allows b t pushes tt seen)
advance-ByteInv b pops v allowed =
    let (t, e, w, seen, _) = pop_step-ByteInv b b.consumer v in (t, e, w, allows b t pops tt seen)

sees :
    (capacity : ℕ) (b b' : System) (c : Choice Bytes)
    → Sees b c b'
    → Reach.Reach [] capacity (view b)
    → Reach.Reach [] capacity (view b')
sees capacity b b' c (inl same) reach = subst (Reach.Reach [] capacity) (sym same) reach
sees capacity b b' c (inr (allowed, e)) reach = Reach.later c reach allowed e

left_bound :
    (head read_epoch c r : ℕ) (history : List Bytes) (p : Popping)
    → PopOk head read_epoch c r history (view_pop r p)
    → left p ≤ 10
left_bound head read_epoch c r history (skipping t e) k = absurd k.0
left_bound head read_epoch c r history (moving t) k = absurd k.0
left_bound head read_epoch c r history p k = omega arith

module _ (capacity : ℕ) (pos : 0 < capacity) (fits : capacity < word_mod) where
  pub ByteReach-ByteInv : (b : System) → ByteReach capacity b → ByteInv b
  ByteReach-ByteInv b starts = initial-ByteInv capacity pos fits
  ByteReach-ByteInv b' (later {b} c before allowed e) =
      let (u, f, v, _) = advance-ByteInv b c (ByteReach-ByteInv b before) allowed in
      subst ByteInv (done-injective u b' (sym f ∙ e)) v

  pub view-Reach : (b : System) → ByteReach capacity b → Reach.Reach [] capacity (view b)
  view-Reach b starts = subst (Reach.Reach [] capacity) (sym (view-initial capacity)) Reach.starts
  view-Reach b' (later {b} c before allowed e) =
      let (u, f, _, seen) = advance-ByteInv b c (ByteReach-ByteInv b before) allowed in
      let same : u ≡ b' = done-injective u b' (sym f ∙ e) in
      sees capacity b b' c (subst (Sees b c) same seen) (view-Reach b before)

  -- In a state that such a schedule of the byte buffer leads to, each next step or call that is
  -- allowed is made without a panic. With the length and the bytes of a slot seen as one item, the
  -- state is then one that the typed buffer's threads can come to on byte vectors, and the step is
  -- an allowed step of these or cannot be seen there.
  pub advance-refines :
      (b : System) (c : Choice Bytes)
      → ByteReach capacity b
      → ByteAllowed b c
      → (t : System) × (advance b c ≡ done t)
        × Reach.Reach [] capacity (view t)
        × ((view t ≡ view b) ⊎ (Allowed (view b) c × (Spsc.advance (view b) c ≡ done (view t))))
  advance-refines b c before allowed =
      let (t, e, _, seen) = advance-ByteInv b c (ByteReach-ByteInv b before) allowed in
      (t, e, sees capacity b t c seen (view-Reach b before), seen)

  -- Let one thread call `push` and another `pop` on a new byte buffer of a capacity between 1 and
  -- 2^64-1, their loads and stores in any order, where `push` is called with at most 244 bytes only
  -- while fewer than `capacity` messages are not received and fewer than 2^64-1 are published, and
  -- `pop` not between the stores of a slot's epoch and of the head. Then the messages received so
  -- far are the first ones published, each whole, once, in order and with the epochs 1, 2, 3 and so
  -- on.
  pub received_whole :
      (b : System)
      → ByteReach capacity b
      → b.received ≡ tagged 0 (map some (take (length b.received) b.history))
  received_whole b reach =
      let v = ByteReach-ByteInv b reach in
      v.epochs
      ∙ ap (tagged 0) v.base.in_order
      ∙ ap (λ (n : ℕ). tagged 0 (map some (take n b.history)))
          (length-map (λ (r : Cloned × ℕ). r.0) b.received)

  -- In a state that a schedule of the byte buffer within one round leads to, a running call of
  -- `pop` makes its next step without a panic and is nearer to its end after it, from at most 10
  -- steps away.
  pub pop-wait_free :
      (b : System)
      → ByteReach capacity b
      → 0 < left b.consumer
      → (t : System) × (advance b pops ≡ done t)
        × (left t.consumer < left b.consumer)
        × (left b.consumer ≤ 10)
  pop-wait_free b reach running =
      let v = ByteReach-ByteInv b reach in
      let (t, e, _, _, fewer) = pop_step-ByteInv b b.consumer v in
      (t, e, omega (arith, fewer, running), left_bound _ _ _ _ _ b.consumer v.base.popping)
