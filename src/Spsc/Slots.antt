-- ===== src/Spsc/Slots.antt =====
-- ring_buffer/mod.rs: the slots, and what the threads know, when a message comes or goes.
use bibi_sync.Base.{
  ℕ, suc, ◌+◌, ◌%◌, ◌≤◌, ◌<◌, ◌≡◌, ◌≢◌, sym, ap, subst, ◌∙◌, Option, some, List, [], ◌∷◌, ◌++◌,
  length, get_elem?, set, length-append, length-set, get_elem?-set_self, get_elem?-set_ne,
  get_elem?-lt, get_elem?-append_left, get_elem?-append_at, arith, mod-ne,
}
use mathlib.Core.Option.{some-injective}
use native.Mathlib.Decide.{dec_lt, ℕ_discrete}
use native.Mathlib.Nat.{mod-lt}
use bibi_sync.Ring.{Slot}
use bibi_sync.Spsc.{Pushing, pushed, wrote, stamped, Popping, looping, got_tail, taken, marked}
use bibi_sync.Spsc.Invariant.{PushOk, PopOk, IsNext, Slots}

pub behind_of_ne : (c r n : ℕ) → r ≤ n → r % c ≢ n % c → r < n
behind_of_ne c r n le ne = elim (dec_lt r n) [
  | yes lt ↦ lt
  | no caught ↦ let same : r ≡ n = omega arith in absurd (ne (ap (λ k. k % c) same))
]

module _ {ℓ} {T : Type ℓ} where
  module _ {buffer : List (Slot (Option T))} {c r : ℕ} {history : List T}
      (v : Slots buffer c r history) (pos : 0 < c) (room : length history < r + c) where
    pub free_slot : length history % c < length buffer
    free_slot = omega (arith, mod-lt (length history) pos, v.shape)

    -- The slot of the next message holds none that is not received.
    others_live : (i : ℕ) → i < length history → r ≤ i → length history % c ≢ i % c
    others_live i h le e = mod-ne c i (length history) pos h (omega arith) (sym e)

    set-old :
        (n : ℕ) (new : Slot (Option T))
        → length history ≤ n
        → new.epoch ≤ n
        → (j : ℕ) (slot : Slot (Option T))
        → get_elem? (set buffer (length history % c) new) j ≡ some slot
        → slot.epoch ≤ n
    set-old n new le small j slot e = elim (ℕ_discrete (length history % c) j) [
      | yes here ↦
          let found : new ≡ slot = some-injective new slot (
            sym (get_elem?-set_self buffer (length history % c) new free_slot)
            ∙ ap (get_elem? (set buffer (length history % c) new)) here
            ∙ e) in
          subst (λ (o : Slot (Option T)). o.epoch ≤ n) found small
      | no other ↦
          omega (
            arith,
            v.old j slot (sym (get_elem?-set_ne buffer (length history % c) j new other) ∙ e),
          )
    ]

    -- The slot of the next message may be written.
    pub Slots-write :
        (new : Slot (Option T))
        → new.epoch ≤ length history
        → Slots (set buffer (length history % c) new) c r history
    Slots-write new small = record {
      shape = length-set buffer (length history % c) new ∙ v.shape;
      live = λ i x e le.
          get_elem?-set_ne buffer (length history % c) (i % c) new
            (others_live i (get_elem?-lt history i x e) le)
          ∙ v.live i x e le;
      old = set-old (length history) new (omega arith) small;
    }

    -- With the epoch in the slot the message is there.
    pub Slots-publish :
        (x : T)
        → Slots
            (set buffer
              (length history % c)
              (record { value = some x; epoch = suc (length history) }))
            c
            r
            (history ++ x ∷ [])
    Slots-publish x = record {
      shape = length-set buffer (length history % c) new ∙ v.shape;
      live = λ i y e le. elim (dec_lt i (length history)) [
        | yes before ↦
            get_elem?-set_ne buffer (length history % c) (i % c) new (others_live i before le)
            ∙ v.live i y (sym (get_elem?-append_left history (x ∷ []) i before) ∙ e) le
        | no late ↦
            let last : i ≡ length history =
              omega
                (arith, get_elem?-lt (history ++ x ∷ []) i y e, length-append history (x ∷ [])) in
            let same : x ≡ y =
              some-injective x y (sym (get_elem?-append_at history [] x i last) ∙ e) in
            ap (λ k. get_elem? (set buffer (length history % c) new) (k % c)) last
            ∙ get_elem?-set_self buffer (length history % c) new free_slot
            ∙ ap (λ z. some (record { value = some z; epoch = suc (length history) })) same
            ∙ ap (λ k. some (record { value = some y; epoch = suc k })) (sym last)
      ];
      old = λ j slot e. omega (
        arith,
        length-append history (x ∷ []),
        set-old (suc (length history)) new (omega arith) (omega arith) j slot e,
      );
    }
      where
        new : Slot (Option T)
        new = record { value = some x; epoch = suc (length history) }

  -- What the consumer knows stays true when a message is published.
  IsNext-grow :
      (r : ℕ) (history : List T) (x : T) (y : Option T)
      → IsNext r history y
      → IsNext r (history ++ x ∷ []) y
  IsNext-grow r history x y (z, e, f) =
      (z, get_elem?-append_left history (x ∷ []) r (get_elem?-lt history r z e) ∙ e, f)

  pub PopOk-grow :
      (head read_epoch c r : ℕ) (history : List T) (x : T) (p : Popping T)
      → PopOk head read_epoch c r history p
      → PopOk head read_epoch c r (history ++ x ∷ []) p
  PopOk-grow hd rd c r history x (taken t s y) (a, b, d, k) = (a, b, d, IsNext-grow r history x y k)
  PopOk-grow hd rd c r history x (marked t y) (a, b, k) = (a, b, IsNext-grow r history x y k)
  PopOk-grow hd rd c r history x p k = ground (arith, length-append history (x ∷ []), k)

  -- The head is at the next message.
  pub PopOk-head :
      (head read_epoch c r : ℕ) (history : List T) (p : Popping T)
      → r ≤ length history
      → PopOk head read_epoch c r history p
      → PopOk (length history % c) read_epoch c r history p
  PopOk-head hd rd c r history looping le k =
      (k.0, λ ne. behind_of_ne c r (length history) le ne, tt)
  PopOk-head hd rd c r history (got_tail t) le k =
      (k.0, k.1, λ ne. behind_of_ne c r (length history) le ne, tt)
  PopOk-head hd rd c r history p le k = k

-- Receiving a message takes nothing from what is known of the others.
pub Slots-receive {ℓ} :
    {T : Type ℓ} {buffer : List (Slot (Option T))} {c r r' : ℕ} {history : List T}
    → Slots buffer c r history
    → suc r ≡ r'
    → Slots buffer c r' history
Slots-receive v e = record {
  shape = v.shape;
  live = λ i x there le. v.live i x there (omega (arith, e, le));
  old = v.old;
}

pub PushOk-receive {ℓ} :
    {T : Type ℓ} (head write_epoch c n : ℕ) {r r' : ℕ} (buffer : List (Slot (Option T)))
    → r ≤ r'
    → (p : Pushing T) → PushOk head write_epoch c buffer n r p
    → PushOk head write_epoch c buffer n r' p
PushOk-receive head w c n buffer e (pushed m) k = k
PushOk-receive head w c n buffer e (stamped h m) k = k
PushOk-receive head w c n buffer e (wrote x h m) (stands, room, few, here, next, old, there) =
    (stands, omega (arith, e, room), few, here, next, old, there)
PushOk-receive head w c n buffer e p k = ground (arith, e, k)
