-- ===== src/ByteSpsc/Push.antt =====
-- ring_buffer/byte_buffer.rs: the producer's steps, seen on the typed buffer.
use bibi_sync.Base.{
  ℕ, ◌+◌, ◌%◌, ◌^◌, ◌≤◌, ◌<◌, ◌≡◌, ◌≢◌, refl, sym, ap, subst, ◌∙◌, true, false, some, List, [], inr,
  ◌∷◌, ◌++◌, length, get_elem?, set, drop, map, map-set, get_elem?-map, length-map,
  get_elem?-exists, get_elem?-lt, get_elem?-set_self, get_elem?-set_ne, append-nil, length-append,
  length-drop, take-append, arith, mod-ne, done, add_word,
}
use mathlib.Core.Option
use mathlib.Core.Option.{some-injective}
use native.Mathlib.Decide.{ℕ_discrete}
use native.Mathlib.Nat.{mod-lt}
use bibi_sync.Ring.{Slot, next_index}
use bibi_sync.ByteRing.{Bytes, max_payload_size}
use bibi_sync.Spsc
use bibi_sync.Spsc.{
  Pushing, pushed, wants, got_head, numbered, announced, writing, wrote, stamped, publishes, pushes,
  Choice,
}
use bibi_sync.Spsc.Invariant.{PopOk}
use bibi_sync.ByteSpsc.{
  Payload, Shared, Cloned, Popping, measured, cloned, marked, System, push_step, advance,
}
use bibi_sync.ByteSpsc.View.{
  Follows, follows, view_slot, view_shared, view_pop, view, payloads, AllFit, PushFits, PopKnows,
  ByteInv,
}

-- A slot that is stored fits.
set-AllFit :
    (buffer : List (Slot Payload)) (i : ℕ) (new : Slot Payload)
    → AllFit buffer
    → i < length buffer
    → (new.value.len ≤ max_payload_size)
    → (length new.value.bytes ≡ max_payload_size)
    → AllFit (set buffer i new)
set-AllFit buffer i new all inside len bytes j slot e = elim (ℕ_discrete i j) [
  | yes here ↦
      let found : new ≡ slot = some-injective new slot (
        sym (get_elem?-set_self buffer i new inside)
        ∙ ap (get_elem? (set buffer i new)) here
        ∙ e) in
      subst
        (λ (o : Slot Payload).
          (o.value.len ≤ max_payload_size) × (length o.value.bytes ≡ max_payload_size))
        found (len, bytes)
  | no other ↦ all j slot (sym (get_elem?-set_ne buffer i j new other) ∙ e)
]

-- What the consumer knows of its slot is not touched by a store to another.
set-PopKnows :
    (buffer : List (Slot Payload)) (i r : ℕ) (new : Slot Payload) (p : Popping)
    → ((t len : ℕ) → p ≡ measured t len → i ≢ t)
    → ((t : ℕ) (x : Cloned) → p ≡ cloned t x → i ≢ t)
    → PopKnows buffer r p
    → PopKnows (set buffer i new) r p
set-PopKnows buffer i r new (measured t len) other_m other_c (slot, there, k) =
    (slot, get_elem?-set_ne buffer i t new (other_m t len refl) ∙ there, k)
set-PopKnows buffer i r new (cloned t x) other_m other_c (slot, there, k) =
    (slot, get_elem?-set_ne buffer i t new (other_c t x refl) ∙ there, k)
set-PopKnows buffer i r new (marked t x e) other_m other_c k = k
set-PopKnows buffer i r new p other_m other_c k = tt

-- While the consumer has a slot in its hands, the producer's is another.
other_slot :
    (head read_epoch c r h : ℕ) (history : List Bytes) (p : Popping)
    → 0 < c
    → length history < r + c
    → h ≡ length history % c
    → PopOk head read_epoch c r history (view_pop r p)
    → ((t len : ℕ) → p ≡ measured t len → h ≢ t) × ((t : ℕ) (x : Cloned) → p ≡ cloned t x → h ≢ t)
other_slot head read_epoch c r h history p pos room here k = (
  (λ t len e.
      let (read, at, number, behind, _) =
        subst (λ q. PopOk head read_epoch c r history (view_pop r q)) e k in
      apart t at behind),
  λ t x e.
      let (read, at, number, (y, next, whole)) =
        subst (λ q. PopOk head read_epoch c r history (view_pop r q)) e k in
      apart t at (get_elem?-lt history r y next),
)
  where
    apart : (t : ℕ) → t ≡ r % c → r < length history → h ≢ t
    apart t at behind same = mod-ne c r (length history) pos behind room (sym at ∙ sym same ∙ here)

module _ (b : System) where
  abbrev Kept : Pushing Bytes → Type 0
  Kept p =
      (t : System) × (advance (record b { producer = p }) pushes ≡ done t)
      × ByteInv t
      × Follows (record b { producer = p }) pushes t

  -- A step that publishes nothing.
  push_quietly :
      (p p' : Pushing Bytes) (m : Shared)
      → push_step b.shared p ≡ done (m, p')
      → publishes p ≡ []
      → advance (record b { producer = p }) pushes ≡ done (record b { shared = m; producer = p' })
  unfolding advance
  push_quietly p p' m e f = ground (arith, e, f, append-nil b.history)

  -- The same step on the view.
  view_quietly :
      (p p' : Pushing Bytes) (m : Shared)
      → Spsc.push_step (view_shared b.shared) p ≡ done (view_shared m, p')
      → publishes p ≡ []
      → Spsc.advance (view (record b { producer = p })) pushes
        ≡ done (view (record b { shared = m; producer = p' }))
  unfolding Spsc.advance
  view_quietly p p' m e f = ground (arith, e, f, append-nil b.history)

  -- A step that stores no slot.
  local :
      (p p' : Pushing Bytes) (m : Shared)
      → ByteInv (record b { producer = p })
      → push_step b.shared p ≡ done (m, p')
      → Spsc.push_step (view_shared b.shared) p ≡ done (view_shared m, p')
      → publishes p ≡ []
      → m.buffer ≡ b.shared.buffer
      → PushFits b.shared.buffer p'
      → Kept p
  local p p' m v e f quiet same pushing =
      let seen = inr (view_quietly p p' m f quiet) in
      (
        record b { shared = m; producer = p' },
        push_quietly p p' m e quiet,
        record {
          base =
              follows (record b { producer = p }) (record b { shared = m; producer = p' }) pushes
                v.base tt seen;
          fits = subst AllFit (sym same) v.fits;
          pushing = subst (λ l. PushFits l p') (sym same) pushing;
          popping =
              subst (λ l. PopKnows l (length (payloads b.received)) b.consumer) (sym same)
                v.popping;
          epochs = v.epochs;
        },
        seen,
      )

  -- A step that stores the slot of the next message.
  stores :
      (p p' : Pushing Bytes) (h : ℕ) (change : Slot Payload → Slot Payload) (history : List Bytes)
      → ByteInv (record b { producer = p })
      → h ≡ length b.history % b.shared.capacity
      → length b.history < length (payloads b.received) + b.shared.capacity
      → ((slot : Slot Payload)
          → get_elem? b.shared.buffer h ≡ some slot
          → (slot.value.len ≤ max_payload_size)
          → (length slot.value.bytes ≡ max_payload_size)
          → let buffer = set b.shared.buffer h (change slot) in
            (advance (record b { producer = p }) pushes
              ≡ done (record b {
                shared = record b.shared { buffer = buffer };
                producer = p';
                history = history;
              }))
            × (Spsc.advance (view (record b { producer = p })) pushes
                ≡ done (
                    view (record b {
                      shared = record b.shared { buffer = buffer };
                      producer = p';
                      history = history;
                    })))
            × PushFits buffer p'
            × ((change slot).value.len ≤ max_payload_size)
            × (length (change slot).value.bytes ≡ max_payload_size))
      → Kept p
  stores p p' h change history v here room step =
      let inside : h < length b.shared.buffer = omega (
        arith,
        here,
        mod-lt (length b.history) v.base.capacity_pos,
        sym (length-map view_slot b.shared.buffer) ∙ v.base.slots.shape,
      ) in
      let (slot, there) = get_elem?-exists b.shared.buffer h inside in
      let (len, bytes) = v.fits h slot there in
      let (e, f, pushing, new_len, new_bytes) = step slot there len bytes in
      let (other_m, other_c) =
        other_slot b.shared.head b.shared.read_epoch b.shared.capacity
          (length (payloads b.received)) h b.history b.consumer v.base.capacity_pos room here
          v.base.popping in
      let b' = record b {
        shared = record b.shared { buffer = set b.shared.buffer h (change slot) };
        producer = p';
        history = history;
      } in
      (
        b',
        e,
        record {
          base = follows (record b { producer = p }) b' pushes v.base tt (inr f);
          fits = set-AllFit b.shared.buffer h (change slot) v.fits inside new_len new_bytes;
          pushing = pushing;
          popping =
              set-PopKnows b.shared.buffer h (length (payloads b.received)) (change slot) b.consumer
                other_m other_c v.popping;
          epochs = v.epochs;
        },
        inr f,
      )

  -- A store to a slot.
  push_stores :
      (p p' : Pushing Bytes) (h : ℕ) (new : Slot Payload) (history : List Bytes)
      → push_step b.shared p ≡ done (record b.shared { buffer = set b.shared.buffer h new }, p')
      → b.history ++ publishes p ≡ history
      → advance (record b { producer = p }) pushes
        ≡ done (record b {
          shared = record b.shared { buffer = set b.shared.buffer h new };
          producer = p';
          history = history;
        })
  unfolding advance
  push_stores p p' h new history e f = ground (arith, e, f)

  -- A store to a slot, on the view.
  view_stores :
      (p p' : Pushing Bytes) (h : ℕ) (new : Slot Payload) (history : List Bytes)
      → Spsc.push_step (view_shared b.shared) p
        ≡ done (
          record (view_shared b.shared) {
            buffer = set (map view_slot b.shared.buffer) h (view_slot new);
          },
          p',
        )
      → b.history ++ publishes p ≡ history
      → Spsc.advance (view (record b { producer = p })) pushes
        ≡ done (
            view (record b {
              shared = record b.shared { buffer = set b.shared.buffer h new };
              producer = p';
              history = history;
            }))
  unfolding Spsc.advance
  view_stores p p' h new history e f = ground (arith, e, f, map-set view_slot b.shared.buffer h new)

  -- The slot that is there, on the view.
  view_there :
      (h : ℕ) (slot : Slot Payload)
      → get_elem? b.shared.buffer h ≡ some slot
      → get_elem? (map view_slot b.shared.buffer) h ≡ some (view_slot slot)
  view_there h slot there =
      get_elem?-map view_slot b.shared.buffer h ∙ ap (Option.map view_slot) there

  pub push_step-ByteInv : (p : Pushing Bytes) → ByteInv (record b { producer = p }) → Kept p
  unfolding push_step Spsc.push_step
  push_step-ByteInv (pushed e) v = local (pushed e) (pushed e) b.shared v refl refl refl refl tt
  push_step-ByteInv (wants x) v =
      local (wants x) (got_head x b.shared.head) b.shared v refl refl refl refl v.pushing
  push_step-ByteInv (got_head x h) v =
      local (got_head x h) (numbered x h (add_word b.shared.write_epoch 1)) b.shared v refl refl
        refl refl v.pushing
  push_step-ByteInv (numbered x h e) v =
      local (numbered x h e) (announced x h e) (record b.shared { write_epoch = e }) v refl refl
        refl refl v.pushing
  push_step-ByteInv (announced x h e) v =
      let (stands, room, few, here, next, _) = v.base.pushing in
      stores (announced x h e) (writing x h e) h
        (λ slot. record slot { value = record slot.value { len = length x % 2 ^ 32; torn = true } })
        b.history v here room
        (λ slot there len bytes. (
          push_stores (announced x h e) (writing x h e) h _ b.history (ground (arith, there))
              (append-nil b.history),
          view_stores (announced x h e) (writing x h e) h _ b.history
              (ground (arith, view_there h slot there)) (append-nil b.history),
          (
            _,
            get_elem?-set_self b.shared.buffer h _ (get_elem?-lt b.shared.buffer h slot there),
            omega (arith, v.pushing),
            v.pushing,
          ),
          omega (arith, v.pushing),
          bytes,
        ))
  push_step-ByteInv (writing x h e) v =
      let (stands, room, few, here, next, _) = v.base.pushing in
      stores (writing x h e) (wrote x h e) h
        (λ slot. record slot {
          value = record slot.value { bytes = x ++ drop (length x) slot.value.bytes; torn = false };
        })
        b.history v here room
        (λ slot there len bytes.
          let (slot', there', sized, small) = v.pushing in
          let same : slot ≡ slot' = some-injective slot slot' (sym there ∙ there') in
          let full : slot.value.len ≡ length x =
            ap (λ (o : Slot Payload). o.value.len) same ∙ sized in
          (
            push_stores (writing x h e) (wrote x h e) h _ b.history (ground (arith, there))
                (append-nil b.history),
            view_stores (writing x h e) (wrote x h e) h _ b.history
                (ground (
                  arith,
                  view_there h slot there,
                  take-append x (drop (length x) slot.value.bytes) slot.value.len full,
                ))
                (append-nil b.history),
            small,
            len,
            omega (
              arith,
              length-append x (drop (length x) slot.value.bytes),
              length-drop (length x) slot.value.bytes,
              bytes,
              small,
            ),
          ))
  push_step-ByteInv (wrote x h e) v =
      let (stands, room, few, here, next, old, whole) = v.base.pushing in
      stores (wrote x h e) (stamped h e) h (λ slot. record slot { epoch = e }) (b.history ++ x ∷ [])
        v here room
        (λ slot there len bytes. (
          push_stores (wrote x h e) (stamped h e) h _ (b.history ++ x ∷ []) (ground (arith, there))
              refl,
          view_stores (wrote x h e) (stamped h e) h _ (b.history ++ x ∷ [])
              (ground (arith, view_there h slot there)) refl,
          tt,
          len,
          bytes,
        ))
  push_step-ByteInv (stamped h e) v =
      local (stamped h e) (pushed e) (record b.shared { head = next_index b.shared h }) v refl refl
        refl refl tt
