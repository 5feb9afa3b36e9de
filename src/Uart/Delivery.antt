-- ===== src/Uart/Delivery.antt =====
-- uart/mod.rs: what the bridge publishes on the topic of each message type.
use mathlib.Core.List.{flatten}
use bibi_sync.Base.{
  ℕ, suc, ◌+◌, ◌≤◌, ◌<◌, ◌≡◌, refl, sym, ap, subst, ◌∙◌, List, [], ◌∷◌, ◌++◌, append_assoc,
  append-nil, arith, ◌==◌, if◌then◌else◌, length, length-append, done, ◌>>=◌, lookup, word_mod,
}
use bibi_sync.Log
use bibi_sync.Log.{Log}
use bibi_sync.Registry.{ByteShelf, empty_shelf}
use bibi_sync.Registry.At.{Holds, publish_at-Holds}
use bibi_sync.Uart.{UartFrame, publish_frame}
use bibi_sync.Uart.Message.{MsgType, to_u8}
use bibi_sync.Uart.Wire.{Bytes, max_msg_size}
use bibi_sync.Uart.Stream.{AllFit, encode_all, publish_all, read_all, read_all-encode_all}
use bibi_sync.Uart.Carries.{topic_log, Carried, unused, Carries, add, written-Carries, ready}

-- The payloads of the frames of type `t`, in their order.
unfoldable pub payloads : MsgType → List UartFrame → List Bytes
payloads t [] = []
payloads t (f ∷ fs) =
    if to_u8 f.msg_type == to_u8 t then f.payload ∷ payloads t fs else payloads t fs

publish_frame-Carries :
    {shelf : ByteShelf} {sent : MsgType → List Bytes} (f : UartFrame)
    → Carries shelf sent
    → length f.payload ≤ max_msg_size
    → suc (length (sent f.msg_type)) < word_mod
    → (shelf' : ByteShelf) × (publish_frame shelf f ≡ done shelf')
      × Carries shelf' (add f.msg_type f.payload sent)
unfolding publish_frame Log.publish
publish_frame-Carries {sent = sent} f c small fits =
    let r = ready c f.msg_type (c.carried f.msg_type) in
    let (shelf', e, holds, (topic', only)) =
      publish_at-Holds r.holds f.payload (omega arith) fits in
    (
      shelf',
      ground (arith, r.asked, e),
      subst (λ s. Carries s (add f.msg_type f.payload sent)) (sym only)
          (written-Carries r.carries f.msg_type f.payload r.arc r.named topic' (
            subst (λ s. Holds s r.arc (Log.publish (topic_log (sent f.msg_type)) f.payload)) only
              holds)),
    )

-- The messages with those of some frames.
abbrev after : (MsgType → List Bytes) → List UartFrame → MsgType → List Bytes
after sent fs u = sent u ++ payloads u fs

publish_all-Carries :
    (fs : List UartFrame) {shelf : ByteShelf} {sent : MsgType → List Bytes} (n : ℕ)
    → Carries shelf sent
    → AllFit fs
    → ((u : MsgType) → length (sent u) ≤ n)
    → n + length fs < word_mod
    → (shelf' : ByteShelf) × (publish_all shelf fs ≡ done shelf')
      × ((u : MsgType) → Carried shelf' u (after sent fs u))
unfolding publish_all payloads
publish_all-Carries [] {shelf} {sent} n c fit bound fits =
    (shelf, refl, λ u. subst (Carried shelf u) (sym (append-nil (sent u))) (c.carried u))
publish_all-Carries (f ∷ fs) {shelf} {sent} n c fit bound fits =
    let (next, e, w) = publish_frame-Carries f c fit.0 (omega (arith, bound f.msg_type)) in
    let (shelf', g, all) =
      publish_all-Carries fs (suc n) w fit.1
        (λ u. ground (arith, bound u, length-append (sent u) (f.payload ∷ []))) (omega arith) in
    (
      shelf',
      ap (λ m. m >>= λ s. publish_all s fs) e ∙ g,
      λ u.
          subst (Carried shelf' u)
            (ground (arith, append_assoc (sent u) (f.payload ∷ []) (payloads u fs))) (all u),
    )

nothing_sent : Carries empty_shelf (λ t. [])
unfolding empty_shelf lookup
nothing_sent = record {
  free = refl;
  entry = λ name arc e. cc;
  apart = λ s t arc e f. cc;
  carried = λ t. unused refl refl;
}

-- Let the bytes of fewer than 2^64 frames with payloads of at most 244 bytes come in, cut into
-- reads in any way, over a new registry. The bridge then has an empty buffer, and for every message
-- type the topic of that type's name represents the log of 32 slots in which exactly the payloads of
-- the frames of that type were published, in order, with none of them received: its slots have the
-- last 32. The topic need not exist if there are none.
pub read_all_delivers :
    (t : MsgType) (frames : List UartFrame) (chunks : List Bytes)
    → length frames < word_mod
    → AllFit frames
    → flatten chunks ≡ encode_all frames
    → (shelf : ByteShelf) × (read_all empty_shelf [] chunks ≡ done (shelf, []))
      × Carried shelf t (payloads t frames)
read_all_delivers t frames chunks few fit e =
    let (shelf, published, all) =
      publish_all-Carries frames 0 nothing_sent fit (λ u. omega arith) (omega arith) in
    (
      shelf,
      read_all-encode_all empty_shelf frames chunks fit e
          ∙ ap (λ m. m >>= λ s. done (s, [])) published,
      all t,
    )
