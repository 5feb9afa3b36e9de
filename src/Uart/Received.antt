-- ===== src/Uart/Received.antt =====
-- pubsub/registry.rs, pubsub/topic.rs: what a reader gets from a bridge's topic, one `try_receive`
-- after the other.
use bibi_sync.Base.{
  ℕ, zero, suc, ◌-◌, ◌*◌, ◌/◌, ◌≤◌, ◌<◌, ◌≡◌, refl, sym, ap, subst, ◌∙◌, none, some, List, [], ◌∷◌,
  arith, length, drop, drop_all, drop-get_elem?, get_elem?, get_elem?-exists, done, lookup,
}
use bibi_sync.Log
use bibi_sync.Log.{Log, unread, landing}
use bibi_sync.Log.Fifo.{landing-near}
use bibi_sync.Registry.{ByteShelf, try_receive_at}
use bibi_sync.Registry.At.{Holds, try_receive_at-Holds}
use bibi_sync.Uart.Carries.{Carried, unused, used, topic_log}
use bibi_sync.Uart.Message.{MsgType, to_topic_name}
use bibi_sync.Uart.Wire.{Bytes}

-- Calls of `try_receive` through an `Arc` return these messages, one each, in order and with the epochs
-- that follow `epoch`, and then `None`.
abbrev pub Receives : ByteShelf → (arc epoch : ℕ) → List Bytes → Type 0
Receives shelf arc epoch [] =
    (shelf' : ByteShelf) × (try_receive_at shelf arc ≡ done (none, shelf'))
Receives shelf arc epoch (m ∷ ms) =
    (shelf' : ByteShelf) × (try_receive_at shelf arc ≡ done (some (m, suc epoch), shelf'))
    × Receives shelf' arc (suc epoch) ms

-- How many of the messages in a topic of 32 slots a reader that starts late never gets: whole
-- rounds of the slots, none if there are at most 32 messages.
abbrev pub lost : List Bytes → ℕ
lost msgs = 32 * ((length msgs - 1) / 32)

-- A reader of the topic of a type gets these messages but for those that are lost; the topic need not
-- be there if there are none.
pub data Delivered (shelf : ByteShelf) (t : MsgType) (msgs : List Bytes) : Type 0 where
  unsent : lookup (to_topic_name t) shelf.byte_topics ≡ none → msgs ≡ [] → Delivered shelf t msgs
  sent :
      (arc : ℕ)
      → lookup (to_topic_name t) shelf.byte_topics ≡ some arc
      → Receives shelf arc (lost msgs) (drop (lost msgs) msgs)
      → Delivered shelf t msgs

module _ {arc : ℕ} where
  receives_nothing :
      {shelf : ByteShelf} {log : Log Bytes}
      → Holds shelf arc log
      → unread log ≡ 0
      → (shelf' : ByteShelf) × (try_receive_at shelf arc ≡ done (none, shelf'))
  unfolding Log.oldest
  receives_nothing h caught_up =
      let (shelf', e, _, _) = try_receive_at-Holds h in (shelf', ground (arith, e, caught_up))

  -- The reader takes the message that it lands on.
  receives_one :
      {shelf : ByteShelf} {log : Log Bytes} (i : ℕ) (m : Bytes)
      → Holds shelf arc log
      → 0 < unread log
      → landing log ≡ i
      → get_elem? log.history i ≡ some m
      → (shelf' : ByteShelf) × (try_receive_at shelf arc ≡ done (some (m, suc i), shelf'))
        × Holds shelf' arc (record log { cursor = suc i })
  unfolding Log.oldest Log.receive
  receives_one {log = log} i m h pos lands found =
      let at : get_elem? log.history (landing log) ≡ some m =
        ap (get_elem? log.history) lands ∙ found in
      let (shelf', e, next, _) = try_receive_at-Holds h in
      let moved : (Log.receive log).1 ≡ record log { cursor = suc i } = ground (arith, lands) in
      (shelf', ground (arith, e, at, lands), subst (Holds shelf' arc) moved next)

  -- A reader that is not overtaken gets every message.
  Receives-near :
      (k : ℕ) {shelf : ByteShelf} {log : Log Bytes}
      → Holds shelf arc log
      → unread log ≡ k
      → k ≤ log.capacity
      → Receives shelf arc log.cursor (drop log.cursor log.history)
  Receives-near zero {shelf} {log} h all near =
      subst (Receives shelf arc log.cursor)
        (sym (drop_all log.cursor log.history (omega (arith, all)))) (receives_nothing h all)
  Receives-near (suc k) {shelf} {log} h more near =
      let (m, found) = get_elem?-exists log.history log.cursor (omega (arith, more)) in
      let here : landing log ≡ log.cursor =
        landing-near log (omega (arith, more, near)) (omega (arith, more)) in
      let (shelf', e, next) = receives_one log.cursor m h (omega (arith, more)) here found in
      subst (Receives shelf arc log.cursor) (sym (drop-get_elem? log.cursor log.history m found))
        (shelf', e, Receives-near k next (omega (arith, more)) (omega (arith, near)))

  Receives-drop :
      {shelf : ByteShelf} (msgs : List Bytes)
      → Holds shelf arc (topic_log msgs)
      → Receives shelf arc (lost msgs) (drop (lost msgs) msgs)
  Receives-drop [] h = Receives-near 0 h refl (omega arith)
  Receives-drop {shelf} (m ∷ ms) h =
      let msgs = m ∷ ms in
      let (first, found) = get_elem?-exists msgs (lost msgs) (omega arith) in
      let (shelf', e, next) = receives_one (lost msgs) first h (omega arith) (omega arith) found in
      subst (Receives shelf arc (lost msgs)) (sym (drop-get_elem? (lost msgs) msgs first found))
        (shelf', e, Receives-near (length msgs - suc (lost msgs)) next refl (omega arith))

pub Carried-Delivered :
    {shelf : ByteShelf} {t : MsgType} {msgs : List Bytes}
    → Carried shelf t msgs
    → Delivered shelf t msgs
Carried-Delivered (unused absent nil) = unsent absent nil
Carried-Delivered {msgs = msgs} (used arc there h) = sent arc there (Receives-drop msgs h)
