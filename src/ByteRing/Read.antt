-- ===== src/ByteRing/Read.antt =====
-- ring_buffer/byte_buffer.rs: `pop`, the peeks and `len`, against the log that the slots represent.
use bibi_sync.Base.{
  suc, ◌-◌, ◌%◌, ◌<◌, ◌≡◌, sym, ap, ◌∙◌, inl, inr, none, some, leb, le→leb, ◌==◌, length, get_elem?,
  arith, done, stop, false, true, of_get_elem?-map, get_elem?-exists, get_elem?-none, Bool-cases,
}
use native.Mathlib.Decide.{dec_lt}
use bibi_sync.Log
use bibi_sync.Log.{Log, landing, unread}
use bibi_sync.Ring
use bibi_sync.Ring.{RingBuffer, Slot}
use bibi_sync.Ring.Read
use bibi_sync.ByteRing.Refine.{view, view_slot, ByteRepresents, payload_sound}
use bibi_sync.ByteRing.{
  ByteRingBuffer, ByteSlot, Bytes, payload, pop_turn, pop, peek_latest, peek_oldest_ref, len,
  latest_idx,
}

module _ {rb : ByteRingBuffer} {log : Log Bytes} (v : ByteRepresents rb log) where
  at_tail :
      (x : Bytes)
      → get_elem? log.history (landing log) ≡ some x
      → (slot : ByteSlot) × (get_elem? rb.buffer rb.tail ≡ some slot)
        × (payload slot ≡ done x)
        × (slot.epoch ≡ suc (landing log))
  at_tail x e =
      let (slot, at, same) =
        of_get_elem?-map view_slot rb.buffer rb.tail _ (Read.tail_slot v.viewed x e) in
      (
        slot,
        at,
        payload_sound slot (v.sound rb.tail slot at) ∙ ap (λ s. done s.value) same,
        ap (λ s. s.epoch) same,
      )

  caught_up :
      log.cursor ≡ length log.history
      → (slot : ByteSlot) × (get_elem? rb.buffer rb.tail ≡ some slot)
        × (leb slot.epoch rb.read_epoch ≡ true)
  caught_up same =
      let (seen, at, old) = Read.caught_up_slot v.viewed same in
      let (slot, found, e) = of_get_elem?-map view_slot rb.buffer rb.tail seen at in
      (slot, found, le→leb _ _ (omega (arith, ap (λ s. s.epoch) e, old, v.viewed.read)))

  -- The state after a `pop` that finds a message.
  popped : ByteRingBuffer
  popped = record rb { read_epoch = suc (landing log); tail = suc (landing log) % rb.capacity }

  popped-ByteRepresents :
      log.cursor < length log.history
      → ByteRepresents popped (record log { cursor = suc (landing log) })
  unfolding popped Read.popped
  popped-ByteRepresents behind = record {
    viewed = Read.popped-Represents v.viewed behind;
    sound = v.sound;
  }

  pop_turn-none : log.cursor ≡ length log.history → pop_turn rb ≡ done (stop (none, rb))
  unfolding pop_turn
  pop_turn-none same =
      let (slot, e, old) = caught_up same in
      ground (arith, e, old, v.viewed.head_at, v.viewed.tail_at, ap (λ n. n % rb.capacity) same)

  pop_turn-some :
      (x : Bytes)
      → log.cursor < length log.history
      → get_elem? log.history (landing log) ≡ some x
      → pop_turn rb ≡ done (stop (some (x, suc (landing log)), popped))
  unfolding pop_turn popped
  pop_turn-some x behind e =
      let (slot, found, read, number) = at_tail x e in
      ground (
        arith,
        found,
        read,
        number,
        Read.is_written v.viewed (omega arith),
        Read.unconsumed v.viewed,
        Read.not_overwritten v.viewed,
        Read.tail_next v.viewed,
      )

  -- If a byte buffer represents a log, `pop` ends without a panic and returns the message that the
  -- log's reader receives, whole, with its epoch, or `None` if there is none; the new buffer
  -- represents the log with that message received.
  pub pop-ByteRepresents :
      (rb' : ByteRingBuffer) × (pop rb ≡ done (Log.oldest log, rb'))
      × ByteRepresents rb' (Log.receive log).1
  unfolding pop pop_turn Log.oldest Log.receive
  pop-ByteRepresents = elim (dec_lt log.cursor (length log.history)) [
    | yes behind ↦
        let (x, e) = get_elem?-exists log.history (landing log) (Read.landing_lt v.viewed behind) in
        let more : leb (length log.history) log.cursor ≡ false = ground arith in
        (
          popped,
          ground (arith, pop_turn-some x behind e, e, more),
          ground (arith, popped-ByteRepresents behind, more),
        )
    | no caught ↦
        let ended : leb (length log.history) log.cursor ≡ true = ground arith in
        (
          rb,
          ground (arith, pop_turn-none (omega (arith, v.viewed.read_le)), ended),
          ground (arith, v, ended),
        )
  ]

  at_latest :
      (x : Bytes)
      → 0 < length log.history
      → get_elem? log.history (length log.history - 1) ≡ some x
      → (slot : ByteSlot) × (get_elem? rb.buffer (latest_idx rb) ≡ some slot)
        × (payload slot ≡ done x)
        × (slot.epoch ≡ length log.history)
  at_latest x pos e =
      let there =
        ap (get_elem? (view rb).buffer) (sym (Read.latest_at v.viewed pos))
        ∙ v.viewed.live (length log.history - 1) x e (omega (arith, v.viewed.capacity_pos)) in
      let (slot, found, same) = of_get_elem?-map view_slot rb.buffer (latest_idx rb) _ there in
      (
        slot,
        found,
        payload_sound slot (v.sound (latest_idx rb) slot found) ∙ ap (λ s. done s.value) same,
        ap (λ s. s.epoch) same ∙ omega arith,
      )

  pub peek_latest-eq-latest : peek_latest rb ≡ done (Log.latest log)
  unfolding peek_latest Log.latest
  peek_latest-eq-latest = elim (dec_lt 0 (length log.history)) [
    | yes pos ↦
        let (x, e) = get_elem?-exists log.history (length log.history - 1) (omega arith) in
        let (slot, found, read, number) = at_latest x pos e in
        ground (arith, e, found, read, number, Read.is_written v.viewed pos)
    | no nothing ↦
        let unwritten : (rb.write_epoch == 0) ≡ true = ground (arith, v.viewed.written) in
        ground (arith, unwritten, get_elem?-none log.history (length log.history - 1))
  ]

  pub peek_oldest_ref-eq-oldest : peek_oldest_ref rb ≡ done (Log.oldest log)
  unfolding peek_oldest_ref Log.oldest
  peek_oldest_ref-eq-oldest = elim (dec_lt log.cursor (length log.history)) [
    | yes behind ↦
        let (x, e) = get_elem?-exists log.history (landing log) (Read.landing_lt v.viewed behind) in
        let (slot, found, read, number) = at_tail x e in
        let more : leb (length log.history) log.cursor ≡ false = ground arith in
        ground (
          arith,
          e,
          found,
          read,
          number,
          more,
          Read.is_written v.viewed (omega arith),
          Read.unconsumed v.viewed,
        )
    | no caught ↦
        let (slot, found, consumed) = caught_up (omega (arith, v.viewed.read_le)) in
        let ended : leb (length log.history) log.cursor ≡ true = ground arith in
        elim (Bool-cases (rb.write_epoch == 0)) [
          | inl unwritten ↦ ground (arith, found, consumed, ended)
          | inr written ↦ ground (arith, found, consumed, ended)
        ]
  ]

  pub len-eq-size : len rb ≡ Log.size log
  unfolding len
  len-eq-size = unfold Ring.len in Read.len-eq-size v.viewed
