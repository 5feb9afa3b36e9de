-- ===== src/Spsc/Moves.antt =====
-- ring_buffer/mod.rs: steps on a thread's own variables.
use bibi_sync.Base.{length}
use bibi_sync.Spsc.{Pushing, Popping, System}
use bibi_sync.Spsc.Invariant.{PushOk, PopOk, Inv}

module _ {ℓ} {T : Type ℓ} where
  -- A state whose producer has another place.
  pub with_producer :
      (s : System T) (p : Pushing T)
      → Inv s
      → PushOk s.shared.head s.shared.write_epoch s.shared.capacity s.shared.buffer
          (length s.history)
          (length s.received)
          p
      → Inv (record s { producer = p })
  with_producer s p v pushing = record {
    capacity_pos = v.capacity_pos;
    capacity_fits = v.capacity_fits;
    behind = v.behind;
    ahead = v.ahead;
    counted = v.counted;
    announces = v.announces;
    tail_at = v.tail_at;
    slots = v.slots;
    pushing = pushing;
    popping = v.popping;
    in_order = v.in_order;
  }

  pub with_consumer :
      (s : System T) (p : Popping T)
      → Inv s
      → PopOk s.shared.head s.shared.read_epoch s.shared.capacity (length s.received) s.history p
      → Inv (record s { consumer = p })
  with_consumer s p v popping = record {
    capacity_pos = v.capacity_pos;
    capacity_fits = v.capacity_fits;
    behind = v.behind;
    ahead = v.ahead;
    counted = v.counted;
    announces = v.announces;
    tail_at = v.tail_at;
    slots = v.slots;
    pushing = v.pushing;
    popping = popping;
    in_order = v.in_order;
  }
