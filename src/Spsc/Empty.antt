-- ===== src/Spsc/Empty.antt =====
-- ring_buffer/mod.rs: when `pop` returns `None`.
use bibi_sync.Base.{ℕ, ◌≤◌, ◌<◌, ◌≡◌, Option, none, List, length, arith, done}
use bibi_sync.Ring.{Slot}
use bibi_sync.Spsc.{
  Shared, Pushing, stamped, Popping, popped, got_read, got_write, taking, pop_step, System,
}
use bibi_sync.Spsc.Invariant.{PushOk, Inv}
use bibi_sync.Spsc.Pop.{left, unread_slot, is_fresh}

module _ {ℓ} {T : Type ℓ} (s : System T) where
  announced_ge :
      (head write_epoch c n r : ℕ) (buffer : List (Slot (Option T))) (p : Pushing T)
      → PushOk head write_epoch c buffer n r p
      → n ≤ write_epoch
  announced_ge head w c n r buffer (stamped h e) (k, last, stands, here, _) =
      omega (arith, stands.1)
  announced_ge head w c n r buffer p k = ground (arith, k)

  -- A call that is running returns `None` next: then all that is published is received.
  pub pop_none :
      (p : Popping T) (m : Shared T)
      → Inv (record s { consumer = p })
      → 0 < left p
      → pop_step s.shared p ≡ done (m, popped none)
      → ¬ (length s.received < length s.history)
  unfolding pop_step
  pop_none (popped x) m v running e = absurd (omega arith)
  pop_none (got_read t h k) m v running e =
      let count =
        announced_ge s.shared.head s.shared.write_epoch s.shared.capacity (length s.history)
          (length s.received) s.shared.buffer s.producer v.pushing in
      λ behind. ground (arith, e, behind, count)
  pop_none (got_write t h k w) m v running e =
      let (read, here, ahead, same, near, _) = v.popping in
      λ behind.
        let (x, next, there) = unread_slot s v behind in
        ground (arith, e, here, there, same, is_fresh s w v near)
  pop_none (taking t k) m v running e = λ behind.
      let (x, next, there) = unread_slot s v behind in ground (arith, e, v.popping.1, there)
  pop_none p m v running e = λ behind. ground (arith, e)
