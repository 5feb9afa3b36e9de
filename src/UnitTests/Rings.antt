-- ===== src/UnitTests/Rings.antt =====
-- ring_buffer/mod.rs: the unit tests on one thread.
use bibi_sync.Base.{
  ℕ, zero, suc, none, some, List, [], ◌∷◌, ◌≡◌, refl, Exec, done, out_of_fuel, ◌>>=◌, or_panic,
}
use bibi_sync.Ring.{
  RingBuffer, new, push, pop, pop_loop, pop_turn, inspect, peek_latest, peek_latest_ref,
  latest_epoch, len, is_full,
}
use bibi_sync.UnitTests.{Passing, assert, assert_eq, eq_list, is_some_of, is_none}

-- `RingBuffer::<i32>::new`
abbrev new_i32 : ℕ → Exec (RingBuffer ℕ)
new_i32 capacity = new 0 16 capacity

-- The buffer after some calls of `push`, whose results are dropped.
abbrev pushed : RingBuffer ℕ → List ℕ → Exec (RingBuffer ℕ)
pushed rb [] = done rb
pushed rb (x ∷ xs) = do (epoch, rb') ← push rb x; pushed rb' xs

-- `assert_eq!(rb.pop(), Some(n))`
abbrev pops_some : RingBuffer ℕ → ℕ → Exec (RingBuffer ℕ)
pops_some rb n = do (x, rb') ← pop rb; ok ← assert (is_some_of x n); done rb'

-- `assert_eq!(rb.pop(), None)`
abbrev pops_none : RingBuffer ℕ → Exec (RingBuffer ℕ)
pops_none rb = do (x, rb') ← pop rb; ok ← assert (is_none x); done rb'

-- `while let Some(v) = rb.pop() { values.push(v); }`, of at most `fuel` items.
abbrev pop_all : (fuel : ℕ) → RingBuffer ℕ → Exec (List ℕ)
pop_all zero rb = out_of_fuel
pop_all (suc fuel) rb = do
  (x, rb') ← pop rb
  elim x [ none ↦ done [] | some v ↦ (do values ← pop_all fuel rb'; done (v ∷ values)) ]

abbrev test_push_pop_fifo : Passing
test_push_pop_fifo = do
  rb ← new_i32 5
  filled ← pushed rb (10 ∷ 20 ∷ 30 ∷ [])
  rb1 ← pops_some filled 10
  rb2 ← pops_some rb1 20
  rb3 ← pops_some rb2 30
  rb4 ← pops_none rb3
  done tt

test_push_pop_fifo_passes : test_push_pop_fifo ≡ done tt
unfolding new push pop pop_loop pop_turn inspect peek_latest peek_latest_ref latest_epoch len
    is_full
test_push_pop_fifo_passes = refl

abbrev test_wraparound : Passing
test_wraparound = do
  rb ← new_i32 3
  filled ← pushed rb (1 ∷ 2 ∷ 3 ∷ [])
  rb1 ← pops_some filled 1
  rb2 ← pushed rb1 (4 ∷ [])
  rb3 ← pops_some rb2 2
  rb4 ← pops_some rb3 3
  rb5 ← pops_some rb4 4
  rb6 ← pops_none rb5
  done tt

test_wraparound_passes : test_wraparound ≡ done tt
unfolding new push pop pop_loop pop_turn inspect peek_latest peek_latest_ref latest_epoch len
    is_full
test_wraparound_passes = refl

abbrev test_epoch_increment : Passing
test_epoch_increment = do
  rb ← new_i32 5
  (e1, rb1) ← push rb 10
  (e2, rb2) ← push rb1 20
  first ← assert_eq e1 1
  second ← assert_eq e2 2
  assert_eq (latest_epoch rb2) 2

test_epoch_increment_passes : test_epoch_increment ≡ done tt
unfolding new push pop pop_loop pop_turn inspect peek_latest peek_latest_ref latest_epoch len
    is_full
test_epoch_increment_passes = refl

abbrev test_overflow_skips_old : Passing
test_overflow_skips_old = do
  rb ← new_i32 3
  filled ← pushed rb (1 ∷ 2 ∷ 3 ∷ 4 ∷ 5 ∷ [])
  values ← pop_all 9 filled
  assert (eq_list values (4 ∷ 5 ∷ []))

test_overflow_skips_old_passes : test_overflow_skips_old ≡ done tt
unfolding new push pop pop_loop pop_turn inspect peek_latest peek_latest_ref latest_epoch len
    is_full
test_overflow_skips_old_passes = refl

abbrev test_full_capacity_usable : Passing
test_full_capacity_usable = do
  rb ← new_i32 3
  filled ← pushed rb (1 ∷ 2 ∷ 3 ∷ [])
  three ← assert_eq (len filled) 3
  assert (is_full filled)

test_full_capacity_usable_passes : test_full_capacity_usable ≡ done tt
unfolding new push pop pop_loop pop_turn inspect peek_latest peek_latest_ref latest_epoch len
    is_full
test_full_capacity_usable_passes = refl

abbrev test_peek_latest : Passing
test_peek_latest = do
  rb ← new_i32 5
  filled ← pushed rb (10 ∷ 20 ∷ 30 ∷ [])
  peeked ← peek_latest filled
  (val, epoch) ← or_panic peeked
  same ← assert_eq val 30
  assert_eq epoch 3

test_peek_latest_passes : test_peek_latest ≡ done tt
unfolding new push pop pop_loop pop_turn inspect peek_latest peek_latest_ref latest_epoch len
    is_full
test_peek_latest_passes = refl

abbrev test_zero_copy_peek_ref : Passing
test_zero_copy_peek_ref = do
  rb ← new_i32 5
  filled ← pushed rb (10 ∷ 20 ∷ 30 ∷ [])
  peeked ← peek_latest_ref filled
  (val_ref, epoch) ← or_panic peeked
  assert_eq val_ref 30

test_zero_copy_peek_ref_passes : test_zero_copy_peek_ref ≡ done tt
unfolding new push pop pop_loop pop_turn inspect peek_latest peek_latest_ref latest_epoch len
    is_full
test_zero_copy_peek_ref_passes = refl
