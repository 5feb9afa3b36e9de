-- ===== src/UnitTests/ByteRings.antt =====
-- ring_buffer/byte_buffer.rs: the unit tests on one thread.
use bibi_sync.Base.{
  ℕ, zero, suc, ◌+◌, ◌&&◌, Bool, true, false, Option, none, some, List, [], ◌∷◌, ◌≡◌, refl,
  replicate, length, Exec, done, out_of_fuel, ◌>>=◌, or_panic,
}
use bibi_sync.ByteRing.{
  Bytes, ByteRingBuffer, max_payload_size, new, push, pop, pop_loop, pop_turn, inspect, payload,
  peek_latest, peek_latest_ref, peek_oldest_ref, len,
}
use bibi_sync.UnitTests.{Passing, assert, assert_eq, eq_list, is_none, is_some}

-- The buffer after some calls of `push`, whose results are dropped.
abbrev pushed : ByteRingBuffer → List Bytes → Exec ByteRingBuffer
pushed rb [] = done rb
pushed rb (x ∷ xs) = do (epoch, rb') ← push rb x; pushed rb' xs

-- `let (data, _) = rb.pop().unwrap(); assert_eq!(data, expected);`
abbrev pops_data : ByteRingBuffer → Bytes → Exec ByteRingBuffer
pops_data rb expected = do
  (msg, rb') ← pop rb
  (data_in, epoch) ← or_panic msg
  same ← assert (eq_list data_in expected)
  done rb'

-- What a peek returned, unwrapped.
abbrev peeked_is : Option (Bytes × ℕ) → Bytes → ℕ → Passing
peeked_is msg expected number = do
  (data_in, epoch) ← or_panic msg
  same ← assert (eq_list data_in expected)
  assert_eq epoch number

-- `while let Some((data, _)) = rb.pop() { values.push(data); }`, of at most `fuel` items.
abbrev pop_all : (fuel : ℕ) → ByteRingBuffer → Exec (List Bytes)
pop_all zero rb = out_of_fuel
pop_all (suc fuel) rb = do
  (msg, rb') ← pop rb
  elim msg [ none ↦ done [] | some v ↦ (do values ← pop_all fuel rb'; done (v.0 ∷ values)) ]

abbrev eq_lists : List Bytes → List Bytes → Bool
eq_lists [] [] = true
eq_lists (x ∷ xs) (y ∷ ys) = eq_list x y && eq_lists xs ys
eq_lists xs ys = false

-- `(first..first + n).collect()`
abbrev counting : (n first : ℕ) → Bytes
counting zero first = []
counting (suc n) first = first ∷ counting n (first + 1)

abbrev test_variable_length_push_pop : Passing
test_variable_length_push_pop = do
  rb ← new 4
  filled ← pushed rb ((1 ∷ 2 ∷ 3 ∷ []) ∷ (10 ∷ 20 ∷ 30 ∷ 40 ∷ 50 ∷ []) ∷ (100 ∷ []) ∷ [])
  rb1 ← pops_data filled (1 ∷ 2 ∷ 3 ∷ [])
  rb2 ← pops_data rb1 (10 ∷ 20 ∷ 30 ∷ 40 ∷ 50 ∷ [])
  rb3 ← pops_data rb2 (100 ∷ [])
  done tt

test_variable_length_push_pop_passes : test_variable_length_push_pop ≡ done tt
unfolding new push pop pop_loop pop_turn inspect payload peek_latest peek_latest_ref peek_oldest_ref
    len
test_variable_length_push_pop_passes = refl

abbrev test_imu_sized_message : Passing
test_imu_sized_message = do
  rb ← new 8
  filled ← pushed rb (counting 56 0 ∷ [])
  (msg, rb') ← pop filled
  (data_in, epoch) ← or_panic msg
  sized ← assert_eq (length data_in) 56
  assert_eq epoch 1

test_imu_sized_message_passes : test_imu_sized_message ≡ done tt
unfolding new push pop pop_loop pop_turn inspect payload peek_latest peek_latest_ref peek_oldest_ref
    len
test_imu_sized_message_passes = refl

abbrev test_max_payload : Passing
test_max_payload = do
  rb ← new 4
  (accepted, rb') ← push rb (replicate max_payload_size 0xab)
  fits ← assert (is_some accepted)
  (refused, rb'') ← push rb' (replicate (max_payload_size + 1) 0xcd)
  assert (is_none refused)

test_max_payload_passes : test_max_payload ≡ done tt
unfolding new push pop pop_loop pop_turn inspect payload peek_latest peek_latest_ref peek_oldest_ref
    len
test_max_payload_passes = refl

abbrev test_zero_copy_peek : Passing
test_zero_copy_peek = do
  rb ← new 4
  filled ← pushed rb ((1 ∷ 2 ∷ 3 ∷ 4 ∷ 5 ∷ []) ∷ (10 ∷ 20 ∷ 30 ∷ []) ∷ [])
  msg ← peek_latest_ref filled
  latest ← peeked_is msg (10 ∷ 20 ∷ 30 ∷ []) 2
  assert_eq (len filled) 2

test_zero_copy_peek_passes : test_zero_copy_peek ≡ done tt
unfolding new push pop pop_loop pop_turn inspect payload peek_latest peek_latest_ref peek_oldest_ref
    len
test_zero_copy_peek_passes = refl

abbrev test_overflow_variable_length : Passing
test_overflow_variable_length = do
  rb ← new 3
  filled ←
      pushed rb ((1 ∷ 1 ∷ 1 ∷ []) ∷ (2 ∷ 2 ∷ []) ∷ (3 ∷ 3 ∷ 3 ∷ 3 ∷ []) ∷ (4 ∷ []) ∷ (5 ∷ []) ∷ [])
  values ← pop_all 9 filled
  assert (eq_lists values ((4 ∷ []) ∷ (5 ∷ []) ∷ []))

test_overflow_variable_length_passes : test_overflow_variable_length ≡ done tt
unfolding new push pop pop_loop pop_turn inspect payload peek_latest peek_latest_ref peek_oldest_ref
    len
test_overflow_variable_length_passes = refl

abbrev test_peek_latest_owned : Passing
test_peek_latest_owned = do
  rb ← new 4
  filled ← pushed rb ((1 ∷ 2 ∷ 3 ∷ []) ∷ (10 ∷ 20 ∷ 30 ∷ 40 ∷ []) ∷ [])
  msg ← peek_latest filled
  latest ← peeked_is msg (10 ∷ 20 ∷ 30 ∷ 40 ∷ []) 2
  assert_eq (len filled) 2

test_peek_latest_owned_passes : test_peek_latest_owned ≡ done tt
unfolding new push pop pop_loop pop_turn inspect payload peek_latest peek_latest_ref peek_oldest_ref
    len
test_peek_latest_owned_passes = refl

abbrev test_peek_oldest_ref : Passing
test_peek_oldest_ref = do
  rb ← new 4
  filled ← pushed rb ((1 ∷ 2 ∷ 3 ∷ []) ∷ (10 ∷ 20 ∷ []) ∷ (100 ∷ []) ∷ [])
  msg ← peek_oldest_ref filled
  oldest ← peeked_is msg (1 ∷ 2 ∷ 3 ∷ []) 1
  assert_eq (len filled) 3

test_peek_oldest_ref_passes : test_peek_oldest_ref ≡ done tt
unfolding new push pop pop_loop pop_turn inspect payload peek_latest peek_latest_ref peek_oldest_ref
    len
test_peek_oldest_ref_passes = refl

abbrev test_peek_methods_empty_buffer : Passing
test_peek_methods_empty_buffer = do
  rb ← new 4
  latest ← peek_latest rb
  none1 ← assert (is_none latest)
  latest_ref ← peek_latest_ref rb
  none2 ← assert (is_none latest_ref)
  oldest ← peek_oldest_ref rb
  assert (is_none oldest)

test_peek_methods_empty_buffer_passes : test_peek_methods_empty_buffer ≡ done tt
unfolding new push pop pop_loop pop_turn inspect payload peek_latest peek_latest_ref peek_oldest_ref
    len
test_peek_methods_empty_buffer_passes = refl
