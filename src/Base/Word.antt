-- ===== src/Base/Word.antt =====
-- 64-bit unsigned words (`u64`, and `usize` on the program's targets): arithmetic wraps, as in a
-- release build.
use Prim.Native.Nat.{ℕ, ◌+◌, ◌-◌, ◌%◌, ◌^◌}

abbrev pub word_mod : ℕ
word_mod = 2 ^ 64

abbrev pub add_word : ℕ → ℕ → ℕ
add_word a b = (a + b) % word_mod

abbrev pub sub_word : ℕ → ℕ → ℕ
sub_word a b = (a + word_mod - b) % word_mod

-- The bytes that a `Vec` can have at most: `Vec::with_capacity` panics beyond them.
abbrev pub isize_max : ℕ
isize_max = 2 ^ 63 - 1
