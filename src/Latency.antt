-- ===== src/Latency.antt =====
-- examples/latency_metrics.rs: the samples that are taken from the port, and their order statistics.
pub mod Sorted
pub mod Samples
use bibi_sync.Base.{
  Bool, ℕ, zero, suc, ◌+◌, ◌-◌, ◌*◌, ◌/◌, ◌%◌, true, false, Option, none, some, List, [], ◌∷◌, ◌++◌,
  ltb, leb, if◌then◌else◌, length, Exec, done, panicked, out_of_fuel, ◌>>=◌, index, word_mod,
  sub_word,
}
use bibi_sync.Uart.Loop.{ReadResult, bytes_read, timed_out, read_error}
use bibi_sync.Uart.Message.{MsgType}
use bibi_sync.Uart.Wire.{Bytes, scan}
use bibi_sync.Controller.{finish}

abbrev pub num_samples : ℕ
num_samples = 1000

-- The same text as the controller's parser; when it started is the environment's.
unfoldable pub try_parse_frame : Bytes → Exec (Option (MsgType × Bytes) × Bytes)
try_parse_frame rx = do found ← scan rx; finish found

-- The counter and the three vectors of microseconds.
pub record Measured : Type 0 where
  pub sample_count : ℕ
  pub rx_latencies : List ℕ
  pub parse_latencies : List ℕ
  pub total_latencies : List ℕ

abbrev pub nothing_measured : Measured
nothing_measured = record {
  sample_count = 0;
  rx_latencies = [];
  parse_latencies = [];
  total_latencies = [];
}

-- What the clock says of a frame.
pub record Times : Type 0 where
  pub parse_us : ℕ
  pub total_us : ℕ

abbrev pub sample : Measured → (rx_us : ℕ) → Times → Measured
sample m rx_us t = record {
  sample_count = suc m.sample_count;
  rx_latencies = m.rx_latencies ++ rx_us ∷ [];
  parse_latencies = m.parse_latencies ++ t.parse_us ∷ [];
  total_latencies = m.total_latencies ++ t.total_us ∷ [];
}

-- `clock` gives the times of each sample, and `row_written` says whether its row goes into the CSV file:
-- the `unwrap` after `writeln!` panics if it does not.
module _ (clock : ℕ → Times) (row_written : ℕ → Bool) where
  -- The inner `while let`. Every round with a frame takes bytes away.
  unfoldable pub take_frames : ℕ → Measured → (rx_us : ℕ) → Bytes → Exec (Measured × Bytes)
  take_frames zero m rx_us rx = out_of_fuel
  take_frames (suc fuel) m rx_us rx = do
    (parsed, rest) ← try_parse_frame rx
    elim parsed [
      | none ↦ done (m, rest)
      | some frame ↦ elim (row_written m.sample_count) [
        | false ↦ panicked
        | true ↦
            let m' = sample m rx_us (clock m.sample_count) in
            elim (leb num_samples m'.sample_count) [
              | true ↦ done (m', rest)
              | false ↦ take_frames fuel m' rx_us rest
            ]
      ]
    ]

  -- A round of the outer loop: what the read comes to after `rx_us` microseconds.
  unfoldable pub on_read : Measured → Bytes → (rx_us : ℕ) → ReadResult → Exec (Measured × Bytes)
  on_read m rx rx_us (bytes_read []) = done (m, rx)
  on_read m rx rx_us (bytes_read (b ∷ bs)) =
      take_frames (suc (length (rx ++ b ∷ bs))) m rx_us (rx ++ b ∷ bs)
  on_read m rx rx_us timed_out = done (m, rx)
  on_read m rx rx_us (read_error code) = done (m, rx)

  -- Until there are enough samples, or no more reads are given.
  unfoldable pub measure : Measured → Bytes → List (ℕ × ReadResult) → Exec Measured
  measure m rx [] = done m
  measure m rx ((rx_us, result) ∷ reads) = elim (ltb m.sample_count num_samples) [
    | false ↦ done m
    | true ↦ (do (m', rest) ← on_read m rx rx_us result; measure m' rest reads)
  ]

-- `sort` on numbers
abbrev pub insert : ℕ → List ℕ → List ℕ
insert x [] = x ∷ []
insert x (y ∷ ys) = if leb x y then x ∷ y ∷ ys else y ∷ insert x ys

abbrev pub sort : List ℕ → List ℕ
sort [] = []
sort (x ∷ xs) = insert x (sort xs)

pub record Summary : Type 0 where
  pub p50 : ℕ
  pub p95 : ℕ
  pub p99 : ℕ
  pub smallest : ℕ
  pub largest : ℕ

-- `sorted.len() * percent / 100`
abbrev pub rank : (size percent : ℕ) → ℕ
rank size percent = size * percent % word_mod / 100

-- The order statistics; the mean and the deviation are printed only.
unfoldable pub stats : List ℕ → Exec (Option Summary)
stats [] = done none
stats (x ∷ xs) =
    let sorted = sort (x ∷ xs) in
    do
      p50 ← index sorted (rank (length sorted) 50)
      p95 ← index sorted (rank (length sorted) 95)
      p99 ← index sorted (rank (length sorted) 99)
      smallest ← index sorted 0
      largest ← index sorted (sub_word (length sorted) 1)
      done (
          some (record { p50 = p50; p95 = p95; p99 = p99; smallest = smallest; largest = largest }))
