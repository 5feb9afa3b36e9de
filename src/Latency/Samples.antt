-- ===== src/Latency/Samples.antt =====
-- examples/latency_metrics.rs: how many samples are taken, and what `stats` makes of them.
use bibi_sync.Base.{
  Bool, true, ℕ, zero, suc, ◌≤◌, ◌<◌, ◌≡◌, refl, ◌∙◌, inl, inr, Bool-cases, Option, none, some,
  List, [], ◌∷◌, ◌++◌, ltb, leb, length, length-append, done, arith, Option-cases,
}
use bibi_sync.Uart.Loop.{ReadResult, bytes_read, timed_out, read_error}
use bibi_sync.Uart.Wire.{Bytes}
use bibi_sync.Controller
use bibi_sync.Controller.Receive.{try_parse_frame-Progress}
use bibi_sync.Latency.{
  num_samples, try_parse_frame, Measured, nothing_measured, Times, sample, take_frames, on_read,
  measure, Summary, stats,
}
use bibi_sync.Latency.Sorted.{IsSummary, stats-IsSummary}

-- One entry in each vector for a sample, and not more samples than are wanted.
pub record Counted (m : Measured) : Type 0 where
  pub enough : m.sample_count ≤ num_samples
  pub rx : length m.rx_latencies ≡ m.sample_count
  pub parse : length m.parse_latencies ≡ m.sample_count
  pub total : length m.total_latencies ≡ m.sample_count

sample-Counted :
    (m : Measured) (rx_us : ℕ) (t : Times)
    → Counted m
    → m.sample_count < num_samples
    → Counted (sample m rx_us t)
sample-Counted m rx_us t v room = record {
  enough = room;
  rx = omega (arith, length-append m.rx_latencies (rx_us ∷ []), v.rx);
  parse = omega (arith, length-append m.parse_latencies (t.parse_us ∷ []), v.parse);
  total = omega (arith, length-append m.total_latencies (t.total_us ∷ []), v.total);
}

parse_same : (rx : Bytes) → try_parse_frame rx ≡ Controller.try_parse_frame rx
unfolding try_parse_frame Controller.try_parse_frame
parse_same rx = refl

-- Every row that is asked for is written.
module _ (clock : ℕ → Times) (row_written : ℕ → Bool)
    (writes : (i : ℕ) → i < num_samples → row_written i ≡ true) where
  take_frames-Counted :
      (fuel : ℕ) (m : Measured) (rx_us : ℕ) (rx : Bytes)
      → length rx < fuel
      → Counted m
      → m.sample_count < num_samples
      → (m' : Measured) × (rest : Bytes) × (take_frames clock row_written fuel m rx_us rx
          ≡ done (m', rest))
        × Counted m'
  unfolding take_frames
  take_frames-Counted zero m rx_us rx le v room = absurd (omega (arith, le))
  take_frames-Counted (suc fuel) m rx_us rx le v room =
      let p = try_parse_frame-Progress rx in
      let parsed = parse_same rx ∙ p.returned in
      elim (Option-cases p.msg) [
        | inl nothing ↦ (m, p.rest, ground (arith, parsed, nothing), v)
        | inr (frame, found) ↦
            let m' = sample m rx_us (clock m.sample_count) in
            let w = sample-Counted m rx_us (clock m.sample_count) v room in
            elim (Bool-cases (leb num_samples m'.sample_count)) [
              | inl full ↦
                  (m', p.rest, ground (arith, parsed, found, writes m.sample_count room, full), w)
              | inr more ↦
                  let (m'', rest, e, u) =
                    take_frames-Counted fuel m' rx_us p.rest
                      (omega (arith, p.shorter frame found, le)) w (ground (arith, more)) in
                  (m'', rest, ground (arith, parsed, found, writes m.sample_count room, more, e), u)
            ]
      ]

  on_read-Counted :
      (m : Measured) (rx : Bytes) (rx_us : ℕ) (result : ReadResult)
      → Counted m
      → m.sample_count < num_samples
      → (m' : Measured) × (rest : Bytes) × (on_read clock row_written m rx rx_us result
          ≡ done (m', rest))
        × Counted m'
  unfolding on_read
  on_read-Counted m rx rx_us timed_out v room = (m, rx, refl, v)
  on_read-Counted m rx rx_us (read_error code) v room = (m, rx, refl, v)
  on_read-Counted m rx rx_us (bytes_read []) v room = (m, rx, refl, v)
  on_read-Counted m rx rx_us (bytes_read (b ∷ bs)) v room =
      take_frames-Counted (suc (length (rx ++ b ∷ bs))) m rx_us (rx ++ b ∷ bs) (omega arith) v room

  measure-Counted :
      (reads : List (ℕ × ReadResult)) (m : Measured) (rx : Bytes)
      → Counted m
      → (m' : Measured) × (measure clock row_written m rx reads ≡ done m') × Counted m'
  unfolding measure
  measure-Counted [] m rx v = (m, refl, v)
  measure-Counted ((rx_us, result) ∷ reads) m rx v =
      elim (Bool-cases (ltb m.sample_count num_samples)) [
        | inl room ↦
            let (m', rest, e, w) = on_read-Counted m rx rx_us result v (ground (arith, room)) in
            let (m'', f, u) = measure-Counted reads m' rest w in
            (m'', ground (arith, room, e, f), u)
        | inr full ↦ (m, ground (arith, full), v)
      ]

-- A summary of data, and none of no data.
abbrev pub StatsOf : List ℕ → Option Summary → Type 0
StatsOf [] none = Unit
StatsOf (x ∷ xs) (some s) = IsSummary (x ∷ xs) s
StatsOf _ _ = ⊥

-- `stats` returns for some data.
abbrev pub Summed : List ℕ → Type 0
Summed xs = (o : Option Summary) × (stats xs ≡ done o) × StatsOf xs o

stats-Summed : (xs : List ℕ) → length xs ≤ num_samples → Summed xs
stats-Summed [] few = (none, (unfold stats in refl), tt)
stats-Summed (x ∷ xs) few =
    let (s, e, k) = stats-IsSummary x xs (omega (arith, few)) in (some s, e, k)

-- If the rows of the first 1000 samples are written to the CSV file, then, whatever the reads come
-- to and whatever the clock says, the sampling loop does not panic and every loop in it ends within
-- its fuel; it takes at most 1000 samples, with one entry of each vector for a sample; and `stats`
-- does not panic on any of the three vectors: of no data it makes nothing, and of data a summary in
-- which smallest, p50, p95, p99 and largest are in order and all data lies between the smallest and
-- the largest.
pub measure-stats :
    (clock : ℕ → Times) (row_written : ℕ → Bool) (reads : List (ℕ × ReadResult))
    → ((i : ℕ) → i < num_samples → row_written i ≡ true)
    → (m : Measured) × (measure clock row_written nothing_measured [] reads ≡ done m)
      × Summed m.rx_latencies
      × Summed m.parse_latencies
      × Summed m.total_latencies
      × Counted m
measure-stats clock row_written reads writes =
    let start : Counted nothing_measured = record {
      enough = omega arith;
      rx = refl;
      parse = refl;
      total = refl;
    } in
    let (m, e, v) = measure-Counted clock row_written writes reads nothing_measured [] start in
    (
      m,
      e,
      stats-Summed m.rx_latencies (omega (arith, v.rx, v.enough)),
      stats-Summed m.parse_latencies (omega (arith, v.parse, v.enough)),
      stats-Summed m.total_latencies (omega (arith, v.total, v.enough)),
      v,
    )
