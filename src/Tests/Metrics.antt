-- ===== src/Tests/Metrics.antt =====
-- The latency example: a depth message in two reads, and ten numbers.
use bibi_sync.Base.{arith, Bool, ltb, false, panicked, ℕ, ◌*◌, ◌≡◌, refl, some, List, [], ◌∷◌, done}
use bibi_sync.Uart.Loop.{ReadResult, bytes_read, timed_out}
use bibi_sync.Uart.Wire.{scan, scan_synced, verify, calculate_checksum, sync_position}
use bibi_sync.Controller.{finish, sensor_type}
use bibi_sync.Latency.{
  Measured, nothing_measured, Times, try_parse_frame, take_frames, on_read, measure, stats,
}
use bibi_sync.Latency.Samples.{Counted, Summed, measure-stats}

abbrev a_clock : ℕ → Times
a_clock n = record { parse_us = 3; total_us = n * 10 }

-- Every row but that of sample 1000, which is not asked for.
abbrev a_disk : ℕ → Bool
a_disk i = ltb i 1000

abbrev two_reads : List (ℕ × ReadResult)
two_reads =
    (70, bytes_read (9 ∷ 0xaa ∷ 2 ∷ 1 ∷ [])) ∷ (100, timed_out) ∷ (80, bytes_read (5 ∷ 8 ∷ [])) ∷ []

measure-stats_example :
    (m : Measured) × (measure a_clock a_disk nothing_measured [] two_reads ≡ done m)
    × Summed m.rx_latencies
    × Summed m.parse_latencies
    × Summed m.total_latencies
    × Counted m
measure-stats_example = measure-stats a_clock a_disk two_reads (λ i room. ground arith)

one_measured :
    measure a_clock a_disk nothing_measured [] two_reads
    ≡ done (record {
      sample_count = 1;
      rx_latencies = 80 ∷ [];
      parse_latencies = 3 ∷ [];
      total_latencies = 0 ∷ [];
    })
unfolding measure on_read take_frames try_parse_frame scan scan_synced verify calculate_checksum
    sync_position finish sensor_type
one_measured = refl

row_lost : measure a_clock (λ i. false) nothing_measured [] two_reads ≡ panicked
unfolding measure on_read take_frames try_parse_frame scan scan_synced verify calculate_checksum
    sync_position finish sensor_type
row_lost = refl

ten_numbers :
    stats (5 ∷ 1 ∷ 9 ∷ 3 ∷ 7 ∷ 2 ∷ 8 ∷ 4 ∷ 6 ∷ 10 ∷ [])
    ≡ done (some (record { p50 = 6; p95 = 10; p99 = 10; smallest = 1; largest = 10 }))
unfolding stats
ten_numbers = refl
