-- ===== src/Telemetry/Tests.antt =====
-- Some latencies.
use mmperp.Prelude.{get_or, ◌-◌, ◌*◌, ◌%◌, ◌^◌, ◌≤◌, ◌<◌, ◌≡◌, ◌⊎◌, [], ◌∷◌, arith}
use mmperp.Prelude.Int.{pos}
use mmperp.Telemetry.{num_buckets, bucket_index, empty_histogram}
use mmperp.Telemetry.Buckets.{bucket_index-bounds, record_all, values_in, record_all-values_in}

bucket_index-bounds_example :
    let i = bucket_index (pos 1000) in
    (0 < i) × (i < num_buckets) × (2 ^ i ≤ 2 * 1000) × ((i ≡ num_buckets - 1) ⊎ (1000 < 2 ^ i))
bucket_index-bounds_example = bucket_index-bounds 1000 (omega arith) (omega arith)

record_all-values_in_example :
    get_or (record_all empty_histogram (pos 5 ∷ pos 6 ∷ pos 0 ∷ [])).buckets 3 0 % 2 ^ 64
    ≡ values_in 3 (pos 5 ∷ pos 6 ∷ pos 0 ∷ []) % 2 ^ 64
record_all-values_in_example = record_all-values_in (pos 5 ∷ pos 6 ∷ pos 0 ∷ []) 3
