-- ===== src/Telemetry.antt =====
-- libs/telemetry/src/telemetry_sink.cpp and its header: histograms of latencies, and the sink. What is
-- computed in floating point is a parameter.
pub mod Buckets
mod Tests
use mmperp.Prelude.{
  ℕ, zero, suc, ◌+◌, ◌-◌, ◌*◌, ◌/◌, ◌%◌, ◌^◌, Option, none, some, List, [], ◌∷◌, ◌++◌, map,
  replicate, ltb, leb, ◌==◌, if◌then◌else◌,
}
use mmperp.Prelude.Int.{ℤ, pos, pos_part, ◌+ℤ◌, leb_ℤ, min_ℤ, max_ℤ}

abbrev pub num_buckets : ℕ
num_buckets = 30

-- `std::bit_width` of a word of as many bits as the fuel.
unfoldable pub bit_width : ℕ → ℕ → ℕ
bit_width zero n = 0
bit_width (suc fuel) n = let rest = bit_width fuel (n / 2) in if n == 0 then 0 else suc rest

unfoldable pub bucket_index : ℤ → ℕ
unfolding bit_width
bucket_index value_ns =
    let bits = bit_width 64 (pos_part value_ns) in
    if leb_ℤ value_ns (pos 0)
    then 0
    else if ltb bits (num_buckets - 1)
    then bits
    else num_buckets - 1

-- The shift by `idx - 2` is undefined for the bucket 1, since the difference wraps around.
unfoldable pub bucket_midpoint : ℕ → Option ℤ
bucket_midpoint zero = some (pos 1)
bucket_midpoint (suc zero) = none
bucket_midpoint (suc (suc n)) = some (pos (3 * 2 ^ n))

pub record StreamingHistogram : Type 0 where
  pub buckets : List ℕ
  pub count : ℕ
  pub sum : ℤ
  pub min : ℤ
  pub max : ℤ

-- A fresh histogram, and one that `reset` leaves.
abbrev pub empty_histogram : StreamingHistogram
empty_histogram = record {
  buckets = replicate num_buckets 0;
  count = 0;
  sum = pos 0;
  min = pos (2 ^ 63 - 1);
  max = pos 0;
}

-- `++buckets_[idx]`
unfoldable pub bump : ℕ → List ℕ → List ℕ
bump idx [] = []
bump zero (b ∷ bs) = (b + 1) % 2 ^ 64 ∷ bs
bump (suc idx) (b ∷ bs) = b ∷ bump idx bs

unfoldable pub record_value : StreamingHistogram → ℤ → StreamingHistogram
unfolding bump bucket_index
record_value h value_ns = record {
  buckets = bump (bucket_index value_ns) h.buckets;
  count = (h.count + 1) % 2 ^ 64;
  sum = h.sum +ℤ value_ns;
  min = min_ℤ h.min value_ns;
  max = max_ℤ h.max value_ns;
}

-- The first bucket at which the sum of the counts reaches the target.
unfoldable pub reaching : ℕ → ℕ → ℕ → List ℕ → Option ℕ
reaching target cumulative idx [] = none
reaching target cumulative idx (b ∷ bs) =
    let cumulative' = (cumulative + b) % 2 ^ 64 in
    let rest = reaching target cumulative' (suc idx) bs in
    if leb target cumulative' then some idx else rest

abbrev pub percentile_at : StreamingHistogram → Option ℕ → Option ℤ
percentile_at h none = some h.max
percentile_at h (some idx) = bucket_midpoint idx

-- The function gives the count times the percentile, cut off.
unfoldable pub percentile : (ℕ → ℕ) → StreamingHistogram → Option ℤ
unfolding reaching bucket_midpoint
percentile scaled h =
    if h.count == 0 then some (pos 0) else percentile_at h (reaching (scaled h.count) 0 0 h.buckets)

pub record Sample : Type 0 where
  pub id : ℕ
  pub value : ℤ

abbrev pub max_metric_id : ℕ
max_metric_id = 1024

pub record TelemetrySink : Type 0 where
  pub buffer : List Sample
  pub histograms : List StreamingHistogram

abbrev pub new_sink : TelemetrySink
new_sink = record { buffer = []; histograms = replicate max_metric_id empty_histogram }

unfoldable pub push_sample : TelemetrySink → Sample → TelemetrySink
push_sample s sample = record s { buffer = s.buffer ++ sample ∷ [] }

unfoldable pub increment : TelemetrySink → ℕ → ℤ → TelemetrySink
unfolding push_sample
increment s id delta = push_sample s record { id = id; value = delta }

unfoldable pub record_at : ℕ → ℤ → List StreamingHistogram → List StreamingHistogram
unfolding record_value
record_at idx latency [] = []
record_at zero latency (h ∷ hs) = record_value h latency ∷ hs
record_at (suc idx) latency (h ∷ hs) = h ∷ record_at idx latency hs

unfoldable pub record_latency : TelemetrySink → ℕ → ℤ → TelemetrySink
unfolding record_at
record_latency s id latency = record s {
  histograms = record_at (id % max_metric_id) latency s.histograms;
}

unfoldable pub drain : TelemetrySink → List Sample × TelemetrySink
drain s = (s.buffer, record s { buffer = [] })

-- The mean is that of `sum` and `count`, which are kept here.
pub record Summary : Type 0 where
  pub id : ℕ
  pub count : ℕ
  pub sum : ℤ
  pub p99_ns : Option ℤ

unfoldable pub summaries : (ℕ → ℕ) → ℕ → List StreamingHistogram → List Summary
unfolding percentile
summaries scaled id [] = []
summaries scaled id (h ∷ hs) =
    let rest = summaries scaled (suc id) hs in
    if h.count == 0
    then rest
    else record { id = id; count = h.count; sum = h.sum; p99_ns = percentile scaled h } ∷ rest

abbrev pub reset_used : StreamingHistogram → StreamingHistogram
reset_used h = if h.count == 0 then h else empty_histogram

unfoldable pub drain_latency : (ℕ → ℕ) → TelemetrySink → List Summary × TelemetrySink
unfolding summaries
drain_latency scaled s =
    (summaries scaled 0 s.histograms, record s { histograms = map reset_used s.histograms })
