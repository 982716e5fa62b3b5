-- ===== src/Latency.antt =====
-- The accumulators of src/mb-latency-diagnostics.c: counts, sums and the histogram from which the
-- percentiles are read. The averages are doubles for the export, and the export itself is text.
pub mod Percentile
pub mod Window
pub mod Windows
use midi_ble_rt.Base.{
  ℕ, zero, suc, ◌+◌, ◌-◌, ◌*◌, ◌/◌, ◌%◌, ◌^◌, Bool, true, false, List, [], ◌∷◌, ltb, leb, ◌==◌,
  if◌then◌else◌, get_or, set, replicate,
}

abbrev pub buckets : ℕ
buckets = 256

abbrev pub u64_max : ℕ
u64_max = 2 ^ 64 - 1

-- MbLatencyAccumulator
pub record Accumulator : Type 0 where
  pub count : ℕ
  pub total_ns : ℕ
  pub max_ns : ℕ
  pub bucket : List ℕ  -- 256 counters

-- MbLatencyMetric
pub record Metric : Type 0 where
  pub latency : Accumulator
  pub jitter : Accumulator
  pub last_latency_ns : ℕ
  pub has_last_latency : Bool

abbrev pub ns_to_ms : ℕ → ℕ
ns_to_ms ns = ns / 1000000

unfoldable pub accumulator_reset : Accumulator
accumulator_reset = record { count = 0; total_ns = 0; max_ns = 0; bucket = replicate buckets 0 }

-- The bucket of a latency: its milliseconds, the last bucket for all that are longer.
abbrev pub bucket_of : ℕ → ℕ
bucket_of latency_ns =
    if leb buckets (ns_to_ms latency_ns) then buckets - 1 else ns_to_ms latency_ns

unfoldable pub accumulator_observe : Accumulator → ℕ → Accumulator
accumulator_observe a latency_ns = record {
  count = if a.count == u64_max then a.count else a.count + 1;
  total_ns = if ltb (u64_max - a.total_ns) latency_ns then u64_max else a.total_ns + latency_ns;
  max_ns = if ltb a.max_ns latency_ns then latency_ns else a.max_ns;
  bucket =
      set a.bucket (bucket_of latency_ns) ((get_or a.bucket (bucket_of latency_ns) 0 + 1) % 2 ^ 64);
}

-- The `for` over the buckets: `i` is the number of the first bucket of the list.
pub percentile_scan : List ℕ → ℕ → ℕ → ℕ → ℕ
percentile_scan [] i seen target = buckets - 1
percentile_scan (b ∷ bs) i seen target =
    let rest = percentile_scan bs (i + 1) ((seen + b) % 2 ^ 64) target in
    if leb target ((seen + b) % 2 ^ 64) then i else rest

-- The rank that is looked for; `percentile` is at most 100 here.
abbrev pub rank : ℕ → ℕ → ℕ
rank count percentile =
    let target = (count * percentile + 99) % 2 ^ 64 / 100 in if target == 0 then 1 else target

unfoldable pub percentile_ms : Accumulator → ℕ → ℕ
percentile_ms a percentile =
    if a.count == 0
    then 0
    else percentile_scan a.bucket 0 0
        (rank a.count (if ltb 100 percentile then 100 else percentile))

unfoldable pub metric_reset : Metric
unfolding accumulator_reset
metric_reset = record {
  latency = accumulator_reset;
  jitter = accumulator_reset;
  last_latency_ns = 0;
  has_last_latency = false;
}

-- `latency_ns >= last ? latency_ns - last : last - latency_ns`
abbrev pub jitter_ns : ℕ → ℕ → ℕ
jitter_ns latency_ns last = if leb last latency_ns then latency_ns - last else last - latency_ns

unfoldable pub metric_observe : Metric → ℕ → Metric
unfolding accumulator_observe
metric_observe m latency_ns = record {
  latency = accumulator_observe m.latency latency_ns;
  jitter =
      if m.has_last_latency
      then accumulator_observe m.jitter (jitter_ns latency_ns m.last_latency_ns)
      else m.jitter;
  last_latency_ns = latency_ns;
  has_last_latency = true;
}
