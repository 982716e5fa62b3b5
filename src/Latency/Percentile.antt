-- ===== src/Latency/Percentile.antt =====
-- The percentile of src/mb-latency-diagnostics.c against the histogram that it is read from.
use midi_ble_rt.Base.{
  ℕ, zero, suc, ◌+◌, ◌*◌, ◌/◌, ◌%◌, ◌^◌, ◌≤◌, ◌<◌, ◌≡◌, refl, ap, ◌∙◌, true, false, List, [], ◌∷◌,
  ltb, leb, ◌==◌, if◌then◌else◌, length, get_or, set, take, arith, Bool-cases, leb→le, leb→gt, inl,
  inr, length-set,
}
use midi_ble_rt.Latency.{
  Accumulator, buckets, u64_max, bucket_of, accumulator_reset, accumulator_observe, percentile_scan,
  percentile_ms, rank,
}

abbrev pub total : List ℕ → ℕ
total [] = 0
total (x ∷ xs) = x + total xs

-- An accumulator that has not come to the end of its counters.
pub record IsValid (a : Accumulator) : Type 0 where
  pub histogram : length a.bucket ≡ buckets
  pub counted : a.count ≡ total a.bucket
  pub bounded : a.total_ns ≤ a.count * a.max_ns

total-set :
    (xs : List ℕ) (i v : ℕ) → i < length xs → total (set xs i v) + get_or xs i 0 ≡ total xs + v
total-set [] i v h = absurd (omega arith)
total-set (x ∷ xs) zero v h = omega arith
total-set (x ∷ xs) (suc i) v h = omega (arith, total-set xs i v (omega arith))

get_or-le-total : (xs : List ℕ) (i : ℕ) → get_or xs i 0 ≤ total xs
get_or-le-total [] i = omega arith
get_or-le-total (x ∷ xs) zero = omega arith
get_or-le-total (x ∷ xs) (suc i) = omega (arith, get_or-le-total xs i)

module _ (x : ℕ) (bs : List ℕ) (i seen target : ℕ) (fits : seen + x < 2 ^ 64) where
  scan_found : target ≤ seen + x → percentile_scan (x ∷ bs) i seen target ≡ i
  unfolding percentile_scan
  scan_found h = let t : leb target ((seen + x) % 2 ^ 64) ≡ true = ground arith in rw t

  scan_later :
      seen + x < target
      → percentile_scan (x ∷ bs) i seen target ≡ percentile_scan bs (i + 1) (seen + x) target
  unfolding percentile_scan
  scan_later h =
      let t : leb target ((seen + x) % 2 ^ 64) ≡ false = ground arith in
      rw t (ap (λ n. percentile_scan bs (i + 1) n target) (omega arith))

-- The scan stops at the bucket in which the total of the counters reaches the rank.
scan_lem :
    (bs : List ℕ) (i seen target : ℕ)
    → seen < target
    → target ≤ seen + total bs
    → seen + total bs < 2 ^ 64
    → (k : ℕ) × (percentile_scan bs i seen target ≡ i + k)
      × (k < length bs)
      × (seen + total (take k bs) < target)
      × (target ≤ seen + total (take (suc k) bs))
scan_lem [] i seen target a b c = absurd (omega arith)
scan_lem (x ∷ bs) i seen target a b c = elim (Bool-cases (leb target (seen + x))) [
  | inl found ↦
      let h = leb→le _ _ found in
      (
        0,
        scan_found x bs i seen target (omega arith) h ∙ omega arith,
        omega arith,
        omega arith,
        omega arith,
      )
  | inr later ↦
      let h = leb→gt _ _ later in
      let (k, e, l, below, above) =
        scan_lem bs (i + 1) (seen + x) target h (omega arith) (omega arith) in
      (
        suc k,
        scan_later x bs i seen target (omega arith) h ∙ e ∙ omega arith,
        omega arith,
        omega arith,
        omega arith,
      )
]

accumulator_reset-IsValid : IsValid accumulator_reset
unfolding accumulator_reset
accumulator_reset-IsValid = record { histogram = refl; counted = refl; bounded = omega arith }

bucket_of-lt : (n : ℕ) → bucket_of n < buckets
bucket_of-lt n = ground arith

-- Observing a latency counts it once, in one bucket, and keeps the sum of the latencies at most the
-- count times the longest, as long as neither counter is at its end.
pub accumulator_observe-IsValid :
    (a : Accumulator) (latency_ns : ℕ)
    → IsValid a
    → a.count < u64_max
    → let a' = accumulator_observe a latency_ns in
      IsValid a' × (a'.count ≡ a.count + 1) × (latency_ns ≤ a'.max_ns) × (a.max_ns ≤ a'.max_ns)
unfolding accumulator_observe
accumulator_observe-IsValid a n v room =
    let i = bucket_of n in
    let old = get_or a.bucket i 0 in
    let small = get_or-le-total a.bucket i in
    let one : (old + 1) % 2 ^ 64 ≡ old + 1 = omega (arith, v.counted) in
    let not_full : (a.count == u64_max) ≡ false = ground arith in
    let top = if ltb a.max_ns n then n else a.max_ns in
    let tops : (a.max_ns ≤ top) × (n ≤ top) = ground arith in
    let area : a.count * a.max_ns ≤ a.count * top = grind arith in
    rw not_full (
      record {
        histogram = length-set a.bucket i ((old + 1) % 2 ^ 64) ∙ v.histogram;
        counted = omega (
          arith,
          total-set a.bucket i ((old + 1) % 2 ^ 64) (omega (arith, bucket_of-lt n, v.histogram)),
          v.counted,
        );
        bounded = ground (arith, v.bounded, area, tops);
      },
      refl,
      tops.1,
      tops.0,
    )

zero_plus : (k : ℕ) → 0 + k ≡ k
zero_plus k = omega arith

-- With something observed and a percentage in range the loop looks for the rank.
percentile_ms-scan :
    (a : Accumulator) (p : ℕ)
    → 0 < a.count
    → a.count < 2 ^ 56
    → 0 < p
    → p ≤ 100
    → percentile_ms a p ≡ percentile_scan a.bucket 0 0 ((a.count * p + 99) / 100)
unfolding percentile_ms
percentile_ms-scan a p some_seen few p_pos p_in =
    let c = a.count * p in
    let low : a.count ≤ c = grind arith in
    let high : c ≤ a.count * 100 = grind arith in
    let counted : (a.count == 0) ≡ false = ground arith in
    let in_range : ltb 100 p ≡ false = ground arith in
    let target : rank a.count p ≡ (c + 99) / 100 = ground arith in
    rw (counted, in_range, target) refl

-- For a percentage from 1 to 100, and with something observed but fewer than 2 ^ 56 latencies, the
-- percentile of a valid accumulator is the nearest-rank percentile of its histogram: the bucket
-- that it names is the first at which the counters up to it reach the given share of all latencies.
pub percentile_ms_lem :
    (a : Accumulator) (percentile : ℕ)
    → IsValid a
    → 0 < a.count
    → a.count < 2 ^ 56
    → 0 < percentile
    → percentile ≤ 100
    → let k = percentile_ms a percentile in
      (k < buckets)
      × (total (take k a.bucket) * 100 < a.count * percentile)
      × (a.count * percentile ≤ total (take (suc k) a.bucket) * 100)
percentile_ms_lem a p v some_seen few p_pos p_in =
    let c = a.count * p in
    let low : a.count ≤ c = grind arith in
    let high : c ≤ a.count * 100 = grind arith in
    let (k, e, l, below, above) =
      scan_lem a.bucket 0 0 ((c + 99) / 100) (omega arith) (omega (arith, v.counted))
        (omega (arith, v.counted)) in
    let at : percentile_ms a p ≡ k =
      percentile_ms-scan a p some_seen few p_pos p_in ∙ e ∙ zero_plus k in
    rw at (omega (arith, l, v.histogram), omega (arith, below), omega (arith, above))
