-- ===== src/Stats/Gap.antt =====
-- The gap statistics and the saturating counters of src/mb-stats.c.
use midi_ble_rt.Base.{ℕ, ◌+◌, ◌-◌, ◌^◌, ◌≤◌, ◌<◌, ◌≡◌, min, arith}
use midi_ble_rt.Stats.{Traffic, u64_max, add_u64_saturating, update_gap}

-- The counter is the sum, or stays at the largest value of 64 bits.
pub add_u64_saturating_lem :
    (value add : ℕ) → value ≤ u64_max → add_u64_saturating value add ≡ min (value + add) u64_max
unfolding add_u64_saturating
add_u64_saturating_lem value add h = ground arith

-- The statistics of the gaps between packets, as far as their values allow the sums of 64 bits.
pub record GapsOk (t : Traffic) : Type 0 where
  pub average_in : t.gap_avg_ns ≤ t.gap_max_ns
  pub max_in : t.gap_max_ns < 2 ^ 60

-- For packets less than 2^60 ns (36 years) apart, a packet keeps the average of the gaps at or
-- below their maximum with no sum wrapping, raises the maximum to the new gap if that is longer,
-- and notes the time of the packet.
update_gap-GapsOk :
    (t : Traffic) (now_ns : ℕ)
    → GapsOk t
    → now_ns - t.last_ns < 2 ^ 60
    → let t' = update_gap t now_ns in
      GapsOk t'
      × (t'.last_ns ≡ now_ns)
      × (t.gap_max_ns ≤ t'.gap_max_ns)
      × (0 < t.last_ns → now_ns - t.last_ns ≤ t'.gap_max_ns)
unfolding update_gap
update_gap-GapsOk t now v h = ground arith
