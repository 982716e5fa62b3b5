-- ===== src/Tests/Meters.antt =====
-- The theorems on the statistics and the latencies at concrete measurements.
use midi_ble_rt.Base.{replicate, set, suc, ◌*◌, ◌≤◌, ◌<◌, refl, true, List, [], ◌∷◌, take, arith}
use midi_ble_rt.Stats
use midi_ble_rt.Stats.{Traffic, no_traffic, update_gap}
use midi_ble_rt.Stats.Window
use midi_ble_rt.Stats.Window.{Call, Counts, InRange, apply_all, apply_all-Counts}
use midi_ble_rt.Latency.{Accumulator, buckets, percentile_ms}
use midi_ble_rt.Latency.Percentile.{IsValid, total, percentile_ms_lem}

abbrev first_packet : Traffic
first_packet = record no_traffic { last_ns = 1000; gap_max_ns = 40; gap_avg_ns = 30 }

abbrev fresh_stats : Stats.Stats
fresh_stats = Stats.init true 1000 5

abbrev calls : List Call
calls =
    Window.Call.rx 3 100 ∷ Window.Call.tx 5 200 ∷ Window.Call.rx_lost ∷ Window.Call.rx 7 300 ∷ []

fresh_stats-InRange : InRange fresh_stats
unfolding Stats.init
fresh_stats-InRange = record {
  enabled = refl;
  packets_in = omega arith;
  bytes_in = omega arith;
  drops_in = omega arith;
}

abbrev one : Accumulator
one = record {
  count = 1;
  total_ns = 3000000;
  max_ns = 3000000;
  bucket = set (replicate buckets 0) 3 1;
}

one-IsValid : IsValid one
one-IsValid = record { histogram = refl; counted = refl; bounded = omega arith }

percentile_ms_lem_example :
    let k = percentile_ms one 95 in
    (k < buckets)
    × (total (take k one.bucket) * 100 < one.count * 95)
    × (one.count * 95 ≤ total (take (suc k) one.bucket) * 100)
percentile_ms_lem_example =
    percentile_ms_lem one 95 one-IsValid (omega arith) (omega arith) (omega arith) (omega arith)
