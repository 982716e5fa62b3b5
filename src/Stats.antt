-- ===== src/Stats.antt =====
-- src/mb-stats.h and src/mb-stats.c: the counters of the daemon. The path of the export file, and
-- the clock that `mb_stats_init` reads, are arguments.
pub mod Gap
pub mod Window
use midi_ble_rt.Base.{
  ℕ, ◌+◌, ◌-◌, ◌*◌, ◌/◌, ◌%◌, ◌^◌, Bool, true, false, not, ◌&&◌, ltb, leb, ◌==◌, if◌then◌else◌,
}

abbrev pub u64_max : ℕ
u64_max = 2 ^ 64 - 1

-- MB_STATS_DEFAULT_INTERVAL_MS
abbrev pub default_interval_ms : ℕ
default_interval_ms = 1000

-- The counters of one direction, RX or TX, of MbSessionStats.
pub record Traffic : Type 0 where
  pub packets : ℕ
  pub bytes : ℕ
  pub drops : ℕ
  pub queue_high_watermark : ℕ
  pub last_ns : ℕ
  pub gap_avg_ns : ℕ
  pub gap_max_ns : ℕ

-- MbStats, with its MbSessionStats
pub record Stats : Type 0 where
  pub enabled : Bool
  pub interval_ms : ℕ
  pub started_ns : ℕ
  pub window_started_ns : ℕ
  pub rx : Traffic
  pub tx : Traffic

abbrev pub no_traffic : Traffic
no_traffic = record {
  packets = 0;
  bytes = 0;
  drops = 0;
  queue_high_watermark = 0;
  last_ns = 0;
  gap_avg_ns = 0;
  gap_max_ns = 0;
}

unfoldable pub add_u64_saturating : ℕ → ℕ → ℕ
add_u64_saturating value add = if ltb (u64_max - value) add then u64_max else (value + add) % 2 ^ 64

unfoldable pub update_gap : Traffic → ℕ → Traffic
update_gap t now_ns =
    if not (t.last_ns == 0) && leb t.last_ns now_ns
    then (let gap = now_ns - t.last_ns in
        record t {
          last_ns = now_ns;
          gap_avg_ns =
              if t.gap_avg_ns == 0 then gap else ((t.gap_avg_ns * 7 % 2 ^ 64 + gap) % 2 ^ 64) / 8;
          gap_max_ns = if ltb t.gap_max_ns gap then gap else t.gap_max_ns;
        })
    else record t { last_ns = now_ns }

unfoldable pub init : Bool → ℕ → ℕ → Stats
init enabled interval_ms now_ns = record {
  enabled = enabled;
  interval_ms = if interval_ms == 0 then default_interval_ms else interval_ms;
  started_ns = now_ns;
  window_started_ns = now_ns;
  rx = no_traffic;
  tx = no_traffic;
}

-- What `mb_stats_rx_packet` does to the RX counters, and `mb_stats_tx_packet` to the TX ones.
unfoldable pub count_packet : Traffic → ℕ → ℕ → Traffic
unfolding add_u64_saturating update_gap
count_packet t bytes now_ns =
    update_gap
      (record t {
        packets = add_u64_saturating t.packets 1;
        bytes = add_u64_saturating t.bytes bytes;
      })
      now_ns

unfoldable pub rx_packet : Stats → ℕ → ℕ → Stats
unfolding count_packet
rx_packet s bytes now_ns =
    if not s.enabled then s else record s { rx = count_packet s.rx bytes now_ns }

unfoldable pub tx_packet : Stats → ℕ → ℕ → Stats
unfolding count_packet
tx_packet s bytes now_ns =
    if not s.enabled then s else record s { tx = count_packet s.tx bytes now_ns }

unfoldable pub rx_drop : Stats → Stats
unfolding add_u64_saturating
rx_drop s =
    if not s.enabled
    then s
    else record s { rx = record (s.rx) { drops = add_u64_saturating s.rx.drops 1 } }

unfoldable pub tx_drop : Stats → Stats
unfolding add_u64_saturating
tx_drop s =
    if not s.enabled
    then s
    else record s { tx = record (s.tx) { drops = add_u64_saturating s.tx.drops 1 } }

abbrev pub raise_watermark : Traffic → ℕ → Traffic
raise_watermark t depth = record t {
  queue_high_watermark = if ltb t.queue_high_watermark depth then depth else t.queue_high_watermark;
}

unfoldable pub queue_depth : Stats → ℕ → ℕ → Stats
queue_depth s rx_queue_depth tx_queue_depth = if not s.enabled then s else record s {
  rx = raise_watermark s.rx rx_queue_depth;
  tx = raise_watermark s.tx tx_queue_depth;
}
