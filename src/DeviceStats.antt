-- ===== src/DeviceStats.antt =====
-- The counters that src/mb-daemon.c keeps for each device, and the rows that it exports of them.
-- The file and the lock leave no trace in the model; the clock, where the code reads it, is an
-- argument.
pub mod Windows
use midi_ble_rt.Base.{
  ℕ, ◌+◌, ◌-◌, ◌*◌, ◌/◌, ◌%◌, ◌^◌, Bool, true, false, not, ◌&&◌, ltb, leb, ◌==◌, if◌then◌else◌,
}
use midi_ble_rt.Stats.{u64_max, Traffic, no_traffic}

-- The field `stats` of ConfigDeviceRuntime, an MbSessionStats.
pub record DeviceStats : Type 0 where
  pub window_started_ns : ℕ
  pub rx : Traffic
  pub tx : Traffic

-- The counters of a device that was just allocated.
abbrev pub stats_init : DeviceStats
stats_init = record { window_started_ns = 0; rx = no_traffic; tx = no_traffic }

unfoldable pub stats_add_u64_saturating : ℕ → ℕ → ℕ
stats_add_u64_saturating value add =
    if ltb (u64_max - value) add then u64_max else (value + add) % 2 ^ 64

unfoldable pub ensure_window : DeviceStats → ℕ → DeviceStats
ensure_window s now_ns =
    if s.window_started_ns == 0 then record s { window_started_ns = now_ns } else s

-- What the reset clears of one direction: the times stay.
abbrev pub reset_traffic : Traffic → Traffic
reset_traffic t = record t { packets = 0; bytes = 0; drops = 0; queue_high_watermark = 0 }

unfoldable pub reset_window : DeviceStats → ℕ → DeviceStats
reset_window s now_ns = record {
  window_started_ns = now_ns;
  rx = reset_traffic s.rx;
  tx = reset_traffic s.tx;
}

abbrev pub count_gap : Traffic → ℕ → Traffic
count_gap t gap = record t {
  gap_avg_ns = if t.gap_avg_ns == 0 then gap else ((t.gap_avg_ns * 7 % 2 ^ 64 + gap) % 2 ^ 64) / 8;
  gap_max_ns = if ltb t.gap_max_ns gap then gap else t.gap_max_ns;
}

unfoldable pub device_update_gap : Traffic → ℕ → Traffic
device_update_gap t now_ns =
    let u =
      if not (t.last_ns == 0) && leb t.last_ns now_ns
      then count_gap t (now_ns - t.last_ns)
      else t in
    record u { last_ns = now_ns }

abbrev pub add_packet : Traffic → ℕ → ℕ → Traffic
add_packet t bytes now_ns =
    device_update_gap
      (record t {
        packets = stats_add_u64_saturating t.packets 1;
        bytes = stats_add_u64_saturating t.bytes bytes;
      })
      now_ns

abbrev pub add_drop : Traffic → Traffic
add_drop t = record t { drops = stats_add_u64_saturating t.drops 1 }

abbrev pub raise : Traffic → ℕ → Traffic
raise t depth =
    if ltb t.queue_high_watermark depth then record t { queue_high_watermark = depth } else t

-- The operations; `enabled` is that of the daemon's statistics.
unfoldable pub device_rx_packet : Bool → DeviceStats → ℕ → ℕ → DeviceStats
unfolding stats_add_u64_saturating device_update_gap ensure_window
device_rx_packet enabled s bytes now_ns =
    if not enabled
    then s
    else let w = ensure_window s now_ns in record w { rx = add_packet w.rx bytes now_ns }

unfoldable pub device_tx_packet : Bool → DeviceStats → ℕ → ℕ → DeviceStats
unfolding stats_add_u64_saturating device_update_gap ensure_window
device_tx_packet enabled s bytes now_ns =
    if not enabled
    then s
    else let w = ensure_window s now_ns in record w { tx = add_packet w.tx bytes now_ns }

unfoldable pub device_rx_drop : Bool → DeviceStats → ℕ → DeviceStats
unfolding stats_add_u64_saturating ensure_window
device_rx_drop enabled s now_ns =
    if not enabled then s else let w = ensure_window s now_ns in record w { rx = add_drop w.rx }

unfoldable pub device_tx_drop : Bool → DeviceStats → ℕ → DeviceStats
unfolding stats_add_u64_saturating ensure_window
device_tx_drop enabled s now_ns =
    if not enabled then s else let w = ensure_window s now_ns in record w { tx = add_drop w.tx }

unfoldable pub observe_queue_depth : Bool → DeviceStats → Bool → ℕ → ℕ → DeviceStats
unfolding ensure_window
observe_queue_depth enabled s tx depth now_ns =
    if not enabled
    then s
    else let w = ensure_window s now_ns in
      if tx then record w { tx = raise w.tx depth } else record w { rx = raise w.rx depth }

-- A row of the export, less the device's names and the rates, which are floating-point numbers.
pub record Row : Type 0 where
  pub window_ms : ℕ
  pub packets : ℕ
  pub bytes : ℕ
  pub drops : ℕ
  pub last_ms : ℕ
  pub gap_avg_ms : ℕ
  pub gap_max_ms : ℕ
  pub queue_depth : ℕ
  pub high_watermark : ℕ

abbrev pub ns_to_ms : ℕ → ℕ
ns_to_ms ns = ns / 1000000

abbrev pub elapsed_ms : ℕ → ℕ → ℕ
elapsed_ms now_ns then_ns =
    if then_ns == 0 then 0 else if ltb now_ns then_ns then 0 else ns_to_ms (now_ns - then_ns)

abbrev pub row_of : Traffic → ℕ → ℕ → ℕ → Row
row_of t window_ns now_ns depth = record {
  window_ms = ns_to_ms window_ns;
  packets = t.packets;
  bytes = t.bytes;
  drops = t.drops;
  last_ms = elapsed_ms now_ns t.last_ns;
  gap_avg_ms = ns_to_ms t.gap_avg_ns;
  gap_max_ms = ns_to_ms t.gap_max_ns;
  queue_depth = depth;
  high_watermark = t.queue_high_watermark;
}

abbrev pub window_of : DeviceStats → ℕ → ℕ
window_of s now_ns =
    if not (s.window_started_ns == 0) && leb s.window_started_ns now_ns
    then now_ns - s.window_started_ns
    else 0

-- The row of one direction, and the counters with the watermark raised to the depth.
unfoldable pub append_row : DeviceStats → Bool → ℕ → ℕ → Row × DeviceStats
append_row s tx now_ns depth =
    if tx
    then (
      row_of (raise s.tx depth) (window_of s now_ns) now_ns depth,
      record s { tx = raise s.tx depth },
    )
    else (
      row_of (raise s.rx depth) (window_of s now_ns) now_ns depth,
      record s { rx = raise s.rx depth },
    )

-- What the export does with one active device: the RX row, the TX row, and a new window. The
-- depths are those of the flows, or 0 if the workers were never started.
unfoldable pub export_device : DeviceStats → ℕ → ℕ → ℕ → Row × Row × DeviceStats
unfolding ensure_window append_row reset_window
export_device s now_ns rx_depth tx_depth =
    let (rx_row, t) = append_row (ensure_window s now_ns) false now_ns rx_depth in
    let (tx_row, u) = append_row t true now_ns tx_depth in (rx_row, tx_row, reset_window u now_ns)
