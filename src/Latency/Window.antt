-- ===== src/Latency/Window.antt =====
-- The windows of src/mb-latency-diagnostics.c: when a latency is recorded, and when a window is
-- exported and a new one begun. The file and the lock leave no trace in the model; an export shows
-- by the metrics that its rows are made of.
use midi_ble_rt.Base.{
  ℕ, ◌-◌, ◌*◌, ◌%◌, ◌^◌, Bool, not, ◌&&◌, leb, ◌==◌, Option, none, some, if◌then◌else◌,
}
use midi_ble_rt.Latency.{Metric, metric_reset, metric_observe, ns_to_ms}

-- MB_STATS_DEFAULT_INTERVAL_MS
abbrev pub default_interval_ms : ℕ
default_interval_ms = 1000

-- MbLatencyState, with the flag that is read before the lock is taken.
pub record LatencyState : Type 0 where
  pub flag : Bool
  pub enabled : Bool
  pub interval_ms : ℕ  -- unsigned, 32 bits
  pub started_ns : ℕ
  pub window_started_ns : ℕ
  pub last_export_ns : ℕ
  pub has_path : Bool
  pub rx_queue : Metric
  pub rx_total : Metric
  pub tx_queue : Metric
  pub tx_total : Metric

-- What `latency_build_tsv_locked` makes the text of.
pub record Snapshot : Type 0 where
  pub uptime_ms : ℕ
  pub window_ms : ℕ
  pub state : LatencyState

abbrev pub since : ℕ → ℕ → ℕ
since started_ns now_ns =
    if not (started_ns == 0) && leb started_ns now_ns then ns_to_ms (now_ns - started_ns) else 0

unfoldable pub build_tsv : LatencyState → ℕ → Snapshot
build_tsv s now_ns = record {
  uptime_ms = since s.started_ns now_ns;
  window_ms = since s.window_started_ns now_ns;
  state = s;
}

unfoldable pub reset_window : LatencyState → ℕ → LatencyState
unfolding metric_reset
reset_window s now_ns = record s {
  rx_queue = metric_reset;
  rx_total = metric_reset;
  tx_queue = metric_reset;
  tx_total = metric_reset;
  window_started_ns = now_ns;
  last_export_ns = now_ns;
}

-- `has_path` is whether there is a default path.
unfoldable pub configure : Bool → ℕ → Bool → ℕ → Option Snapshot × LatencyState
unfolding metric_reset build_tsv
configure enabled interval_ms has_path now_ns =
    let s : LatencyState = record {
      flag = enabled;
      enabled = enabled;
      interval_ms = if interval_ms == 0 then default_interval_ms else interval_ms;
      started_ns = now_ns;
      window_started_ns = now_ns;
      last_export_ns = now_ns;
      has_path = enabled && has_path;
      rx_queue = metric_reset;
      rx_total = metric_reset;
      tx_queue = metric_reset;
      tx_total = metric_reset;
    } in
    (if enabled && has_path then some (build_tsv s now_ns) else none, s)

-- The times that a flow reports of one item.
pub record Times : Type 0 where
  pub queued_ns : ℕ
  pub consume_started_ns : ℕ
  pub consume_finished_ns : ℕ

abbrev pub in_order : Times → Bool
in_order t =
    not (t.queued_ns == 0)
    && (leb t.queued_ns t.consume_started_ns && leb t.consume_started_ns t.consume_finished_ns)

unfoldable pub observe : LatencyState → Bool → Times → LatencyState
unfolding metric_observe
observe s tx t =
    let queue_ns = t.consume_started_ns - t.queued_ns in
    let total_ns = t.consume_finished_ns - t.queued_ns in
    if tx
    then record s {
      tx_queue = metric_observe s.tx_queue queue_ns;
      tx_total = metric_observe s.tx_total total_ns;
    }
    else record s {
      rx_queue = metric_observe s.rx_queue queue_ns;
      rx_total = metric_observe s.rx_total total_ns;
    }

abbrev pub interval_ns : LatencyState → ℕ
interval_ns s =
    let interval = s.interval_ms * 1000000 % 2 ^ 64 in
    if interval == 0 then default_interval_ms * 1000000 else interval

abbrev pub is_due : LatencyState → ℕ → Bool
is_due s now_ns = leb s.last_export_ns now_ns && leb (interval_ns s) (now_ns - s.last_export_ns)

-- `mb_latency_diagnostics_record`, for TX or RX.
unfoldable pub record_times : LatencyState → Bool → Times → Option Snapshot × LatencyState
unfolding observe build_tsv reset_window
record_times s tx t =
    let now_ns = t.consume_finished_ns in
    if not s.flag
    then (none, s)
    else if not (in_order t)
    then (none, s)
    else if not (s.enabled && s.has_path)
    then (none, s)
    else (let u = observe s tx t in
        if is_due u now_ns then (some (build_tsv u now_ns), reset_window u now_ns) else (none, u))
