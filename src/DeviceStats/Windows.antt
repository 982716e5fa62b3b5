-- ===== src/DeviceStats/Windows.antt =====
-- The counters of a device in src/mb-daemon.c over a series of calls, with exports among them.
use midi_ble_rt.Base.{◌++◌, ℕ, ◌+◌, ◌≤◌, ◌≡◌, Bool, true, false, List, [], ◌∷◌, arith}
use midi_ble_rt.Stats.{u64_max, Traffic}
use midi_ble_rt.DeviceStats.{
  stats_add_u64_saturating, reset_window, append_row, ensure_window, DeviceStats, Row,
  ensure_window, append_row, reset_window, stats_add_u64_saturating, device_update_gap,
  device_rx_packet, device_tx_packet, device_rx_drop, device_tx_drop, observe_queue_depth,
  export_device,
}

-- The calls of the daemon, each with the clock that it reads.
pub data Call : Type 0 where
  rx tx : ℕ → ℕ → Call
  rx_lost tx_lost : ℕ → Call
  depth : Bool → ℕ → ℕ → Call
  export : ℕ → ℕ → ℕ → Call

-- Packets, bytes and drops.
pub record Tally : Type 0 where
  pub packets : ℕ
  pub bytes : ℕ
  pub drops : ℕ

abbrev pub no_tally : Tally
no_tally = record { packets = 0; bytes = 0; drops = 0 }

abbrev pub add : Tally → Tally → Tally
add a b = record {
  packets = a.packets + b.packets;
  bytes = a.bytes + b.bytes;
  drops = a.drops + b.drops;
}

abbrev pub of_traffic : Traffic → Tally
of_traffic t = record { packets = t.packets; bytes = t.bytes; drops = t.drops }

abbrev pub of_row : Row → Tally
of_row r = record { packets = r.packets; bytes = r.bytes; drops = r.drops }

-- What a call reports for RX and for TX.
abbrev pub rx_reported : Call → Tally
rx_reported (rx bytes now) = record { packets = 1; bytes = bytes; drops = 0 }
rx_reported (rx_lost now) = record { packets = 0; bytes = 0; drops = 1 }
rx_reported _ = no_tally

abbrev pub tx_reported : Call → Tally
tx_reported (tx bytes now) = record { packets = 1; bytes = bytes; drops = 0 }
tx_reported (tx_lost now) = record { packets = 0; bytes = 0; drops = 1 }
tx_reported _ = no_tally

-- The part of one direction.
abbrev pub reported : Bool → Call → Tally
reported false c = rx_reported c
reported true c = tx_reported c

abbrev pub held : Bool → DeviceStats → Tally
held false s = of_traffic s.rx
held true s = of_traffic s.tx

abbrev pub exported : Bool → Row × Row → Tally
exported false rows = of_row rows.0
exported true rows = of_row rows.1

abbrev pub sum {ℓ} : {A : Type ℓ} → (A → Tally) → List A → Tally
sum f [] = no_tally
sum f (x ∷ xs) = add (f x) (sum f xs)

-- The rows that a call exports, RX and TX, and the counters after it.
unfoldable pub apply : DeviceStats → Call → List (Row × Row) × DeviceStats
apply s (rx bytes now) = ([], device_rx_packet true s bytes now)
apply s (tx bytes now) = ([], device_tx_packet true s bytes now)
apply s (rx_lost now) = ([], device_rx_drop true s now)
apply s (tx_lost now) = ([], device_tx_drop true s now)
apply s (depth is_tx d now) = ([], observe_queue_depth true s is_tx d now)
apply s (export now rx_depth tx_depth) =
    let (rx_row, tx_row, t) = export_device s now rx_depth tx_depth in ((rx_row, tx_row) ∷ [], t)

abbrev pub apply_all : DeviceStats → List Call → List (Row × Row) × DeviceStats
apply_all s [] = ([], s)
apply_all s (c ∷ cs) =
    let (rows, t) = apply s c in let (more, u) = apply_all t cs in (rows ++ more, u)

abbrev pub Below : Tally → Type 0
Below t = (t.packets ≤ u64_max) × (t.bytes ≤ u64_max) × (t.drops ≤ u64_max)

abbrev pub Same : Tally → Tally → Type 0
Same a b = (a.packets ≡ b.packets) × (a.bytes ≡ b.bytes) × (a.drops ≡ b.drops)

apply-Same :
    (is_tx : Bool) (s : DeviceStats) (c : Call)
    → Below (add (held is_tx s) (reported is_tx c))
    → let (rows, t) = apply s c in
      Same (add (sum (exported is_tx) rows) (held is_tx t)) (add (held is_tx s) (reported is_tx c))
unfolding apply device_rx_packet device_tx_packet device_rx_drop device_tx_drop observe_queue_depth
    export_device ensure_window append_row reset_window stats_add_u64_saturating device_update_gap
apply-Same false s (rx bytes now) h = ground arith
apply-Same false s (tx bytes now) h = ground arith
apply-Same false s (rx_lost now) h = ground arith
apply-Same false s (tx_lost now) h = ground arith
apply-Same false s (depth side d now) h = ground arith
apply-Same false s (export now rx_depth tx_depth) h = ground arith
apply-Same true s (rx bytes now) h = ground arith
apply-Same true s (tx bytes now) h = ground arith
apply-Same true s (rx_lost now) h = ground arith
apply-Same true s (tx_lost now) h = ground arith
apply-Same true s (depth side d now) h = ground arith
apply-Same true s (export now rx_depth tx_depth) h = ground arith

sum-append :
    (is_tx : Bool) (xs ys : List (Row × Row))
    → Same
        (sum (exported is_tx) (xs ++ ys))
        (add (sum (exported is_tx) xs) (sum (exported is_tx) ys))
sum-append is_tx [] ys = (omega arith, omega arith, omega arith)
sum-append is_tx (x ∷ xs) ys =
    let (p, b, d) = sum-append is_tx xs ys in (omega (arith, p), omega (arith, b), omega (arith, d))

-- Over any series of calls and exports on a device whose statistics are enabled, no packet, byte
-- or drop is lost or counted twice between two windows: what the exported rows of a direction tell,
-- added up, and what the counters hold in the end are what they held at first and what the calls
-- report, if that fits in 64 bits.
pub apply_all-Same :
    (is_tx : Bool) (cs : List Call) (s : DeviceStats)
    → Below (add (held is_tx s) (sum (reported is_tx) cs))
    → let (rows, t) = apply_all s cs in
      Same
        (add (sum (exported is_tx) rows) (held is_tx t))
        (add (held is_tx s) (sum (reported is_tx) cs))
apply_all-Same is_tx [] s h = (omega arith, omega arith, omega arith)
apply_all-Same is_tx (c ∷ cs) s h =
    let (rows, t) = apply s c in
    let (more, u) = apply_all t cs in
    let (p, b, d) = apply-Same is_tx s c (omega arith, omega arith, omega arith) in
    let (p', b', d') = apply_all-Same is_tx cs t (omega arith, omega arith, omega arith) in
    let (p'', b'', d'') = sum-append is_tx rows more in (omega arith, omega arith, omega arith)
