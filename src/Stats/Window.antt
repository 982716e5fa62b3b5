-- ===== src/Stats/Window.antt =====
-- The counters of src/mb-stats.c over a series of calls.
use midi_ble_rt.Base.{ℕ, ◌+◌, ◌≤◌, ◌≡◌, true, List, [], ◌∷◌, min, arith}
use midi_ble_rt.Stats.{Stats, u64_max, rx_packet, tx_packet, rx_drop, tx_drop, queue_depth}

-- The calls of the data plane.
pub data Call : Type 0 where
  rx tx : ℕ → ℕ → Call
  rx_lost tx_lost : Call
  depths : ℕ → ℕ → Call

unfoldable pub apply : Stats → Call → Stats
apply s (rx bytes now_ns) = rx_packet s bytes now_ns
apply s (tx bytes now_ns) = tx_packet s bytes now_ns
apply s rx_lost = rx_drop s
apply s tx_lost = tx_drop s
apply s (depths r t) = queue_depth s r t

abbrev pub apply_all : Stats → List Call → Stats
apply_all s [] = s
apply_all s (c ∷ cs) = apply_all (apply s c) cs

-- How many packets, bytes and drops of the RX side the calls report.
abbrev pub packets_of : List Call → ℕ
packets_of [] = 0
packets_of (rx b n ∷ cs) = 1 + packets_of cs
packets_of (c ∷ cs) = packets_of cs

abbrev pub bytes_of : List Call → ℕ
bytes_of [] = 0
bytes_of (rx b n ∷ cs) = b + bytes_of cs
bytes_of (c ∷ cs) = bytes_of cs

abbrev pub drops_of : List Call → ℕ
drops_of [] = 0
drops_of (rx_lost ∷ cs) = 1 + drops_of cs
drops_of (c ∷ cs) = drops_of cs

-- The RX counters are the reported numbers added up, each held at the largest value of 64 bits.
pub record Counts (s : Stats) (cs : List Call) (s' : Stats) : Type 0 where
  pub enabled : s'.enabled ≡ true
  pub packets : s'.rx.packets ≡ min (s.rx.packets + packets_of cs) u64_max
  pub bytes : s'.rx.bytes ≡ min (s.rx.bytes + bytes_of cs) u64_max
  pub drops : s'.rx.drops ≡ min (s.rx.drops + drops_of cs) u64_max

pub record InRange (s : Stats) : Type 0 where
  pub enabled : s.enabled ≡ true
  pub packets_in : s.rx.packets ≤ u64_max
  pub bytes_in : s.rx.bytes ≤ u64_max
  pub drops_in : s.rx.drops ≤ u64_max

apply-Counts : (s : Stats) (c : Call) → InRange s → Counts s (c ∷ []) (apply s c)
unfolding apply rx_packet tx_packet rx_drop tx_drop queue_depth
apply-Counts s (rx b n) v = ground arith
apply-Counts s (tx b n) v = ground arith
apply-Counts s rx_lost v = ground arith
apply-Counts s tx_lost v = ground arith
apply-Counts s (depths r t) v = ground arith

Counts-InRange : (s : Stats) (cs : List Call) (s' : Stats) → Counts s cs s' → InRange s'
Counts-InRange s cs s' c = record {
  enabled = c.enabled;
  packets_in = omega (arith, c.packets);
  bytes_in = omega (arith, c.bytes);
  drops_in = omega (arith, c.drops);
}

one_more :
    (c : Call) (cs : List Call)
    → (packets_of (c ∷ cs) ≡ packets_of (c ∷ []) + packets_of cs)
      × (bytes_of (c ∷ cs) ≡ bytes_of (c ∷ []) + bytes_of cs)
      × (drops_of (c ∷ cs) ≡ drops_of (c ∷ []) + drops_of cs)
one_more (rx b n) cs = omega arith
one_more (tx b n) cs = omega arith
one_more rx_lost cs = omega arith
one_more tx_lost cs = omega arith
one_more (depths r t) cs = omega arith

Counts-cons :
    (s : Stats) (c : Call) (cs : List Call)
    → Counts s (c ∷ []) (apply s c)
    → Counts (apply s c) cs (apply_all (apply s c) cs)
    → Counts s (c ∷ cs) (apply_all (apply s c) cs)
Counts-cons s c cs one rest =
    let sums = one_more c cs in
    record {
      enabled = rest.enabled;
      packets = omega (arith, one.packets, rest.packets, sums.0);
      bytes = omega (arith, one.bytes, rest.bytes, sums.1);
      drops = omega (arith, one.drops, rest.drops, sums.2);
    }

-- Over any series of calls, with TX calls and queue depths among them, enabled statistics count
-- each RX packet, its bytes and each RX drop that is reported, exactly, up to the largest value of
-- 64 bits, where a counter stays.
pub apply_all-Counts : (cs : List Call) (s : Stats) → InRange s → Counts s cs (apply_all s cs)
apply_all-Counts [] s v = record {
  enabled = v.enabled;
  packets = omega (arith, v.packets_in);
  bytes = omega (arith, v.bytes_in);
  drops = omega (arith, v.drops_in);
}
apply_all-Counts (c ∷ cs) s v =
    let one = apply-Counts s c v in
    Counts-cons s c cs one
      (apply_all-Counts cs (apply s c) (Counts-InRange s (c ∷ []) (apply s c) one))
