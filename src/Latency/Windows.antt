-- ===== src/Latency/Windows.antt =====
-- The counts of src/mb-latency-diagnostics.c over the windows that are exported.
use midi_ble_rt.Base.{
  ℕ, ◌+◌, ◌<◌, ◌≡◌, refl, Bool, true, false, not, ◌&&◌, List, [], ◌∷◌, Option, none, some,
  if◌then◌else◌, arith, if_intro, ap,
}
use midi_ble_rt.Latency.{
  metric_observe, accumulator_observe, metric_reset, accumulator_reset, u64_max,
}
use midi_ble_rt.Latency.Window.{
  LatencyState, Snapshot, Times, in_order, is_due, observe, record_times, build_tsv, reset_window,
}

-- How many latencies the two rows of a direction stand for.
abbrev pub held : Bool → LatencyState → ℕ × ℕ
held false s = (s.rx_queue.latency.count, s.rx_total.latency.count)
held true s = (s.tx_queue.latency.count, s.tx_total.latency.count)

abbrev pub exported : Bool → Option Snapshot → ℕ × ℕ
exported tx none = (0, 0)
exported tx (some w) = held tx w.state

pub record Call : Type 0 where
  pub tx : Bool
  pub times : Times

abbrev pub same_side : Bool → Bool → Bool
same_side true b = b
same_side false b = not b

-- How many of the calls report an item of the direction, with its times in order.
abbrev pub reported : Bool → List Call → ℕ
reported tx [] = 0
reported tx (c ∷ cs) =
    if same_side tx c.tx && in_order c.times then 1 + reported tx cs else reported tx cs

abbrev pub plus : ℕ × ℕ → ℕ × ℕ → ℕ × ℕ
plus (a, b) (c, d) = (a + c, b + d)

-- What the windows that are exported hold, and the state in the end.
abbrev pub record_all : Bool → LatencyState → List Call → (ℕ × ℕ) × LatencyState
record_all tx s [] = ((0, 0), s)
record_all tx s (c ∷ cs) =
    let (window, t) = record_times s c.tx c.times in
    let (more, u) = record_all tx t cs in (plus (exported tx window) more, u)

pub record Works (s : LatencyState) : Type 0 where
  pub flagged : s.flag ≡ true
  pub enabled : s.enabled ≡ true
  pub has_path : s.has_path ≡ true

abbrev pub one_if : Bool → ℕ
one_if true = 1
one_if false = 0

observe-held :
    (tx side : Bool) (s : LatencyState) (t : Times)
    → (held tx s).0 < u64_max
    → (held tx s).1 < u64_max
    → let u = observe s side t in
      ((held tx u).0 ≡ (held tx s).0 + one_if (same_side tx side))
      × ((held tx u).1 ≡ (held tx s).1 + one_if (same_side tx side))
unfolding observe metric_observe accumulator_observe
observe-held true true s t h k = ground arith
observe-held true false s t h k = ground arith
observe-held false true s t h k = ground arith
observe-held false false s t h k = ground arith

observe-Works : (side : Bool) (s : LatencyState) (t : Times) → Works s → Works (observe s side t)
unfolding observe
observe-Works true s t w = record {
  flagged = w.flagged;
  enabled = w.enabled;
  has_path = w.has_path;
}
observe-Works false s t w = record {
  flagged = w.flagged;
  enabled = w.enabled;
  has_path = w.has_path;
}

-- What a call adds to what was exported and what is held.
abbrev Adds : Bool → LatencyState → ℕ → Option Snapshot × LatencyState → Type 0
Adds tx s n (w, u) =
    Works u
    × ((exported tx w).0 + (held tx u).0 ≡ (held tx s).0 + n)
    × ((exported tx w).1 + (held tx u).1 ≡ (held tx s).1 + n)

reset-held :
    (tx : Bool) (s : LatencyState) (now : ℕ)
    → ((held tx (reset_window s now)).0 ≡ 0) × ((held tx (reset_window s now)).1 ≡ 0)
unfolding reset_window metric_reset accumulator_reset
reset-held true s now = (refl, refl)
reset-held false s now = (refl, refl)

build-held : (tx : Bool) (s : LatencyState) (now : ℕ) → held tx (build_tsv s now).state ≡ held tx s
unfolding build_tsv
build-held true s now = refl
build-held false s now = refl

reset-Works : (s : LatencyState) (now : ℕ) → Works s → Works (reset_window s now)
unfolding reset_window
reset-Works s now w = record { flagged = w.flagged; enabled = w.enabled; has_path = w.has_path }

record_times-Adds :
    (tx : Bool) (s : LatencyState) (side : Bool) (t : Times)
    → Works s
    → (held tx s).0 < u64_max
    → (held tx s).1 < u64_max
    → Adds tx s (one_if (same_side tx side && in_order t)) (record_times s side t)
unfolding record_times
record_times-Adds tx s side t w h k =
    let n = one_if (same_side tx side && in_order t) in
    let P : Option Snapshot × LatencyState → Type 0 = Adds tx s n in
    if_intro P (not s.flag) (λ off. absurd (ground (arith, off, w.flagged)))
      (λ on.
        if_intro P (not (in_order t))
          (λ out.
            let none_counted : n ≡ 0 = ground (arith, out) in
            (w, omega (arith, none_counted), omega (arith, none_counted)))
          (λ good.
            if_intro P (not (s.enabled && s.has_path))
              (λ off. absurd (ground (arith, off, w.enabled, w.has_path)))
              (λ works.
                let one_counted : n ≡ one_if (same_side tx side) = ground (arith, good) in
                let u = observe s side t in
                let now = t.consume_finished_ns in
                let (a, b) = observe-held tx side s t h k in
                let (z, y) = reset-held tx u now in
                let same = build-held tx u now in
                if_intro P (is_due u now)
                  (λ due. (
                    reset-Works u now (observe-Works side s t w),
                    omega (arith, ap (λ (p : ℕ × ℕ). p.0) same, a, z, one_counted),
                    omega (arith, ap (λ (p : ℕ × ℕ). p.1) same, b, y, one_counted),
                  ))
                  (λ early. (
                    observe-Works side s t w,
                    omega (arith, a, one_counted),
                    omega (arith, b, one_counted),
                  )))))

reported-cons :
    (tx : Bool) (c : Call) (cs : List Call)
    → reported tx (c ∷ cs) ≡ one_if (same_side tx c.tx && in_order c.times) + reported tx cs
reported-cons tx c cs =
    if_intro (λ n. n ≡ one_if (same_side tx c.tx && in_order c.times) + reported tx cs)
      (same_side tx c.tx && in_order c.times) (λ yes. ground (arith, yes))
      (λ no. ground (arith, no))

-- Over any series of items that the flows report, while diagnostics are enabled, no item is lost
-- or counted twice between two windows: the counts of a direction in the windows that are exported
-- and in the one that is held in the end add up, for the row of the queue and for the row of the
-- total alike, to what was held at first and the reported items whose times are in order, if that
-- stays below the largest value of 64 bits.
pub record_all-Counted :
    (tx : Bool) (cs : List Call) (s : LatencyState)
    → Works s
    → (held tx s).0 + reported tx cs < u64_max
    → (held tx s).1 + reported tx cs < u64_max
    → let (windows, t) = record_all tx s cs in
      (windows.0 + (held tx t).0 ≡ (held tx s).0 + reported tx cs)
      × (windows.1 + (held tx t).1 ≡ (held tx s).1 + reported tx cs)
record_all-Counted tx [] s w h k = (omega arith, omega arith)
record_all-Counted tx (c ∷ cs) s w h k =
    let n = reported-cons tx c cs in
    let (w', a, b) = record_times-Adds tx s c.tx c.times w (omega (arith, h)) (omega (arith, k)) in
    let (x, y) =
      record_all-Counted tx cs (record_times s c.tx c.times).1 w' (omega (arith, h, n, a))
        (omega (arith, k, n, b)) in
    (omega (arith, x, a, n), omega (arith, y, b, n))
