-- ===== src/Duplex/Lifecycle.antt =====
-- The start of the two flows of src/mb-duplex-runtime.c, whatever state they are in.
use midi_ble_rt.Base.{◌≡◌, refl, Bool, true, false, not, ◌&&◌, ◌||◌, Bool-cases, inl, inr}
use midi_ble_rt.Runtime
use midi_ble_rt.Runtime.{Flow}
use midi_ble_rt.Duplex.{Duplex, start}

or_false : (b : Bool) → b ≡ b || false
or_false true = refl
or_false false = refl

-- Starting succeeds exactly if the runtime is initialised and neither flow has a thread yet, and
-- then both have one; if it fails, each flow has a thread exactly if it had one before.
pub start_lem :
    (d : Duplex)
    → let (started, delivered, d') = start d in
      (started ≡ d.initialized && (not d.rx.has_thread && not d.tx.has_thread))
      × (d'.rx.has_thread ≡ d.rx.has_thread || started)
      × (d'.tx.has_thread ≡ d.tx.has_thread || started)
unfolding start Runtime.start Runtime.stop
start_lem d = elim (Bool-cases d.initialized) [
  | inr not_yet ↦ rw not_yet (refl, or_false d.rx.has_thread, or_false d.tx.has_thread)
  | inl ready ↦ elim (Bool-cases d.rx.has_thread) [
    | inl rx_runs ↦ rw (ready, rx_runs) (refl, refl, or_false d.tx.has_thread)
    | inr rx_idle ↦ elim (Bool-cases d.tx.has_thread) [
      | inl tx_runs ↦ rw (ready, rx_idle, tx_runs) (refl, refl, refl)
      | inr tx_idle ↦ rw (ready, rx_idle, tx_idle) (refl, refl, refl)
    ]
  ]
]
