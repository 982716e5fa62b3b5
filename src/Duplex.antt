-- ===== src/Duplex.antt =====
-- src/mb-duplex-runtime.h and src/mb-duplex-runtime.c: the two flows of a device, one for each
-- direction. The callbacks that the flows are given show by what a flow hands them.
pub mod Lifecycle
use midi_ble_rt.Base.{ℕ, Bool, true, false, not, ◌&&◌, List, [], Option, if◌then◌else◌}
use midi_ble_rt.SliceRing.{rx_raw, tx_raw}
use midi_ble_rt.Runtime.{Flow, Message, flow_init}
use midi_ble_rt.Runtime

-- MbDuplexRuntime
pub record Duplex : Type 0 where
  pub rx : Flow
  pub tx : Flow
  pub initialized : Bool

unfoldable pub init : Duplex
init = record { rx = flow_init rx_raw; tx = flow_init tx_raw; initialized = true }

-- What the callbacks of the two flows are handed by an operation, in order.
abbrev pub Delivered : Type 0
Delivered = List (Option Message) × List (Option Message)

unfoldable pub stop : Duplex → Delivered × Duplex
stop d =
    if not d.initialized
    then (([], []), d)
    else let (rx_messages, rx) = Runtime.stop d.rx in
      let (tx_messages, tx) = Runtime.stop d.tx in
      ((rx_messages, tx_messages), record d { rx = rx; tx = tx })

-- Whether both threads run, what was delivered on the way, and the runtime.
unfoldable pub start : Duplex → Bool × List (Option Message) × Duplex
start d =
    if not d.initialized
    then (false, [], d)
    else let (rx_started, rx) = Runtime.start d.rx in
      if not rx_started
      then (false, [], record d { rx = rx })
      else let (tx_started, tx) = Runtime.start d.tx in
        if not tx_started
        then (false, (Runtime.stop rx).0, record d { rx = (Runtime.stop rx).1; tx = tx })
        else (true, [], record d { rx = rx; tx = tx })

unfoldable pub push_rx_with_epoch : Duplex → List ℕ → ℕ → ℕ → Bool × Duplex
push_rx_with_epoch d bytes timestamp_ns epoch =
    if not d.initialized
    then (false, d)
    else let (accepted, rx) = Runtime.push_bytes_with_epoch d.rx bytes timestamp_ns epoch in
      (accepted, record d { rx = rx })

unfoldable pub push_rx : Duplex → List ℕ → ℕ → Bool × Duplex
unfolding push_rx_with_epoch
push_rx d bytes timestamp_ns = push_rx_with_epoch d bytes timestamp_ns 0

unfoldable pub push_tx_with_epoch : Duplex → List ℕ → ℕ → ℕ → Bool × Duplex
push_tx_with_epoch d bytes timestamp_ns epoch =
    if not d.initialized
    then (false, d)
    else let (accepted, tx) = Runtime.push_bytes_with_epoch d.tx bytes timestamp_ns epoch in
      (accepted, record d { tx = tx })

unfoldable pub push_tx : Duplex → List ℕ → ℕ → Bool × Duplex
unfolding push_tx_with_epoch
push_tx d bytes timestamp_ns = push_tx_with_epoch d bytes timestamp_ns 0

unfoldable pub drop_pending : Duplex → Duplex
drop_pending d =
    if not d.initialized
    then d
    else record d { rx = Runtime.drop_pending d.rx; tx = Runtime.drop_pending d.tx }

unfoldable pub rx_depth : Duplex → ℕ
rx_depth d = if d.initialized then Runtime.depth d.rx else 0

unfoldable pub tx_depth : Duplex → ℕ
tx_depth d = if d.initialized then Runtime.depth d.tx else 0
