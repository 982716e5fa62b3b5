-- ===== src/Bluez.antt =====
-- The calls of src/mb-bluez.c that wait: how a device is connected, and how its services are
-- awaited. What BlueZ answers to each reading of a property is an argument, none if it cannot be
-- read.
pub mod Waiting
use midi_ble_rt.Base.{
  ℕ, zero, suc, ◌+◌, Bool, true, false, not, Option, none, some, List, [], ◌∷◌, if◌then◌else◌, ltb,
}

-- MB_BLUEZ_CONNECTED_WAIT_TIMEOUT_MS and the others, in milliseconds
abbrev pub connected_wait_timeout_ms : ℕ
connected_wait_timeout_ms = 15000

abbrev pub connected_poll_interval_ms : ℕ
connected_poll_interval_ms = 250

abbrev pub ambiguous_timeout_grace_ms : ℕ
ambiguous_timeout_grace_ms = 15000

abbrev pub services_resolved_poll_interval_ms : ℕ
services_resolved_poll_interval_ms = 100

abbrev pub reset_after_failure_delay_ms : ℕ
reset_after_failure_delay_ms = 1000

-- The property is read, and is true.
abbrev pub says_yes : Option Bool → Bool
says_yes none = false
says_yes (some b) = b

-- Whether a wait succeeded, and for how long it slept.
pub record Waited : Type 0 where
  pub ok : Bool
  pub slept_ms : ℕ

abbrev pub sleep_first : ℕ → Waited → Waited
sleep_first step w = record w { slept_ms = step + w.slept_ms }

-- The `while (elapsed < timeout_ms)`, which reads the property `poll 0`, then `poll 1`, and so on.
pub wait_polls : ℕ → (ℕ → Option Bool) → (step elapsed timeout : ℕ) → Waited
wait_polls zero poll step elapsed timeout = record { ok = false; slept_ms = 0 }
wait_polls (suc fuel) poll step elapsed timeout =
    let more = wait_polls fuel (λ i. poll (suc i)) step (elapsed + step) timeout in
    if not (ltb elapsed timeout)
    then record { ok = false; slept_ms = 0 }
    else if says_yes (poll 0)
    then record { ok = true; slept_ms = 0 }
    else sleep_first step more

-- `bluez_wait_connected`, and `wait_services_resolved_once`: a round lasts a millisecond at least.
unfoldable pub wait_connected : (ℕ → Option Bool) → ℕ → Waited
unfolding wait_polls
wait_connected poll timeout = wait_polls timeout poll connected_poll_interval_ms 0 timeout

unfoldable pub wait_services_resolved_once : (ℕ → Option Bool) → ℕ → Waited
unfolding wait_polls
wait_services_resolved_once poll timeout =
    wait_polls timeout poll services_resolved_poll_interval_ms 0 timeout

-- What `bluez_connect_call_once` makes of the answer to Device1.Connect().
pub data Connect : Type 0 where
  connected already_connected in_progress timed_out failed : Connect

-- What an operation did: whether it succeeded, whether Connect and Disconnect were called, and for
-- how long it slept.
pub record Done : Type 0 where
  pub ok : Bool
  pub called : Bool
  pub reset : Bool
  pub slept_ms : ℕ

-- A wait, and the reset of the connection if it was in vain.
abbrev pub or_reset : Bool → Waited → Done
or_reset called w =
    if w.ok
    then record { ok = true; called = called; reset = false; slept_ms = w.slept_ms }
    else record {
      ok = false;
      called = called;
      reset = true;
      slept_ms = w.slept_ms + reset_after_failure_delay_ms;
    }

abbrev pub answered : Bool → Done
answered ok = record { ok = ok; called = true; reset = false; slept_ms = 0 }

-- `mb_bluez_connect_device`: `before` is what `Connected` is at first.
unfoldable pub connect_device : Option Bool → Connect → (ℕ → Option Bool) → Done
connect_device before answer poll =
    if says_yes before
    then record { ok = true; called = false; reset = false; slept_ms = 0 }
    else elim answer [
      | connected ↦ answered true
      | already_connected ↦ answered true
      | in_progress ↦ or_reset true (wait_connected poll connected_wait_timeout_ms)
      | timed_out ↦ or_reset true (wait_connected poll ambiguous_timeout_grace_ms)
      | failed ↦ answered false
    ]

-- `mb_bluez_wait_services_resolved`
unfoldable pub wait_services_resolved : (ℕ → Option Bool) → ℕ → Done
wait_services_resolved poll timeout = or_reset false (wait_services_resolved_once poll timeout)
