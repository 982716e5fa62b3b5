-- ===== src/Ingress.antt =====
-- The two places of src/mb-daemon.c where data comes in: the signal of a changed property, which
-- brings a notification from the instrument, and the queue of ALSA's events. What is printed leaves
-- no trace in the model; the coders of the ALSA library are arguments, and the clock is read where
-- an argument says `_ns`.
pub mod Change
pub mod Push
pub mod Arrival
pub mod Queue
pub mod Bounded
pub mod Carried
pub mod Drained
use Prim.Native.String.{String}
use text.Mathlib.Text.{◌==◌}
use midi_ble_rt.Base.{
  ℕ, Bool, true, false, not, ◌&&◌, ◌||◌, Option, none, some, List, [], ◌∷◌, if◌then◌else◌, length,
  leb,
}
use midi_ble_rt.Session.{Event, alsa_decode_failure, runtime_failure}
use midi_ble_rt.Runtime.{depth}
use midi_ble_rt.Duplex.{Duplex, push_rx_with_epoch, push_tx_with_epoch}
use midi_ble_rt.Dataplane.{stamp}
use midi_ble_rt.Device.{Device}
use midi_ble_rt.Stats.{Stats}
use midi_ble_rt.Stats
use midi_ble_rt.DeviceStats.{DeviceStats, device_rx_packet, device_rx_drop, device_tx_drop}
use midi_ble_rt.Lifecycle.{
  Lifecycle, CommandType, mark_disconnected, enqueue_now, enqueue_event, schedule,
}
use midi_ble_rt.Alsa.{EventType, event_is_midi_payload}

-- A ConfigDeviceRuntime, with the field `enable_tx` of its configuration.
pub record Station : Type 0 where
  pub device : Device
  pub stats : DeviceStats
  pub enable_tx : Bool

-- The parts of ConfigDirRuntime that are changed here; the devices stand under their addresses.
pub record Hub : Type 0 where
  pub stats : Stats
  pub lifecycle : Lifecycle
  pub devices : ℕ → Station

abbrev pub same : ℕ → ℕ → Bool
same a b = leb a b && leb b a

-- A change of one device.
abbrev pub change : Hub → ℕ → (Station → Station) → Hub
change h dev f = record h { devices = λ i. if same i dev then f (h.devices i) else h.devices i }

-- `lifecycle_enqueue_event` as a whole, with nobody else at work.
abbrev pub event_now : Hub → ℕ → Event → Hub
event_now h dev event = record h { lifecycle = schedule (enqueue_event h.lifecycle dev event) }

-- A drop is counted twice, for the daemon and for the device.
abbrev pub rx_dropped : Hub → ℕ → ℕ → Hub
rx_dropped h dev now_ns =
    change (record h { stats = Stats.rx_drop h.stats }) dev
      (λ s. record s { stats = device_rx_drop h.stats.enabled s.stats now_ns })

abbrev pub tx_dropped : Hub → ℕ → ℕ → Hub
tx_dropped h dev now_ns =
    change (record h { stats = Stats.tx_drop h.stats }) dev
      (λ s. record s { stats = device_tx_drop h.stats.enabled s.stats now_ns })

abbrev pub rx_counted : Hub → ℕ → ℕ → ℕ → Hub
rx_counted h dev bytes now_ns =
    change (record h { stats = Stats.rx_packet h.stats bytes now_ns }) dev
      (λ s. record s { stats = device_rx_packet h.stats.enabled s.stats bytes now_ns })

abbrev pub with_runtime : Hub → ℕ → Duplex → Hub
with_runtime h dev runtime =
    change h dev (λ s. record s { device = record (s.device) { runtime = runtime } })

-- `device_rx_observe_depth` and `device_tx_observe_depth`, which a push that is accepted calls.
abbrev pub rx_observe_depth : Hub → ℕ → Hub
rx_observe_depth h queue_depth = record h { stats = Stats.queue_depth h.stats queue_depth 0 }

abbrev pub tx_observe_depth : Hub → ℕ → Hub
tx_observe_depth h queue_depth = record h { stats = Stats.queue_depth h.stats 0 queue_depth }

-- The push of a notification, with what it calls, and what follows it. Nobody takes a message
-- between the push and the reading of the depth.
abbrev pub rx_pushed : Hub → ℕ → ℕ → ℕ → ℕ → Bool × Duplex → Hub
rx_pushed h dev bytes now_ns later_ns (accepted, runtime) =
    let g = with_runtime h dev runtime in
    if not accepted
    then event_now (rx_dropped g dev later_ns) dev runtime_failure
    else rx_counted (rx_observe_depth g (depth runtime.rx)) dev bytes now_ns

abbrev pub rx_stamped : Hub → ℕ → List ℕ → ℕ → Option (ℕ × ℕ) → Hub
rx_stamped h dev bytes later_ns none = rx_dropped h dev later_ns
rx_stamped h dev bytes later_ns (some (epoch, now_ns)) =
    rx_pushed h dev (length bytes) now_ns later_ns
      (push_rx_with_epoch ((h.devices dev).device.runtime) bytes now_ns epoch)

-- A `Value` of the characteristic.
unfoldable pub notification : Hub → ℕ → List ℕ → ℕ → ℕ → Hub
notification h dev bytes now_ns later_ns =
    rx_stamped h dev bytes later_ns (stamp ((h.devices dev).device.fence) now_ns)

-- A PropertiesChanged signal: what it says of `Connected` and of `Value`, if it does.
pub record Signal : Type 0 where
  pub object_path : String
  pub iface : String
  pub connected : Option Bool
  pub value : Option (List ℕ)

-- A path that is there and is the one of the signal.
abbrev pub matches : Option String → String → Bool
matches none path = false
matches (some p) path = path == p

abbrev pub says_disconnected : Option Bool → Bool
says_disconnected (some false) = true
says_disconnected _ = false

abbrev pub on_value : Hub → ℕ → ℕ → ℕ → Option (List ℕ) → Hub
on_value h dev now_ns later_ns none = h
on_value h dev now_ns later_ns (some bytes) = notification h dev bytes now_ns later_ns

unfoldable pub on_properties_changed : Hub → ℕ → Signal → ℕ → ℕ → Hub
unfolding notification
on_properties_changed h dev signal now_ns later_ns =
    let session = (h.devices dev).device.session in
    let g =
      if (signal.iface == "org.bluez.Device1")
        && matches session.device_path signal.object_path
        && says_disconnected signal.connected
      then record h { lifecycle = enqueue_now dev mark_disconnected h.lifecycle }
      else h in
    if (signal.iface == "org.bluez.GattCharacteristic1")
      && matches session.midi_char_path signal.object_path
    then on_value g dev now_ns later_ns signal.value
    else g

-- What follows the push of a message from ALSA, which is not counted before it is sent.
abbrev pub tx_pushed : Hub → ℕ → ℕ → Bool × Duplex → Hub
tx_pushed h dev later_ns (accepted, runtime) =
    let g = with_runtime h dev runtime in
    if not accepted
    then event_now (tx_dropped g dev later_ns) dev runtime_failure
    else tx_observe_depth g (depth runtime.tx)

abbrev pub tx_stamped : Hub → ℕ → List ℕ → ℕ → Option (ℕ × ℕ) → Hub
tx_stamped h dev midi later_ns none = tx_dropped h dev later_ns
tx_stamped h dev midi later_ns (some (epoch, now_ns)) =
    tx_pushed h dev later_ns (push_tx_with_epoch ((h.devices dev).device.runtime) midi now_ns epoch)

-- What the decoder of the ALSA library made of an event: none is an error.
unfoldable pub decoded : Hub → ℕ → ℕ → ℕ → Option (List ℕ) → Hub
decoded h dev now_ns later_ns none = event_now (tx_dropped h dev later_ns) dev alsa_decode_failure
decoded h dev now_ns later_ns (some []) = h
decoded h dev now_ns later_ns (some (b ∷ midi)) =
    tx_stamped h dev (b ∷ midi) later_ns (stamp ((h.devices dev).device.fence) now_ns)
