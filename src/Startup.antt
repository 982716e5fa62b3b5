-- ===== src/Startup.antt =====
-- device_try_start_streaming of src/mb-daemon.c with the functions that it is made of: how the
-- daemon brings a device from any state to STREAMING. What BlueZ, GATT and ALSA answer is an
-- argument of the attempt.
pub mod Moves
pub mod Outcome
pub mod Trace
pub mod Ports
use Prim.Native.String.{String}
use text.Mathlib.Text.{starts_with}
use midi_ble_rt.Base.{
  ℕ, ℤ, pos, minus_one, nonneg, Bool, true, false, not, ◌||◌, Option, none, some, List, [], ◌∷◌,
  ◌++◌, if◌then◌else◌,
}
use midi_ble_rt.Session.{
  Session, Event, State, idle, scanning, connecting, streaming, reconnecting, cmd_connect,
  cmd_disconnect, bluez_connected, bluez_disconnected, bluez_services_resolved,
  bluez_connect_failed, timeout, service_not_found, char_found, char_not_found, alsa_ready,
  alsa_failure, notify_ok, notify_failure, reconnect_timer, fatal, runtime_failure,
  set_midi_binding, set_alsa_port, is_streaming,
}
use midi_ble_rt.Duplex
use midi_ble_rt.Device
use midi_ble_rt.Device.{device_session_event}

-- ConfigDeviceRuntime as its lifecycle uses it, with what its owner knows of it.
pub record Runtime : Type 0 where
  pub device : Device.Device
  pub alsa_port : ℤ
  pub has_coders : Bool  -- alsa_midi_encoder and alsa_midi_decoder are not NULL
  pub port_route : Bool  -- it is in `device_by_alsa_port`
  pub runtime_started : Bool
  pub device_sub : Bool  -- device_sub_id is not 0
  pub notify_sub : Bool  -- notify_sub_id is not 0
  pub has_client : Bool  -- `rt->seq` is not NULL
  pub pair : Bool  -- of the device's configuration
  pub events : List Event  -- what `lifecycle_enqueue_event` was called with

-- What is answered, and the clock at each event.
pub record Answers : Type 0 where
  pub paired : Bool
  pub connected : Bool
  pub resolved : Bool
  pub service_path : Option String
  pub char_path : Option String
  pub io_uuid : String
  pub client_opened : Bool
  pub new_port : ℤ
  pub coders_made : Bool
  pub workers_started : Bool
  pub watching : Bool
  pub subscribed : Bool
  pub notifying : Bool
  pub clock : Event → ℕ

-- An attempt returns early, or goes on.
pub data Progress : Type 0 where
  stopped : Runtime → Progress
  going : Runtime → Progress

infixl 5 ◌>>=◌
abbrev pub ◌>>=◌ : Progress → (Runtime → Progress) → Progress
stopped d >>= f = stopped d
going d >>= f = f d

-- NULL, and the path that stands for a device that BlueZ does not know.
abbrev pub has_bluez_path : Option String → Bool
has_bluez_path none = false
has_bluez_path (some p) = not (starts_with p "config:")

abbrev pub session_of : Runtime → Session
session_of d = d.device.session

abbrev pub with_session : Runtime → Session → Runtime
with_session d s = record d { device = record d.device { session = s } }

unfoldable pub event : Answers → Event → Runtime → Runtime
unfolding device_session_event
event a e d = record d { device = (device_session_event d.device e (a.clock e)).1 }

-- `if (!ok) { device_session_event(dev, failure); return false; }`, then the event of success.
unfoldable pub step : Answers → Bool → Event → Event → Runtime → Progress
unfolding event
step a ok success failure d = if ok then going (event a success d) else stopped (event a failure d)

unfoldable pub begin_connect : Answers → Runtime → State → Progress
unfolding event
begin_connect a d reconnecting = going (event a reconnect_timer d)
begin_connect a d idle = going (event a cmd_connect d)
begin_connect a d scanning = going (event a cmd_connect d)
begin_connect a d connecting = going d
begin_connect a d _ = stopped d

unfoldable pub pair_device : Answers → Runtime → Progress
unfolding event
pair_device a d =
    if not d.pair || a.paired then going d else stopped (event a bluez_connect_failed d)

abbrev pub bound : Answers → String → String → Runtime → Runtime
bound a service char d =
    with_session d (set_midi_binding (session_of d) (some service) (some char) (some a.io_uuid))

-- The service and the characteristic, and what is bound of them.
unfoldable pub bind_midi : Answers → Runtime → Progress
unfolding event
bind_midi a d = elim a.service_path [
  | none ↦ stopped (event a service_not_found d)
  | some service ↦ elim a.char_path [
    | none ↦ stopped (event a char_not_found d)
    | some char ↦ going (event a char_found (bound a service char d))
  ]
]

-- `runtime_open_alsa_client` and `device_ensure_alsa_port`: an ALSA port that is there is kept.
unfoldable pub ensure_alsa_port : Answers → Runtime → Bool × Runtime
ensure_alsa_port a d =
    if nonneg d.alsa_port
    then (true, d)
    else if not (d.has_client || a.client_opened)
    then (false, d)
    else let e = record d { has_client = true } in
      if not (nonneg a.new_port)
      then (false, record e { alsa_port = minus_one })
      else if not a.coders_made
      then (false, record e { alsa_port = a.new_port })
      else (
        true,
        with_session (record e { alsa_port = a.new_port; has_coders = true; port_route = true })
            (set_alsa_port (session_of e) a.new_port),
      )

unfoldable pub create_alsa : Answers → Runtime → Progress
unfolding ensure_alsa_port step
create_alsa a d = let (ok, e) = ensure_alsa_port a d in step a ok alsa_ready alsa_failure e

-- `mb_duplex_runtime_start` starts both flows of a fresh runtime, or none.
unfoldable pub start_workers : Answers → Runtime → Progress
start_workers a d =
    if d.runtime_started
    then going d
    else let e = record d { device = record d.device { runtime = Duplex.init } } in
      if a.workers_started
      then going (record e {
        device = record e.device { runtime = (Duplex.start Duplex.init).2 };
        runtime_started = true;
      })
      else stopped (record e { events = d.events ++ (runtime_failure ∷ []) })

-- The subscription is kept from an attempt to the next.
unfoldable pub start_watch : Answers → Runtime → Progress
unfolding event
start_watch a d =
    if d.device_sub || a.watching
    then going (record d { device_sub = true })
    else stopped (event a fatal d)

-- `device_stop_notify`; the route by characteristic, which nothing reads, is left out.
abbrev pub stop_notify : Runtime → Runtime
stop_notify d = record d { notify_sub = false }

-- `device_start_notify`, where the session has a characteristic path.
unfoldable pub start_notify : Answers → Runtime → Progress
unfolding step
start_notify a d = elim (session_of d).midi_char_path [
  | none ↦ step a false notify_ok notify_failure (stop_notify d)
  | some path ↦ elim a.subscribed [
    | false ↦ step a false notify_ok notify_failure (stop_notify d)
    | true ↦ step a a.notifying notify_ok notify_failure (record d { notify_sub = true })
  ]
]

-- From the link on.
unfoldable pub bring_up : Answers → Runtime → Progress
unfolding pair_device step bind_midi create_alsa start_workers start_watch start_notify
bring_up a d =
    pair_device a d
    >>= step a a.connected bluez_connected bluez_connect_failed
    >>= step a a.resolved bluez_services_resolved timeout
    >>= bind_midi a
    >>= create_alsa a
    >>= start_workers a
    >>= start_watch a
    >>= start_notify a

-- What an attempt returns, once it is under way.
unfoldable pub reported : Progress → Bool × Runtime
reported (stopped d) = (false, d)
reported (going d) = (is_streaming (session_of d).state, d)

unfoldable pub try_start_streaming : Answers → Runtime → Bool × Runtime
unfolding begin_connect bring_up reported
try_start_streaming a d =
    if is_streaming (session_of d).state
    then (true, d)
    else if not (has_bluez_path (session_of d).device_path)
    then (false, d)
    else reported (begin_connect a d (session_of d).state >>= bring_up a)

-- `device_lifecycle_disconnect`; the call of BlueZ leaves no trace in the device.
unfoldable pub lifecycle_disconnect : Answers → Runtime → Runtime
unfolding event
lifecycle_disconnect a d = event a cmd_disconnect (stop_notify d)

abbrev pub can_mark_disconnected : State → Bool
can_mark_disconnected idle = false
can_mark_disconnected reconnecting = false
can_mark_disconnected State.error = false
can_mark_disconnected _ = true

unfoldable pub mark_disconnected : Answers → Runtime → Runtime
unfolding event
mark_disconnected a d =
    if can_mark_disconnected (session_of d).state
    then event a bluez_disconnected (stop_notify d)
    else d
