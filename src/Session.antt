-- ===== src/Session.antt =====
-- src/mb-session.h and the first part of src/mb-session.c: one device's session and its state
-- machine. A `char *` is an optional text; `free` and `strdup` leave no trace in the model.
pub mod Invariant
pub mod Diagram
pub mod History
use Prim.Native.Nat.{ℕ, ◌+◌, ◌%◌, ◌^◌}
use Prim.Native.String.{String}
use mathlib.Core.Bool.{Bool, true, false, ◌&&◌}
use mathlib.Core.Option.{Option, none, some}
use midi_ble_rt.Base.{ℤ, pos, negsuc, minus_one, nonneg, if◌then◌else◌}

-- MbSessionState
pub data State : Type 0 where
  idle scanning connecting wait_services binding_midi creating_alsa enabling_notify : State
  streaming reconnecting error : State

-- MbErrorCode
pub data ErrorCode : Type 0 where
  nothing bluez_unavailable adapter_powered_off connect_failed connect_timeout : ErrorCode
  services_timeout midi_service_not_found midi_char_not_found notify_failed notify_timeout :
      ErrorCode
  gatt_write_failed alsa_failed alsa_io_failed alsa_decode_failed runtime_failed : ErrorCode
  disconnected invalid_transition internal : ErrorCode

-- MbEventType
pub data Event : Type 0 where
  cmd_scan cmd_connect cmd_disconnect cmd_forget : Event
  bluez_device_found bluez_connected bluez_disconnected bluez_services_resolved : Event
  bluez_adapter_off bluez_connect_failed : Event
  service_not_found char_found char_not_found : Event
  alsa_ready alsa_failure alsa_io_failure alsa_decode_failure : Event
  notify_ok notify_failure : Event
  gatt_write_failure runtime_failure : Event
  reconnect_timer timeout fatal : Event

-- MbSession
pub record Session : Type 0 where
  pub state : State
  pub error : ErrorCode
  pub device_path : Option String
  pub address : Option String
  pub name : Option String
  pub bluez_connected : Bool
  pub services_resolved : Bool
  pub midi_service_path : Option String
  pub midi_char_path : Option String
  pub midi_char_uuid : Option String
  pub notify_enabled : Bool
  pub alsa_port_id : ℤ
  pub alsa_ready : Bool
  pub auto_reconnect : Bool
  pub reconnect_attempts : ℕ  -- unsigned, 32 bits

unfoldable pub state_name : State → String
state_name idle = "IDLE"
state_name scanning = "SCANNING"
state_name connecting = "CONNECTING"
state_name wait_services = "WAIT_SERVICES"
state_name binding_midi = "BINDING_MIDI"
state_name creating_alsa = "CREATING_ALSA"
state_name enabling_notify = "ENABLING_NOTIFY"
state_name streaming = "STREAMING"
state_name reconnecting = "RECONNECTING"
state_name error = "ERROR"

-- The empty text counts as absent.
unfoldable pub dup_or_null : Option String → Option String
dup_or_null none = none
dup_or_null (some String.[]) = none
dup_or_null (some (String.◌∷◌ c s)) = some (String.◌∷◌ c s)

unfoldable pub set_identity : Session → Option String → Option String → Option String → Session
set_identity s device_path address name = record s {
  device_path = dup_or_null device_path;
  address = dup_or_null address;
  name = dup_or_null name;
}

unfoldable pub set_midi_binding : Session → Option String → Option String → Option String → Session
set_midi_binding s service_path char_path char_uuid = record s {
  midi_service_path = dup_or_null service_path;
  midi_char_path = dup_or_null char_path;
  midi_char_uuid = dup_or_null char_uuid;
}

unfoldable pub set_alsa_port : Session → ℤ → Session
set_alsa_port s port = record s { alsa_port_id = port; alsa_ready = nonneg port }

-- `memset(session, 0, sizeof(*session))`
abbrev pub zero_session : Session
zero_session = record {
  state = idle;
  error = nothing;
  device_path = none;
  address = none;
  name = none;
  bluez_connected = false;
  services_resolved = false;
  midi_service_path = none;
  midi_char_path = none;
  midi_char_uuid = none;
  notify_enabled = false;
  alsa_port_id = pos 0;
  alsa_ready = false;
  auto_reconnect = false;
  reconnect_attempts = 0;
}

unfoldable pub init : Option String → Option String → Option String → Session
unfolding set_identity
init device_path address name =
    set_identity (record zero_session { alsa_port_id = minus_one; auto_reconnect = true })
      device_path address name

unfoldable pub clear : Session → Session
clear s = record zero_session { alsa_port_id = minus_one }

unfoldable pub reset_runtime : Session → Bool → Session
reset_runtime s keep_alsa_port =
    let t = record s {
      bluez_connected = false;
      services_resolved = false;
      notify_enabled = false;
      midi_service_path = none;
      midi_char_path = none;
      midi_char_uuid = none;
    } in
    if keep_alsa_port then t else record t { alsa_ready = false; alsa_port_id = minus_one }

abbrev pub enter_error : Session → ErrorCode → Session
enter_error s code = record s { state = error; error = code }

unfoldable pub enter_reconnecting_or_error : Session → ErrorCode → Bool → Session
unfolding reset_runtime
enter_reconnecting_or_error s code keep_alsa_port =
    let t = reset_runtime s keep_alsa_port in
    if t.auto_reconnect then record t { state = reconnecting; error = code } else enter_error t code

abbrev pub note_nonfatal_error : Session → ErrorCode → Session
note_nonfatal_error s code = record s { error = code }

-- `session->state = next; session->error = MB_ERR_NONE;`
abbrev pub enter : Session → State → Session
enter s next = record s { state = next; error = nothing }

-- The `switch` on the state, and what follows it.
switch : State → Event → Session → Session × Bool
unfolding enter_reconnecting_or_error
switch idle cmd_scan s = (enter s scanning, true)
switch idle cmd_connect s = (enter s connecting, true)
switch scanning bluez_device_found s = (s, true)
switch scanning cmd_connect s = (enter s connecting, true)
switch connecting bluez_connected s =
    (enter (record s { bluez_connected = true }) wait_services, true)
switch connecting bluez_disconnected s = (enter_reconnecting_or_error s connect_failed false, true)
switch wait_services bluez_services_resolved s =
    (enter (record s { services_resolved = true }) binding_midi, true)
switch wait_services bluez_disconnected s = (enter_reconnecting_or_error s disconnected true, true)
switch binding_midi char_found s = (enter s creating_alsa, true)
switch binding_midi bluez_disconnected s = (enter_reconnecting_or_error s disconnected true, true)
switch creating_alsa alsa_ready s = (
  enter
      (record s {
        alsa_ready = true;
        alsa_port_id = if nonneg s.alsa_port_id then s.alsa_port_id else pos 0;
      })
      enabling_notify,
  true,
)
switch creating_alsa bluez_disconnected s = (enter_reconnecting_or_error s disconnected true, true)
switch enabling_notify notify_ok s = (enter (record s { notify_enabled = true }) streaming, true)
switch enabling_notify bluez_disconnected s =
    (enter_reconnecting_or_error s disconnected true, true)
switch streaming bluez_disconnected s = (enter_reconnecting_or_error s disconnected true, true)
switch reconnecting reconnect_timer s =
    (enter (record s { reconnect_attempts = (s.reconnect_attempts + 1) % 2 ^ 32 }) connecting, true)
switch reconnecting cmd_connect s =
    (enter (record s { reconnect_attempts = (s.reconnect_attempts + 1) % 2 ^ 32 }) connecting, true)
switch error cmd_connect s = (enter (reset_runtime s false) connecting, true)
switch error cmd_scan s = (enter (reset_runtime s false) scanning, true)
switch _ _ s = (record s { error = invalid_transition }, false)

on_connect_failed : State → Session → Session
unfolding enter_reconnecting_or_error
on_connect_failed connecting s = enter_reconnecting_or_error s connect_failed false
on_connect_failed _ s = enter_error s connect_failed

on_timeout : State → Session → Session
unfolding enter_reconnecting_or_error
on_timeout connecting s = enter_reconnecting_or_error s connect_timeout false
on_timeout wait_services s = enter_reconnecting_or_error s services_timeout true
on_timeout enabling_notify s = enter_reconnecting_or_error s notify_timeout true
on_timeout _ s = enter_error s internal

-- An ALSA input/output or decoding error only leaves a note while the session streams.
on_alsa_error : State → ErrorCode → Session → Session
on_alsa_error streaming code s = note_nonfatal_error s code
on_alsa_error _ code s = enter_error s code

-- The events that are handled before the `switch` comes to see them.
unfoldable pub handle_event : Session → Event → Session × Bool
unfolding switch on_connect_failed on_timeout on_alsa_error reset_runtime
    enter_reconnecting_or_error
handle_event s cmd_forget = (enter (reset_runtime s false) idle, true)
handle_event s cmd_disconnect = (enter (reset_runtime s false) idle, true)
handle_event s fatal = (enter_error s internal, true)
handle_event s runtime_failure = (enter_error s runtime_failed, true)
handle_event s bluez_adapter_off = (enter_error (reset_runtime s false) adapter_powered_off, true)
handle_event s bluez_connect_failed = (on_connect_failed s.state s, true)
handle_event s timeout = (on_timeout s.state s, true)
handle_event s service_not_found = (enter_error s midi_service_not_found, true)
handle_event s char_not_found = (enter_error s midi_char_not_found, true)
handle_event s alsa_failure = (enter_error s alsa_failed, true)
handle_event s notify_failure = (enter_reconnecting_or_error s notify_failed true, true)
handle_event s gatt_write_failure = (enter_reconnecting_or_error s gatt_write_failed true, true)
handle_event s alsa_io_failure = (on_alsa_error s.state alsa_io_failed s, true)
handle_event s alsa_decode_failure = (on_alsa_error s.state alsa_decode_failed s, true)
handle_event s e = switch s.state e s

abbrev pub is_streaming : State → Bool
is_streaming streaming = true
is_streaming _ = false

abbrev pub is_some {ℓ} : {A : Type ℓ} → Option A → Bool
is_some none = false
is_some (some a) = true

unfoldable pub is_streaming_ready : Session → Bool
is_streaming_ready s =
    is_streaming s.state
    && s.bluez_connected
    && s.services_resolved
    && is_some s.midi_char_path
    && s.notify_enabled
    && s.alsa_ready
    && nonneg s.alsa_port_id
