-- ===== src/Session/Invariant.antt =====
-- What holds of a session of src/mb-session.c between two events.
use Prim.Native.Nat.{ℕ}
use Prim.Native.String.{String}
use midi_ble_rt.Base.{◌≡◌, Bool, true, false, Option, none, pos, nonneg, arith}
use midi_ble_rt.Session.{
  Session, State, idle, scanning, connecting, wait_services, binding_midi, creating_alsa,
  enabling_notify, streaming, reconnecting, Event, cmd_forget, cmd_disconnect, fatal,
  runtime_failure, bluez_adapter_off, bluez_connect_failed, timeout, service_not_found,
  char_not_found, alsa_failure, notify_failure, gatt_write_failure, alsa_io_failure,
  alsa_decode_failure, invalid_transition, init, set_identity, set_midi_binding, set_alsa_port,
  handle_event,
}

-- The states that presuppose a link, resolved services, an ALSA port.
abbrev pub is_linked : State → Bool
is_linked wait_services = true
is_linked binding_midi = true
is_linked creating_alsa = true
is_linked enabling_notify = true
is_linked streaming = true
is_linked _ = false

abbrev pub is_resolved : State → Bool
is_resolved wait_services = false
is_resolved s = is_linked s

abbrev pub has_port : State → Bool
has_port enabling_notify = true
has_port streaming = true
has_port _ = false

-- The states in which no trace of a link may be left.
abbrev pub is_down : State → Bool
is_down idle = true
is_down scanning = true
is_down connecting = true
is_down reconnecting = true
is_down _ = false

-- The events that end a session or report a failure, whatever its state.
abbrev pub is_failure : Event → Bool
is_failure cmd_forget = true
is_failure cmd_disconnect = true
is_failure fatal = true
is_failure runtime_failure = true
is_failure bluez_adapter_off = true
is_failure bluez_connect_failed = true
is_failure timeout = true
is_failure service_not_found = true
is_failure char_not_found = true
is_failure alsa_failure = true
is_failure notify_failure = true
is_failure gatt_write_failure = true
is_failure alsa_io_failure = true
is_failure alsa_decode_failure = true
is_failure _ = false

pub record Inv (s : Session) : Type 0 where
  pub linked : is_linked s.state ≡ true → s.bluez_connected ≡ true
  pub resolved : is_resolved s.state ≡ true → s.services_resolved ≡ true
  pub port : has_port s.state ≡ true → s.alsa_ready ≡ true
  pub notifies : s.state ≡ streaming → s.notify_enabled ≡ true
  pub port_id : s.alsa_ready ≡ true → nonneg s.alsa_port_id ≡ true
  pub down :
      is_down s.state ≡ true
      → (s.bluez_connected ≡ false) × (s.services_resolved ≡ false) × (s.notify_enabled ≡ false)
  pub retries : s.state ≡ reconnecting → s.auto_reconnect ≡ true

-- A new session satisfies the invariant.
pub init-Inv : (device_path address name : Option String) → Inv (init device_path address name)
unfolding init
init-Inv device_path address name = ground arith

pub handle_event-Inv : (s : Session) (e : Event) → Inv s → Inv (handle_event s e).0
unfolding handle_event
handle_event-Inv s e v = ground arith

-- No MIDI service or characteristic is known.
pub record Unbound (s : Session) : Type 0 where
  pub service : s.midi_service_path ≡ none
  pub char : s.midi_char_path ≡ none
  pub uuid : s.midi_char_uuid ≡ none

pub record Consistent (s : Session) : Type 0 where
  pub inv : Inv s
  pub unbound : is_down s.state ≡ true → Unbound s

pub init-Consistent :
    (device_path address name : Option String) → Consistent (init device_path address name)
unfolding init
init-Consistent device_path address name = record {
  inv = init-Inv device_path address name;
  unbound = λ h. ground arith;
}

-- Every event, in every state, keeps the session consistent: a state that presupposes a link,
-- resolved services, an ALSA port or notifications has them; a port that is ready has a valid
-- number; in the states before a link and between two links the session is marked neither connected
-- nor resolved nor notified, and knows no MIDI service, characteristic or UUID; and only a session
-- that may reconnect is reconnecting.
pub handle_event-Consistent :
    (s : Session) (e : Event) → Consistent s → Consistent (handle_event s e).0
unfolding handle_event
handle_event-Consistent s e v = record {
  inv = handle_event-Inv s e v.inv;
  unbound = λ h. ground (arith, h, v.unbound);
}

pub set_identity-Inv :
    (s : Session) (device_path address name : Option String)
    → Inv s
    → Inv (set_identity s device_path address name)
unfolding set_identity
set_identity-Inv s device_path address name v = ground arith

pub set_midi_binding-Inv :
    (s : Session) (service_path char_path char_uuid : Option String)
    → Inv s
    → Inv (set_midi_binding s service_path char_path char_uuid)
unfolding set_midi_binding
set_midi_binding-Inv s service_path char_path char_uuid v = ground arith

-- A valid port number keeps the session consistent.
pub set_alsa_port-Inv : (s : Session) (port : ℕ) → Inv s → Inv (set_alsa_port s (pos port))
unfolding set_alsa_port
set_alsa_port-Inv s port v = ground arith

-- An event that `mb_session_handle_event` refuses changes nothing but the error code, which says
-- so; and it refuses no event that ends a session or reports a failure.
pub handle_event_refused :
    (s : Session) (e : Event)
    → (handle_event s e).1 ≡ false
    → ((handle_event s e).0 ≡ record s { error = invalid_transition }) × (is_failure e ≡ false)
unfolding handle_event
handle_event_refused s e h = ground arith
