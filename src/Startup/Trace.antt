-- ===== src/Startup/Trace.antt =====
-- How the events of an attempt (src/mb-daemon.c) move the state and the ports of a device.
use Prim.Native.String.{String}
use midi_ble_rt.Base.{ℕ, ℤ, pos, minus_one, ◌≡◌, refl, ap, ◌∙◌, Bool, true, Option, none, arith}
use midi_ble_rt.Session.{
  Session, Event, State, idle, connecting, wait_services, binding_midi, creating_alsa,
  enabling_notify, streaming, cmd_connect, cmd_disconnect, bluez_connected, bluez_services_resolved,
  char_found, alsa_ready, notify_ok, reset_runtime, handle_event,
}
use midi_ble_rt.Startup.{
  ◌>>=◌, stop_notify, Runtime, Answers, Progress, going, session_of, event, step,
  lifecycle_disconnect,
}
use midi_ble_rt.Startup.Moves.{state_of, event-session}

-- What is followed through an attempt: the state, the port of the device and that of the session,
-- and the characteristic.
pub record At (d : Runtime) (s : State) (port id : ℤ) (char : Option String) : Type 0 where
  pub state_at : state_of d ≡ s
  pub port_at : d.alsa_port ≡ port
  pub id_at : (session_of d).alsa_port_id ≡ id
  pub char_at : (session_of d).midi_char_path ≡ char

-- An event, as far as these go.
unfoldable pub Leads : Event → State → State → ℤ → ℤ → Option String → Option String → Type 0
Leads e s t id id' char char' =
    (r : Session)
    → r.state ≡ s
    → r.alsa_port_id ≡ id
    → r.midi_char_path ≡ char
    → let r' = (handle_event r e).0 in
      (r'.state ≡ t) × (r'.alsa_port_id ≡ id') × (r'.midi_char_path ≡ char')

pub event-port : (a : Answers) (e : Event) (d : Runtime) → (event a e d).alsa_port ≡ d.alsa_port
unfolding event
event-port a e d = refl

pub event-At :
    (a : Answers) (e : Event) (d : Runtime) (s t : State) (port id id' : ℤ)
    (char char' : Option String)
    → Leads e s t id id' char char'
    → At d s port id char
    → At (event a e d) t port id' char'
unfolding Leads
event-At a e d s t port id id' char char' m h =
    let (p, q, r) = m (session_of d) h.state_at h.id_at h.char_at in
    let same = event-session a e d in
    record {
      state_at = ap (λ (u : Session). u.state) same ∙ p;
      port_at = event-port a e d ∙ h.port_at;
      id_at = ap (λ (u : Session). u.alsa_port_id) same ∙ q;
      char_at = ap (λ (u : Session). u.midi_char_path) same ∙ r;
    }

-- A part of an attempt that goes on.
abbrev pub Goes : Progress → State → ℤ → ℤ → Option String → Type 0
Goes p s port id char = (e : Runtime) × (p ≡ going e) × At e s port id char

pub Goes-bind :
    (p : Progress) (f : Runtime → Progress) (s t : State) (port id id' : ℤ)
    (char char' : Option String)
    → Goes p s port id char
    → ((e : Runtime) → At e s port id char → Goes (f e) t port id' char')
    → Goes (p >>= f) t port id' char'
Goes-bind p f s t port id id' char char' (e, g, h) k = rw g (k e h)

pub step-Goes :
    (a : Answers) (ok : Bool) (success failure : Event) (d : Runtime) (s t : State)
    (port id id' : ℤ) (char char' : Option String)
    → ok ≡ true
    → Leads success s t id id' char char'
    → At d s port id char
    → Goes (step a ok success failure d) t port id' char'
unfolding step
step-Goes a ok success failure d s t port id id' char char' o m h =
    rw o (event a success d, refl, event-At a success d s t port id id' char char' m h)

module _ (id : ℤ) (char : Option String) where
  pub connects : Leads cmd_connect idle connecting id id char char
  unfolding Leads handle_event
  connects r s i c = ground arith

  pub links : Leads bluez_connected connecting wait_services id id char char
  unfolding Leads handle_event
  links r s i c = ground arith

  pub resolves : Leads bluez_services_resolved wait_services binding_midi id id char char
  unfolding Leads handle_event
  resolves r s i c = ground arith

  pub binds : Leads char_found binding_midi creating_alsa id id char char
  unfolding Leads handle_event
  binds r s i c = ground arith

  pub plays : Leads notify_ok enabling_notify streaming id id char char
  unfolding Leads handle_event
  plays r s i c = ground arith

-- `if (session->alsa_port_id < 0) session->alsa_port_id = 0;`
pub guesses :
    (char : Option String)
    → Leads alsa_ready creating_alsa enabling_notify minus_one (pos 0) char char
unfolding Leads handle_event
guesses char r s i c = ground arith

pub disconnected-At :
    (a : Answers) (d : Runtime) (p : ℕ)
    → d.alsa_port ≡ pos p
    → At (lifecycle_disconnect a d) idle (pos p) minus_one none
unfolding lifecycle_disconnect handle_event reset_runtime
disconnected-At a d p h =
    let same = event-session a cmd_disconnect (stop_notify d) in
    record {
      state_at = ap (λ (u : Session). u.state) same;
      port_at = event-port a cmd_disconnect (stop_notify d) ∙ h;
      id_at = ap (λ (u : Session). u.alsa_port_id) same;
      char_at = ap (λ (u : Session). u.midi_char_path) same;
    }
