-- ===== src/Startup/Moves.antt =====
-- How the events of an attempt (src/mb-daemon.c) move the session of a device.
use midi_ble_rt.Base.{◌≡◌, refl, ap, ◌∙◌, Bool, true, false, arith}
use midi_ble_rt.Session.{
  Session, Event, State, connecting, wait_services, binding_midi, creating_alsa, enabling_notify,
  streaming, bluez_connected, bluez_services_resolved, bluez_connect_failed, timeout,
  service_not_found, char_found, char_not_found, alsa_ready, alsa_failure, notify_ok,
  notify_failure, fatal, handle_event, is_streaming,
}
use midi_ble_rt.Device
use midi_ble_rt.Device.{device_session_event}
use midi_ble_rt.Startup.{Runtime, Answers, Progress, stopped, going, ◌>>=◌, session_of, event, step}

abbrev pub state_of : Runtime → State
state_of d = (session_of d).state

-- The device sees of an event what its session does.
pub event-session :
    (a : Answers) (e : Event) (d : Runtime)
    → session_of (event a e d) ≡ (handle_event (session_of d) e).0
unfolding event device_session_event Device.on_session_change
event-session a e d = ground arith

pub event-state :
    (a : Answers) (e : Event) (d : Runtime)
    → state_of (event a e d) ≡ (handle_event (session_of d) e).0.state
event-state a e d = ap (λ (s : Session). s.state) (event-session a e d)

-- A part of the attempt goes on in one state, or stops short of STREAMING.
abbrev pub Reaches : State → Progress → Type 0
Reaches s (going d) = state_of d ≡ s
Reaches s (stopped d) = is_streaming (state_of d) ≡ false

pub Reaches-bind :
    (s t : State) (p : Progress) (f : Runtime → Progress)
    → Reaches s p
    → ((d : Runtime) → state_of d ≡ s → Reaches t (f d))
    → Reaches t (p >>= f)
Reaches-bind s t (going d) f h k = k d h
Reaches-bind s t (stopped d) f h k = h

-- An event in a state, as far as the states go.
unfoldable pub Moves : State → Event → State → Type 0
Moves s e t = (r : Session) → r.state ≡ s → (handle_event r e).0.state ≡ t

pub Stays : State → Event → Type 0
Stays s e = (r : Session) → r.state ≡ s → is_streaming (handle_event r e).0.state ≡ false

pub event-Moves :
    (a : Answers) (e : Event) (s t : State) (d : Runtime)
    → Moves s e t
    → state_of d ≡ s
    → state_of (event a e d) ≡ t
unfolding Moves
event-Moves a e s t d m h = event-state a e d ∙ m (session_of d) h

pub event-Stays :
    (a : Answers) (e : Event) (s : State) (d : Runtime)
    → Stays s e
    → state_of d ≡ s
    → is_streaming (state_of (event a e d)) ≡ false
unfolding Stays
event-Stays a e s d m h = ap is_streaming (event-state a e d) ∙ m (session_of d) h

pub step-Reaches :
    (a : Answers) (ok : Bool) (success failure : Event) (s t : State) (d : Runtime)
    → Moves s success t
    → Stays s failure
    → state_of d ≡ s
    → Reaches t (step a ok success failure d)
unfolding step
step-Reaches a true success failure s t d m n h = event-Moves a success s t d m h
step-Reaches a false success failure s t d m n h = event-Stays a failure s d n h

pub to_wait_services : Moves connecting bluez_connected wait_services
unfolding Moves handle_event
to_wait_services r h = ground arith

pub to_binding_midi : Moves wait_services bluez_services_resolved binding_midi
unfolding Moves handle_event
to_binding_midi r h = ground arith

pub to_creating_alsa : Moves binding_midi char_found creating_alsa
unfolding Moves handle_event
to_creating_alsa r h = ground arith

pub to_enabling_notify : Moves creating_alsa alsa_ready enabling_notify
unfolding Moves handle_event
to_enabling_notify r h = ground arith

pub to_streaming : Moves enabling_notify notify_ok streaming
unfolding Moves handle_event
to_streaming r h = ground arith

pub connect_fails : Stays connecting bluez_connect_failed
unfolding Stays handle_event
connect_fails r h = ground arith

pub services_fail : Stays wait_services timeout
unfolding Stays handle_event
services_fail r h = ground arith

pub service_fails : Stays binding_midi service_not_found
unfolding Stays handle_event
service_fails r h = refl

pub char_fails : Stays binding_midi char_not_found
unfolding Stays handle_event
char_fails r h = refl

pub alsa_fails : Stays creating_alsa alsa_failure
unfolding Stays handle_event
alsa_fails r h = refl

pub watch_fails : Stays enabling_notify fatal
unfolding Stays handle_event
watch_fails r h = refl

pub notify_fails : Stays enabling_notify notify_failure
unfolding Stays handle_event
notify_fails r h = ground arith
