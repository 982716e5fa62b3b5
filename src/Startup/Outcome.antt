-- ===== src/Startup/Outcome.antt =====
-- How an attempt of device_try_start_streaming in src/mb-daemon.c ends.
use midi_ble_rt.Base.{
  sym, ◌≡◌, refl, ap, ◌∙◌, Bool, false, not, ◌||◌, Option-cases, Bool-cases, inl, inr, arith,
}
use midi_ble_rt.Session.{
  cmd_connect, reconnect_timer, reconnecting, scanning, idle, State, connecting, wait_services,
  binding_midi, creating_alsa, enabling_notify, streaming, bluez_connected, bluez_services_resolved,
  bluez_connect_failed, timeout, service_not_found, char_found, char_not_found, alsa_ready,
  alsa_failure, notify_ok, notify_failure, fatal, handle_event, is_streaming, set_midi_binding,
  set_alsa_port,
}
use midi_ble_rt.Startup.{
  begin_connect, has_bluez_path, bring_up, reported, bound, try_start_streaming, Runtime, Answers,
  Progress, stopped, going, session_of, step, pair_device, bind_midi, ensure_alsa_port, create_alsa,
  start_workers, start_watch, start_notify, stop_notify,
}
use midi_ble_rt.Startup.Moves.{
  state_of, Reaches, Reaches-bind, Moves, event-Moves, event-Stays, step-Reaches, to_wait_services,
  to_binding_midi, to_creating_alsa, to_enabling_notify, to_streaming, connect_fails, services_fail,
  service_fails, char_fails, alsa_fails, watch_fails, notify_fails,
}

pair_device-Reaches :
    (a : Answers) (d : Runtime) → state_of d ≡ connecting → Reaches connecting (pair_device a d)
unfolding pair_device
pair_device-Reaches a d h = elim (Bool-cases (not d.pair || a.paired)) [
  | inl ok ↦ rw ok h
  | inr failed ↦ rw failed (event-Stays a bluez_connect_failed connecting d connect_fails h)
]

bind_midi-Reaches :
    (a : Answers) (d : Runtime) → state_of d ≡ binding_midi → Reaches creating_alsa (bind_midi a d)
unfolding bind_midi set_midi_binding
bind_midi-Reaches a d h = elim (Option-cases a.service_path) [
  | inl missing ↦ rw missing (event-Stays a service_not_found binding_midi d service_fails h)
  | inr (service, found) ↦ elim (Option-cases a.char_path) [
    | inl missing ↦ rw (found, missing) (event-Stays a char_not_found binding_midi d char_fails h)
    | inr (char, named) ↦
        rw (found, named)
          (event-Moves a char_found binding_midi creating_alsa (bound a service char d)
            to_creating_alsa h)
  ]
]

ensure_alsa_port-state :
    (a : Answers) (d : Runtime) → state_of (ensure_alsa_port a d).1 ≡ state_of d
unfolding ensure_alsa_port set_alsa_port
ensure_alsa_port-state a d = ground arith

create_alsa-Reaches :
    (a : Answers) (d : Runtime)
    → state_of d ≡ creating_alsa
    → Reaches enabling_notify (create_alsa a d)
unfolding create_alsa
create_alsa-Reaches a d h =
    step-Reaches a (ensure_alsa_port a d).0 alsa_ready alsa_failure creating_alsa enabling_notify
      (ensure_alsa_port a d).1 to_enabling_notify alsa_fails (ensure_alsa_port-state a d ∙ h)

start_workers-Reaches :
    (a : Answers) (d : Runtime)
    → state_of d ≡ enabling_notify
    → Reaches enabling_notify (start_workers a d)
unfolding start_workers
start_workers-Reaches a d h = ground arith

start_watch-Reaches :
    (a : Answers) (d : Runtime)
    → state_of d ≡ enabling_notify
    → Reaches enabling_notify (start_watch a d)
unfolding start_watch
start_watch-Reaches a d h = elim (Bool-cases (d.device_sub || a.watching)) [
  | inl ok ↦ rw ok h
  | inr failed ↦ rw failed (event-Stays a fatal enabling_notify d watch_fails h)
]

start_notify-Reaches :
    (a : Answers) (d : Runtime)
    → state_of d ≡ enabling_notify
    → Reaches streaming (start_notify a d)
unfolding start_notify
start_notify-Reaches a d h = elim (Option-cases (session_of d).midi_char_path) [
  | inl missing ↦
      rw (start_notify, missing)
        (step-Reaches a false notify_ok notify_failure enabling_notify streaming (stop_notify d)
          to_streaming notify_fails h)
  | inr (path, named) ↦ elim (Bool-cases a.subscribed) [
    | inl yes_sub ↦
        rw (start_notify, named, yes_sub)
          (step-Reaches a a.notifying notify_ok notify_failure enabling_notify streaming _
            to_streaming notify_fails h)
    | inr no_sub ↦
        rw (start_notify, named, no_sub)
          (step-Reaches a false notify_ok notify_failure enabling_notify streaming (stop_notify d)
            to_streaming notify_fails h)
  ]
]

bring_up-Reaches :
    (a : Answers) (d : Runtime) → state_of d ≡ connecting → Reaches streaming (bring_up a d)
unfolding bring_up
bring_up-Reaches a d h =
    let p1 =
      Reaches-bind connecting wait_services (pair_device a d)
        (step a a.connected bluez_connected bluez_connect_failed) (pair_device-Reaches a d h)
        (λ e k.
          step-Reaches a a.connected _ _ connecting wait_services e to_wait_services connect_fails
            k) in
    let p2 =
      Reaches-bind wait_services binding_midi _ (step a a.resolved bluez_services_resolved timeout)
        p1
        (λ e k.
          step-Reaches a a.resolved _ _ wait_services binding_midi e to_binding_midi services_fail
            k) in
    let p3 = Reaches-bind binding_midi creating_alsa _ (bind_midi a) p2 (bind_midi-Reaches a) in
    let p4 =
      Reaches-bind creating_alsa enabling_notify _ (create_alsa a) p3 (create_alsa-Reaches a) in
    let p5 =
      Reaches-bind enabling_notify enabling_notify _ (start_workers a) p4
        (start_workers-Reaches a) in
    let p6 =
      Reaches-bind enabling_notify enabling_notify _ (start_watch a) p5 (start_watch-Reaches a) in
    Reaches-bind enabling_notify streaming _ (start_notify a) p6 (start_notify-Reaches a)

from_idle : Moves idle cmd_connect connecting
unfolding Moves handle_event
from_idle r h = ground arith

from_scanning : Moves scanning cmd_connect connecting
unfolding Moves handle_event
from_scanning r h = ground arith

from_reconnecting : Moves reconnecting reconnect_timer connecting
unfolding Moves handle_event
from_reconnecting r h = ground arith

begin_connect-Reaches :
    (a : Answers) (d : Runtime) (s : State)
    → state_of d ≡ s
    → is_streaming s ≡ false
    → Reaches connecting (begin_connect a d s)
unfolding begin_connect
begin_connect-Reaches a d idle e h = event-Moves a cmd_connect idle connecting d from_idle e
begin_connect-Reaches a d scanning e h =
    event-Moves a cmd_connect scanning connecting d from_scanning e
begin_connect-Reaches a d reconnecting e h =
    event-Moves a reconnect_timer reconnecting connecting d from_reconnecting e
begin_connect-Reaches a d connecting e h = e
begin_connect-Reaches a d s e h = ap is_streaming e ∙ h

told :
    (p : Progress)
    → Reaches streaming p
    → let r : Bool × Runtime = reported p in r.0 ≡ is_streaming (state_of r.1)
unfolding reported
told (going d) h = refl
told (stopped d) h = sym h

-- An attempt to start a device, whatever state it begins in and whatever BlueZ, GATT and ALSA
-- answer, reports success exactly if the session streams in the end.
pub try_start_streaming_lem :
    (a : Answers) (d : Runtime)
    → let (ok, e) = try_start_streaming a d in ok ≡ is_streaming (state_of e)
unfolding try_start_streaming
try_start_streaming_lem a d = elim (Bool-cases (is_streaming (state_of d))) [
  | inl streams ↦ rw streams (sym streams)
  | inr other ↦ elim (Bool-cases (not (has_bluez_path (session_of d).device_path))) [
    | inl unknown ↦ rw (other, unknown) (sym other)
    | inr known ↦
        rw (other, known)
          (told _ (
            Reaches-bind connecting streaming _ (bring_up a)
              (begin_connect-Reaches a d (state_of d) refl other) (bring_up-Reaches a)))
  ]
]
