-- ===== src/Commands/Pieces.antt =====
-- What each piece of an attempt to start a device (src/mb-daemon.c) keeps of the device.
use Prim.Native.String.{String}
use midi_ble_rt.Base.{
  ℤ, pos, negsuc, nonneg, ◌≡◌, refl, subst, sym, Bool, true, false, not, ◌||◌, Bool-cases, if_intro,
  inl, inr, Option-cases, some, arith,
}
use midi_ble_rt.Session.{
  Event, Session, set_midi_binding, set_alsa_port, bluez_connect_failed, service_not_found,
  char_not_found, char_found, alsa_ready, alsa_failure, fatal, notify_ok, notify_failure,
}
use midi_ble_rt.Session.Invariant.{set_identity-Inv, set_midi_binding-Inv, set_alsa_port-Inv}
use midi_ble_rt.Session.Invariant as Sessions
use midi_ble_rt.SliceRing.{Kind, rx_raw, tx_raw}
use midi_ble_rt.Runtime.{flow_init}
use midi_ble_rt.Runtime.Channel.{fresh-IsValid}
use midi_ble_rt.Duplex
use midi_ble_rt.Dataplane.Fencing as Fencing
use midi_ble_rt.Runtime as Flows
use midi_ble_rt.Device.Clean.{DeviceOk, FlowOk, DuplexOk, device_session_event-DeviceOk}
use midi_ble_rt.Startup.{
  Runtime, Answers, Progress, stopped, going, ◌>>=◌, event, step, pair_device, bound, bind_midi,
  ensure_alsa_port, create_alsa, start_workers, start_watch, start_notify, session_of, with_session,
  stop_notify,
}

abbrev pub Ok : Runtime → Type 0
Ok d = DeviceOk d.device

-- Wherever an attempt stops.
abbrev pub AllOk : Progress → Type 0
AllOk (stopped d) = Ok d
AllOk (going d) = Ok d

pub bind-AllOk :
    (p : Progress) (f : Runtime → Progress)
    → AllOk p
    → ((d : Runtime) → Ok d → AllOk (f d))
    → AllOk (p >>= f)
bind-AllOk (stopped d) f v h = v
bind-AllOk (going d) f v h = h d v

pub event-Ok : (a : Answers) (e : Event) (d : Runtime) → Ok d → Ok (event a e d)
unfolding event
event-Ok a e d v = device_session_event-DeviceOk d.device e (a.clock e) v

pub step-AllOk :
    (a : Answers) (ok : Bool) (success failure : Event) (d : Runtime)
    → Ok d
    → AllOk (step a ok success failure d)
unfolding step
step-AllOk a true success failure d v = event-Ok a success d v
step-AllOk a false success failure d v = event-Ok a failure d v

-- A session that changes in what the fence does not see.
pub with_session-Ok :
    (d : Runtime) (s : Session)
    → Ok d
    → Sessions.Inv s
    → s.state ≡ (session_of d).state
    → Ok (with_session d s)
with_session-Ok d s v inv same = record {
  session_ok = inv;
  fence_ok = subst (λ t. Fencing.IsValid d.device.fence t) (sym same) v.fence_ok;
  runtime_ok = v.runtime_ok;
  decoder_ok = v.decoder_ok;
}

pub pair_device-AllOk : (a : Answers) (d : Runtime) → Ok d → AllOk (pair_device a d)
unfolding pair_device
pair_device-AllOk a d v = elim (Bool-cases (not d.pair || a.paired)) [
  | inl ok ↦ rw ok v
  | inr failed ↦ rw failed (event-Ok a bluez_connect_failed d v)
]

bound-Ok : (a : Answers) (service char : String) (d : Runtime) → Ok d → Ok (bound a service char d)
unfolding set_midi_binding
bound-Ok a service char d v =
    with_session-Ok d (set_midi_binding (session_of d) (some service) (some char) (some a.io_uuid))
      v
      (set_midi_binding-Inv (session_of d) (some service) (some char) (some a.io_uuid) v.session_ok)
      refl

pub bind_midi-AllOk : (a : Answers) (d : Runtime) → Ok d → AllOk (bind_midi a d)
unfolding bind_midi
bind_midi-AllOk a d v = elim (Option-cases a.service_path) [
  | inl missing ↦ rw missing (event-Ok a service_not_found d v)
  | inr (service, found) ↦ elim (Option-cases a.char_path) [
    | inl missing ↦ rw (found, missing) (event-Ok a char_not_found d v)
    | inr (char, named) ↦
        rw (found, named)
          (event-Ok a char_found (bound a service char d) (bound-Ok a service char d v))
  ]
]

-- The port that is made has a valid number.
made-Ok :
    (d : Runtime) (port : ℤ)
    → Ok d
    → nonneg port ≡ true
    → Ok (with_session d (set_alsa_port (session_of d) port))
unfolding set_alsa_port
made-Ok d (pos n) v h =
    with_session-Ok d (set_alsa_port (session_of d) (pos n)) v
      (set_alsa_port-Inv (session_of d) n v.session_ok) refl
made-Ok d (negsuc n) v h = absurd (ground (arith, h))

ensure_alsa_port-Ok : (a : Answers) (d : Runtime) → Ok d → Ok (ensure_alsa_port a d).1
unfolding ensure_alsa_port
ensure_alsa_port-Ok a d v =
    if_intro (λ (t : Bool × Runtime). Ok t.1) (nonneg d.alsa_port) (λ kept. v)
      (λ none_yet.
        if_intro (λ (t : Bool × Runtime). Ok t.1) (not (d.has_client || a.client_opened))
          (λ no_client. v)
          (λ client.
            if_intro (λ (t : Bool × Runtime). Ok t.1) (not (nonneg a.new_port)) (λ no_port. v)
              (λ port.
                if_intro (λ (t : Bool × Runtime). Ok t.1) (not a.coders_made) (λ no_coders. v)
                  (λ coders. made-Ok d a.new_port v (ground (arith, port))))))

pub create_alsa-AllOk : (a : Answers) (d : Runtime) → Ok d → AllOk (create_alsa a d)
unfolding create_alsa
create_alsa-AllOk a d v =
    step-AllOk a (ensure_alsa_port a d).0 alsa_ready alsa_failure (ensure_alsa_port a d).1
      (ensure_alsa_port-Ok a d v)

-- A fresh runtime, and one whose threads were just started.
fresh_flow-Ok : (kind : Kind) → FlowOk (flow_init kind)
unfolding flow_init
fresh_flow-Ok kind = record { flow = fresh-IsValid kind; counter = omega arith }

started_flow-Ok : (kind : Kind) → FlowOk (Flows.start (flow_init kind)).1
unfolding flow_init Flows.start
started_flow-Ok kind =
    let v = fresh-IsValid kind in
    record {
      flow = record {
        pool_valid = v.pool_valid;
        ring_ready = v.ring_ready;
        owned = v.owned;
        counted = v.counted;
      };
      counter = omega arith;
    }

init-DuplexOk : DuplexOk Duplex.init
unfolding Duplex.init
init-DuplexOk = record { rx_ok = fresh_flow-Ok rx_raw; tx_ok = fresh_flow-Ok tx_raw; ready = refl }

started-DuplexOk : DuplexOk (Duplex.start Duplex.init).2
unfolding Duplex.start Duplex.init flow_init Flows.start
started-DuplexOk = record {
  rx_ok = started_flow-Ok rx_raw;
  tx_ok = started_flow-Ok tx_raw;
  ready = refl;
}

with_runtime-Ok :
    (d : Runtime) (r : Duplex.Duplex)
    → Ok d
    → DuplexOk r
    → DeviceOk (record d.device { runtime = r })
with_runtime-Ok d r v ok = record {
  session_ok = v.session_ok;
  fence_ok = v.fence_ok;
  runtime_ok = ok;
  decoder_ok = v.decoder_ok;
}

pub start_workers-AllOk : (a : Answers) (d : Runtime) → Ok d → AllOk (start_workers a d)
unfolding start_workers
start_workers-AllOk a d v =
    if_intro AllOk d.runtime_started (λ on. v)
      (λ off.
        if_intro AllOk a.workers_started
          (λ starts. with_runtime-Ok d (Duplex.start Duplex.init).2 v started-DuplexOk)
          (λ fails. with_runtime-Ok d Duplex.init v init-DuplexOk))

pub start_watch-AllOk : (a : Answers) (d : Runtime) → Ok d → AllOk (start_watch a d)
unfolding start_watch
start_watch-AllOk a d v =
    if_intro AllOk (d.device_sub || a.watching) (λ ok. v) (λ fails. event-Ok a fatal d v)

pub start_notify-AllOk : (a : Answers) (d : Runtime) → Ok d → AllOk (start_notify a d)
unfolding start_notify
start_notify-AllOk a d v = elim (Option-cases (session_of d).midi_char_path) [
  | inl missing ↦
      rw (start_notify, missing) (step-AllOk a false notify_ok notify_failure (stop_notify d) v)
  | inr (path, named) ↦ elim (Bool-cases a.subscribed) [
    | inl ok ↦
        rw (start_notify, named, ok)
          (step-AllOk a a.notifying notify_ok notify_failure (record d { notify_sub = true }) v)
    | inr fails ↦
        rw (start_notify, named, fails)
          (step-AllOk a false notify_ok notify_failure (stop_notify d) v)
  ]
]
