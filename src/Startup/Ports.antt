-- ===== src/Startup/Ports.antt =====
-- Attempts in a row, as src/mb-daemon.c makes them: what a device keeps from one to the next.
use Prim.Native.String.{String}
use midi_ble_rt.Base.{
  ℕ, ℤ, pos, minus_one, nonneg, ◌≡◌, refl, ap, ◌∙◌, Bool, true, false, not, ◌||◌, Bool-cases, inl,
  inr, Option, none, some, if_true, if_false,
}
use midi_ble_rt.Session.{
  Session, State, idle, connecting, wait_services, binding_midi, creating_alsa, enabling_notify,
  streaming, cmd_connect, cmd_disconnect, bluez_connected, bluez_services_resolved, char_found,
  alsa_ready, alsa_failure, notify_ok, notify_failure, bluez_connect_failed, timeout, reset_runtime,
  handle_event, dup_or_null, set_midi_binding, is_streaming,
}
use midi_ble_rt.Duplex
use midi_ble_rt.Startup.{
  ◌>>=◌, bound, stop_notify, Runtime, Answers, has_bluez_path, session_of, event, step,
  begin_connect, pair_device, bind_midi, ensure_alsa_port, create_alsa, start_workers, start_watch,
  start_notify, bring_up, reported, try_start_streaming, lifecycle_disconnect,
}
use midi_ble_rt.Startup.Moves.{state_of, event-session}
use midi_ble_rt.Startup.Trace.{
  At, event-At, Goes, Goes-bind, step-Goes, connects, links, resolves, binds, plays, guesses,
  disconnected-At,
}

-- Everything that is asked for is granted, and the characteristic has a path.
pub record Granted (a : Answers) : Type 0 where
  pub pair_ok : a.paired ≡ true
  pub connect_ok : a.connected ≡ true
  pub services_ok : a.resolved ≡ true
  pub service : String
  pub service_found : a.service_path ≡ some service
  pub char : String
  pub char_found : a.char_path ≡ some char
  pub char_named : dup_or_null (some char) ≡ some char
  pub workers_ok : a.workers_started ≡ true
  pub watch_ok : a.watching ≡ true
  pub subscribe_ok : a.subscribed ≡ true
  pub notify_ok : a.notifying ≡ true

or_true : (b : Bool) → (b || true) ≡ true
or_true true = refl
or_true false = refl

started : Runtime → Runtime
started d = record d {
  device = record d.device { runtime = (Duplex.start Duplex.init).2 };
  runtime_started = true;
}

module _ (a : Answers) (g : Granted a) (port : ℤ) where
  pair_device-Goes :
      (d : Runtime) (s : State) (id : ℤ) (char : Option String)
      → At d s port id char
      → Goes (pair_device a d) s port id char
  unfolding pair_device
  pair_device-Goes d s id char h =
      (d, if_true _ _ (ap (λ b. not d.pair || b) g.pair_ok ∙ or_true (not d.pair)), h)

  bind_midi-Goes :
      (d : Runtime) (id : ℤ) (char : Option String)
      → At d binding_midi port id char
      → Goes (bind_midi a d) creating_alsa port id (some g.char)
  unfolding bind_midi set_midi_binding
  bind_midi-Goes d id char h =
      let e = bound a g.service g.char d in
      let k : At e binding_midi port id (some g.char) = record {
        state_at = h.state_at;
        port_at = h.port_at;
        id_at = h.id_at;
        char_at = g.char_named;
      } in
      rw (bind_midi, g.service_found, g.char_found)
        (
          event a char_found e,
          refl,
          event-At a char_found e _ _ port id id _ _ (binds id (some g.char)) k,
        )

  create_alsa-Goes :
      (d : Runtime) (p : ℕ) (char : Option String)
      → port ≡ pos p
      → At d creating_alsa port minus_one char
      → Goes (create_alsa a d) enabling_notify port (pos 0) char
  unfolding create_alsa ensure_alsa_port
  create_alsa-Goes d p char e h =
      let kept : ensure_alsa_port a d ≡ (true, d) = if_true _ _ (ap nonneg (h.port_at ∙ e)) in
      let same : create_alsa a d ≡ step a true alsa_ready alsa_failure d =
        ap (λ (t : Bool × Runtime). step a t.0 alsa_ready alsa_failure t.1) kept in
      rw same (
        step-Goes a true alsa_ready alsa_failure d _ _ port minus_one (pos 0) char char refl
          (guesses char) h)

  start_workers-Goes :
      (d : Runtime) (s : State) (id : ℤ) (char : Option String)
      → At d s port id char
      → Goes (start_workers a d) s port id char
  unfolding start_workers started
  start_workers-Goes d s id char h = elim (Bool-cases d.runtime_started) [
    | inl on ↦ (d, if_true _ _ on, h)
    | inr off ↦ (
      started d,
      if_false _ _ off ∙ if_true _ _ g.workers_ok,
      record { state_at = h.state_at; port_at = h.port_at; id_at = h.id_at; char_at = h.char_at },
    )
  ]

  start_watch-Goes :
      (d : Runtime) (s : State) (id : ℤ) (char : Option String)
      → At d s port id char
      → Goes (start_watch a d) s port id char
  unfolding start_watch
  start_watch-Goes d s id char h = (
    record d { device_sub = true },
    if_true _ _ (ap (λ b. d.device_sub || b) g.watch_ok ∙ or_true d.device_sub),
    record { state_at = h.state_at; port_at = h.port_at; id_at = h.id_at; char_at = h.char_at },
  )

  start_notify-Goes :
      (d : Runtime) (id : ℤ) (char : String)
      → At d enabling_notify port id (some char)
      → Goes (start_notify a d) streaming port id (some char)
  unfolding start_notify
  start_notify-Goes d id char h =
      let e = record d { notify_sub = true } in
      rw (start_notify, h.char_at, g.subscribe_ok)
        (step-Goes a a.notifying notify_ok notify_failure e _ _ port id id _ _ g.notify_ok
          (plays id (some char))
          (record {
            state_at = h.state_at;
            port_at = h.port_at;
            id_at = h.id_at;
            char_at = h.char_at;
          }))

-- From the link on, with everything granted, on a device that has its port.
bring_up-Goes :
    (a : Answers) (g : Granted a) (d : Runtime) (p : ℕ)
    → At d connecting (pos p) minus_one none
    → Goes (bring_up a d) streaming (pos p) (pos 0) (some g.char)
unfolding bring_up
bring_up-Goes a g d p h =
    let port = pos p in
    let c1 =
      Goes-bind (pair_device a d) (step a a.connected bluez_connected bluez_connect_failed)
        connecting wait_services port minus_one minus_one none none
        (pair_device-Goes a g port d connecting minus_one none h)
        (λ e.
          step-Goes a a.connected _ _ e _ _ port minus_one minus_one none none g.connect_ok
            (links minus_one none)) in
    let c2 =
      Goes-bind _ (step a a.resolved bluez_services_resolved timeout) wait_services binding_midi
        port minus_one minus_one none none c1
        (λ e.
          step-Goes a a.resolved _ _ e _ _ port minus_one minus_one none none g.services_ok
            (resolves minus_one none)) in
    let c3 =
      Goes-bind _ (bind_midi a) binding_midi creating_alsa port minus_one minus_one none
        (some g.char) c2 (λ e. bind_midi-Goes a g port e minus_one none) in
    let c4 =
      Goes-bind _ (create_alsa a) creating_alsa enabling_notify port minus_one (pos 0) (some g.char)
        (some g.char) c3 (λ e. create_alsa-Goes a g port e p (some g.char) refl) in
    let c5 =
      Goes-bind _ (start_workers a) enabling_notify enabling_notify port (pos 0) (pos 0)
        (some g.char) (some g.char) c4
        (λ e. start_workers-Goes a g port e enabling_notify (pos 0) (some g.char)) in
    let c6 =
      Goes-bind _ (start_watch a) enabling_notify enabling_notify port (pos 0) (pos 0) (some g.char)
        (some g.char) c5 (λ e. start_watch-Goes a g port e enabling_notify (pos 0) (some g.char)) in
    Goes-bind _ (start_notify a) enabling_notify streaming port (pos 0) (pos 0) (some g.char)
      (some g.char) c6 (λ e. start_notify-Goes a g port e (pos 0) g.char)

disconnected_path :
    (a : Answers) (d : Runtime)
    → (session_of (lifecycle_disconnect a d)).device_path ≡ (session_of d).device_path
unfolding lifecycle_disconnect handle_event reset_runtime
disconnected_path a d =
    ap (λ (u : Session). u.device_path) (event-session a cmd_disconnect (stop_notify d))

-- An attempt on a disconnected device that BlueZ knows.
attempt :
    (a : Answers) (g : Granted a) (d : Runtime) (p : ℕ)
    → At d idle (pos p) minus_one none
    → has_bluez_path (session_of d).device_path ≡ true
    → let (ok, e) = try_start_streaming a d in
      (ok ≡ true)
      × (state_of e ≡ streaming)
      × (e.alsa_port ≡ pos p)
      × ((session_of e).alsa_port_id ≡ pos 0)
unfolding try_start_streaming
attempt a g d p h known =
    let port = pos p in
    let (e, goes, k) =
      Goes-bind (begin_connect a d idle) (bring_up a) connecting streaming port minus_one (pos 0)
        none (some g.char)
        (
          event a cmd_connect d,
          refl,
          event-At a cmd_connect d _ _ port minus_one minus_one none none (connects minus_one none)
              h,
        )
        (λ e. bring_up-Goes a g e p) in
    let other : is_streaming (state_of d) ≡ false = ap is_streaming h.state_at in
    let there : not (has_bluez_path (session_of d).device_path) ≡ false = ap not known in
    let run : try_start_streaming a d ≡ (is_streaming (state_of e), e) =
      if_false _ _ other
      ∙ if_false _ _ there
      ∙ ap (λ s. reported (begin_connect a d s >>= bring_up a)) h.state_at
      ∙ ap reported goes in
    rw run (ap is_streaming k.state_at, k.state_at, k.port_at, k.id_at)

-- A device that has its ALSA port and is disconnected on command streams again at the next attempt,
-- with everything granted, and keeps its port, whatever its number; but its session then takes the
-- port to be number 0.
pub reconnected_port :
    (a : Answers) (d : Runtime) (p : ℕ)
    → Granted a
    → d.alsa_port ≡ pos p
    → has_bluez_path (session_of d).device_path ≡ true
    → let (ok, e) = try_start_streaming a (lifecycle_disconnect a d) in
      (ok ≡ true)
      × (state_of e ≡ streaming)
      × (e.alsa_port ≡ pos p)
      × ((session_of e).alsa_port_id ≡ pos 0)
reconnected_port a d p g port known =
    attempt a g (lifecycle_disconnect a d) p (disconnected-At a d p port)
      (ap has_bluez_path (disconnected_path a d) ∙ known)
