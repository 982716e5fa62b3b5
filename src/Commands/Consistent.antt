-- ===== src/Commands/Consistent.antt =====
-- What the lifecycle commands of src/mb-daemon.c keep of a device, whatever is answered.
use Prim.Native.String.{String}
use text.Mathlib.Text.{◌==◌}
use midi_ble_rt.Base.{ℕ, refl, Bool, not, if_intro, Option, none, some, List, [], ◌∷◌}
use midi_ble_rt.Session.{
  State, Event, set_identity, is_streaming, bluez_connect_failed, cmd_connect, reconnect_timer,
  bluez_connected, bluez_services_resolved, timeout, cmd_disconnect, bluez_disconnected,
}
use midi_ble_rt.Session.Invariant.{set_identity-Inv}
use midi_ble_rt.Startup.{
  Runtime, Answers, Progress, stopped, going, ◌>>=◌, step, begin_connect, pair_device, bind_midi,
  create_alsa, start_workers, start_watch, start_notify, bring_up, reported, has_bluez_path,
  session_of, stop_notify, try_start_streaming, lifecycle_disconnect, mark_disconnected,
  can_mark_disconnected,
}
use midi_ble_rt.Lifecycle.{
  CommandType, Command, discover, connect, disconnect, recheck, session_event,
}
use midi_ble_rt.Lifecycle
use midi_ble_rt.Commands.{
  Known, discover_at, lifecycle_discover, says_connected, lifecycle_recheck, carry_out,
  carry_out_all,
}
use midi_ble_rt.Commands.Pieces.{
  Ok, AllOk, bind-AllOk, event-Ok, step-AllOk, with_session-Ok, pair_device-AllOk, bind_midi-AllOk,
  create_alsa-AllOk, start_workers-AllOk, start_watch-AllOk, start_notify-AllOk,
}

begin_connect-AllOk : (a : Answers) (d : Runtime) (s : State) → Ok d → AllOk (begin_connect a d s)
unfolding begin_connect
begin_connect-AllOk a d State.reconnecting v = event-Ok a reconnect_timer d v
begin_connect-AllOk a d State.idle v = event-Ok a cmd_connect d v
begin_connect-AllOk a d State.scanning v = event-Ok a cmd_connect d v
begin_connect-AllOk a d State.connecting v = v
begin_connect-AllOk a d State.wait_services v = v
begin_connect-AllOk a d State.binding_midi v = v
begin_connect-AllOk a d State.creating_alsa v = v
begin_connect-AllOk a d State.enabling_notify v = v
begin_connect-AllOk a d State.streaming v = v
begin_connect-AllOk a d State.error v = v

bring_up-AllOk : (a : Answers) (d : Runtime) → Ok d → AllOk (bring_up a d)
unfolding bring_up
bring_up-AllOk a d v =
    bind-AllOk _ (start_notify a)
      (bind-AllOk _ (start_watch a)
        (bind-AllOk _ (start_workers a)
          (bind-AllOk _ (create_alsa a)
            (bind-AllOk _ (bind_midi a)
              (bind-AllOk _ (step a a.resolved bluez_services_resolved timeout)
                (bind-AllOk (pair_device a d)
                  (step a a.connected bluez_connected bluez_connect_failed)
                  (pair_device-AllOk a d v)
                  (step-AllOk a a.connected bluez_connected bluez_connect_failed))
                (step-AllOk a a.resolved bluez_services_resolved timeout))
              (bind_midi-AllOk a))
            (create_alsa-AllOk a))
          (start_workers-AllOk a))
        (start_watch-AllOk a))
      (start_notify-AllOk a)

reported-Ok : (p : Progress) → AllOk p → Ok (reported p).1
unfolding reported
reported-Ok (stopped d) v = v
reported-Ok (going d) v = v

try_start_streaming-Ok : (a : Answers) (d : Runtime) → Ok d → Ok (try_start_streaming a d).1
unfolding try_start_streaming
try_start_streaming-Ok a d v =
    if_intro (λ (t : Bool × Runtime). Ok t.1) (is_streaming (session_of d).state) (λ streams. v)
      (λ other.
        if_intro (λ (t : Bool × Runtime). Ok t.1) (not (has_bluez_path (session_of d).device_path))
          (λ unknown. v)
          (λ known. reported-Ok (begin_connect a d (session_of d).state >>= bring_up a) (
            bind-AllOk (begin_connect a d (session_of d).state) (bring_up a)
              (begin_connect-AllOk a d (session_of d).state v) (bring_up-AllOk a))))

discover_at-Ok :
    (k : Known) (d : Runtime) (path : Option String) → Ok d → Ok (discover_at k d path).1
unfolding set_identity
discover_at-Ok k d none v = v
discover_at-Ok k d (some path) v =
    with_session-Ok d (set_identity (session_of d) (some path) (some k.address) k.name) v
      (set_identity-Inv (session_of d) (some path) (some k.address) k.name v.session_ok) refl

lifecycle_discover-Ok : (k : Known) (d : Runtime) → Ok d → Ok (lifecycle_discover k d).1
unfolding lifecycle_discover
lifecycle_discover-Ok k d v =
    if_intro (λ (t : Bool × Runtime). Ok t.1) (k.address == "") (λ nameless. v)
      (λ named. discover_at-Ok k d k.device_path v)

mark_disconnected-Ok : (a : Answers) (d : Runtime) → Ok d → Ok (mark_disconnected a d)
unfolding mark_disconnected
mark_disconnected-Ok a d v =
    if_intro Ok (can_mark_disconnected (session_of d).state)
      (λ can. event-Ok a bluez_disconnected (stop_notify d) v) (λ cannot. v)

lifecycle_recheck-Ok : (a : Answers) (k : Known) (d : Runtime) → Ok d → Ok (lifecycle_recheck a k d)
unfolding lifecycle_recheck
lifecycle_recheck-Ok a k d v =
    if_intro Ok (not (has_bluez_path (session_of d).device_path))
      (λ unknown. lifecycle_discover-Ok k d v)
      (λ known.
        if_intro Ok (says_connected k.is_connected) (λ connected. v)
          (λ gone. mark_disconnected-Ok a d v))

carry_out-Ok :
    (a : Answers) (k : Known) (t : CommandType) (dev : ℕ) (e : Event) (d : Runtime)
    → Ok d
    → Ok (carry_out a k (record { type = t; dev = dev; event = e }) d)
unfolding carry_out lifecycle_disconnect
carry_out-Ok a k discover dev e d v = lifecycle_discover-Ok k d v
carry_out-Ok a k connect dev e d v = try_start_streaming-Ok a _ (
    if_intro Ok (has_bluez_path (session_of d).device_path) (λ known. v)
      (λ unknown. lifecycle_discover-Ok k d v))
carry_out-Ok a k disconnect dev e d v = event-Ok a cmd_disconnect (stop_notify d) v
carry_out-Ok a k recheck dev e d v = lifecycle_recheck-Ok a k d v
carry_out-Ok a k Lifecycle.mark_disconnected dev e d v = mark_disconnected-Ok a d v
carry_out-Ok a k session_event dev e d v = event-Ok a e d v

-- Any commands, one after the other, each with any answers of BlueZ, GATT and ALSA, keep a device
-- whose flows are initialised consistent: its session, the fence that is open exactly while the
-- session streams, both flows and the decoder.
pub carry_out_all-Ok :
    (commands : List (Command × Answers × Known)) (d : Runtime)
    → Ok d
    → Ok (carry_out_all commands d)
unfolding carry_out_all
carry_out_all-Ok [] d v = v
carry_out_all-Ok ((c, a, k) ∷ rest) d v =
    carry_out_all-Ok rest (carry_out a k c d) (carry_out-Ok a k c.type c.dev c.event d v)
