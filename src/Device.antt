-- ===== src/Device.antt =====
-- device_session_event of src/mb-daemon.c: how an event of a device's session reaches its fence,
-- its flows and its decoder. The coders of the ALSA library, which are reset too, are not part of
-- the device here.
pub mod Clean
use midi_ble_rt.Base.{ℕ, Bool, true, false, not, ◌&&◌, if◌then◌else◌}
use midi_ble_rt.BleMidi.{DecoderState, decoder_reset}
use midi_ble_rt.Session.{Session, Event, State, handle_event, is_streaming}
use midi_ble_rt.Duplex
use midi_ble_rt.Duplex.{Duplex}
use midi_ble_rt.Dataplane.{Fence}
use midi_ble_rt.Dataplane

-- The parts of ConfigDeviceRuntime that the dataplane is made of.
pub record Device : Type 0 where
  pub session : Session
  pub fence : Fence
  pub runtime : Duplex
  pub decoder : DecoderState

-- `device_dataplane_on_session_change`, with all that it does besides the fence.
unfoldable pub on_session_change : Device → State → State → ℕ → Device
on_session_change d before after now_ns =
    let e = record d { fence = Dataplane.on_session_change d.fence before after now_ns } in
    if is_streaming before && not (is_streaming after)
    then record e { runtime = Duplex.drop_pending d.runtime; decoder = decoder_reset }
    else e

-- It is called only if the event is accepted; a change to the same state does nothing.
unfoldable pub device_session_event : Device → Event → ℕ → Bool × Device
unfolding on_session_change
device_session_event d event now_ns =
    let (session, accepted) = handle_event d.session event in
    let e = record d { session = session } in
    (accepted, if accepted then on_session_change e d.session.state session.state now_ns else e)
