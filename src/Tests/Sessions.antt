-- ===== src/Tests/Sessions.antt =====
-- The theorems on src/mb-session.c and on the fence of src/mb-daemon.c at concrete events.
use midi_ble_rt.Base.{pos, ℕ, ◌≡◌, refl, true, false, none, some, List, [], ◌∷◌, arith}
use midi_ble_rt.Session.{
  State, Event, Session, init, handle_event, streaming, reconnecting, connecting, cmd_connect,
  bluez_connected, bluez_disconnected,
}
use midi_ble_rt.Session.Invariant.{
  Inv, init-Inv, Consistent, init-Consistent, handle_event-Consistent,
}
use midi_ble_rt.Session.Diagram.{◌⟶◌, handle_event-⟶}
use midi_ble_rt.BleMidi.{decoder_reset}
use midi_ble_rt.BleMidi.Invariant.{decoder_reset-IsValid}
use midi_ble_rt.SliceRing.{Kind, rx_raw, tx_raw}
use midi_ble_rt.Runtime.{flow_init}
use midi_ble_rt.Runtime.Channel.{fresh-IsValid}
use midi_ble_rt.Duplex
use midi_ble_rt.Device.{Device, device_session_event}
use midi_ble_rt.Device.Clean.{FlowOk, DeviceOk, Clean, device_session_event-Clean}
use midi_ble_rt.Dataplane
use midi_ble_rt.Dataplane.{Fence, fence_accept, stamp}
use midi_ble_rt.Dataplane.Fencing.{IsValid, run, fence_accept-stamped}

abbrev piano : Session
piano = init none (some "AA:BB") (some "Piano")

handle_event-Consistent_example : Consistent (handle_event piano cmd_connect).0
handle_event-Consistent_example =
    handle_event-Consistent piano cmd_connect (init-Consistent none (some "AA:BB") (some "Piano"))

handle_event-⟶_example : piano.state ⟶ (handle_event piano cmd_connect).0.state
handle_event-⟶_example = handle_event-⟶ piano cmd_connect

abbrev playing : Session
playing = record piano {
  state = streaming;
  midi_char_path = some "/char";
  alsa_port_id = pos 3;
  auto_reconnect = true;
  bluez_connected = true;
  services_resolved = true;
  alsa_ready = true;
  notify_enabled = true;
}

-- The newest event stands first.
abbrev early : List Event
early = bluez_connected ∷ cmd_connect ∷ []

abbrev streaming_fence : Fence
streaming_fence = record { streaming = true; epoch = 4; closed_epoch = 3; closed_at_ns = 900 }

streaming_fence-IsValid : IsValid streaming_fence streaming
streaming_fence-IsValid = record {
  agrees = refl;
  small = omega arith;
  counted = λ h. omega arith;
  fresh = λ h e. omega (arith, e);
  not_ahead = λ h. absurd (cc);
}

abbrev changes_after : List (State × ℕ)
changes_after = (connecting, 1300) ∷ (streaming, 1400) ∷ []

fence_accept-stamped_example :
    (fence_accept streaming_fence 4 1000 ≡ true)
    × (fence_accept (run streaming_fence streaming ((reconnecting, 1200) ∷ changes_after)) 4 1000
        ≡ false)
unfolding stamp
fence_accept-stamped_example =
    fence_accept-stamped streaming_fence streaming reconnecting changes_after 4 1000 1000 1200
      streaming_fence-IsValid refl refl (omega arith)

abbrev pub fresh_device : Device
fresh_device = record {
  session = piano;
  fence = Dataplane.fence_init;
  runtime = Duplex.init;
  decoder = decoder_reset;
}

fresh_flow-Ok : (kind : Kind) → FlowOk (flow_init kind)
unfolding flow_init
fresh_flow-Ok kind = record { flow = fresh-IsValid kind; counter = omega arith }

pub fresh_device-Ok : DeviceOk fresh_device
unfolding init Duplex.init
fresh_device-Ok = record {
  session_ok = init-Inv none (some "AA:BB") (some "Piano");
  fence_ok = record {
    agrees = refl;
    small = omega arith;
    counted = λ h. absurd (cc);
    fresh = λ h. absurd (cc);
    not_ahead = λ h. refl;
  };
  runtime_ok = record { rx_ok = fresh_flow-Ok rx_raw; tx_ok = fresh_flow-Ok tx_raw; ready = refl };
  decoder_ok = decoder_reset-IsValid;
}

abbrev pub playing_device : Device
playing_device = record {
  session = playing;
  fence = streaming_fence;
  runtime = Duplex.init;
  decoder = decoder_reset;
}

playing-Inv : Inv playing
unfolding init
playing-Inv = record {
  linked = λ h. refl;
  resolved = λ h. refl;
  port = λ h. refl;
  notifies = λ h. refl;
  port_id = λ h. refl;
  down = λ h. absurd (cc);
  retries = λ h. refl;
}

pub playing_device-Ok : DeviceOk playing_device
unfolding Duplex.init
playing_device-Ok = record {
  session_ok = playing-Inv;
  fence_ok = streaming_fence-IsValid;
  runtime_ok = record { rx_ok = fresh_flow-Ok rx_raw; tx_ok = fresh_flow-Ok tx_raw; ready = refl };
  decoder_ok = decoder_reset-IsValid;
}

device_session_event-Clean_example :
    Clean (device_session_event playing_device bluez_disconnected 9).1
unfolding handle_event init
device_session_event-Clean_example =
    device_session_event-Clean playing_device bluez_disconnected 9 playing_device-Ok refl refl
