-- ===== src/Inventory/Closed.antt =====
-- Devices of src/mb-daemon.c whose fence was closed, and what `MB_SESSION_EVENT_CMD_DISCONNECT`
-- does to them.
use midi_ble_rt.Base.{ℕ, ◌^◌, ◌<◌, ◌≡◌, refl, false, [], Bool-cases, inl, inr, arith}
use midi_ble_rt.Session.{Session, idle, cmd_disconnect, is_streaming, handle_event, reset_runtime}
use midi_ble_rt.Session.Invariant as Sessions
use midi_ble_rt.BleMidi.Invariant as Decoder
use midi_ble_rt.Runtime.Deliver.{waiting}
use midi_ble_rt.Dataplane.{Fence, fence_accept}
use midi_ble_rt.Dataplane
use midi_ble_rt.Dataplane.Fencing as Fencing
use midi_ble_rt.Device.{Device, device_session_event, on_session_change}
use midi_ble_rt.Device.Clean.{DeviceOk, DuplexOk, drop_pending-Ok}

-- A device that holds nothing of a session: its fence is closed, and its flows are empty.
pub record Silent (d : Device) : Type 0 where
  pub closed : (e t : ℕ) → fence_accept d.fence e t ≡ false
  pub no_rx : waiting d.runtime.rx ≡ []
  pub no_tx : waiting d.runtime.tx ≡ []

pub closed_lem : (f : Fence) (e t : ℕ) → f.streaming ≡ false → fence_accept f e t ≡ false
unfolding fence_accept
closed_lem f e t h = ground (arith, h)

-- A session that is told to disconnect is consistent, whatever it was.
disconnected-Inv : (s : Session) → Sessions.Inv (handle_event s cmd_disconnect).0
unfolding handle_event reset_runtime
disconnected-Inv s = ground arith

-- A closed fence agrees with an idle session.
shut-IsValid :
    (f : Fence)
    → f.streaming ≡ false
    → f.closed_epoch ≡ f.epoch
    → f.epoch < 2 ^ 64
    → Fencing.IsValid f idle
shut-IsValid f closed same small = record {
  agrees = closed;
  small = small;
  counted = λ h. absurd (cc);
  fresh = λ h. absurd (cc);
  not_ahead = λ h. same;
}

-- The fence was closed, but the session does not know yet.
module _ (d : Device) (now : ℕ) (closed : d.fence.streaming ≡ false)
    (same : d.fence.closed_epoch ≡ d.fence.epoch) (small : d.fence.epoch < 2 ^ 64)
    (r : DuplexOk d.runtime) (c : Decoder.IsValid d.decoder) (no_rx : waiting d.runtime.rx ≡ [])
    (no_tx : waiting d.runtime.tx ≡ []) where
  abbrev pub e : Device
  e = (device_session_event d cmd_disconnect now).1

  pub disconnect-Ok : DeviceOk e × Silent e × (e.session.state ≡ idle)
  unfolding device_session_event handle_event on_session_change Dataplane.on_session_change
  disconnect-Ok = elim (Bool-cases (is_streaming d.session.state)) [
    | inl was ↦
        let (r', rx, tx) = drop_pending-Ok d.runtime r in
        rw was (
          record {
            session_ok = disconnected-Inv d.session;
            fence_ok = shut-IsValid _ refl refl small;
            runtime_ok = r';
            decoder_ok = Decoder.decoder_reset-IsValid;
          },
          record { closed = λ e t. closed_lem _ e t refl; no_rx = rx; no_tx = tx },
          refl,
        )
    | inr wasnt ↦ rw wasnt (
      record {
        session_ok = disconnected-Inv d.session;
        fence_ok = shut-IsValid d.fence closed same small;
        runtime_ok = r;
        decoder_ok = c;
      },
      record { closed = λ e t. closed_lem d.fence e t closed; no_rx = no_rx; no_tx = no_tx },
      refl,
    )
  ]
