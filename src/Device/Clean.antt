-- ===== src/Device/Clean.antt =====
-- What a device of src/mb-daemon.c owes to its next streaming session.
use midi_ble_rt.Base.{
  ℕ, ◌^◌, ◌<◌, ◌≡◌, refl, sym, subst, ap, ◌∙◌, true, false, not, ◌&&◌, none, [], Bool-cases, inl,
  inr, arith,
}
use midi_ble_rt.BleMidi.{decoder_reset}
use midi_ble_rt.BleMidi.Invariant as Decoder
use midi_ble_rt.Session.{Session, Event, State, handle_event, is_streaming}
use midi_ble_rt.Session.Invariant as Sessions
use midi_ble_rt.Session.Invariant.{handle_event-Inv, handle_event_refused}
use midi_ble_rt.Runtime.{Flow}
use midi_ble_rt.Runtime.Deliver.{Inv, waiting}
use midi_ble_rt.Runtime.Drop.{drop_pending_lem}
use midi_ble_rt.Duplex.{Duplex, drop_pending}
use midi_ble_rt.Dataplane.Fencing as Fencing
use midi_ble_rt.Dataplane.Fencing.{on_session_change-IsValid}
use midi_ble_rt.Device.{Device, on_session_change, device_session_event}

-- A flow whose consumer is between two items.
pub record FlowOk (f : Flow) : Type 0 where
  pub flow : Inv f none
  pub counter : f.dropped < 2 ^ 64

pub record DuplexOk (r : Duplex) : Type 0 where
  pub rx_ok : FlowOk r.rx
  pub tx_ok : FlowOk r.tx
  pub ready : r.initialized ≡ true

pub record DeviceOk (d : Device) : Type 0 where
  pub session_ok : Sessions.Inv d.session
  pub fence_ok : Fencing.IsValid d.fence d.session.state
  pub runtime_ok : DuplexOk d.runtime
  pub decoder_ok : Decoder.IsValid d.decoder

-- Nothing of the session that ended is left.
pub record Clean (d : Device) : Type 0 where
  pub closed : d.fence.streaming ≡ false
  pub no_rx : waiting d.runtime.rx ≡ []
  pub no_tx : waiting d.runtime.tx ≡ []
  pub no_part : d.decoder ≡ decoder_reset

pub drop_pending-Ok :
    (r : Duplex)
    → DuplexOk r
    → let q = drop_pending r in DuplexOk q × (waiting q.rx ≡ []) × (waiting q.tx ≡ [])
unfolding drop_pending
drop_pending-Ok r v =
    let (rx_none, rx_count, rx_free, rx_inv) = drop_pending_lem r.rx v.rx_ok.flow v.rx_ok.counter in
    let (tx_none, tx_count, tx_free, tx_inv) = drop_pending_lem r.tx v.tx_ok.flow v.tx_ok.counter in
    rw v.ready (
      record {
        rx_ok = record { flow = rx_inv; counter = omega (arith, rx_count) };
        tx_ok = record { flow = tx_inv; counter = omega (arith, tx_count) };
        ready = refl;
      },
      rx_none,
      tx_none,
    )

-- The change of the session's state, with the new session in place.
change-DeviceOk :
    (d : Device) (before : State) (now : ℕ)
    → Sessions.Inv d.session
    → Fencing.IsValid d.fence before
    → DuplexOk d.runtime
    → Decoder.IsValid d.decoder
    → DeviceOk (on_session_change d before d.session.state now)
unfolding on_session_change
change-DeviceOk d before now s f r b =
    let f' = on_session_change-IsValid d.fence before d.session.state now f in
    let (r', no_rx, no_tx) = drop_pending-Ok d.runtime r in
    elim (Bool-cases (is_streaming before && not (is_streaming d.session.state))) [
      | inl leaves ↦ rw leaves (record {
        session_ok = s;
        fence_ok = f';
        runtime_ok = r';
        decoder_ok = Decoder.decoder_reset-IsValid;
      })
      | inr stays ↦
          rw stays (record { session_ok = s; fence_ok = f'; runtime_ok = r; decoder_ok = b })
    ]

change-Clean :
    (d : Device) (before : State) (now : ℕ)
    → Fencing.IsValid d.fence before
    → DuplexOk d.runtime
    → is_streaming before ≡ true
    → is_streaming d.session.state ≡ false
    → Clean (on_session_change d before d.session.state now)
unfolding on_session_change
change-Clean d before now f r was left =
    let f' = on_session_change-IsValid d.fence before d.session.state now f in
    let (r', no_rx, no_tx) = drop_pending-Ok d.runtime r in
    let leaves : (is_streaming before && not (is_streaming d.session.state)) ≡ true =
      rw (was, left) refl in
    rw leaves (record { closed = f'.agrees ∙ left; no_rx = no_rx; no_tx = no_tx; no_part = refl })

-- An event that is refused leaves the state as it is.
refused_state :
    (s : Session) (e : Event) → (handle_event s e).1 ≡ false → (handle_event s e).0.state ≡ s.state
refused_state s e h = ap (λ (t : Session). t.state) (handle_event_refused s e h).0

-- Every event of the session, accepted or not, keeps the device consistent: the session, the fence
-- that is open exactly while the session streams, both flows and the decoder.
pub device_session_event-DeviceOk :
    (d : Device) (e : Event) (now : ℕ) → DeviceOk d → DeviceOk (device_session_event d e now).1
unfolding device_session_event
device_session_event-DeviceOk d e now v =
    let s' = handle_event-Inv d.session e v.session_ok in
    elim (Bool-cases (handle_event d.session e).1) [
      | inl accepted ↦ rw accepted (
          change-DeviceOk (record d { session = (handle_event d.session e).0 }) d.session.state now
            s' v.fence_ok v.runtime_ok v.decoder_ok)
      | inr refused ↦ rw refused (record {
        session_ok = s';
        fence_ok =
            subst (Fencing.IsValid d.fence) (sym (refused_state d.session e refused)) v.fence_ok;
        runtime_ok = v.runtime_ok;
        decoder_ok = v.decoder_ok;
      })
    ]

-- An event that takes a consistent device out of STREAMING, while neither of its consumers is at a
-- message, leaves nothing of that session behind: the fence is closed, no message waits in either
-- direction, and the decoder is at its start.
pub device_session_event-Clean :
    (d : Device) (e : Event) (now : ℕ)
    → DeviceOk d
    → is_streaming d.session.state ≡ true
    → is_streaming (handle_event d.session e).0.state ≡ false
    → Clean (device_session_event d e now).1
unfolding device_session_event
device_session_event-Clean d e now v was left = elim (Bool-cases (handle_event d.session e).1) [
  | inl accepted ↦ rw accepted (
      change-Clean (record d { session = (handle_event d.session e).0 }) d.session.state now
        v.fence_ok v.runtime_ok was left)
  | inr refused ↦
      let same : is_streaming (handle_event d.session e).0.state ≡ true =
        ap is_streaming (refused_state d.session e refused) ∙ was in
      absurd (ground (arith, same, left))
]
