-- ===== src/Egress/Through.antt =====
-- A message of ALSA on its whole way through src/mb-daemon.c, to the packets that are written.
use Prim.Native.String.{String}
use midi_ble_rt.Base.{
  ℕ, ◌<◌, ◌≤◌, ◌≡◌, refl, sym, ◌∙◌, ap, subst, Bool, true, false, none, some, Option, List, [], ◌∷◌,
  ◌++◌, append-nil, All, length, arith, if_true,
}
use midi_ble_rt.BleMidi.{DecoderState}
use midi_ble_rt.BleMidi.Invariant.{IsValid}
use midi_ble_rt.BleMidi.RoundTrip.{frame, short_size, short_size-small, DecodesTo, frame-decodes}
use midi_ble_rt.BleMidi.SysEx.{decode_all}
use midi_ble_rt.FrameModel.{capacity}
use midi_ble_rt.SliceRing.Queue.{used}
use midi_ble_rt.SliceRing.Refine.{oldest}
use midi_ble_rt.Runtime.{Flow, Message, consume_begin}
use midi_ble_rt.Runtime.Deliver.{Inv, waiting, begin_some}
use midi_ble_rt.Runtime.Channel.{length-waiting}
use midi_ble_rt.Duplex.{Duplex, push_tx_with_epoch}
use midi_ble_rt.Dataplane.{Outside, fence_accept, write_packet, stamp}
use midi_ble_rt.Dataplane.Writing.{Smooth}
use midi_ble_rt.Dataplane.Single.{write_packet-single}
use midi_ble_rt.Dataplane.Fencing.{open_accepts}
use midi_ble_rt.Device.{Device}
use midi_ble_rt.Device.Clean.{FlowOk, DeviceOk}
use midi_ble_rt.Alsa.{event_is_midi_payload}
use midi_ble_rt.Ingress.Queue.{AlsaEvent, Sink, deliver}
use midi_ble_rt.Ingress.{Hub, Station, decoded, tx_stamped, tx_pushed}
use midi_ble_rt.Ingress.Change.{change-at}
use midi_ble_rt.Ingress.Push.{fits, message, push_tx-Pushed}
use midi_ble_rt.Egress.{tx_consume}

head_same {ℓ} : {A : Type ℓ} {x y : A} {xs ys : List A} → x ∷ xs ≡ y ∷ ys → x ≡ y
head_same e = cc

-- A flow for which one message waits hands that message to its consumer.
only_one :
    (f : Flow) (m : Option Message)
    → Inv f none
    → waiting f ≡ m ∷ []
    → (consume_begin f).0 ≡ some (oldest f.ring, m)
only_one f m v one =
    let some_used : 0 < used f.ring = omega (arith, sym (length-waiting f) ∙ ap length one) in
    let (taken, first, after) = begin_some f v some_used in
    taken ∙ ap (λ x. some (oldest f.ring, x)) (head_same (sym first ∙ one))

fits-empty :
    (f : Flow) (bytes : List ℕ) → length bytes ≤ capacity → waiting f ≡ [] → fits f bytes ≡ true
fits-empty f bytes fit none_waits =
    let empty : length (waiting f) ≡ 0 = ap length none_waits in ground (arith, fit, empty)

module _ (h : Hub) (dev : ℕ) (b : ℕ) (midi : List ℕ) (now later : ℕ)
    (v : DeviceOk ((h.devices dev).device)) (on : (h.devices dev).device.fence.streaming ≡ true)
    (room : fits (h.devices dev).device.runtime.tx (b ∷ midi) ≡ true) where
  abbrev d : Device
  d = (h.devices dev).device

  abbrev pushed : Bool × Duplex
  pushed = push_tx_with_epoch d.runtime (b ∷ midi) now d.fence.epoch

  -- The device after an event that is let in.
  decoded-at :
      (decoded h dev now later (some (b ∷ midi))).devices dev
      ≡ record (h.devices dev) { device = record d { runtime = pushed.1 } }
  unfolding decoded stamp
  decoded-at =
      let (p, rx, ready) = push_tx-Pushed d.runtime (b ∷ midi) now d.fence.epoch v.runtime_ok in
      ap (λ o. (tx_stamped h dev (b ∷ midi) later o).devices dev) (if_true _ _ on)
      ∙ ap (λ a. (tx_pushed h dev later (a, pushed.1)).devices dev) (p.answer ∙ room)
      ∙ change-at h dev (λ s. record s { device = record (s.device) { runtime = pushed.1 } })

  decoded-waiting :
      waiting pushed.1.tx ≡ waiting d.runtime.tx ++ (message (b ∷ midi) now d.fence.epoch ∷ [])
  decoded-waiting =
      let (p, rx, ready) = push_tx-Pushed d.runtime (b ∷ midi) now d.fence.epoch v.runtime_ok in
      p.queue ∙ if_true _ _ room

  decoded-flow : FlowOk pushed.1.tx
  decoded-flow = (push_tx-Pushed d.runtime (b ∷ midi) now d.fence.epoch v.runtime_ok).0.flow_ok

-- What the TX thread writes of a message, if it finds the fence open, a path, and no failure.
written :
    (g : Hub) (dev : ℕ) (m : Message) (path : String) (outside : ℕ → Outside) (clock : ℕ → ℕ)
    (now later : ℕ)
    → fence_accept (g.devices dev).device.fence m.epoch m.timestamp_ns ≡ true
    → (g.devices dev).device.session.midi_char_path ≡ some path
    → (tx_consume g dev m outside clock now later).0
      ≡ (write_packet (g.devices dev).device.fence true outside m.bytes m.epoch m.timestamp_ns).sent
unfolding tx_consume
written g dev m path outside clock now later a bound = rw (a, bound) refl

-- The packets decode to the message, and the decoder is between two messages again.
abbrev pub AllDecodeTo : DecoderState → List (List ℕ) → List ℕ → Type 0
AllDecodeTo s packets midi =
    (s' : DecoderState) × (decode_all s packets ≡ some (s', midi))
    × (s'.sysex_active ≡ false)
    × (s'.pending_status ≡ 0)

decode_all-one :
    (s : DecoderState) (packet midi : List ℕ)
    → DecodesTo s packet midi
    → AllDecodeTo s (packet ∷ []) midi
unfolding decode_all
decode_all-one s packet midi (s', e, out, closed) =
    (s', rw (e, decode_all) (ap (λ l. some (s', l)) (append-nil midi)), out, closed)

-- What a message of ALSA becomes that waits alone.
decoded-short :
    (h : Hub) (dev status : ℕ) (d : List ℕ) (path : String) (outside : ℕ → Outside) (clock : ℕ → ℕ)
    (at later after : ℕ) (s : DecoderState)
    → DeviceOk ((h.devices dev).device)
    → (h.devices dev).device.fence.streaming ≡ true
    → (h.devices dev).device.session.midi_char_path ≡ some path
    → waiting (h.devices dev).device.runtime.tx ≡ []
    → 128 ≤ status
    → short_size status ≡ some (length d)
    → All (λ b. b < 128) d
    → Smooth outside (h.devices dev).device.fence.epoch at
    → IsValid s
    → s.sysex_active ≡ false
    → s.pending_status ≡ 0
    → let g = decoded h dev at later (some (status ∷ d)) in
      let f = (g.devices dev).device.runtime.tx in
      let m : Message = record {
        bytes = status ∷ d;
        timestamp_ns = at;
        epoch = (h.devices dev).device.fence.epoch;
      } in
      ((consume_begin f).0 ≡ some (oldest f.ring, some m))
      × AllDecodeTo s (tx_consume g dev m outside clock at after).0 (status ∷ d)
decoded-short h dev status d path outside clock at later after s v on bound none_waits lo size small
      smooth valid out closed =
    let x = (h.devices dev).device in
    let two : length d ≤ 2 = short_size-small status (length d) size in
    let room : fits x.runtime.tx (status ∷ d) ≡ true =
      fits-empty x.runtime.tx (status ∷ d) (omega (arith, two)) none_waits in
    let q = (push_tx_with_epoch x.runtime (status ∷ d) at x.fence.epoch).1 in
    let g = decoded h dev at later (some (status ∷ d)) in
    let m : Message = record { bytes = status ∷ d; timestamp_ns = at; epoch = x.fence.epoch } in
    let is : g.devices dev ≡ record (h.devices dev) { device = record x { runtime = q } } =
      decoded-at h dev status d at later v on room in
    let accepts = open_accepts x.fence x.session.state at v.fence_ok on in
    let one : waiting q.tx ≡ some m ∷ [] =
      decoded-waiting h dev status d at later v on room ∙ ap (λ l. l ++ (some m ∷ [])) none_waits in
    let sent : (tx_consume g dev m outside clock at after).0
        ≡ frame (outside 0).timestamp_13bit (status ∷ d) ∷ [] =
      written g dev m path outside clock at after
        (ap (λ (st : Station). fence_accept st.device.fence x.fence.epoch at) is ∙ accepts)
        (ap (λ (st : Station). st.device.session.midi_char_path) is ∙ bound)
      ∙ ap
          (λ (st : Station).
            (write_packet st.device.fence true outside (status ∷ d) x.fence.epoch at).sent)
          is
      ∙ write_packet-single x.fence outside status d x.fence.epoch at (omega (arith, two)) accepts
          smooth in
    (
      subst
          (λ (st : Station).
            (consume_begin st.device.runtime.tx).0
            ≡ some (oldest st.device.runtime.tx.ring, some m))
          (sym is)
          (only_one q.tx (some m) (decoded-flow h dev status d at later v on room).flow one),
      subst (λ l. AllDecodeTo s l (status ∷ d)) (sym sent)
          (decode_all-one s _ _
            (frame-decodes s (outside 0).timestamp_13bit status d valid out closed lo size small)),
    )

-- What an event for a device becomes.
deliver-hub :
    {C E : Type 0} (decode : C → E → Option (List ℕ) × C) (reset_decode : C → C) (k : Sink C)
    (dev : ℕ) (ev : AlsaEvent E) (midi : List ℕ)
    → (k.hub.devices dev).enable_tx ≡ true
    → event_is_midi_payload ev.type ≡ true
    → (decode (k.coders dev) ev.body).0 ≡ some midi
    → (deliver decode reset_decode k dev ev).hub
      ≡ decoded k.hub dev ev.now_ns ev.later_ns (some midi)
unfolding deliver
deliver-hub {C} decode reset_decode k dev ev midi enabled payload says =
    rw (enabled, payload) (ap (λ o. decoded k.hub dev ev.now_ns ev.later_ns o) says)

module _ {C E : Type 0} (decode : C → E → Option (List ℕ) × C) (reset_decode : C → C) where
  -- A short message that ALSA's decoder makes of an event for a device, while TX is enabled for it,
  -- its session streams and no other message waits, is handed as it is to the TX thread, with its
  -- time and the epoch of the session; and if each round of the write loop finds the fence open and
  -- its write succeeds, what is written is decoded, by a well-formed decoder between two messages,
  -- to exactly the message, and the decoder is between two messages again. The device is consistent
  -- before, with no consumer at a message, and the message is a status byte (SysEx apart, real time
  -- included) with as many data bytes as MIDI 1.0 gives it.
  pub deliver-decode_all :
      (k : Sink C) (dev : ℕ) (ev : AlsaEvent E) (status : ℕ) (d : List ℕ) (path : String)
      (outside : ℕ → Outside) (clock : ℕ → ℕ) (later : ℕ) (s : DecoderState)
      → DeviceOk ((k.hub.devices dev).device)
      → (k.hub.devices dev).enable_tx ≡ true
      → (k.hub.devices dev).device.fence.streaming ≡ true
      → (k.hub.devices dev).device.session.midi_char_path ≡ some path
      → waiting (k.hub.devices dev).device.runtime.tx ≡ []
      → event_is_midi_payload ev.type ≡ true
      → (decode (k.coders dev) ev.body).0 ≡ some (status ∷ d)
      → 128 ≤ status
      → short_size status ≡ some (length d)
      → All (λ b. b < 128) d
      → Smooth outside (k.hub.devices dev).device.fence.epoch ev.now_ns
      → IsValid s
      → s.sysex_active ≡ false
      → s.pending_status ≡ 0
      → let g = (deliver decode reset_decode k dev ev).hub in
        let f = (g.devices dev).device.runtime.tx in
        let m : Message = record {
          bytes = status ∷ d;
          timestamp_ns = ev.now_ns;
          epoch = (k.hub.devices dev).device.fence.epoch;
        } in
        ((consume_begin f).0 ≡ some (oldest f.ring, some m))
        × AllDecodeTo s (tx_consume g dev m outside clock ev.now_ns later).0 (status ∷ d)
  deliver-decode_all k dev ev status d path outside clock later s v enabled on bound none_waits
        payload says lo size small smooth valid out closed =
      let delivered : (deliver decode reset_decode k dev ev).hub
          ≡ decoded k.hub dev ev.now_ns ev.later_ns (some (status ∷ d)) =
        deliver-hub decode reset_decode k dev ev (status ∷ d) enabled payload says in
      subst
        (λ (g : Hub).
          ((consume_begin (g.devices dev).device.runtime.tx).0
            ≡ some (
              oldest (g.devices dev).device.runtime.tx.ring,
              some (record {
                bytes = status ∷ d;
                timestamp_ns = ev.now_ns;
                epoch = (k.hub.devices dev).device.fence.epoch;
              }),
            ))
          × AllDecodeTo s
              (tx_consume g dev
                (record {
                  bytes = status ∷ d;
                  timestamp_ns = ev.now_ns;
                  epoch = (k.hub.devices dev).device.fence.epoch;
                })
                outside clock ev.now_ns later).0
              (status ∷ d))
        (sym delivered)
        (decoded-short k.hub dev status d path outside clock ev.now_ns ev.later_ns later s v on
          bound none_waits lo size small smooth valid out closed)
