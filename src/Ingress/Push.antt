-- ===== src/Ingress/Push.antt =====
-- A push to a flow of a device of src/mb-daemon.c, whatever its payload.
use midi_ble_rt.Base.{
  ℕ, ◌<◌, ◌^◌, ◌≡◌, refl, Bool, true, ◌&&◌, none, some, List, [], ◌∷◌, ◌++◌, length, Option, ltb,
  leb, if◌then◌else◌, arith, Bool-cases, ltb→lt, ltb→ge, leb→le, leb→gt, inl, inr,
}
use midi_ble_rt.FrameModel.{capacity}
use midi_ble_rt.SliceRing.{ring_count}
use midi_ble_rt.SliceRing.Queue.{used}
use midi_ble_rt.Runtime.{Flow, Message, push_bytes_with_epoch}
use midi_ble_rt.Runtime.Deliver.{waiting, push-room, push-full, push-long}
use midi_ble_rt.Runtime.Channel.{length-waiting}
use midi_ble_rt.Duplex.{Duplex, push_rx_with_epoch, push_tx_with_epoch}
use midi_ble_rt.Device.Clean.{FlowOk, DuplexOk}

-- The payload fits a frame, and fewer than 16 messages wait.
abbrev pub fits : Flow → List ℕ → Bool
fits f bytes = leb (length bytes) capacity && ltb (length (waiting f)) ring_count

abbrev pub message : List ℕ → ℕ → ℕ → Option Message
message bytes t e = some (record { bytes = bytes; timestamp_ns = t; epoch = e })

-- What waits after a push.
abbrev pub after_push : Flow → List ℕ → ℕ → ℕ → List (Option Message)
after_push f bytes t e = if fits f bytes then waiting f ++ (message bytes t e ∷ []) else waiting f

pub record Pushed (f : Flow) (bytes : List ℕ) (t e : ℕ) (r : Bool × Flow) : Type 0 where
  pub answer : r.0 ≡ fits f bytes
  pub queue : waiting r.1 ≡ after_push f bytes t e
  pub flow_ok : FlowOk r.1

counter-small :
    (f : Flow) (bytes : List ℕ) (t e : ℕ)
    → f.dropped < 2 ^ 64
    → (push_bytes_with_epoch f bytes t e).1.dropped < 2 ^ 64
unfolding push_bytes_with_epoch
counter-small f bytes t e h = ground arith

pub push-Pushed :
    (f : Flow) (bytes : List ℕ) (t e : ℕ)
    → FlowOk f
    → Pushed f bytes t e (push_bytes_with_epoch f bytes t e)
push-Pushed f bytes t e v =
    let c = counter-small f bytes t e v.counter in
    elim (Bool-cases (leb (length bytes) capacity)) [
      | inr long ↦
          let (a, w, i) = push-long f none bytes t e v.flow (leb→gt _ _ long) in
          record {
            answer = rw long a;
            queue = rw long w;
            flow_ok = record { flow = i; counter = c };
          }
      | inl small ↦ elim (Bool-cases (ltb (used f.ring) ring_count)) [
        | inl room ↦
            let (a, w, i) =
              push-room f none bytes t e v.flow (leb→le _ _ small) (ltb→lt _ _ room) in
            record {
              answer = rw (small, length-waiting f, room) a;
              queue = rw (small, length-waiting f, room) w;
              flow_ok = record { flow = i; counter = c };
            }
        | inr full ↦
            let (a, w, i) =
              push-full f none bytes t e v.flow (leb→le _ _ small)
                (omega (arith, ltb→ge _ _ full, v.flow.ring_ready.valid.used_in)) in
            record {
              answer = rw (small, length-waiting f, full) a;
              queue = rw (small, length-waiting f, full) w;
              flow_ok = record { flow = i; counter = c };
            }
      ]
    ]

-- The push to one flow of a device.
pub push_rx-Pushed :
    (r : Duplex) (bytes : List ℕ) (t e : ℕ)
    → DuplexOk r
    → let (accepted, q) = push_rx_with_epoch r bytes t e in
      Pushed r.rx bytes t e (accepted, q.rx) × (q.tx ≡ r.tx) × (q.initialized ≡ true)
unfolding push_rx_with_epoch
push_rx-Pushed r bytes t e v = rw v.ready (push-Pushed r.rx bytes t e v.rx_ok, refl, refl)

pub push_tx-Pushed :
    (r : Duplex) (bytes : List ℕ) (t e : ℕ)
    → DuplexOk r
    → let (accepted, q) = push_tx_with_epoch r bytes t e in
      Pushed r.tx bytes t e (accepted, q.tx) × (q.rx ≡ r.rx) × (q.initialized ≡ true)
unfolding push_tx_with_epoch
push_tx-Pushed r bytes t e v = rw v.ready (push-Pushed r.tx bytes t e v.tx_ok, refl, refl)
