-- ===== src/Tests/Traffic.antt =====
-- The theorems on data that comes in and goes out, at concrete inputs.
use midi_ble_rt.Base.{ℕ, ◌≡◌, refl, Bool, true, false, none, some, Option, List, [], ◌∷◌, arith}
use midi_ble_rt.BleMidi.{decoder_reset}
use midi_ble_rt.BleMidi.Invariant.{decoder_reset-IsValid}
use midi_ble_rt.SliceRing.Refine.{oldest}
use midi_ble_rt.Runtime.{Message, consume_begin}
use midi_ble_rt.Dataplane.{Outside, fence_accept}
use midi_ble_rt.Duplex
use midi_ble_rt.SliceRing
use midi_ble_rt.Runtime.{flow_init}
use midi_ble_rt.Dataplane.Writing.{Smooth}
use midi_ble_rt.Stats
use midi_ble_rt.Lifecycle.{fresh}
use midi_ble_rt.DeviceStats.{stats_init}
use midi_ble_rt.DeviceStats.Windows.{
  Call, rx, tx, rx_lost, export, apply_all, apply_all-Same, Same, add, held, sum, reported,
  exported,
}
use midi_ble_rt.Alsa.{noteon, event_is_midi_payload}
use midi_ble_rt.Ingress.{Hub, Station, notification}
use midi_ble_rt.Ingress.Arrival.{Arrived, let_in, notification-Arrived}
use midi_ble_rt.Ingress.Queue.{Input, arrived, absent, Sink, deliver, drain_alsa_tx_queue}
use midi_ble_rt.Ingress.Bounded.{Carried}
use midi_ble_rt.Ingress.Drained.{reference, drain_alsa_tx_queue-Carried}
use midi_ble_rt.Egress.{tx_consume}
use midi_ble_rt.Egress.Through.{AllDecodeTo, deliver-decode_all}
use midi_ble_rt.Tests.Sessions.{playing_device, playing_device-Ok}

-- Packets, a drop and an export of a device.
abbrev an_hour : List Call
an_hour = rx 3 5 ∷ tx 7 6 ∷ rx_lost 8 ∷ export 9 0 0 ∷ rx 2 10 ∷ []

apply_all-Same_example :
    let (rows, t) = apply_all stats_init an_hour in
    Same
      (add (sum (exported false) rows) (held false t))
      (add (held false stats_init) (sum (reported false) an_hour))
apply_all-Same_example =
    apply_all-Same false an_hour stats_init (omega arith, omega arith, omega arith)

abbrev a_station : Station
a_station = record { device = playing_device; stats = stats_init; enable_tx = true }

abbrev a_hub : Hub
a_hub = record { stats = Stats.init true 1000 1; lifecycle = fresh; devices = λ i. a_station }

notification-Arrived_example :
    Arrived a_hub 4
      (0x80 ∷ 0x80 ∷ 0x90 ∷ 60 ∷ 100 ∷ [])
      20
      21
      true
      (let_in playing_device (0x80 ∷ 0x80 ∷ 0x90 ∷ 60 ∷ 100 ∷ []))
      (notification a_hub 4 (0x80 ∷ 0x80 ∷ 0x90 ∷ 60 ∷ 100 ∷ []) 20 21)
notification-Arrived_example =
    notification-Arrived a_hub 4 (0x80 ∷ 0x80 ∷ 0x90 ∷ 60 ∷ 100 ∷ []) 20 21 playing_device-Ok

-- A decoder whose events hold their bytes; the event of no bytes is an error.
abbrev plain_decode : Bool → List ℕ → Option (List ℕ) × Bool
plain_decode c [] = (none, c)
plain_decode c (b ∷ bytes) = (some (b ∷ bytes), c)

abbrev two_events : List (Input (List ℕ))
two_events =
    arrived (record {
      dest_port = 3;
      type = noteon;
      body = 0x90 ∷ 60 ∷ 100 ∷ [];
      now_ns = 20;
      later_ns = 21;
    })
    ∷ arrived (record { dest_port = 3; type = noteon; body = []; now_ns = 22; later_ns = 23 })
    ∷ absent
    ∷ []

abbrev a_sink : Sink Bool
a_sink = record { hub = a_hub; coders = λ i. false }

drain_alsa_tx_queue-Carried_example :
    let t =
      drain_alsa_tx_queue plain_decode (λ c. true) true true (λ port. some 4) two_events a_sink in
    let r = reference plain_decode (λ c. true) (λ port. some 4) 4 a_sink two_events in
    Carried 4 a_hub t.hub r.0 r.1
unfolding Stats.init
drain_alsa_tx_queue-Carried_example =
    drain_alsa_tx_queue-Carried plain_decode (λ c. true) (λ port. some 4) 4 true true two_events
      a_sink (record { device_ok = playing_device-Ok; enabled = refl; small = omega arith })

-- The link holds while the message is written.
abbrev steady : ℕ → Outside
steady i = record { fence = playing_device.fence; timestamp_13bit = 0; written = true }

steady-Smooth : Smooth steady 4 1000
unfolding fence_accept
steady-Smooth i = (refl, refl)

deliver-decode_all_example :
    let g =
      (deliver plain_decode
        (λ c. true)
        a_sink
        4
        (record {
          dest_port = 3;
          type = noteon;
          body = 0x90 ∷ 60 ∷ 100 ∷ [];
          now_ns = 1000;
          later_ns = 1001;
        })).hub in
    let f = (g.devices 4).device.runtime.tx in
    let m : Message = record { bytes = 0x90 ∷ 60 ∷ 100 ∷ []; timestamp_ns = 1000; epoch = 4 } in
    ((consume_begin f).0 ≡ some (oldest f.ring, some m))
    × AllDecodeTo decoder_reset
        (tx_consume g 4 m steady (λ i. 1002) 1000 1001).0
        (0x90 ∷ 60 ∷ 100 ∷ [])
unfolding Duplex.init flow_init SliceRing.init event_is_midi_payload
deliver-decode_all_example =
    deliver-decode_all plain_decode (λ c. true) a_sink 4
      (record {
        dest_port = 3;
        type = noteon;
        body = 0x90 ∷ 60 ∷ 100 ∷ [];
        now_ns = 1000;
        later_ns = 1001;
      })
      0x90 (60 ∷ 100 ∷ []) "/char" steady (λ i. 1002) 1001 decoder_reset playing_device-Ok refl refl
      refl refl refl refl (omega arith) refl (omega arith, (omega arith, tt)) steady-Smooth
      decoder_reset-IsValid refl refl
