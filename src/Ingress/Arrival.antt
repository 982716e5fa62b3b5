-- ===== src/Ingress/Arrival.antt =====
-- What a notification does in src/mb-daemon.c: to the RX flow, to the counters, to the lifecycle.
use midi_ble_rt.Base.{
  ℕ, ◌≡◌, ◌⊎◌, subst, refl, sym, ◌∙◌, ap, Bool, true, false, not, ◌&&◌, ◌||◌, none, some, List, [],
  ◌∷◌, ◌++◌, length, if◌then◌else◌, if_true, if_false, Bool-cases, inl, inr,
}
use midi_ble_rt.Session.{runtime_failure}
use midi_ble_rt.Runtime.{depth}
use midi_ble_rt.Runtime.Deliver.{waiting}
use midi_ble_rt.Duplex.{Duplex, push_rx_with_epoch}
use midi_ble_rt.Dataplane.{stamp, fence_accept}
use midi_ble_rt.Dataplane.Fencing.{open_accepts}
use midi_ble_rt.Device.{Device}
use midi_ble_rt.Device.Clean.{FlowOk, DuplexOk, DeviceOk}
use midi_ble_rt.Stats
use midi_ble_rt.DeviceStats.{device_rx_packet, device_rx_drop}
use midi_ble_rt.Lifecycle.{schedule, enqueue_event}
use midi_ble_rt.Ingress.{
  Hub, Station, same, notification, rx_stamped, rx_pushed, rx_dropped, rx_counted, rx_observe_depth,
  with_runtime, event_now,
}
use midi_ble_rt.Ingress.Change.{
  change-others, change-at, change-twice, change-twice_others, with_runtime-DeviceOk,
  queue_depth-enabled,
}
use midi_ble_rt.Ingress.Push.{fits, message, push_rx-Pushed}

-- A notification is let in: the session streams, and the RX flow has room for it.
abbrev pub let_in : Device → List ℕ → Bool
let_in d bytes = d.fence.streaming && fits d.runtime.rx bytes

-- What a notification leaves of the daemon `h`, if its session streams or not, and if it is let in
-- or not.
pub record Arrived (h : Hub) (dev : ℕ) (bytes : List ℕ) (now later : ℕ) (streams ok : Bool)
    (g : Hub) : Type 0 where
  pub device_ok : DeviceOk (g.devices dev).device
  pub queue : waiting (g.devices dev).device.runtime.rx ≡ (
      if ok
      then waiting (h.devices dev).device.runtime.rx
        ++ (message bytes now (h.devices dev).device.fence.epoch ∷ [])
      else waiting (h.devices dev).device.runtime.rx)
  pub tx_same : (g.devices dev).device.runtime.tx ≡ (h.devices dev).device.runtime.tx
  pub passes :
      (not ok || fence_accept (g.devices dev).device.fence (h.devices dev).device.fence.epoch now)
      ≡ true
  pub stats : g.stats ≡ (
      if ok
      then Stats.rx_packet
          (Stats.queue_depth h.stats (depth (g.devices dev).device.runtime.rx) 0)
          (length bytes)
          now
      else Stats.rx_drop h.stats)
  pub device_stats : (g.devices dev).stats ≡ (
      if ok
      then device_rx_packet h.stats.enabled (h.devices dev).stats (length bytes) now
      else device_rx_drop h.stats.enabled (h.devices dev).stats later)
  pub lifecycle : g.lifecycle ≡ (
      if streams && not ok
      then schedule (enqueue_event h.lifecycle dev runtime_failure)
      else h.lifecycle)
  pub others : (i : ℕ) → (same i dev ≡ true) ⊎ (g.devices i ≡ h.devices i)

module _ (h : Hub) (dev : ℕ) (bytes : List ℕ) (now later : ℕ)
    (v : DeviceOk ((h.devices dev).device)) where
  abbrev d : Device
  d = (h.devices dev).device

  dropped-Arrived : Arrived h dev bytes now later false false (rx_dropped h dev later)
  dropped-Arrived =
      let drop : Station → Station =
        λ s. record s { stats = device_rx_drop h.stats.enabled s.stats later } in
      let at = change-at h dev drop in
      record {
        device_ok = subst (λ (s : Station). DeviceOk s.device) (sym at) v;
        queue = ap (λ (s : Station). waiting s.device.runtime.rx) at;
        tx_same = ap (λ (s : Station). s.device.runtime.tx) at;
        passes = refl;
        stats = refl;
        device_stats = ap (λ (s : Station). s.stats) at;
        lifecycle = refl;
        others = change-others h dev drop;
      }

  module _ (q : Duplex) (w : DuplexOk q) (on : d.fence.streaming ≡ true)
      (same_tx : q.tx ≡ d.runtime.tx) where
    abbrev moved : Station → Station
    moved s = record s { device = record (s.device) { runtime = q } }

    counted-Arrived :
        waiting q.rx ≡ waiting d.runtime.rx ++ (message bytes now d.fence.epoch ∷ [])
        → Arrived h dev bytes now later true true (
            rx_counted
              (rx_observe_depth (with_runtime h dev q) (depth q.rx))
              dev
              (length bytes)
              now)
    counted-Arrived queue =
        let count : Station → Station = λ s. record s {
          stats =
              device_rx_packet (Stats.queue_depth h.stats (depth q.rx) 0).enabled s.stats
                (length bytes) now;
        } in
        let at = change-twice h dev moved count in
        record {
          device_ok =
              subst (λ (s : Station). DeviceOk s.device) (sym at) (with_runtime-DeviceOk d q v w);
          queue = ap (λ (s : Station). waiting s.device.runtime.rx) at ∙ queue;
          tx_same = ap (λ (s : Station). s.device.runtime.tx) at ∙ same_tx;
          passes =
              ap (λ (s : Station). fence_accept s.device.fence d.fence.epoch now) at
              ∙ open_accepts d.fence d.session.state now v.fence_ok on;
          stats =
              ap
                (λ (s : Station).
                  Stats.rx_packet (Stats.queue_depth h.stats (depth s.device.runtime.rx) 0)
                    (length bytes) now)
                (sym at);
          device_stats =
              ap (λ (s : Station). s.stats) at
              ∙ ap (λ b. device_rx_packet b (h.devices dev).stats (length bytes) now)
                  (queue_depth-enabled h.stats (depth q.rx) 0);
          lifecycle = refl;
          others = change-twice_others h dev moved count;
        }

    refused-Arrived :
        waiting q.rx ≡ waiting d.runtime.rx
        → Arrived h dev bytes now later true false
            (event_now (rx_dropped (with_runtime h dev q) dev later) dev runtime_failure)
    refused-Arrived queue =
        let drop : Station → Station =
          λ s. record s { stats = device_rx_drop h.stats.enabled s.stats later } in
        let at = change-twice h dev moved drop in
        record {
          device_ok =
              subst (λ (s : Station). DeviceOk s.device) (sym at) (with_runtime-DeviceOk d q v w);
          queue = ap (λ (s : Station). waiting s.device.runtime.rx) at ∙ queue;
          tx_same = ap (λ (s : Station). s.device.runtime.tx) at ∙ same_tx;
          passes = refl;
          stats = refl;
          device_stats = ap (λ (s : Station). s.stats) at;
          lifecycle = refl;
          others = change-twice_others h dev moved drop;
        }

  pushed-Arrived :
      (on : d.fence.streaming ≡ true)
      → Arrived h dev bytes now later true (fits d.runtime.rx bytes) (
          rx_pushed h dev
            (length bytes)
            now
            later
            (push_rx_with_epoch d.runtime bytes now d.fence.epoch))
  pushed-Arrived on =
      let r = push_rx_with_epoch d.runtime bytes now d.fence.epoch in
      let (p, tx, ready) = push_rx-Pushed d.runtime bytes now d.fence.epoch v.runtime_ok in
      let w : DuplexOk r.1 = record {
        rx_ok = p.flow_ok;
        tx_ok = subst FlowOk (sym tx) v.runtime_ok.tx_ok;
        ready = ready;
      } in
      elim (Bool-cases (fits d.runtime.rx bytes)) [
        | inl room ↦
            rw (room, p.answer ∙ room) (counted-Arrived r.1 w on tx (p.queue ∙ if_true _ _ room))
        | inr full ↦
            rw (full, p.answer ∙ full) (refused-Arrived r.1 w on tx (p.queue ∙ if_false _ _ full))
      ]

  -- The stamp is taken if the session streams.
  stamped-Arrived :
      (streams ok : Bool)
      → d.fence.streaming ≡ streams
      → let_in d bytes ≡ ok
      → Arrived h dev bytes now later streams ok
          (rx_stamped h dev bytes later (if streams then some (d.fence.epoch, now) else none))
      → Arrived h dev bytes now later d.fence.streaming
          (let_in d bytes)
          (notification h dev bytes now later)
  unfolding notification stamp
  stamped-Arrived streams ok streams_is ok_is x =
      subst
        (λ o.
          Arrived h dev bytes now later d.fence.streaming o (notification h dev bytes now later))
        (sym ok_is)
        (subst
          (λ b.
            Arrived h dev bytes now later b ok
              (rx_stamped h dev bytes later (if b then some (d.fence.epoch, now) else none)))
          (sym streams_is) x)

-- A notification that arrives at a consistent device, while neither of its consumers is at work,
-- waits last in the RX flow, once, with its bytes, its time and the epoch of the session, passes
-- the fence at once, is counted as received and raises the daemon's watermark to the depth of the
-- flow, if the session streams, the bytes fit a frame and fewer than 16 messages wait. Otherwise
-- the flow waits for what it waited for and one drop is counted; if the session streams, the
-- lifecycle is told of a failed runtime. The device stays consistent, its TX flow and every other
-- device are not touched.
pub notification-Arrived :
    (h : Hub) (dev : ℕ) (bytes : List ℕ) (now later : ℕ)
    → DeviceOk ((h.devices dev).device)
    → Arrived h dev bytes now later
        (h.devices dev).device.fence.streaming
        (let_in (h.devices dev).device bytes)
        (notification h dev bytes now later)
notification-Arrived h dev bytes now later v =
    let d = (h.devices dev).device in
    elim (Bool-cases d.fence.streaming) [
      | inl on ↦
          stamped-Arrived h dev bytes now later v true (fits d.runtime.rx bytes) on
            (ap (λ b. b && fits d.runtime.rx bytes) on) (pushed-Arrived h dev bytes now later v on)
      | inr off ↦
          stamped-Arrived h dev bytes now later v false false off
            (ap (λ b. b && fits d.runtime.rx bytes) off) (dropped-Arrived h dev bytes now later v)
    ]
