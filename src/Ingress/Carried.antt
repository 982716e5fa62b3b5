-- ===== src/Ingress/Carried.antt =====
-- What one event of ALSA's queue does to the TX flow of a device in src/mb-daemon.c.
use midi_ble_rt.Base.{
  ℕ, ◌+◌, ◌<◌, ◌≡◌, subst, refl, sym, ◌∙◌, ap, Bool, true, false, ◌&&◌, none, some, List, [], ◌∷◌,
  ◌++◌, length, Option, if◌then◌else◌, if_true, if_false, arith, Bool-cases, inl, inr, append-nil,
}
use midi_ble_rt.Session.{runtime_failure}
use midi_ble_rt.Runtime.{Message, depth}
use midi_ble_rt.Runtime.Deliver.{waiting}
use midi_ble_rt.Duplex.{Duplex, push_tx_with_epoch}
use midi_ble_rt.Dataplane.{stamp}
use midi_ble_rt.Device.{Device}
use midi_ble_rt.Device.Clean.{FlowOk, DuplexOk, DeviceOk}
use midi_ble_rt.Stats.{u64_max}
use midi_ble_rt.Stats
use midi_ble_rt.DeviceStats.{DeviceStats, device_tx_drop, stats_add_u64_saturating, ensure_window}
use midi_ble_rt.Ingress.{
  Hub, Station, same, decoded, tx_stamped, tx_pushed, tx_dropped, tx_observe_depth, with_runtime,
  event_now,
}
use midi_ble_rt.Ingress.Change.{change-at, change-twice, with_runtime-DeviceOk, queue_depth-enabled}
use midi_ble_rt.Ingress.Bounded.{Carried, Carried-none, offer_one}
use midi_ble_rt.Ingress.Push.{fits, message, push_tx-Pushed}

device_tx_drop-drops :
    (enabled : Bool) (s : DeviceStats) (now : ℕ)
    → enabled ≡ true
    → s.tx.drops < u64_max
    → (device_tx_drop enabled s now).tx.drops ≡ s.tx.drops + 1
unfolding device_tx_drop stats_add_u64_saturating ensure_window
device_tx_drop-drops enabled s now on small = ground arith

tx_drop-enabled : (s : Stats.Stats) → (Stats.tx_drop s).enabled ≡ s.enabled
unfolding Stats.tx_drop
tx_drop-enabled s = ground arith

module _ (h : Hub) (dev : ℕ) (now later : ℕ) (v : DeviceOk ((h.devices dev).device))
    (on : h.stats.enabled ≡ true) (small : (h.devices dev).stats.tx.drops < u64_max) where
  abbrev d : Device
  d = (h.devices dev).device

  abbrev lose : Station → Station
  lose s = record s { stats = device_tx_drop h.stats.enabled s.stats later }

  -- A change after which the device is as a drop leaves it, with the same messages waiting.
  lost-Carried :
      (q : Duplex)
      → DuplexOk q
      → waiting q.tx ≡ waiting d.runtime.tx
      → (g : Hub)
      → g.devices dev ≡ lose (record (h.devices dev) { device = record d { runtime = q } })
      → g.stats ≡ Stats.tx_drop h.stats
      → Carried dev h g [] 1
  lost-Carried q w same_tx g at st = record {
    device_ok = subst (λ (s : Station). DeviceOk s.device) (sym at) (with_runtime-DeviceOk d q v w);
    queue =
        ap (λ (s : Station). waiting s.device.runtime.tx) at
        ∙ same_tx
        ∙ sym (append-nil (waiting d.runtime.tx));
    drops =
        ap (λ (s : Station). s.stats.tx.drops) at
        ∙ device_tx_drop-drops h.stats.enabled (h.devices dev).stats later on small;
    fence_same = ap (λ (s : Station). s.device.fence) at;
    enable_same = ap (λ (s : Station). s.enable_tx) at;
    enabled = ap (λ (s : Stats.Stats). s.enabled) st ∙ tx_drop-enabled h.stats;
  }

  dropped-Carried : Carried dev h (tx_dropped h dev later) [] 1
  dropped-Carried =
      lost-Carried d.runtime v.runtime_ok refl (tx_dropped h dev later) (change-at h dev lose) refl

  kept-Carried :
      (q : Duplex) (midi : List ℕ)
      → DuplexOk q
      → waiting q.tx ≡ waiting d.runtime.tx ++ (message midi now d.fence.epoch ∷ [])
      → Carried dev h
          (tx_observe_depth (with_runtime h dev q) (depth q.tx))
          (message midi now d.fence.epoch ∷ [])
          0
  kept-Carried q midi w queue =
      let at = change-at h dev (λ s. record s { device = record (s.device) { runtime = q } }) in
      record {
        device_ok =
            subst (λ (s : Station). DeviceOk s.device) (sym at) (with_runtime-DeviceOk d q v w);
        queue = ap (λ (s : Station). waiting s.device.runtime.tx) at ∙ queue;
        drops = omega (arith, ap (λ (s : Station). s.stats.tx.drops) at);
        fence_same = ap (λ (s : Station). s.device.fence) at;
        enable_same = ap (λ (s : Station). s.enable_tx) at;
        enabled = queue_depth-enabled h.stats 0 (depth q.tx);
      }

  -- What the flow's answer to a push becomes.
  abbrev taken : Bool → List ℕ → List (Option Message) × ℕ
  taken ok midi = if ok then (message midi now d.fence.epoch ∷ [], 0) else ([], 1)

  abbrev CarriedAs : Hub → List (Option Message) × ℕ → Type 0
  CarriedAs g (kept, lost) = Carried dev h g kept lost

  pushed-Carried :
      (midi : List ℕ)
      → CarriedAs
          (tx_pushed h dev later (push_tx_with_epoch d.runtime midi now d.fence.epoch))
          (taken (fits d.runtime.tx midi) midi)
  pushed-Carried midi =
      let r = push_tx_with_epoch d.runtime midi now d.fence.epoch in
      let (p, rx, ready) = push_tx-Pushed d.runtime midi now d.fence.epoch v.runtime_ok in
      let w : DuplexOk r.1 = record {
        tx_ok = p.flow_ok;
        rx_ok = subst FlowOk (sym rx) v.runtime_ok.rx_ok;
        ready = ready;
      } in
      elim (Bool-cases (fits d.runtime.tx midi)) [
        | inl room ↦
            rw (room, p.answer ∙ room) (kept-Carried r.1 midi w (p.queue ∙ if_true _ _ room))
        | inr full ↦
            rw (full, p.answer ∙ full)
              (lost-Carried r.1 w (p.queue ∙ if_false _ _ full)
                (event_now (tx_dropped (with_runtime h dev r.1) dev later) dev runtime_failure)
                (change-twice h dev (λ s. record s { device = record (s.device) { runtime = r.1 } })
                  lose)
                refl)
      ]

  stamped-Carried :
      (midi : List ℕ) (streams : Bool)
      → d.fence.streaming ≡ streams
      → CarriedAs
          (tx_stamped h dev midi later (if streams then some (d.fence.epoch, now) else none))
          (taken (streams && fits d.runtime.tx midi) midi)
      → CarriedAs
          (tx_stamped h dev midi later (stamp d.fence now))
          (taken (d.fence.streaming && fits d.runtime.tx midi) midi)
  unfolding stamp
  stamped-Carried midi streams streams_is x =
      subst
        (λ b.
          CarriedAs (tx_stamped h dev midi later (if b then some (d.fence.epoch, now) else none))
            (taken (b && fits d.runtime.tx midi) midi))
        (sym streams_is) x

  pub decoded-Carried :
      (said : Option (List ℕ))
      → CarriedAs
          (decoded h dev now later said)
          (offer_one d.fence.streaming d.fence.epoch (length (waiting d.runtime.tx)) said now)
  unfolding decoded
  decoded-Carried none =
      lost-Carried d.runtime v.runtime_ok refl (event_now (tx_dropped h dev later) dev _)
        (change-at h dev lose) refl
  decoded-Carried (some []) = Carried-none dev h h v refl refl
  decoded-Carried (some (b ∷ midi)) = elim (Bool-cases d.fence.streaming) [
    | inl streams ↦ stamped-Carried (b ∷ midi) true streams (pushed-Carried (b ∷ midi))
    | inr rests ↦ stamped-Carried (b ∷ midi) false rests dropped-Carried
  ]

-- Another device, and whether the statistics are enabled.
abbrev pub Untouched : Hub → ℕ → Hub → Type 0
Untouched h i g = (g.devices i ≡ h.devices i) × (g.stats.enabled ≡ h.stats.enabled)

pushed-Untouched :
    (h : Hub) (dev later i : ℕ) (r : Bool × Duplex)
    → same i dev ≡ false
    → Untouched h i (tx_pushed h dev later r)
pushed-Untouched h dev later i (true, q) away =
    rw away (refl, queue_depth-enabled h.stats 0 (depth q.tx))
pushed-Untouched h dev later i (false, q) away = rw away (refl, tx_drop-enabled h.stats)

stamped-Untouched :
    (h : Hub) (dev later : ℕ) (midi : List ℕ) (i : ℕ) (stamped : Option (ℕ × ℕ))
    → same i dev ≡ false
    → Untouched h i (tx_stamped h dev midi later stamped)
stamped-Untouched h dev later midi i none away = rw away (refl, tx_drop-enabled h.stats)
stamped-Untouched h dev later midi i (some (e, now)) away =
    pushed-Untouched h dev later i (push_tx_with_epoch ((h.devices dev).device.runtime) midi now e)
      away

-- An event of one device leaves the others as they are.
pub decoded-Untouched :
    (h : Hub) (dev now later : ℕ) (said : Option (List ℕ)) (i : ℕ)
    → same i dev ≡ false
    → Untouched h i (decoded h dev now later said)
unfolding decoded
decoded-Untouched h dev now later none i away = rw away (refl, tx_drop-enabled h.stats)
decoded-Untouched h dev now later (some []) i away = (refl, refl)
decoded-Untouched h dev now later (some (b ∷ midi)) i away =
    stamped-Untouched h dev later (b ∷ midi) i (stamp ((h.devices dev).device.fence) now) away
