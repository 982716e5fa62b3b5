-- ===== src/Ingress/Drained.antt =====
-- runtime_drain_alsa_tx_queue of src/mb-daemon.c against a bounded queue that counts what it loses.
use midi_ble_rt.Base.{
  ℕ, ◌+◌, ◌<◌, ◌≤◌, ◌≡◌, subst, refl, sym, ◌∙◌, ap, ap₂, if_intro, Bool, true, false, not, ◌&&◌,
  ◌||◌, none, some, List, [], ◌∷◌, ◌++◌, length, Option, if◌then◌else◌, if_true, if_false, arith,
  Bool-cases, inl, inr, length-append,
}
use midi_ble_rt.Alsa.{event_is_midi_payload}
use midi_ble_rt.Runtime.{Message}
use midi_ble_rt.Runtime.Deliver.{waiting}
use midi_ble_rt.Device.Clean.{DeviceOk}
use midi_ble_rt.Stats.{u64_max}
use midi_ble_rt.Ingress.{Station, same, decoded}
use midi_ble_rt.Ingress.Change.{same_self}
use midi_ble_rt.Ingress.Bounded.{
  Carried, Carried-none, Carried-from, Carried-then, offer_one, offer,
}
use midi_ble_rt.Ingress.Carried.{decoded-Carried, decoded-Untouched}
use midi_ble_rt.Ingress.Queue.{
  AlsaEvent, Input, failed, absent, arrived, Sink, with_coder, settled, deliver, routed,
  drain_inputs, drain_alsa_tx_queue,
}

-- Whether the table sends a port to the device.
abbrev pub is_for : ℕ → Option ℕ → Bool
is_for dev none = false
is_for dev (some d) = same dev d

same→≡ : (a b : ℕ) → same a b ≡ true → a ≡ b
same→≡ a b h = ground arith

offer_one-lost :
    (streams : Bool) (epoch waits : ℕ) (said : Option (List ℕ)) (now : ℕ)
    → (offer_one streams epoch waits said now).1 ≤ 1
offer_one-lost streams epoch waits none now = omega arith
offer_one-lost streams epoch waits (some []) now = omega arith
offer_one-lost streams epoch waits (some (b ∷ midi)) now = ground arith

module _ {C E : Type 0} (decode : C → E → Option (List ℕ) × C) (reset_decode : C → C)
    (by_port : ℕ → Option ℕ) (dev : ℕ) where
  -- What ALSA's decoder of the device makes of the events for it, and when.
  abbrev pub said : (enable_tx : Bool) → C → List (Input E) → List (Option (List ℕ) × ℕ)
  said enable_tx c [] = []
  said enable_tx c (failed ∷ inputs) = []
  said enable_tx c (absent ∷ inputs) = []
  said enable_tx c (arrived ev ∷ inputs) =
      if is_for dev (by_port ev.dest_port) && (enable_tx && event_is_midi_payload ev.type)
      then (let r = decode c ev.body in
          (r.0, ev.now_ns) ∷ said enable_tx (settled decode reset_decode r) inputs)
      else said enable_tx c inputs

  abbrev pub now_at : Sink C → Station
  now_at s = s.hub.devices dev

  -- What the bounded queue makes of them.
  abbrev pub reference : Sink C → List (Input E) → List (Option Message) × ℕ
  reference s inputs =
      offer (now_at s).device.fence.streaming (now_at s).device.fence.epoch
        (length (waiting (now_at s).device.runtime.tx))
        (said (now_at s).enable_tx (s.coders dev) inputs)

  abbrev CarriedBy : Sink C → Sink C → List (Option Message) × ℕ → Type 0
  CarriedBy s t r = Carried dev s.hub t.hub r.0 r.1

  -- The daemon's side of the conditions.
  pub record Ready (s : Sink C) (events : ℕ) : Type 0 where
    pub device_ok : DeviceOk (s.hub.devices dev).device
    pub enabled : s.hub.stats.enabled ≡ true
    pub small : (s.hub.devices dev).stats.tx.drops + events ≤ u64_max

  abbrev loop : List (Input E) → Sink C → Sink C
  loop = drain_inputs decode reset_decode by_port

  -- The loop goes on from `t`, which the device reached by a step.
  module _ (s t : Sink C) (inputs : List (Input E)) (kept : List (Option Message)) (lost : ℕ)
      (c : C) (step : Carried dev s.hub t.hub kept lost) (coder : t.coders dev ≡ c) where
    abbrev rest : List (Option Message) × ℕ
    rest =
        offer (now_at s).device.fence.streaming (now_at s).device.fence.epoch
          (length (waiting (now_at s).device.runtime.tx) + length kept)
          (said (now_at s).enable_tx c inputs)

    reference-rest : reference t inputs ≡ rest
    reference-rest =
        ap
          (λ f.
            offer f.streaming f.epoch (length (waiting (now_at t).device.runtime.tx))
              (said (now_at t).enable_tx (t.coders dev) inputs))
          step.fence_same
        ∙ ap
            (λ w.
              offer (now_at s).device.fence.streaming (now_at s).device.fence.epoch w
                (said (now_at t).enable_tx (t.coders dev) inputs))
            (ap length step.queue ∙ length-append (waiting (now_at s).device.runtime.tx) kept)
        ∙ ap
            (λ en.
              offer (now_at s).device.fence.streaming (now_at s).device.fence.epoch
                (length (waiting (now_at s).device.runtime.tx) + length kept)
                (said en (t.coders dev) inputs))
            step.enable_same
        ∙ ap
            (λ c.
              offer (now_at s).device.fence.streaming (now_at s).device.fence.epoch
                (length (waiting (now_at s).device.runtime.tx) + length kept)
                (said (now_at s).enable_tx c inputs))
            coder

    go_on :
        CarriedBy t (loop inputs t) (reference t inputs)
        → CarriedBy s (loop inputs t) (kept ++ rest.0, lost + rest.1)
    go_on more =
        Carried-then dev s.hub t.hub (loop inputs t).hub kept rest.0 lost rest.1 step
          (subst (CarriedBy t (loop inputs t)) reference-rest more)

    Ready-then : lost ≤ 1 → Ready s (1 + length inputs) → Ready t (length inputs)
    Ready-then h r = record {
      device_ok = step.device_ok;
      enabled = step.enabled ∙ r.enabled;
      small = omega (arith, step.drops, r.small, h);
    }

  -- The loop goes on from `t`, in which the device is as it is in `s`.
  pass_on :
      (s t : Sink C) (inputs : List (Input E))
      → t.hub.devices dev ≡ s.hub.devices dev
      → t.hub.stats.enabled ≡ s.hub.stats.enabled
      → t.coders dev ≡ s.coders dev
      → CarriedBy t (loop inputs t) (reference t inputs)
      → CarriedBy s (loop inputs t) (reference s inputs)
  pass_on s t inputs at enabled coder more =
      let same_reference : reference t inputs ≡ reference s inputs =
        ap₂
          (λ (st : Station) c.
            offer st.device.fence.streaming st.device.fence.epoch
              (length (waiting st.device.runtime.tx)) (said st.enable_tx c inputs))
          at coder in
      Carried-from dev s.hub t.hub (loop inputs t).hub (reference s inputs).0 (reference s inputs).1
        at enabled (subst (CarriedBy t (loop inputs t)) same_reference more)

  -- What the device is offered by an event that the table sends to `to`.
  abbrev heard : Sink C → Option ℕ → AlsaEvent E → List (Input E) → List (Option (List ℕ) × ℕ)
  heard s to ev inputs =
      if is_for dev to && ((now_at s).enable_tx && event_is_midi_payload ev.type)
      then (let r = decode (s.coders dev) ev.body in
          (r.0, ev.now_ns) ∷ said (now_at s).enable_tx (settled decode reset_decode r) inputs)
      else said (now_at s).enable_tx (s.coders dev) inputs

  abbrev offered : Sink C → List (Option (List ℕ) × ℕ) → List (Option Message) × ℕ
  offered s said =
      offer (now_at s).device.fence.streaming (now_at s).device.fence.epoch
        (length (waiting (now_at s).device.runtime.tx)) said

  -- The loop after an event keeps up with the queue, if it does from any state on.
  module _ (s : Sink C) (ev : AlsaEvent E) (inputs : List (Input E))
      (ready : Ready s (1 + length inputs))
      (more : (t : Sink C)
        → Ready t (length inputs)
        → CarriedBy t (loop inputs t) (reference t inputs)) where
    still : Ready s (length inputs)
    still = record {
      device_ok = ready.device_ok;
      enabled = ready.enabled;
      small = omega (arith, ready.small);
    }

    deliver-other :
        (d : ℕ)
        → same dev d ≡ false
        → CarriedBy s (loop inputs (deliver decode reset_decode s d ev)) (reference s inputs)
    unfolding deliver
    deliver-other d away =
        let r = decode (s.coders d) ev.body in
        let (at, on) = decoded-Untouched s.hub d ev.now_ns ev.later_ns r.0 dev away in
        let t =
          with_coder decode reset_decode
            (record s { hub = decoded s.hub d ev.now_ns ev.later_ns r.0 }) d
            (settled decode reset_decode r) in
        let coder : t.coders dev ≡ s.coders dev = if_false _ _ away in
        if_intro (λ u. CarriedBy s (loop inputs u) (reference s inputs))
          (not (s.hub.devices d).enable_tx || not (event_is_midi_payload ev.type))
          (λ skipped. more s still)
          (λ read. pass_on s t inputs at on coder (
            more t (record {
              device_ok = subst (λ (st : Station). DeviceOk st.device) (sym at) ready.device_ok;
              enabled = on ∙ ready.enabled;
              small = omega (arith, ready.small, ap (λ (st : Station). st.stats.tx.drops) at);
            })))

    -- The daemon after an event for the device that is read.
    abbrev read : Sink C
    read =
        let r = decode (s.coders dev) ev.body in
        with_coder decode reset_decode
          (record s { hub = decoded s.hub dev ev.now_ns ev.later_ns r.0 }) dev
          (settled decode reset_decode r)

    abbrev offered_next : List (Option (List ℕ) × ℕ)
    offered_next =
        let r = decode (s.coders dev) ev.body in
        (r.0, ev.now_ns) ∷ said (now_at s).enable_tx (settled decode reset_decode r) inputs

    read-Carried : CarriedBy s (loop inputs read) (offered s offered_next)
    read-Carried =
        let r = decode (s.coders dev) ev.body in
        let f = (now_at s).device.fence in
        let one =
          offer_one f.streaming f.epoch (length (waiting (now_at s).device.runtime.tx)) r.0
            ev.now_ns in
        let room : (now_at s).stats.tx.drops < u64_max = omega (arith, ready.small) in
        let step : Carried dev s.hub read.hub one.0 one.1 =
          decoded-Carried s.hub dev ev.now_ns ev.later_ns ready.device_ok ready.enabled room r.0 in
        let coder : read.coders dev ≡ settled decode reset_decode r = if_true _ _ (same_self dev) in
        go_on s read inputs one.0 one.1 (settled decode reset_decode r) step coder (
          more read (
            Ready-then s read inputs one.0 one.1 (settled decode reset_decode r) step coder
              (offer_one-lost f.streaming f.epoch (length (waiting (now_at s).device.runtime.tx))
                r.0 ev.now_ns)
              ready))

    -- The tests of the code, and those of `heard`.
    tested-Carried :
        (enable payload self : Bool)
        → self ≡ true
        → CarriedBy s (loop inputs (if not enable || not payload then s else read)) (
            offered s (
              if self && (enable && payload)
              then offered_next
              else said (now_at s).enable_tx (s.coders dev) inputs))
    tested-Carried true true true h = read-Carried
    tested-Carried true false true h = more s still
    tested-Carried false payload true h = more s still
    tested-Carried enable payload false h = absurd (ground (arith, h))

    deliver-heard :
        CarriedBy s
          (loop inputs (deliver decode reset_decode s dev ev))
          (offered s (heard s (some dev) ev inputs))
    unfolding deliver
    deliver-heard =
        tested-Carried (now_at s).enable_tx (event_is_midi_payload ev.type) (same dev dev)
          (same_self dev)

    event-Carried :
        (to : Option ℕ)
        → CarriedBy s
            (loop inputs (routed decode reset_decode to s ev))
            (offered s (heard s to ev inputs))
    event-Carried none = more s still
    event-Carried (some d) = elim (Bool-cases (same dev d)) [
      | inl it ↦
          subst
            (λ d.
              CarriedBy s (loop inputs (deliver decode reset_decode s d ev))
                (offered s (heard s (some d) ev inputs)))
            (same→≡ dev d it) deliver-heard
      | inr away ↦ rw away (deliver-other d away)
    ]

  -- Over any events, the loop carries what the queue takes.
  drain_inputs-Carried :
      (inputs : List (Input E)) (s : Sink C)
      → Ready s (length inputs)
      → CarriedBy s (loop inputs s) (reference s inputs)
  unfolding drain_inputs
  drain_inputs-Carried [] s r = Carried-none dev s.hub s.hub r.device_ok refl refl
  drain_inputs-Carried (failed ∷ inputs) s r = Carried-none dev s.hub s.hub r.device_ok refl refl
  drain_inputs-Carried (absent ∷ inputs) s r = Carried-none dev s.hub s.hub r.device_ok refl refl
  drain_inputs-Carried (arrived ev ∷ inputs) s r =
      event-Carried s ev inputs
        (record { device_ok = r.device_ok; enabled = r.enabled; small = omega (arith, r.small) })
        (λ t. drain_inputs-Carried inputs t) (by_port ev.dest_port)

  -- Draining ALSA's events does to the TX flow of a consistent device, while its statistics are
  -- enabled and their counter of drops does not reach its end, what a bounded queue of 16 messages
  -- that counts its losses does: of what ALSA's decoder makes of the events for the device, in
  -- order, the flow takes each message that comes while the session streams, fits a frame and finds
  -- fewer than 16 messages waiting, once and whole, with its time and the epoch of the session, and
  -- each other one, and each decoding error, is counted as one drop. If TX is not enabled or the
  -- ALSA client is not there, nothing is taken or lost. The device stays consistent.
  pub drain_alsa_tx_queue-Carried :
      (enable_tx opened : Bool) (inputs : List (Input E)) (s : Sink C)
      → Ready s (length inputs)
      → let t = drain_alsa_tx_queue decode reset_decode enable_tx opened by_port inputs s in
        let r = if not enable_tx || not opened then ([], 0) else reference s inputs in
        Carried dev s.hub t.hub r.0 r.1
  unfolding drain_alsa_tx_queue
  drain_alsa_tx_queue-Carried true true inputs s r = drain_inputs-Carried inputs s r
  drain_alsa_tx_queue-Carried true false inputs s r =
      Carried-none dev s.hub s.hub r.device_ok refl refl
  drain_alsa_tx_queue-Carried false opened inputs s r =
      Carried-none dev s.hub s.hub r.device_ok refl refl
