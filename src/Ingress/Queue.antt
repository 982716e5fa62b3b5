-- ===== src/Ingress/Queue.antt =====
-- runtime_drain_alsa_tx_queue of src/mb-daemon.c: the loop that takes ALSA's events and pushes what
-- they say to the TX flows.
use midi_ble_rt.Base.{ℕ, Bool, not, ◌||◌, Option, none, some, List, [], ◌∷◌, if◌then◌else◌}
use midi_ble_rt.Alsa.{EventType, event_is_midi_payload}
use midi_ble_rt.Ingress.{Hub, decoded, same}

-- An event that ALSA delivers, with the clock as it stands when it is stamped and after that.
pub record AlsaEvent (E : Type 0) : Type 0 where
  pub dest_port : ℕ
  pub type : EventType
  pub body : E
  pub now_ns : ℕ
  pub later_ns : ℕ

-- What `snd_seq_event_input` returns while something is pending: an error, no event, or one.
pub data Input (E : Type 0) : Type 0 where
  failed absent : Input E
  arrived : AlsaEvent E → Input E

-- The daemon and ALSA's decoder of each device.
pub record Sink (C : Type 0) : Type 0 where
  pub hub : Hub
  pub coders : ℕ → C

module _ {C E : Type 0} (decode : C → E → Option (List ℕ) × C) (reset_decode : C → C) where
  abbrev pub with_coder : Sink C → ℕ → C → Sink C
  with_coder s dev c = record s { coders = λ i. if same i dev then c else s.coders i }

  -- What `snd_midi_event_decode` did, with the decoder that is reset after an error.
  abbrev pub settled : Option (List ℕ) × C → C
  settled (none, c) = reset_decode c
  settled (some midi, c) = c

  -- One event for a device.
  unfoldable pub deliver : Sink C → ℕ → AlsaEvent E → Sink C
  unfolding decoded
  deliver s dev ev =
      if not (s.hub.devices dev).enable_tx || not (event_is_midi_payload ev.type)
      then s
      else let r = decode (s.coders dev) ev.body in
        with_coder (record s { hub = decoded s.hub dev ev.now_ns ev.later_ns r.0 }) dev (settled r)

  -- The table `device_by_alsa_port`.
  abbrev pub routed : Option ℕ → Sink C → AlsaEvent E → Sink C
  routed none s ev = s
  routed (some dev) s ev = deliver s dev ev

  -- The loop, which ends when nothing is pending.
  unfoldable pub drain_inputs : (ℕ → Option ℕ) → List (Input E) → Sink C → Sink C
  unfolding deliver
  drain_inputs by_port [] s = s
  drain_inputs by_port (failed ∷ inputs) s = s
  drain_inputs by_port (absent ∷ inputs) s = s
  drain_inputs by_port (arrived ev ∷ inputs) s =
      drain_inputs by_port inputs (routed (by_port ev.dest_port) s ev)

  -- `enable_tx` is that of the daemon, `opened` whether its ALSA client is there.
  unfoldable pub drain_alsa_tx_queue :
      (enable_tx opened : Bool) → (ℕ → Option ℕ) → List (Input E) → Sink C → Sink C
  unfolding drain_inputs
  drain_alsa_tx_queue enable_tx opened by_port inputs s =
      if not enable_tx || not opened then s else drain_inputs by_port inputs s
