-- ===== src/Rx.antt =====
-- The consumer of a device's RX flow in src/mb-daemon.c: the fence, the decoder, and the MIDI panic
-- after a resync. The byte encoder is code of the ALSA library, and a parameter: what it answers to
-- a byte, and a reset. Of the statistics only the drops are counted, and the events that the
-- encoder makes leave no trace.
pub mod Stream
use Prim.Native.Nat.{bit_or}
use midi_ble_rt.Base.{
  ℕ, zero, suc, ◌+◌, ◌%◌, ◌^◌, Bool, true, false, not, Option, none, some, List, [], ◌∷◌, ◌++◌, ltb,
  if◌then◌else◌, length,
}
use midi_ble_rt.BleMidi.{
  DecoderState, Run, ok, ignored, invalid_header, resync, decoder_reset, decode_packet,
}
use midi_ble_rt.Runtime.{Message}
use midi_ble_rt.Dataplane.{Fence, fence_accept}

-- The calls of `snd_midi_event_encode_byte` and `snd_midi_event_reset_encode`.
pub data Call : Type 0 where
  byte : ℕ → Call
  reset : Call

-- The `for` of the panic, over the channels from `channel` on.
abbrev pub panic_bytes : ℕ → ℕ → List ℕ
panic_bytes zero channel = []
panic_bytes (suc channels) channel =
    let cc = bit_or 0xB0 channel in
    let bend = bit_or 0xE0 channel in
    cc
    ∷ 64
    ∷ 0
    ∷ cc
    ∷ 120
    ∷ 0
    ∷ cc
    ∷ 123
    ∷ 0
    ∷ bend
    ∷ 0x00
    ∷ 0x40
    ∷ panic_bytes channels (channel + 1)

-- What an operation leaves: the decoder, the encoder, the calls that were made on it, and how many
-- drops were counted.
pub record Received (E : Type 0) : Type 0 where
  pub state : DecoderState
  pub encoder : E
  pub calls : List Call
  pub rx_drops : ℕ

-- A message that the RX thread consumes, with the fence as it finds it, or the end of a session.
pub data Step : Type 0 where
  consumed : Fence → Message → Step
  left_streaming : Step

-- `encode_byte` says whether the encoder took the byte, and how it goes on.
module _ {E : Type 0} (encode_byte : E → ℕ → Bool × E) (reset_encode : E → E) where
  -- `device_alsa_emit_midi_byte`: a byte that is refused makes the encoder start anew.
  abbrev pub emit_byte : E → ℕ → E × List Call
  emit_byte e b =
      let (taken, next) = encode_byte e b in
      if taken then (next, byte b ∷ []) else (reset_encode next, byte b ∷ reset ∷ [])

  abbrev pub emit_bytes : E → List ℕ → E × List Call
  emit_bytes e [] = (e, [])
  emit_bytes e (b ∷ bs) =
      let (next, calls) = emit_byte e b in
      let (last, more) = emit_bytes next bs in (last, calls ++ more)

  unfoldable pub midi_panic : E → E × List Call
  midi_panic e =
      let (last, calls) = emit_bytes (reset_encode e) (panic_bytes 16 0) in (last, reset ∷ calls)

  abbrev pub panicked : DecoderState → E × List Call → Received E
  panicked state (e, calls) =
      let (last, panic) = midi_panic e in
      record { state = state; encoder = last; calls = calls ++ panic; rx_drops = 1 }

  abbrev pub quietly : DecoderState → E × List Call → Received E
  quietly state (e, calls) = record { state = state; encoder = e; calls = calls; rx_drops = 0 }

  -- What follows the decoder's result. The decoder hands on each byte as it reads the packet.
  abbrev pub settle : E → Run → Received E
  settle e r = elim r.result [
    | invalid_header ↦ panicked decoder_reset (emit_bytes e r.emitted)
    | resync ↦ panicked r.state (emit_bytes e r.emitted)
    | _ ↦ quietly r.state (emit_bytes e r.emitted)
  ]

  unfoldable pub receive_packet : DecoderState → E → List ℕ → Option (Received E)
  receive_packet s e packet =
      if ltb (length packet) 3
      then some (quietly s (e, []))
      else elim (decode_packet s packet) [ none ↦ none | some r ↦ some (settle e r) ]

  unfoldable pub rx_consume : Fence → DecoderState → E → Message → Option (Received E)
  unfolding receive_packet
  rx_consume fence s e m =
      if not (fence_accept fence m.epoch m.timestamp_ns)
      then some (record { state = s; encoder = e; calls = []; rx_drops = 1 })
      else receive_packet s e m.bytes

  -- `device_dataplane_reset_partial_state`, without ALSA's decoder of the other direction.
  abbrev pub reset_partial_state : E → Received E
  reset_partial_state e = record {
    state = decoder_reset;
    encoder = reset_encode e;
    calls = reset ∷ [];
    rx_drops = 0;
  }

  unfoldable pub step : DecoderState → E → Step → Option (Received E)
  unfolding rx_consume
  step s e (consumed fence m) = rx_consume fence s e m
  step s e left_streaming = some (reset_partial_state e)

  unfoldable pub run : DecoderState → E → List Step → Option (Received E)
  run s e [] = some (record { state = s; encoder = e; calls = []; rx_drops = 0 })
  run s e (x ∷ steps) = elim (step s e x) [
    | none ↦ none
    | some r ↦ elim (run r.state r.encoder steps) [
      | none ↦ none
      | some q ↦ some (record q { calls = r.calls ++ q.calls; rx_drops = r.rx_drops + q.rx_drops })
    ]
  ]
