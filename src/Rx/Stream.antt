-- ===== src/Rx/Stream.antt =====
-- The MIDI stream that src/mb-daemon.c hands to ALSA's byte encoder, over any number of
-- notifications and sessions.
use midi_ble_rt.Base.{
  Bool, true, subst, ℕ, ◌+◌, ◌≡◌, refl, sym, ap, ◌∙◌, inl, inr, Bool-cases, Option, none, some,
  Option-cases, List, [], ◌∷◌, ◌++◌, ltb, length, arith,
}
use midi_ble_rt.BleMidi.{
  decoder_reset, DecoderState, DecodeResult, ok, ignored, invalid_header, resync,
}
use midi_ble_rt.BleMidi.Receiver.{Mode, idle, receive, receive_byte}
use midi_ble_rt.BleMidi.Invariant.{IsValid, mode_of, decoder_reset-IsValid}
use midi_ble_rt.BleMidi.Packets.{Decoded, decode_packet-Decoded}
use midi_ble_rt.Dataplane.{fence_accept}
use midi_ble_rt.Rx.{
  Call, byte, reset, panic_bytes, emit_bytes, midi_panic, Received, panicked, quietly, settle,
  receive_packet, rx_consume, Step, consumed, left_streaming, step, run,
}

-- A MIDI receiver behind the encoder: a reset forgets what was begun.
unfoldable pub listen : Mode → List Call → Option Mode
listen m [] = some m
listen m (byte b ∷ calls) = elim (receive_byte m b) [ none ↦ none | some m' ↦ listen m' calls ]
listen m (reset ∷ calls) = listen idle calls

listen-append :
    (m : Mode) (xs ys : List Call) {m' : Mode}
    → listen m xs ≡ some m'
    → listen m (xs ++ ys) ≡ listen m' ys
unfolding listen
listen-append m [] ys h = ground arith
listen-append m (reset ∷ xs) ys h = listen-append idle xs ys h
listen-append m (byte x ∷ xs) ys {m'} h = elim (Option-cases (receive_byte m x)) [
  | inl e ↦ ground arith
  | inr (k, e) ↦ rw (e, listen) (listen-append k xs ys (rw (e, listen) at h))
]

heard_nothing : (m : Mode) → listen m [] ≡ some m
unfolding listen
heard_nothing m = refl

listen-byte :
    (m : Mode) (b : ℕ) (calls : List Call) {m' : Mode}
    → receive_byte m b ≡ some m'
    → listen m (byte b ∷ calls) ≡ listen m' calls
unfolding listen
listen-byte m b calls h = rw (h, listen) refl

-- The panic is a stream of whole messages.
receive-panic_bytes : receive idle (panic_bytes 16 0) ≡ some idle
unfolding receive receive_byte
receive-panic_bytes = refl

-- The documented behaviour of ALSA's encoder on which the code relies: it takes the bytes of a MIDI
-- stream. `Hears` tells where in a message an encoder is.
pub record Documented {E : Type 0} (encode_byte : E → ℕ → Bool × E) (reset_encode : E → E)
    (Hears : E → Mode → Type 0) : Type 0 where
  pub takes :
      (e : E) (m m' : Mode) (b : ℕ)
      → Hears e m
      → receive_byte m b ≡ some m'
      → ((encode_byte e b).0 ≡ true) × Hears (encode_byte e b).1 m'
  pub resets : (e : E) → Hears (reset_encode e) idle

module _ {E : Type 0} (encode_byte : E → ℕ → Bool × E) (reset_encode : E → E)
    (Hears : E → Mode → Type 0) (laws : Documented encode_byte reset_encode Hears) where
  -- Calls after which the encoder and a receiver are both in mode `m`.
  abbrev Told : Mode → Mode → E × List Call → Type 0
  Told from m r = Hears r.0 m × (listen from r.1 ≡ some m)

  emit_bytes-Told :
      (e : E) (m m' : Mode) (bs : List ℕ)
      → Hears e m
      → receive m bs ≡ some m'
      → Told m m' (emit_bytes encode_byte reset_encode e bs)
  unfolding receive
  emit_bytes-Told e m m' [] at h = (subst (Hears e) (cc h) at, heard_nothing m ∙ h)
  emit_bytes-Told e m m' (b ∷ bs) at h = elim (Option-cases (receive_byte m b)) [
    | inl stray ↦ absurd (ground (arith, h, stray))
    | inr (k, one) ↦
        let (taken, next) = laws.takes e m k b at one in
        let (last, more) =
          emit_bytes-Told (encode_byte e b).1 k m' bs next (rw (one, receive) at h) in
        rw taken (last, listen-byte m b _ one ∙ more)
  ]

  -- The panic, whatever was begun before it.
  midi_panic-Told : (e : E) (from : Mode) → Told from idle (midi_panic encode_byte reset_encode e)
  unfolding midi_panic listen
  midi_panic-Told e from =
      emit_bytes-Told (reset_encode e) idle idle (panic_bytes 16 0) (laws.resets e)
        receive-panic_bytes

  -- An operation keeps the decoder well-formed, and encoder and receiver in its mode.
  pub record Kept (s : DecoderState) (r : Received E) : Type 0 where
    pub valid : IsValid r.state
    pub hears : Hears r.encoder (mode_of r.state)
    pub heard : listen (mode_of s) r.calls ≡ some (mode_of r.state)

  panicked-Kept :
      (s state : DecoderState) (m' : Mode) (r : E × List Call)
      → IsValid state
      → mode_of state ≡ idle
      → Told (mode_of s) m' r
      → Kept s (panicked encode_byte reset_encode state r)
  panicked-Kept s state m' (e, calls) v at told =
      let (hears, heard) = midi_panic-Told e m' in
      record {
        valid = v;
        hears = subst (Hears _) (sym at) hears;
        heard = listen-append (mode_of s) calls _ told.1 ∙ heard ∙ ap some (sym at);
      }

  quietly-Kept :
      (s state : DecoderState) (r : E × List Call)
      → IsValid state
      → Told (mode_of s) (mode_of state) r
      → Kept s (quietly encode_byte reset_encode state r)
  quietly-Kept s state (e, calls) v told = record { valid = v; hears = told.0; heard = told.1 }

  -- By the decoder's result.
  settle-Kept :
      (result : DecodeResult) (s state : DecoderState) (e : E) (rest emitted : List ℕ)
      → Hears e (mode_of s)
      → Decoded s (record { result = result; state = state; rest = rest; emitted = emitted })
      → Kept s (
          settle encode_byte reset_encode e
            (record { result = result; state = state; rest = rest; emitted = emitted }))
  settle-Kept ok s state e rest emitted at d = quietly-Kept s state _ d.valid (
      emit_bytes-Told e (mode_of s) (mode_of state) emitted at
        (d.heard ∙ ap some (d.synced (inl refl))))
  settle-Kept ignored s state e rest emitted at d = quietly-Kept s state _ d.valid (
      emit_bytes-Told e (mode_of s) (mode_of state) emitted at
        (d.heard ∙ ap some (d.synced (inr refl))))
  settle-Kept invalid_header s state e rest emitted at d =
      panicked-Kept s decoder_reset d.after _ decoder_reset-IsValid refl
        (emit_bytes-Told e (mode_of s) d.after emitted at d.heard)
  settle-Kept resync s state e rest emitted at d =
      panicked-Kept s state d.after _ d.valid (ap mode_of (d.dropped (inl refl)))
        (emit_bytes-Told e (mode_of s) d.after emitted at d.heard)

  -- The operation ends with a result, and keeps decoder, encoder and receiver together.
  abbrev pub Keeps : DecoderState → Option (Received E) → Type 0
  Keeps s o = (r : Received E) × (o ≡ some r) × Kept s r

  receive_packet-Keeps :
      (s : DecoderState) (e : E) (packet : List ℕ)
      → IsValid s
      → Hears e (mode_of s)
      → Keeps s (receive_packet encode_byte reset_encode s e packet)
  unfolding receive_packet
  receive_packet-Keeps s e packet v at = elim (Bool-cases (ltb (length packet) 3)) [
    | inl short ↦
        rw short (_, refl, record { valid = v; hears = at; heard = heard_nothing (mode_of s) })
    | inr whole ↦
        let (r, is, d) = decode_packet-Decoded s packet v in
        rw (whole, is)
          (
            settle encode_byte reset_encode e r,
            refl,
            settle-Kept r.result s r.state e r.rest r.emitted at d,
          )
  ]

  step-Keeps :
      (s : DecoderState) (e : E) (x : Step)
      → IsValid s
      → Hears e (mode_of s)
      → Keeps s (step encode_byte reset_encode s e x)
  unfolding step rx_consume listen
  step-Keeps s e left_streaming v at =
      (_, refl, record { valid = decoder_reset-IsValid; hears = laws.resets e; heard = refl })
  step-Keeps s e (consumed fence m) v at =
      elim (Bool-cases (fence_accept fence m.epoch m.timestamp_ns)) [
        | inr closed ↦
            rw closed (_, refl, record { valid = v; hears = at; heard = heard_nothing (mode_of s) })
        | inl passes ↦ rw passes (receive_packet-Keeps s e m.bytes v at)
      ]

  -- Let ALSA's encoder take what a MIDI receiver in its mode takes. Then, from a well-formed
  -- decoder and an encoder in its mode, whatever notifications arrive, in whatever pieces and with
  -- whatever errors, over any number of sessions, the RX consumer handles them all, and the calls
  -- that it makes on the encoder, the panics and the resets included, are for a MIDI receiver,
  -- which forgets at a reset what was begun, a stream without a stray byte or an unfinished short
  -- message; at the end the decoder is well-formed, and decoder, encoder and receiver agree on
  -- whether they are inside a SysEx.
  pub run-Keeps :
      (steps : List Step) (s : DecoderState) (e : E)
      → IsValid s
      → Hears e (mode_of s)
      → Keeps s (run encode_byte reset_encode s e steps)
  unfolding run
  run-Keeps [] s e v at =
      (_, refl, record { valid = v; hears = at; heard = heard_nothing (mode_of s) })
  run-Keeps (x ∷ steps) s e v at =
      let (r, p, k) = step-Keeps s e x v at in
      let (q, p', k') = run-Keeps steps r.state r.encoder k.valid k.hears in
      (
        record q { calls = r.calls ++ q.calls; rx_drops = r.rx_drops + q.rx_drops },
        rw (run, p, p') refl,
        record {
          valid = k'.valid;
          hears = k'.hears;
          heard = listen-append (mode_of s) r.calls q.calls k.heard ∙ k'.heard;
        },
      )
