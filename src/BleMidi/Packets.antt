-- ===== src/BleMidi/Packets.antt =====
-- `mb_ble_midi_decode_packet` of src/mb-ble-midi.c over any packet at all: it ends, keeps the
-- decoder's state well formed, and emits nothing but whole MIDI messages.
use midi_ble_rt.Base.{
  ℕ, zero, suc, ◌≤◌, ◌<◌, ◌≡◌, refl, ap, ◌∙◌, ◌⊎◌, inl, inr, true, List, [], ◌∷◌, some, ltb, length,
  arith, Bool-cases,
}
use midi_ble_rt.BleMidi.{
  DecoderState, ok, resync, Run, decoder_reset, decode_loop, decode_packet, top_bit, ignored,
  invalid_header, Run, returns, prepend, message,
}
use midi_ble_rt.BleMidi.Receiver.{Mode, receive}
use midi_ble_rt.BleMidi.Invariant.{
  IsValid, Good, mode_of, Between, mode_of-Between, decoder_reset-IsValid, prepend-Good,
}
use midi_ble_rt.BleMidi.Rounds.{resync-Good, returns-Good, message-Good}

module _ (fuel : ℕ) (s : DecoderState) (t b : ℕ) (rest : List ℕ) (good : top_bit t ≡ true) where
  decode_loop_on :
      (q : Run)
      → (message s rest b).result ≡ ok
      → decode_loop fuel (message s rest b).state (message s rest b).rest ≡ some q
      → decode_loop (suc fuel) s (t ∷ b ∷ rest) ≡ some (prepend (message s rest b).emitted q)
  unfolding decode_loop
  decode_loop_on q fine e = ground arith

  decode_loop_stop :
      (message s rest b).result ≡ resync
      → decode_loop (suc fuel) s (t ∷ b ∷ rest) ≡ some (message s rest b)
  unfolding decode_loop
  decode_loop_stop bad = ground arith

  -- One round: the loop goes on where the part ended, or returns what the part returned.
  loop_round :
      IsValid s
      → ((r : Run)
          → length r.rest ≤ length rest
          → IsValid r.state
          → (q : Run) × (decode_loop fuel r.state r.rest ≡ some q)
            × Good (mode_of r.state) (length r.rest) q)
      → (q : Run) × (decode_loop (suc fuel) s (t ∷ b ∷ rest) ≡ some q)
        × Good (mode_of s) (length (t ∷ b ∷ rest)) q
  loop_round v next =
      let r = message s rest b in
      let g : Good (mode_of s) (length rest) r = message-Good s rest b v in
      let (q, e, k) = next r g.shorter g.valid in
      elim g.failed [
        | inl fine ↦ (
          prepend r.emitted q,
          decode_loop_on q fine e,
          prepend-Good r.emitted q (omega (arith, g.shorter)) (g.heard ∙ ap some (g.synced fine)) k,
        )
        | inr bad ↦ (
          r,
          decode_loop_stop bad.0,
          record {
            valid = g.valid;
            shorter = omega (arith, g.shorter);
            after = g.after;
            heard = g.heard;
            between = g.between;
            synced = g.synced;
            failed = g.failed;
          },
        )
      ]

-- The `while` ends with a byte per round as its fuel, and what it did is good.
decode_loop-Good :
    (fuel : ℕ) (s : DecoderState) (rest : List ℕ)
    → length rest < fuel
    → IsValid s
    → (r : Run) × (decode_loop fuel s rest ≡ some r) × Good (mode_of s) (length rest) r
unfolding decode_loop receive
decode_loop-Good zero s rest h v = absurd (omega arith)
decode_loop-Good (suc fuel) s [] h v =
    (returns ok s [] [], refl, returns-Good (mode_of s) s [] [] v refl)
decode_loop-Good (suc fuel) s (t ∷ []) h v = elim (Bool-cases (top_bit t)) [
  | inl good ↦ (
    returns ok s [] [],
    rw good,
    prepend-Good [] _ (omega arith) refl (returns-Good (mode_of s) s [] [] v refl),
  )
  | inr bad ↦ (
    returns resync decoder_reset [] [],
    rw bad,
    resync-Good (mode_of s) 1 [] (mode_of-Between s) (omega arith),
  )
]
decode_loop-Good (suc fuel) s (t ∷ b ∷ rest) h v = elim (Bool-cases (top_bit t)) [
  | inr bad ↦ (
    returns resync decoder_reset (b ∷ rest) [],
    rw bad,
    resync-Good (mode_of s) _ (b ∷ rest) (mode_of-Between s) (omega arith),
  )
  | inl good ↦
      loop_round fuel s t b rest good v
        (λ r l k. decode_loop-Good fuel r.state r.rest (omega (arith, l)) k)
]

-- What `mb_ble_midi_decode_packet` owes to its caller, who emits a MIDI panic where it fails.
pub record Decoded (s : DecoderState) (r : Run) : Type 0 where
  pub valid : IsValid r.state
  pub after : Mode
  pub heard : receive (mode_of s) r.emitted ≡ some after
  pub between : Between after
  pub synced : (r.result ≡ ok) ⊎ (r.result ≡ ignored) → after ≡ mode_of r.state
  pub dropped : (r.result ≡ resync) ⊎ (r.result ≡ invalid_header) → r.state ≡ decoder_reset

Good-Decoded : (s : DecoderState) (n : ℕ) (r : Run) → Good (mode_of s) n r → Decoded s r
Good-Decoded s n r g = record {
  valid = g.valid;
  after = g.after;
  heard = g.heard;
  between = g.between;
  synced = λ e. g.synced (ground (arith, g.failed));
  dropped = λ e. ground (arith, g.failed);
}

-- For every packet and every well-formed decoder state, `mb_ble_midi_decode_packet` ends with a
-- result and a well-formed state, and the bytes that it emits take a MIDI receiver, which was in
-- the decoder's mode (inside a SysEx, or between messages), from byte to byte with no stray byte,
-- and leave it inside a SysEx or between messages, never in an unfinished short one. If the packet
-- is accepted or ignored, receiver and decoder agree on the mode again; if it is refused (bad
-- header, resync), the decoder is reset.
pub decode_packet-Decoded :
    (s : DecoderState) (packet : List ℕ)
    → IsValid s
    → (r : Run) × (decode_packet s packet ≡ some r) × Decoded s r
unfolding decode_packet receive
decode_packet-Decoded s [] v = (
  returns ignored s [] [],
  refl,
  record {
    valid = v;
    after = mode_of s;
    heard = refl;
    between = mode_of-Between s;
    synced = λ _. refl;
    dropped = λ e. ground arith;
  },
)
decode_packet-Decoded s (header ∷ body) v = elim (Bool-cases (ltb (suc (length body)) 3)) [
  | inl short ↦ (
    returns ignored s (header ∷ body) [],
    rw short,
    record {
      valid = v;
      after = mode_of s;
      heard = refl;
      between = mode_of-Between s;
      synced = λ _. refl;
      dropped = λ e. ground arith;
    },
  )
  | inr long ↦ elim (Bool-cases (top_bit header)) [
    | inr bad ↦ (
      returns invalid_header decoder_reset (header ∷ body) [],
      rw (long, bad),
      record {
        valid = decoder_reset-IsValid;
        after = mode_of s;
        heard = refl;
        between = mode_of-Between s;
        synced = λ e. ground arith;
        dropped = λ _. refl;
      },
    )
    | inl good ↦
        let (r, e, g) = decode_loop-Good (suc (length body)) s body (omega arith) v in
        (r, rw (long, good) e, Good-Decoded s (length body) r g)
  ]
]
