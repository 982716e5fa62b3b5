-- ===== src/BleMidi/RoundTrip.antt =====
-- `mb_ble_midi_decode_packet` on what `mb_ble_midi_make_packet` builds (src/mb-ble-midi.c).
use midi_ble_rt.Base.{
  ℕ, zero, suc, ◌+◌, ◌≤◌, ◌<◌, ◌%◌, ◌/◌, ◌^◌, ◌≡◌, refl, ◌∙◌, ◌≢◌, Bool, true, false, ◌&&◌, List,
  [], ◌∷◌, ◌++◌, append-nil, some, Option, sym, subst, leb, leb→gt, leb→le, inl, inr, Bool-cases,
  if◌then◌else◌, ltb, ◌==◌, length, take, set, All, arith, ==_iff, take-overwrite,
}
use Prim.Native.Nat.{bit_or}
use midi_ble_rt.BleMidi.{
  DecoderState, ok, returns, top_bit, header_byte, timestamp_byte, make_packet, message, consume,
  consume_sysex, sysex_byte, consume_pending_data, pending_byte, continue_sysex, continue_pending,
  start_status, start_pending, with_running, status_data_len, count, decode_loop, decode_packet,
}
use midi_ble_rt.BleMidi.Receiver.{message_size}
use midi_ble_rt.BleMidi.Invariant.{IsValid}

-- Whether `0x80 | x` is `128 + x` for each number below `bound`.
sets_top : ℕ → Bool
sets_top zero = true
sets_top (suc bound) = (bit_or 0x80 bound == 128 + bound) && sets_top bound

sets_top_sound :
    (bound k : ℕ) → sets_top bound ≡ true → k < bound → (bit_or 0x80 k == 128 + k) ≡ true
unfolding sets_top
sets_top_sound zero k all below = absurd (omega arith)
sets_top_sound (suc bound) k all below = ground (arith, sets_top_sound bound k)

-- `0x80 | x` sets the top bit of a seven-bit number.
top_bit_table : sets_top 128 ≡ true
unfolding sets_top
top_bit_table = refl

pub bit_or_top : (x : ℕ) → x < 128 → bit_or 0x80 x ≡ 128 + x
bit_or_top x h = (==_iff _ _).0 (sets_top_sound 128 x top_bit_table h)

pub header_byte_lem : (t : ℕ) → (top_bit (header_byte t) ≡ true) × (header_byte t < 192)
header_byte_lem t =
    rw (bit_or_top (t % 2 ^ 13 / 2 ^ 7 % 2 ^ 6) (omega arith))
      ((==_iff _ _).1 (omega arith), omega arith)

pub timestamp_byte_lem : (t : ℕ) → (top_bit (timestamp_byte t) ≡ true) × (timestamp_byte t < 256)
timestamp_byte_lem t =
    rw (bit_or_top (t % 2 ^ 13 % 2 ^ 7) (omega arith)) ((==_iff _ _).1 (omega arith), omega arith)

-- The packet that is handed to the GATT write: `out[0 .. out_len)`.
abbrev pub frame : ℕ → List ℕ → List ℕ
frame t midi = header_byte t ∷ timestamp_byte t ∷ midi

pub make_packet_lem :
    (t : ℕ) (midi out : List ℕ)
    → 0 < length midi
    → length midi + 2 ≤ length out
    → length out < 2 ^ 64
    → let p = make_packet t midi out in
      (p.made ≡ true) × (p.out_len ≡ length midi + 2) × (take p.out_len p.out ≡ frame t midi)
unfolding make_packet
make_packet_lem t [] out h l w = absurd (omega arith)
make_packet_lem t (b ∷ midi) out h l w =
    let fits : ltb (length out) ((suc (length midi) + 2) % 2 ^ 64) ≡ false = ground arith in
    let len : (suc (length midi) + 2) % 2 ^ 64 ≡ length (frame t (b ∷ midi)) = omega arith in
    rw fits (refl, omega arith, rw len (take-overwrite out (frame t (b ∷ midi)) (omega arith)))

-- A packet whose one part reads it to the end.
pub decode_frame :
    (s s' : DecoderState) (t b : ℕ) (rest out : List ℕ)
    → message s rest b ≡ returns ok s' [] out
    → decode_packet s (frame t (b ∷ rest)) ≡ some (returns ok s' [] out)
unfolding decode_packet decode_loop
decode_frame s s' t b rest out e =
    let long : ltb (suc (suc (suc (length rest)))) 3 ≡ false = ground arith in
    rw (long, (header_byte_lem t).0, (timestamp_byte_lem t).0, e, e, append-nil, e)

-- SysEx payload up to the end of a packet passes through, and the decoder stays inside.
pub consume_sysex-payload :
    (s : DecoderState) (rest : List ℕ) (b : ℕ)
    → All (λ c. c < 128) (b ∷ rest)
    → consume_sysex s rest b ≡ returns ok s [] (b ∷ rest)
unfolding consume_sysex consume sysex_byte
consume_sysex-payload s [] b h = ground arith
consume_sysex-payload s (c ∷ rest) b h = ground (arith, consume_sysex-payload s rest c h.1)

-- The end of a SysEx closes it.
pub consume_sysex-end :
    (s : DecoderState) (payload : List ℕ)
    → All (λ c. c < 128) payload
    → continue_sysex s (payload ++ (0xF7 ∷ []))
      ≡ returns ok (record s { sysex_active = false }) [] (payload ++ (0xF7 ∷ []))
unfolding consume_sysex consume sysex_byte
consume_sysex-end s [] h = ground arith
consume_sysex-end s (b ∷ []) h = ground arith
consume_sysex-end s (b ∷ c ∷ rest) h = ground (arith, consume_sysex-end s (c ∷ rest) h.1)

take-set_one : (d : List ℕ) (b : ℕ) → length d ≡ 2 → take 1 (set d 0 b) ≡ b ∷ []
take-set_one [] b h = absurd (omega arith)
take-set_one (x ∷ d) b h = refl

take-set_two : (d : List ℕ) (b c : ℕ) → length d ≡ 2 → take 2 (set (set d 0 b) 1 c) ≡ b ∷ c ∷ []
take-set_two [] b c h = absurd (omega arith)
take-set_two (x ∷ []) b c h = absurd (omega arith)
take-set_two (x ∷ y ∷ d) b c h = refl

-- A message of one or two data bytes that is wholly in the packet.
continue_pending-one :
    (s : DecoderState) (status b : ℕ)
    → b < 128
    → length s.pending_data ≡ 2
    → continue_pending (start_pending s status 1) (b ∷ [])
      ≡ returns ok
          (record s {
            pending_status = 0;
            pending_data = set s.pending_data 0 b;
            pending_len = 0;
            pending_expected = 0;
          })
          []
          (status ∷ b ∷ [])
unfolding consume_pending_data consume pending_byte
continue_pending-one s status b h two = ground (arith, take-set_one s.pending_data b two)

continue_pending-two :
    (s : DecoderState) (status b c : ℕ)
    → b < 128
    → c < 128
    → length s.pending_data ≡ 2
    → continue_pending (start_pending s status 2) (b ∷ c ∷ [])
      ≡ returns ok
          (record s {
            pending_status = 0;
            pending_data = set (set s.pending_data 0 b) 1 c;
            pending_len = 0;
            pending_expected = 0;
          })
          []
          (status ∷ b ∷ c ∷ [])
unfolding consume_pending_data consume pending_byte
continue_pending-two s status b c h k two = ground (arith, take-set_two s.pending_data b c two)

status_data_len-size :
    (status n : ℕ)
    → 128 ≤ status
    → status < 0xF8
    → message_size status ≡ some n
    → (status_data_len status ≡ count n) × (status ≢ 0xF0) × (status ≢ 0xF7)
unfolding status_data_len
status_data_len-size status n lo hi h = ground arith

size_small : (status n : ℕ) → message_size status ≡ some n → n ≤ 2
size_small status n h = ground arith

-- Between messages, a status byte below 0xF8 with its size starts its message.
message-short :
    (s : DecoderState) (status n : ℕ) (rest : List ℕ)
    → s.sysex_active ≡ false
    → s.pending_status ≡ 0
    → 128 ≤ status
    → status < 0xF8
    → message_size status ≡ some n
    → message s rest status ≡ start_status (with_running s status) rest status (count n)
unfolding message
message-short s status n rest out closed lo hi size =
    ground (arith, status_data_len-size status n lo hi size)

message-realtime :
    (s : DecoderState) (status : ℕ) (rest : List ℕ)
    → s.sysex_active ≡ false
    → s.pending_status ≡ 0
    → 0xF8 ≤ status
    → message s rest status ≡ returns ok s rest (status ∷ [])
unfolding message
message-realtime s status rest out closed high = ground (arith, out, closed, high)

no_bytes : (d : List ℕ) → length d ≡ 0 → d ≡ []
no_bytes [] h = refl
no_bytes (b ∷ d) h = absurd (omega arith)

-- A message of a status byte below 0xF8 alone in a packet.
pub decode_packet-short :
    (s : DecoderState) (t status : ℕ) (d : List ℕ)
    → IsValid s
    → s.sysex_active ≡ false
    → s.pending_status ≡ 0
    → 128 ≤ status
    → status < 0xF8
    → message_size status ≡ some (length d)
    → All (λ b. b < 128) d
    → (s' : DecoderState) × (decode_packet s (frame t (status ∷ d))
        ≡ some (returns ok s' [] (status ∷ d)))
      × (s'.sysex_active ≡ false)
      × (s'.pending_status ≡ 0)
decode_packet-short s t status [] v out closed lo hi size small = (
  with_running s status,
  decode_frame s _ t status [] _ (message-short s status 0 [] out closed lo hi size),
  out,
  closed,
)
decode_packet-short s t status (b ∷ []) v out closed lo hi size small = (
  _,
  decode_frame s _ t status (b ∷ []) _ (
      message-short s status 1 (b ∷ []) out closed lo hi size
      ∙ continue_pending-one (with_running s status) status b small.0 v.two_bytes),
  out,
  refl,
)
decode_packet-short s t status (b ∷ c ∷ []) v out closed lo hi size small = (
  _,
  decode_frame s _ t status (b ∷ c ∷ []) _ (
      message-short s status 2 (b ∷ c ∷ []) out closed lo hi size
      ∙ continue_pending-two (with_running s status) status b c small.0 small.1.0 v.two_bytes),
  out,
  refl,
)
decode_packet-short s t status (b ∷ c ∷ e ∷ d) v out closed lo hi size small =
    absurd (omega (arith, size_small status _ size))

-- A message of system real time is one byte.
decode_packet-realtime :
    (s : DecoderState) (t status : ℕ)
    → s.sysex_active ≡ false
    → s.pending_status ≡ 0
    → 0xF8 ≤ status
    → decode_packet s (frame t (status ∷ [])) ≡ some (returns ok s [] (status ∷ []))
decode_packet-realtime s t status out closed high =
    decode_frame s s t status [] _ (message-realtime s status [] out closed high)

-- How many data bytes MIDI 1.0 gives a status byte other than those of SysEx.
abbrev pub short_size : ℕ → Option ℕ
short_size status = if leb 0xF8 status then some 0 else message_size status

-- The packet is decoded to the message, and the decoder is between two messages again.
abbrev pub DecodesTo : DecoderState → List ℕ → List ℕ → Type 0
DecodesTo s packet midi =
    (s' : DecoderState) × (decode_packet s packet ≡ some (returns ok s' [] midi))
    × (s'.sysex_active ≡ false)
    × (s'.pending_status ≡ 0)

pub short_size-small : (status n : ℕ) → short_size status ≡ some n → n ≤ 2
short_size-small status n h = ground arith

pub frame-decodes :
    (s : DecoderState) (t status : ℕ) (d : List ℕ)
    → IsValid s
    → s.sysex_active ≡ false
    → s.pending_status ≡ 0
    → 128 ≤ status
    → short_size status ≡ some (length d)
    → All (λ b. b < 128) d
    → DecodesTo s (frame t (status ∷ d)) (status ∷ d)
frame-decodes s t status d v out closed lo size small = elim (Bool-cases (leb 0xF8 status)) [
  | inr low ↦
      decode_packet-short s t status d v out closed lo (leb→gt _ _ low) (rw low at size) small
  | inl high ↦
      let none_wanted : length d ≡ 0 = ground (arith, size, high) in
      subst (λ l. DecodesTo s (frame t (status ∷ l)) (status ∷ l)) (sym (no_bytes d none_wanted))
        (s, decode_packet-realtime s t status out closed (leb→le _ _ high), out, closed)
]

-- A MIDI message other than a SysEx (a status byte, real time included, with as many data bytes as
-- MIDI 1.0 gives it) is put in a packet by `mb_ble_midi_make_packet`, into any buffer that has room
-- for it; and the bytes of the buffer up to the length that is returned are a packet that a
-- well-formed decoder between two messages accepts, reads to the end and emits as the message that
-- it was, and then it is between two messages again.
pub decode_packet-make_packet :
    (s : DecoderState) (t status : ℕ) (d buffer : List ℕ)
    → IsValid s
    → s.sysex_active ≡ false
    → s.pending_status ≡ 0
    → 128 ≤ status
    → short_size status ≡ some (length d)
    → All (λ b. b < 128) d
    → length d + 3 ≤ length buffer
    → length buffer < 2 ^ 64
    → let p = make_packet t (status ∷ d) buffer in
      (p.made ≡ true) × DecodesTo s (take p.out_len p.out) (status ∷ d)
decode_packet-make_packet s t status d buffer v out closed lo size small room wide =
    let (made, len, packet) =
      make_packet_lem t (status ∷ d) buffer (omega arith) (omega arith) wide in
    (
      made,
      subst (λ x. DecodesTo s x (status ∷ d)) (sym packet)
          (frame-decodes s t status d v out closed lo size small),
    )
