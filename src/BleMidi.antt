-- ===== src/BleMidi.antt =====
-- src/mb-ble-midi.c: the BLE-MIDI packet decoder and the packet builder.
-- A byte is a number below 256. `packet[i .. len)` is the list of the bytes not read yet, and the
-- bytes that a function hands to `emit_byte` are the field `emitted` of its result, in order.
pub mod Receiver
pub mod Invariant
pub mod Rounds
pub mod Packets
pub mod RoundTrip
pub mod SysEx
use midi_ble_rt.Base.{
  ℕ, zero, suc, ◌+◌, ◌/◌, ◌%◌, ◌^◌, Bool, true, false, not, ◌&&◌, ◌||◌, List, [], ◌∷◌, ◌++◌, Option,
  none, some, ltb, leb, ◌==◌, if◌then◌else◌, length, set, take, overwrite,
}
use Prim.Native.Nat.{bit_or}

-- What `int mb_ble_midi_status_data_len` returns: a count, -1 or -2.
pub data DataLen : Type 0 where
  count : ℕ → DataLen
  invalid variable : DataLen

-- MbBleMidiDecoderState
pub record DecoderState : Type 0 where
  pub running_status : ℕ
  pub pending_status : ℕ
  pub pending_data : List ℕ  -- two bytes
  pub pending_len : ℕ  -- uint8_t
  pub pending_expected : ℕ  -- uint8_t
  pub sysex_active : Bool

-- MbBleMidiDecodeResult
pub data DecodeResult : Type 0 where
  ok ignored invalid_header resync : DecodeResult

-- How a function on a part of a packet ends: its result, the new state, the bytes of the packet
-- that it left, and the bytes that it emitted.
pub record Run : Type 0 where
  pub result : DecodeResult
  pub state : DecoderState
  pub rest : List ℕ
  pub emitted : List ℕ

-- One round of the `for (;;)` of a consume function: it returns, or it goes on.
pub data Round : Type 0 where
  stop : DecodeResult → DecoderState → List ℕ → Round
  more : DecoderState → List ℕ → Round

unfoldable pub status_data_len : ℕ → DataLen
status_data_len status =
    if ltb status 0x80
    then invalid
    else if leb 0x80 status && leb status 0xBF
    then count 2
    else if leb 0xC0 status && leb status 0xDF
    then count 1
    else if leb 0xE0 status && leb status 0xEF
    then count 2
    else if status == 0xF1 || status == 0xF3
    then count 1
    else if status == 0xF2
    then count 2
    else if leb 0xF6 status && leb status 0xFF
    then count 0
    else if status == 0xF0
    then variable
    else invalid

-- `(byte & 0x80) != 0`
abbrev pub top_bit : ℕ → Bool
top_bit byte = byte / 128 % 2 == 1

abbrev pub packet_has_valid_header : List ℕ → Bool
packet_has_valid_header [] = false
packet_has_valid_header (header ∷ _) = top_bit header

-- `memset(state, 0, sizeof(*state))`
abbrev pub decoder_reset : DecoderState
decoder_reset = record {
  running_status = 0;
  pending_status = 0;
  pending_data = 0 ∷ 0 ∷ [];
  pending_len = 0;
  pending_expected = 0;
  sysex_active = false;
}

abbrev pub is_realtime : ℕ → Bool
is_realtime status = leb 0xF8 status

-- The bytes that `mb_ble_midi_emit_pending` emits, and the state that it leaves.
abbrev pub pending_bytes : DecoderState → List ℕ
pending_bytes s = s.pending_status ∷ take s.pending_len s.pending_data

abbrev pub emit_pending : DecoderState → DecoderState
emit_pending s = record s { pending_status = 0; pending_len = 0; pending_expected = 0 }

abbrev pub start_pending : DecoderState → ℕ → ℕ → DecoderState
start_pending s status expected = record s {
  pending_status = status;
  pending_len = 0;
  pending_expected = expected;
}

-- One byte of `mb_ble_midi_consume_pending_data`.
pub pending_byte : DecoderState → ℕ → Round
pending_byte s b =
    if leb 0x80 b
    then (if is_realtime b then more s (b ∷ []) else stop resync decoder_reset [])
    else if leb 2 s.pending_len
    then stop resync decoder_reset []
    else let t = record s {
      pending_data = set s.pending_data s.pending_len b;
      pending_len = (s.pending_len + 1) % 256;
    } in
      if t.pending_len == t.pending_expected
      then stop ok (emit_pending t) (pending_bytes t)
      else more t []

-- One byte of `mb_ble_midi_consume_sysex`.
pub sysex_byte : DecoderState → ℕ → Round
sysex_byte s b =
    if b == 0xF7
    then stop ok (record s { sysex_active = false }) (b ∷ [])
    else if leb 0x80 b
    then (if is_realtime b then more s (b ∷ []) else stop resync decoder_reset [])
    else more s (b ∷ [])

abbrev pub prepend : List ℕ → Run → Run
prepend out r = record r { emitted = out ++ r.emitted }

-- The `for (;;)` of both consume functions: `b` is handled, and then each byte of the packet in
-- turn until a round stops or the packet ends.
pub consume : (DecoderState → ℕ → Round) → DecoderState → List ℕ → ℕ → Run
consume round s [] b = elim (round s b) [
  | stop r t out ↦ record { result = r; state = t; rest = []; emitted = out }
  | more t out ↦ record { result = ok; state = t; rest = []; emitted = out }
]
consume round s (c ∷ rest) b = elim (round s b) [
  | stop r t out ↦ record { result = r; state = t; rest = c ∷ rest; emitted = out }
  | more t out ↦ prepend out (consume round t rest c)
]

pub consume_pending_data : DecoderState → List ℕ → ℕ → Run
consume_pending_data s rest b = consume pending_byte s rest b

pub consume_sysex : DecoderState → List ℕ → ℕ → Run
consume_sysex s rest b = consume sysex_byte s rest b

abbrev pub returns : DecodeResult → DecoderState → List ℕ → List ℕ → Run
returns r s rest out = record { result = r; state = s; rest = rest; emitted = out }

-- The tails of the loop body: a consume function that is called if a byte is left.
abbrev pub continue_sysex : DecoderState → List ℕ → Run
continue_sysex s [] = returns ok s [] []
continue_sysex s (c ∷ rest) = consume_sysex s rest c

abbrev pub continue_pending : DecoderState → List ℕ → Run
continue_pending s [] = returns ok s [] []
continue_pending s (c ∷ rest) = consume_pending_data s rest c

-- A data byte with no message open: it belongs to the running status.
abbrev pub start_running : DecoderState → List ℕ → ℕ → DataLen → Run
start_running s rest b (count zero) = returns resync decoder_reset rest []
start_running s rest b (count (suc n)) =
    consume_pending_data (start_pending s s.running_status (suc n % 256)) rest b
start_running s rest b _ = returns resync decoder_reset rest []

-- A status byte that is neither real-time nor part of a SysEx.
abbrev pub start_status : DecoderState → List ℕ → ℕ → DataLen → Run
start_status s rest b (count zero) = returns ok s rest (b ∷ [])
start_status s rest b (count (suc n)) = continue_pending (start_pending s b (suc n % 256)) rest
start_status s rest b _ = returns resync decoder_reset rest []

-- `if (b < 0xF0) state->running_status = b; else state->running_status = 0;` It runs after the
-- test on `expected`, which drops the state where it fails.
abbrev pub with_running : DecoderState → ℕ → DecoderState
with_running s b = record s { running_status = if ltb b 0xF0 then b else 0 }

-- The body of the `while` of `mb_ble_midi_decode_packet`, from the byte after the timestamp on.
pub message : DecoderState → List ℕ → ℕ → Run
message s rest b =
    if s.sysex_active
    then consume_sysex s rest b
    else if not (s.pending_status == 0)
    then consume_pending_data s rest b
    else if ltb b 0x80
    then (if leb 0x80 s.running_status
        then start_running s rest b (status_data_len s.running_status)
        else returns resync decoder_reset rest [])
    else if is_realtime b
    then returns ok s rest (b ∷ [])
    else if b == 0xF0
    then prepend (b ∷ [])
        (continue_sysex (record s { running_status = 0; sysex_active = true }) rest)
    else if b == 0xF7
    then returns resync decoder_reset rest []
    else start_status (with_running s b) rest b (status_data_len b)

-- The `while`. `fuel` bounds its rounds, and `none` says that it ran out.
pub decode_loop : ℕ → DecoderState → List ℕ → Option Run
decode_loop zero s rest = none
decode_loop (suc fuel) s [] = some (returns ok s [] [])
decode_loop (suc fuel) s (timestamp ∷ []) =
    some (if top_bit timestamp then returns ok s [] [] else returns resync decoder_reset [] [])
decode_loop (suc fuel) s (timestamp ∷ b ∷ rest) =
    if top_bit timestamp
    then (let r = message s rest b in
        elim r.result [
          | ok ↦ elim (decode_loop fuel r.state r.rest) [
            | none ↦ none
            | some q ↦ some (prepend r.emitted q)
          ]
          | _ ↦ some r
        ])
    else some (returns resync decoder_reset (b ∷ rest) [])

-- Each round reads a byte, so as many rounds as the packet has bytes are enough.
pub decode_packet : DecoderState → List ℕ → Option Run
decode_packet s [] = some (returns ignored s [] [])
decode_packet s (header ∷ body) =
    if ltb (suc (length body)) 3
    then some (returns ignored s (header ∷ body) [])
    else if not (packet_has_valid_header (header ∷ body))
    then some (returns invalid_header decoder_reset (header ∷ body) [])
    else decode_loop (suc (length body)) s body

-- What `mb_ble_midi_make_packet` returns, with the contents of `out[0 .. out_cap)` and `*out_len`.
pub record Packet : Type 0 where
  pub made : Bool
  pub out : List ℕ
  pub out_len : ℕ

-- `0x80 | ((ts >> 7) & 0x3f)` and `0x80 | (ts & 0x7f)` for `ts = timestamp_13bit & 0x1fff`.
abbrev pub header_byte : ℕ → ℕ
header_byte timestamp = bit_or 0x80 (timestamp % 2 ^ 13 / 2 ^ 7 % 2 ^ 6)

abbrev pub timestamp_byte : ℕ → ℕ
timestamp_byte timestamp = bit_or 0x80 (timestamp % 2 ^ 13 % 2 ^ 7)

-- `midi_len` is the length of `midi`, and `out_cap` that of `out`.
pub make_packet : ℕ → List ℕ → List ℕ → Packet
make_packet timestamp [] out = record { made = false; out = out; out_len = 0 }
make_packet timestamp (b ∷ midi) out =
    let midi_len = suc (length midi) in
    if ltb (length out) ((midi_len + 2) % 2 ^ 64)
    then record { made = false; out = out; out_len = 0 }
    else record {
      made = true;
      out = overwrite out (header_byte timestamp ∷ timestamp_byte timestamp ∷ b ∷ midi);
      out_len = (midi_len + 2) % 2 ^ 64;
    }
