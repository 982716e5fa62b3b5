-- ===== src/BleMidi/Receiver.antt =====
-- A receiver of a MIDI 1.0 byte stream, as the consumer of the bytes that src/mb-ble-midi.c
-- emits: it tells a stream of whole messages from one with stray or missing bytes. It is written
-- from the message sizes of MIDI 1.0, and shares no definition with the decoder.
use midi_ble_rt.Base.{
  ℕ, zero, suc, ◌-◌, ◌<◌, ◌≡◌, refl, ◌||◌, List, [], ◌∷◌, ◌++◌, Option, none, some, ltb, leb, ◌==◌,
  if◌then◌else◌, length, All, arith, Option-cases, inl, inr,
}

-- Between messages; inside a SysEx; inside a message that wants that many data bytes more.
pub data Mode : Type 0 where
  idle sysex : Mode
  wants : ℕ → Mode

-- After `missing` more data bytes the message is whole.
abbrev pub wait : ℕ → Mode
wait zero = idle
wait (suc n) = wants (suc n)

abbrev pub message_size : ℕ → Option ℕ
message_size status =
    if ltb status 0xC0
    then some 2
    else if ltb status 0xE0
    then some 1
    else if ltb status 0xF0
    then some 2
    else if status == 0xF1 || status == 0xF3
    then some 1
    else if status == 0xF2
    then some 2
    else if status == 0xF6
    then some 0
    else none

-- What one byte does to the receiver; `none` is a byte that has no place.
unfoldable pub receive_byte : Mode → ℕ → Option Mode
receive_byte idle b =
    if leb 0xF8 b
    then some idle
    else if ltb b 0x80
    then none
    else if b == 0xF0
    then some sysex
    else elim (message_size b) [ none ↦ none | some n ↦ some (wait n) ]
receive_byte sysex b =
    if leb 0xF8 b
    then some sysex
    else if b == 0xF7
    then some idle
    else if ltb b 0x80
    then some sysex
    else none
receive_byte (wants n) b = if ltb b 0x80 then some (wait (n - 1)) else none

unfoldable pub receive : Mode → List ℕ → Option Mode
receive m [] = some m
receive m (b ∷ bs) = elim (receive_byte m b) [ none ↦ none | some m' ↦ receive m' bs ]

pub receive-append :
    (m : Mode) (xs ys : List ℕ) {m' : Mode}
    → receive m xs ≡ some m'
    → receive m (xs ++ ys) ≡ receive m' ys
unfolding receive
receive-append m [] ys h = ground arith
receive-append m (x ∷ xs) ys {m'} h = elim (Option-cases (receive_byte m x)) [
  | inl e ↦ ground arith
  | inr (k, e) ↦ rw (e, receive) (receive-append k xs ys (rw (e, receive) at h))
]

-- The data bytes that a message wants bring the receiver back between messages.
pub receive-data :
    (data_bytes : List ℕ)
    → All (λ b. b < 128) data_bytes
    → receive (wait (length data_bytes)) data_bytes ≡ some idle
unfolding receive receive_byte
receive-data [] h = refl
receive-data (b ∷ bs) (small, h) =
    let e : suc (length bs) - 1 ≡ length bs = omega arith in ground (arith, e, receive-data bs h)
