-- ===== src/Tests/Decoder.antt =====
-- The theorems on src/mb-ble-midi.c and on the write loop of src/mb-daemon.c at concrete packets.
use midi_ble_rt.Base.{
  none, take, Bool, subst, sym, All-replicate, replicate, ◌<◌, ◌==◌, ℕ, ◌≡◌, refl, true, false,
  some, List, [], ◌∷◌, All, arith,
}
use midi_ble_rt.BleMidi.{make_packet, Run, decoder_reset, decode_packet}
use midi_ble_rt.BleMidi.Invariant.{decoder_reset-IsValid}
use midi_ble_rt.BleMidi.Packets.{Decoded, decode_packet-Decoded}
use midi_ble_rt.BleMidi.RoundTrip.{DecodesTo, decode_packet-make_packet}
use midi_ble_rt.BleMidi.SysEx.{Chunks, frames_of, bytes_of, decode_all, decode_all-sysex}
use midi_ble_rt.Rx
use midi_ble_rt.Rx.{Step, consumed, left_streaming}
use midi_ble_rt.BleMidi.Receiver.{Mode, idle, receive_byte}
use midi_ble_rt.Rx.Stream.{Documented, Keeps, run-Keeps}
use midi_ble_rt.Dataplane.{fence_accept, Fence, Outside, write_packet}
use midi_ble_rt.Dataplane.Writing.{
  Wrote, sysex, write_packet-Wrote, write_packet-decode_all, write_packet-ok,
}

-- A Note On, a time stamp, and a Note Off that breaks off.
abbrev notes : List ℕ
notes = 0x80 ∷ 0x81 ∷ 0x90 ∷ 60 ∷ 100 ∷ 0x82 ∷ 0x80 ∷ 60 ∷ []

decode_packet-Decoded_example :
    (r : Run) × (decode_packet decoder_reset notes ≡ some r) × Decoded decoder_reset r
decode_packet-Decoded_example = decode_packet-Decoded decoder_reset notes decoder_reset-IsValid

decode_packet-make_packet_example :
    let p = make_packet 5 (0x90 ∷ 60 ∷ 100 ∷ []) (replicate 20 0) in
    (p.made ≡ true) × DecodesTo decoder_reset (take p.out_len p.out) (0x90 ∷ 60 ∷ 100 ∷ [])
decode_packet-make_packet_example =
    decode_packet-make_packet decoder_reset 5 0x90 (60 ∷ 100 ∷ []) (replicate 20 0)
      decoder_reset-IsValid refl refl (omega arith) refl (omega arith, (omega arith, tt))
      (omega arith) (omega arith)

-- An identity request in two packets.
abbrev request : Chunks
request = (7, 0xF0 ∷ 0x7E ∷ 0x7F ∷ []) ∷ (9, 0x06 ∷ 0x01 ∷ 0xF7 ∷ []) ∷ []

abbrev request_payload : List ℕ
request_payload = 0x7E ∷ 0x7F ∷ 0x06 ∷ 0x01 ∷ []

abbrev request_payload_small : All (λ b. b < 128) request_payload
request_payload_small = (omega arith, (omega arith, (omega arith, (omega arith, tt))))

decode_all-sysex_example :
    decode_all decoder_reset (frames_of request)
    ≡ some (record decoder_reset { running_status = 0; sysex_active = false }, bytes_of request)
decode_all-sysex_example =
    decode_all-sysex decoder_reset request request_payload refl refl ((λ e. cc), ((λ e. cc), tt))
      request_payload_small refl

abbrev open_fence : Fence
open_fence = record { streaming = true; epoch = 1; closed_epoch = 0; closed_at_ns = 0 }

abbrev smooth : ℕ → Outside
smooth i = record { fence = open_fence; timestamp_13bit = i; written = true }

-- The second write fails.
abbrev rough : ℕ → Outside
rough i = record { fence = open_fence; timestamp_13bit = i; written = i == 0 }

abbrev long_message : List ℕ
long_message = sysex (replicate 30 1)

write_packet-Wrote_example :
    Wrote long_message (write_packet open_fence true rough long_message 1 500)
write_packet-Wrote_example = write_packet-Wrote open_fence true rough long_message 1 500

smooth_lem : (i : ℕ) → (fence_accept (smooth i).fence 1 500 ≡ true) × ((smooth i).written ≡ true)
unfolding fence_accept
smooth_lem i = (refl, refl)

long_written : (write_packet open_fence true smooth long_message 1 500).ok ≡ true
long_written = write_packet-ok open_fence smooth long_message 1 500 (smooth_lem 0).0 smooth_lem

write_packet-decode_all_example :
    decode_all decoder_reset (write_packet open_fence true smooth long_message 1 500).sent
    ≡ some (record decoder_reset { running_status = 0; sysex_active = false }, long_message)
write_packet-decode_all_example =
    write_packet-decode_all open_fence true smooth (replicate 30 1) 1 500 decoder_reset refl refl
      (All-replicate (λ b. b < 128) 30 1 (omega arith)) long_written

-- Two packets of a session that streams, one of a session that ended, and the end of the session.
abbrev notifications : List Step
notifications =
    consumed open_fence (record { bytes = notes; timestamp_ns = 500; epoch = 1 })
    ∷ consumed open_fence (record { bytes = 0x80 ∷ 0x80 ∷ 1 ∷ []; timestamp_ns = 501; epoch = 1 })
    ∷ consumed open_fence (record { bytes = notes; timestamp_ns = 400; epoch = 7 })
    ∷ left_streaming
    ∷ []

-- An encoder that knows where in a message it is, and refuses what has no place there.
abbrev strict_encode : Mode → ℕ → Bool × Mode
strict_encode m b = elim (receive_byte m b) [ none ↦ (false, m) | some m' ↦ (true, m') ]

strict_taken :
    (m m' : Mode) (b : ℕ)
    → receive_byte m b ≡ some m'
    → ((strict_encode m b).0 ≡ true) × ((strict_encode m b).1 ≡ m')
strict_taken m m' b h = rw (h, strict_encode) (refl, refl)

strict_encode-Documented : Documented strict_encode (λ m. idle) (λ e m. e ≡ m)
strict_encode-Documented = record {
  takes = λ e m m' b at h.
      subst (λ k. ((strict_encode k b).0 ≡ true) × ((strict_encode k b).1 ≡ m')) (sym at)
        (strict_taken m m' b h);
  resets = λ e. refl;
}

run-Keeps_example :
    Keeps strict_encode
      (λ m. idle)
      (λ e m. e ≡ m)
      strict_encode-Documented
      decoder_reset
      (Rx.run strict_encode (λ m. idle) decoder_reset idle notifications)
run-Keeps_example =
    run-Keeps strict_encode (λ m. idle) (λ e m. e ≡ m) strict_encode-Documented notifications
      decoder_reset idle decoder_reset-IsValid refl
