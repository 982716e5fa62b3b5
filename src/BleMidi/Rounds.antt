-- ===== src/BleMidi/Rounds.antt =====
-- One round of the loop of `mb_ble_midi_decode_packet` of src/mb-ble-midi.c: the message that
-- begins after a timestamp, by the kind of its first byte.
use midi_ble_rt.Base.{
  ℕ, zero, suc, ◌≤◌, ◌<◌, ◌%◌, ◌≡◌, refl, sym, ◌∙◌, ◌≢◌, inl, inr, true, false, not, List, [], ◌∷◌,
  some, ltb, leb, ◌==◌, if◌then◌else◌, length, arith, Bool-cases, if_intro, subst, leb→gt, ltb→lt,
  ltb→ge, ==_iff,
}
use midi_ble_rt.BleMidi.{
  DecoderState, ok, resync, Run, DataLen, count, invalid, variable, status_data_len, decoder_reset,
  Run, consume_pending_data, consume_sysex, pending_byte, sysex_byte, start_pending, with_running,
  start_running, start_status, continue_sysex, continue_pending, returns, prepend, message,
  is_realtime,
}
use midi_ble_rt.BleMidi.Receiver.{Mode, idle, sysex, receive, receive_byte, message_size}
use midi_ble_rt.BleMidi.Invariant.{
  IsValid, Good, IsOpen, IsSysex, mode_of, decoder_reset-IsValid, prepend-Good, Between,
  mode_of-Between, receive_realtime, consume-Good, pending_byte-RoundGood, sysex_byte-RoundGood,
}

pub resync-Good :
    (m : Mode) (n : ℕ) (rest : List ℕ)
    → Between m
    → length rest ≤ n
    → Good m n (returns resync decoder_reset rest [])
unfolding receive
resync-Good m n rest at l = record {
  valid = decoder_reset-IsValid;
  shorter = l;
  after = m;
  heard = refl;
  between = at;
  synced = λ e. cc;
  failed = inr (refl, refl);
}

-- A part that reads no byte: the state goes on in the mode that the emitted bytes lead to.
pub returns-Good :
    (m : Mode) (s : DecoderState) (rest out : List ℕ)
    → IsValid s
    → receive m out ≡ some (mode_of s)
    → Good m (length rest) (returns ok s rest out)
returns-Good m s rest out v h = record {
  valid = v;
  shorter = omega arith;
  after = mode_of s;
  heard = h;
  between = mode_of-Between s;
  synced = λ _. refl;
  failed = inl refl;
}

consume_sysex-Good :
    (s : DecoderState) (rest : List ℕ) (b : ℕ)
    → IsSysex s
    → Good sysex (length rest) (consume_sysex s rest b)
unfolding consume_sysex
consume_sysex-Good s rest b h =
    consume-Good IsSysex sysex sysex_byte sysex_byte-RoundGood (λ t k. (k.valid, rw k.inside)) s
      rest b h

consume_pending_data-Good :
    (s : DecoderState) (rest : List ℕ) (b : ℕ)
    → IsOpen s
    → Good idle (length rest) (consume_pending_data s rest b)
unfolding consume_pending_data
consume_pending_data-Good s rest b h =
    consume-Good IsOpen idle pending_byte pending_byte-RoundGood (λ t k. (k.valid, rw k.outside)) s
      rest b h

-- The decoder's table of message sizes against the receiver's.
status_data_len-count :
    (status n : ℕ)
    → status_data_len status ≡ count (suc n)
    → (message_size status ≡ some (suc n)) × (n < 2) × (128 ≤ status) × (status < 0xF8)
unfolding status_data_len
status_data_len-count status n h = ground arith

status_data_len-count_zero :
    (status : ℕ)
    → status_data_len status ≡ count zero
    → status < 0xF8
    → status ≢ 0xF7
    → receive idle (status ∷ []) ≡ some idle
unfolding status_data_len receive receive_byte
status_data_len-count_zero status h l ne = ground arith

start_pending-IsOpen :
    (s : DecoderState) (status n : ℕ)
    → IsValid s
    → s.sysex_active ≡ false
    → status_data_len status ≡ count (suc n)
    → IsOpen (start_pending s status (suc n % 256))
start_pending-IsOpen s status n v out h =
    let (size, small, low, high) = status_data_len-count status n h in
    let e : suc n % 256 ≡ suc n = omega arith in
    record {
      valid = record {
        two_bytes = v.two_bytes;
        data_bytes = v.data_bytes;
        running = v.running;
        open_size = λ _. rw e size;
        open_status = λ _. (low, high);
        open_len = λ _. omega arith;
        open_expected = λ _. omega arith;
        sysex_alone = λ f. cc (out, f);
      };
      waiting = λ z. omega arith;
      outside = out;
    }

start_running-Good :
    (s : DecoderState) (rest : List ℕ) (b : ℕ) (l : DataLen)
    → IsValid s
    → s.sysex_active ≡ false
    → status_data_len s.running_status ≡ l
    → Good idle (length rest) (start_running s rest b l)
start_running-Good s rest b invalid v out e = resync-Good idle _ rest (inl refl) (omega arith)
start_running-Good s rest b variable v out e = resync-Good idle _ rest (inl refl) (omega arith)
start_running-Good s rest b (count zero) v out e = resync-Good idle _ rest (inl refl) (omega arith)
start_running-Good s rest b (count (suc n)) v out e =
    consume_pending_data-Good _ rest b (start_pending-IsOpen s s.running_status n v out e)

continue_pending-Good :
    (s : DecoderState) (rest : List ℕ)
    → IsOpen s
    → Good idle (length rest) (continue_pending s rest)
unfolding receive
continue_pending-Good s [] h = returns-Good idle s [] [] h.valid (rw h.outside)
continue_pending-Good s (c ∷ rest) h =
    prepend-Good [] (consume_pending_data s rest c) (omega arith) refl
      (consume_pending_data-Good s rest c h)

start_status-Good :
    (s : DecoderState) (rest : List ℕ) (b : ℕ) (l : DataLen)
    → IsValid s
    → s.sysex_active ≡ false
    → b < 0xF8
    → b ≢ 0xF7
    → status_data_len b ≡ l
    → Good idle (length rest) (start_status s rest b l)
start_status-Good s rest b invalid v out h ne e = resync-Good idle _ rest (inl refl) (omega arith)
start_status-Good s rest b variable v out h ne e = resync-Good idle _ rest (inl refl) (omega arith)
start_status-Good s rest b (count zero) v out h ne e =
    returns-Good idle s rest (b ∷ []) v (status_data_len-count_zero b e h ne ∙ rw out)
start_status-Good s rest b (count (suc n)) v out h ne e =
    continue_pending-Good _ rest (start_pending-IsOpen s b n v out e)

with_running-IsValid : (s : DecoderState) (b : ℕ) → IsValid s → 128 ≤ b → IsValid (with_running s b)
with_running-IsValid s b v h = record {
  two_bytes = v.two_bytes;
  data_bytes = v.data_bytes;
  running = elim (Bool-cases (ltb b 0xF0)) [
    | inl channel ↦ rw channel (inr (h, ltb→lt _ _ channel))
    | inr other ↦ rw other (inl refl)
  ];
  open_size = v.open_size;
  open_status = v.open_status;
  open_len = v.open_len;
  open_expected = v.open_expected;
  sysex_alone = v.sysex_alone;
}

-- `state->running_status = 0; state->sysex_active = true;`
abbrev sysex_start : DecoderState → DecoderState
sysex_start s = record s { running_status = 0; sysex_active = true }

sysex_start-IsSysex :
    (s : DecoderState) → IsValid s → s.pending_status ≡ 0 → IsSysex (sysex_start s)
sysex_start-IsSysex s v closed = record {
  valid = record {
    two_bytes = v.two_bytes;
    data_bytes = v.data_bytes;
    running = inl refl;
    open_size = v.open_size;
    open_status = v.open_status;
    open_len = v.open_len;
    open_expected = v.open_expected;
    sysex_alone = λ _. closed;
  };
  inside = refl;
}

continue_sysex-Good :
    (s : DecoderState) (rest : List ℕ)
    → IsSysex s
    → Good sysex (length rest) (continue_sysex s rest)
unfolding receive
continue_sysex-Good s [] h = returns-Good sysex s [] [] h.valid (rw h.inside)
continue_sysex-Good s (c ∷ rest) h =
    prepend-Good [] (consume_sysex s rest c) (omega arith) refl (consume_sysex-Good s rest c h)

receive_start : (b : ℕ) → b ≡ 0xF0 → receive idle (b ∷ []) ≡ some sysex
unfolding receive receive_byte
receive_start b e = ground arith

not_zero : (n : ℕ) → not (n == 0) ≡ true → n ≢ 0
not_zero n h e = ground arith

zero_of : (n : ℕ) → not (n == 0) ≡ false → n ≡ 0
zero_of n h = ground arith

-- `message` between two messages, by the kind of its first byte.
message_high-Good :
    (s : DecoderState) (rest : List ℕ) (b : ℕ)
    → IsValid s
    → s.sysex_active ≡ false
    → s.pending_status ≡ 0
    → 128 ≤ b
    → Good idle (length rest) (
        if is_realtime b
        then returns ok s rest (b ∷ [])
        else if b == 0xF0
        then prepend (b ∷ []) (continue_sysex (sysex_start s) rest)
        else if b == 0xF7
        then returns resync decoder_reset rest []
        else start_status (with_running s b) rest b (status_data_len b))
message_high-Good s rest b v out closed high =
    if_intro (Good idle (length rest)) (is_realtime b)
      (λ realtime.
        returns-Good idle s rest (b ∷ []) v (receive_realtime idle b (inl refl) realtime ∙ rw out))
      (λ low.
        if_intro (Good idle (length rest)) (b == 0xF0)
          (λ start.
            prepend-Good (b ∷ []) (continue_sysex (sysex_start s) rest) (omega arith)
              (receive_start b ((==_iff _ _).0 start))
              (continue_sysex-Good (sysex_start s) rest (sysex_start-IsSysex s v closed)))
          (λ _.
            if_intro (Good idle (length rest)) (b == 0xF7)
              (λ _. resync-Good idle _ rest (inl refl) (omega arith))
              (λ inner.
                start_status-Good (with_running s b) rest b (status_data_len b)
                  (with_running-IsValid s b v high) out (leb→gt _ _ low)
                  (λ e. cc (inner, (==_iff b 0xF7).1 e)) refl)))

pub message-Good :
    (s : DecoderState) (rest : List ℕ) (b : ℕ)
    → IsValid s
    → Good (mode_of s) (length rest) (message s rest b)
unfolding message
message-Good s rest b v =
    if_intro G s.sysex_active
      (λ on. from sysex (rw on) (consume_sysex-Good s rest b (record { valid = v; inside = on })))
      (λ off.
        if_intro G (not (s.pending_status == 0))
          (λ begun. from idle (rw off) (
            consume_pending_data-Good s rest b
              (record { valid = v; waiting = not_zero s.pending_status begun; outside = off })))
          (λ closed. from idle (rw off) (
            if_intro (Good idle (length rest)) (ltb b 0x80)
              (λ _.
                if_intro (Good idle (length rest)) (leb 0x80 s.running_status)
                  (λ _. start_running-Good s rest b (status_data_len s.running_status) v off refl)
                  (λ _. resync-Good idle _ rest (inl refl) (omega arith)))
              (λ high.
                message_high-Good s rest b v off (zero_of s.pending_status closed)
                  (ltb→ge _ _ high)))))
  where
    G : Run → Type 0
    G = Good (mode_of s) (length rest)

    from : (m : Mode) {r : Run} → mode_of s ≡ m → Good m (length rest) r → G r
    from m {r} e g = subst (λ k. Good k (length rest) r) (sym e) g
