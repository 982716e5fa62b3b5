-- ===== src/BleMidi/Invariant.antt =====
-- What holds of the decoder of src/mb-ble-midi.c between two packets, and what a part of a packet
-- does to it: the lemmas on the rounds and on the loops of the consume functions.
use midi_ble_rt.Base.{
  ℕ, zero, suc, ◌+◌, ◌≤◌, ◌<◌, ◌≡◌, refl, ◌≢◌, ◌⊎◌, inl, inr, true, false, List, [], ◌∷◌, some,
  length, set, take, All, arith, if◌then◌else◌, leb, ◌==◌, ◌%◌, ◌∙◌, length-set, Bool-cases, leb→gt,
  ==_iff, sym, subst,
}
use midi_ble_rt.BleMidi.{
  DecoderState, DecodeResult, ok, resync, Run, Round, stop, more, decoder_reset, emit_pending,
  pending_bytes, pending_byte, sysex_byte, consume, prepend,
}
use midi_ble_rt.BleMidi.Receiver.{
  Mode, idle, sysex, receive, receive_byte, receive-append, receive-data, message_size,
}

pub record IsValid (s : DecoderState) : Type 0 where
  pub two_bytes : length s.pending_data ≡ 2
  pub data_bytes : All (λ b. b < 128) s.pending_data
  pub running : (s.running_status ≡ 0) ⊎ ((128 ≤ s.running_status) × (s.running_status < 0xF0))
  pub open_size : s.pending_status ≢ 0 → message_size s.pending_status ≡ some s.pending_expected
  pub open_status : s.pending_status ≢ 0 → (128 ≤ s.pending_status) × (s.pending_status < 0xF8)
  pub open_len : s.pending_status ≢ 0 → s.pending_len < s.pending_expected
  pub open_expected : s.pending_status ≢ 0 → s.pending_expected ≤ 2
  pub sysex_alone : s.sysex_active ≡ true → s.pending_status ≡ 0

abbrev pub mode_of : DecoderState → Mode
mode_of s = if s.sysex_active then sysex else idle

pub decoder_reset-IsValid : IsValid decoder_reset
decoder_reset-IsValid = ground arith

-- Not in the middle of a short message.
abbrev pub Between : Mode → Type 0
Between m = (m ≡ idle) ⊎ (m ≡ sysex)

pub mode_of-Between : (s : DecoderState) → Between (mode_of s)
mode_of-Between s = elim (Bool-cases s.sysex_active) [
  | inl on ↦ inr (rw on refl)
  | inr off ↦ inl (rw off refl)
]

-- A part of a packet was handled from a receiver in mode `m` on, with `n` bytes left to read.
pub record Good (m : Mode) (n : ℕ) (r : Run) : Type 0 where
  pub valid : IsValid r.state
  pub shorter : length r.rest ≤ n
  pub after : Mode
  pub heard : receive m r.emitted ≡ some after
  pub between : Between after
  pub synced : r.result ≡ ok → after ≡ mode_of r.state
  pub failed : (r.result ≡ ok) ⊎ ((r.result ≡ resync) × (r.state ≡ decoder_reset))

-- What was emitted before a part takes the receiver to the mode in which the part begins.
pub prepend-Good :
    {m m' : Mode} {n n' : ℕ} (out : List ℕ) (r : Run)
    → n ≤ n'
    → receive m out ≡ some m'
    → Good m' n r
    → Good m n' (prepend out r)
prepend-Good {m} out r l h g = record {
  valid = g.valid;
  shorter = omega (arith, g.shorter);
  after = g.after;
  heard = receive-append m out r.emitted h ∙ g.heard;
  between = g.between;
  synced = g.synced;
  failed = g.failed;
}

-- What a round owes to a loop whose states satisfy `P`.
abbrev pub RoundGood : (DecoderState → Type 0) → Mode → Round → Type 0
RoundGood P m (stop r t out) =
    (after : Mode) × IsValid t
    × (receive m out ≡ some after)
    × Between after
    × (r ≡ ok → after ≡ mode_of t)
    × ((r ≡ ok) ⊎ ((r ≡ resync) × (t ≡ decoder_reset)))
RoundGood P m (more t out) = P t × (receive m out ≡ some m)

length-take-set :
    (d : List ℕ) (k b : ℕ) → length d ≡ 2 → k < 2 → length (take (suc k) (set d k b)) ≡ suc k
length-take-set [] k b h l = absurd (omega arith)
length-take-set (x ∷ []) k b h l = absurd (omega arith)
length-take-set (x ∷ y ∷ d) zero b h l = refl
length-take-set (x ∷ y ∷ d) (suc zero) b h l = refl
length-take-set (x ∷ y ∷ d) (suc (suc k)) b h l = absurd (omega arith)

All-set : (d : List ℕ) (k b : ℕ) → b < 128 → All (λ c. c < 128) d → All (λ c. c < 128) (set d k b)
All-set [] k b h a = a
All-set (x ∷ d) zero b h a = (h, a.1)
All-set (x ∷ d) (suc k) b h a = (a.0, All-set d k b h a.1)

All-take : (d : List ℕ) (k : ℕ) → All (λ c. c < 128) d → All (λ c. c < 128) (take k d)
All-take d zero a = tt
All-take [] (suc k) a = tt
All-take (x ∷ d) (suc k) a = (a.0, All-take d k a.1)

-- A whole short message takes the receiver from one message boundary to the next.
pub receive-short :
    (status n : ℕ) (d : List ℕ)
    → 128 ≤ status
    → status < 0xF8
    → message_size status ≡ some n
    → length d ≡ n
    → All (λ b. b < 128) d
    → receive idle (status ∷ d) ≡ some idle
unfolding receive receive_byte
receive-short status n d lo hi size len small = ground (arith, receive-data d small)

-- The states in which a message is open, and those inside a SysEx.
pub record IsOpen (s : DecoderState) : Type 0 where
  pub valid : IsValid s
  pub waiting : s.pending_status ≢ 0
  pub outside : s.sysex_active ≡ false

pub record IsSysex (s : DecoderState) : Type 0 where
  pub valid : IsValid s
  pub inside : s.sysex_active ≡ true

-- A round that drops the decoder's state.
resync-RoundGood :
    (P : DecoderState → Type 0) (m : Mode)
    → Between m
    → RoundGood P m (stop resync decoder_reset [])
unfolding receive
resync-RoundGood P m at = (m, decoder_reset-IsValid, refl, at, ground arith, inr (refl, refl))

pub receive_realtime :
    (m : Mode) (b : ℕ) → (m ≡ idle) ⊎ (m ≡ sysex) → leb 0xF8 b ≡ true → receive m (b ∷ []) ≡ some m
unfolding receive receive_byte
receive_realtime m b e h = ground arith

-- The state after a data byte of an open message.
abbrev fed : DecoderState → ℕ → DecoderState
fed s b = record s {
  pending_data = set s.pending_data s.pending_len b;
  pending_len = (s.pending_len + 1) % 256;
}

fed-pending_bytes :
    (s : DecoderState) (b : ℕ)
    → IsOpen s
    → b < 128
    → (fed s b).pending_len ≡ s.pending_expected
    → receive idle (pending_bytes (fed s b)) ≡ some idle
fed-pending_bytes s b h small e =
    let v = h.valid in
    let size : s.pending_len + 1 ≡ s.pending_expected =
      omega (arith, v.open_expected h.waiting, v.open_len h.waiting) in
    let len : (s.pending_len + 1) % 256 ≡ suc s.pending_len =
      omega (arith, v.open_expected h.waiting) in
    rw len (
      receive-short s.pending_status s.pending_expected
        (take (suc s.pending_len) (set s.pending_data s.pending_len b)) (v.open_status h.waiting).0
        (v.open_status h.waiting).1 (v.open_size h.waiting)
        (omega (
          arith,
          length-take-set s.pending_data s.pending_len b v.two_bytes
              (omega (arith, v.open_expected h.waiting)),
        ))
        (All-take _ (suc s.pending_len) (All-set _ s.pending_len b small v.data_bytes)))

emit_fed-IsValid :
    (s : DecoderState) (b : ℕ) → IsValid s → b < 128 → IsValid (emit_pending (fed s b))
emit_fed-IsValid s b v small = record {
  two_bytes = length-set s.pending_data s.pending_len b ∙ v.two_bytes;
  data_bytes = All-set s.pending_data s.pending_len b small v.data_bytes;
  running = v.running;
  open_size = λ ne. absurd (ne refl);
  open_status = λ ne. absurd (ne refl);
  open_len = λ ne. absurd (ne refl);
  open_expected = λ ne. absurd (ne refl);
  sysex_alone = λ _. refl;
}

fed-IsOpen :
    (s : DecoderState) (b : ℕ)
    → IsOpen s
    → b < 128
    → (fed s b).pending_len ≢ s.pending_expected
    → IsOpen (fed s b)
fed-IsOpen s b h small ne =
    let v = h.valid in
    record {
      valid = record {
        two_bytes = length-set s.pending_data s.pending_len b ∙ v.two_bytes;
        data_bytes = All-set s.pending_data s.pending_len b small v.data_bytes;
        running = v.running;
        open_size = v.open_size;
        open_status = v.open_status;
        open_len = λ w. omega (arith, v.open_len w, v.open_expected w);
        open_expected = v.open_expected;
        sysex_alone = v.sysex_alone;
      };
      waiting = h.waiting;
      outside = h.outside;
    }

sysex_end-IsValid : (s : DecoderState) → IsSysex s → IsValid (record s { sysex_active = false })
sysex_end-IsValid s h =
    let v = h.valid in
    record {
      two_bytes = v.two_bytes;
      data_bytes = v.data_bytes;
      running = v.running;
      open_size = v.open_size;
      open_status = v.open_status;
      open_len = v.open_len;
      open_expected = v.open_expected;
      sysex_alone = λ e. cc;
    }

pub pending_byte-RoundGood :
    (s : DecoderState) (b : ℕ) → IsOpen s → RoundGood IsOpen idle (pending_byte s b)
unfolding pending_byte receive
pending_byte-RoundGood s b h = elim (Bool-cases (leb 0x80 b)) [
  | inl high ↦ rw high (elim (Bool-cases (leb 0xF8 b)) [
    | inl realtime ↦ rw realtime (h, receive_realtime idle b (inl refl) realtime)
    | inr other ↦ rw other (resync-RoundGood IsOpen idle (inl refl))
  ])
  | inr low ↦ rw low (elim (Bool-cases (leb 2 s.pending_len)) [
    | inl full ↦ rw full (resync-RoundGood IsOpen idle (inl refl))
    | inr room ↦ rw room (elim (Bool-cases ((s.pending_len + 1) % 256 == s.pending_expected)) [
      | inl whole ↦ rw whole (
        idle,
        emit_fed-IsValid s b h.valid (leb→gt _ _ low),
        fed-pending_bytes s b h (leb→gt _ _ low) ((==_iff _ _).0 whole),
        inl refl,
        (λ _. rw h.outside),
        inl refl,
      )
      | inr part ↦
          rw part (fed-IsOpen s b h (leb→gt _ _ low) (λ e. cc (part, (==_iff _ _).1 e)), refl)
    ])
  ])
]

pub sysex_byte-RoundGood :
    (s : DecoderState) (b : ℕ) → IsSysex s → RoundGood IsSysex sysex (sysex_byte s b)
unfolding sysex_byte receive receive_byte
sysex_byte-RoundGood s b h = elim (Bool-cases (b == 0xF7)) [
  | inl end ↦ rw end (idle, sysex_end-IsValid s h, ground arith, inl refl, ground arith, inl refl)
  | inr inner ↦ rw inner (elim (Bool-cases (leb 0x80 b)) [
    | inl high ↦ rw high (elim (Bool-cases (leb 0xF8 b)) [
      | inl realtime ↦ rw realtime (h, receive_realtime sysex b (inr refl) realtime)
      | inr other ↦ rw other (resync-RoundGood IsSysex sysex (inr refl))
    ])
    | inr low ↦ rw low (h, ground arith)
  ])
]

module _ (P : DecoderState → Type 0) (m : Mode) (round : DecoderState → ℕ → Round)
    (keep : (s : DecoderState) (b : ℕ) → P s → RoundGood P m (round s b))
    (valid : (s : DecoderState) → P s → IsValid s × (mode_of s ≡ m)) where
  stop-Good :
      (n : ℕ) (r : DecodeResult) (t : DecoderState) (rest out : List ℕ)
      → length rest ≤ n
      → RoundGood P m (stop r t out)
      → Good m n (record { result = r; state = t; rest = rest; emitted = out })
  stop-Good n r t rest out l g = record {
    valid = g.1;
    shorter = l;
    after = g.0;
    heard = g.2;
    between = g.3;
    synced = g.4;
    failed = g.5;
  }

  pub consume-Good :
      (s : DecoderState) (rest : List ℕ) (b : ℕ)
      → P s
      → Good m (length rest) (consume round s rest b)
  unfolding consume
  consume-Good s [] b p = last (round s b) (keep s b p)
    where
      last :
          (q : Round)
          → RoundGood P m q
          → Good m 0 (elim q [
            | stop r t out ↦ record { result = r; state = t; rest = []; emitted = out }
            | more t out ↦ record { result = ok; state = t; rest = []; emitted = out }
          ])
      last (stop r t out) g = stop-Good 0 r t [] out (omega arith) g
      last (more t out) g = record {
        valid = (valid t g.0).0;
        shorter = omega arith;
        after = m;
        heard = g.1;
        between = subst Between (valid t g.0).1 (mode_of-Between t);
        synced = λ _. sym (valid t g.0).1;
        failed = inl refl;
      }
  consume-Good s (c ∷ rest) b p = next (λ t h. consume-Good t rest c h) (round s b) (keep s b p)
    where
      next :
          ((t : DecoderState) → P t → Good m (length rest) (consume round t rest c))
          → (q : Round) → RoundGood P m q
          → Good m (suc (length rest)) (elim q [
            | stop r t out ↦ record { result = r; state = t; rest = c ∷ rest; emitted = out }
            | more t out ↦ prepend out (consume round t rest c)
          ])
      next again (stop r t out) g = stop-Good (suc (length rest)) r t (c ∷ rest) out (omega arith) g
      next again (more t out) g =
          prepend-Good out (consume round t rest c) (omega arith) g.1 (again t g.0)
