-- ===== src/Dataplane/Writing.antt =====
-- The write loop of src/mb-daemon.c: which bytes of a message reach the instrument, and how.
use midi_ble_rt.Base.{
  ℕ, zero, suc, ◌+◌, ◌≤◌, ◌<◌, min, ◌≡◌, ◌≢◌, ◌⊎◌, refl, sym, subst, ap, ◌∙◌, Bool, true, false,
  not, some, List, [], ◌∷◌, ◌++◌, append-nil, append_assoc, All, length, take, drop, replicate,
  if◌then◌else◌, inl, inr, arith,
}
use midi_ble_rt.BleMidi.{DecoderState}
use midi_ble_rt.BleMidi.RoundTrip.{make_packet_lem, frame}
use midi_ble_rt.BleMidi.SysEx.{Chunks, bytes_of, frames_of, NoneEmpty, decode_all, decode_all-sysex}
use midi_ble_rt.Dataplane.{
  fence_accept, Fence, packet_max, write_packet, Outside, write_rounds, Outcome, dropped,
  nothing_left, sent_first, max_midi_per_packet,
}

-- The sizes of the chunks.
abbrev pub sizes : Chunks → List ℕ
sizes [] = []
sizes ((t, c) ∷ cs) = length c ∷ sizes cs

-- The chunks that were written are a first part of the message, each in a packet of its own and
-- counted by its size; the message is whole if the loop says so, and else one drop is counted.
pub record Wrote (midi : List ℕ) (o : Outcome) : Type 0 where
  pub chunks : Chunks
  pub rest : List ℕ
  pub framed : o.sent ≡ frames_of chunks
  pub part : midi ≡ bytes_of chunks ++ rest
  pub none_empty : NoneEmpty chunks
  pub small : All (λ n. n ≤ max_midi_per_packet) (sizes chunks)
  pub counted : o.counted ≡ sizes chunks
  pub whole :
      ((o.ok ≡ true) × (rest ≡ []) × (o.tx_drops ≡ 0))
      ⊎ ((o.ok ≡ false) × (rest ≢ []) × (o.tx_drops ≡ 1))

module _ {A : Type 0} where
  take-drop : (n : ℕ) (xs : List A) → take n xs ++ drop n xs ≡ xs
  take-drop zero xs = refl
  take-drop (suc n) [] = refl
  take-drop (suc n) (x ∷ xs) = ap (λ l. x ∷ l) (take-drop n xs)

  length-take_in : (n : ℕ) (xs : List A) → n ≤ length xs → length (take n xs) ≡ n
  length-take_in zero xs h = refl
  length-take_in (suc n) [] h = absurd (omega arith)
  length-take_in (suc n) (x ∷ xs) h = ap suc (length-take_in n xs (omega arith))

  length-drop_in : (n : ℕ) (xs : List A) → n ≤ length xs → length (drop n xs) + n ≡ length xs
  length-drop_in zero xs h = omega arith
  length-drop_in (suc n) [] h = absurd (omega arith)
  length-drop_in (suc n) (x ∷ xs) h = let i = length-drop_in n xs (omega arith) in omega (arith, i)

Wrote-nothing : Wrote [] nothing_left
Wrote-nothing = record {
  chunks = [];
  rest = [];
  framed = refl;
  part = refl;
  none_empty = tt;
  small = tt;
  counted = refl;
  whole = inl (refl, refl, refl);
}

Wrote-dropped : (b : ℕ) (midi : List ℕ) (failed : Bool) → Wrote (b ∷ midi) (dropped failed)
Wrote-dropped b midi failed = record {
  chunks = [];
  rest = b ∷ midi;
  framed = refl;
  part = refl;
  none_empty = tt;
  small = tt;
  counted = refl;
  whole = inr (refl, (λ e. cc), refl);
}

Wrote-first :
    (t : ℕ) (c more : List ℕ) (o : Outcome)
    → 0 < length c
    → length c ≤ max_midi_per_packet
    → Wrote more o
    → Wrote (c ++ more) (sent_first (frame t c) (length c) o)
Wrote-first t c more o some_byte fits w = record {
  chunks = (t, c) ∷ w.chunks;
  rest = w.rest;
  framed = ap (λ l. frame t c ∷ l) w.framed;
  part = ap (λ l. c ++ l) w.part ∙ sym (append_assoc c (bytes_of w.chunks) w.rest);
  none_empty = ((λ e. omega (arith, ap length e, some_byte)), w.none_empty);
  small = (fits, w.small);
  counted = ap (λ l. length c ∷ l) w.counted;
  whole = w.whole;
}

-- What a round leaves, from its two tests and what the later rounds leave.
Wrote-round :
    (accepted made written : Bool) (t b n : ℕ) (packet c more midi : List ℕ) (o : Outcome)
    → made ≡ true
    → packet ≡ frame t c
    → n ≡ length c
    → 0 < n
    → n ≤ max_midi_per_packet
    → c ++ more ≡ b ∷ midi
    → Wrote more o
    → Wrote (b ∷ midi) (
        if not accepted
        then dropped false
        else if not made
        then dropped false
        else if not written
        then dropped true
        else sent_first packet n o)
Wrote-round false made written t b n packet c more midi o m p l pos fits e w =
    Wrote-dropped b midi false
Wrote-round true made false t b n packet c more midi o m p l pos fits e w =
    rw m (Wrote-dropped b midi true)
Wrote-round true made true t b n packet c more midi o m p l pos fits e w = rw m (
    rw p (
      rw l (
        subst (λ k. Wrote k (sent_first (frame t c) (length c) o)) e
          (Wrote-first t c more o (omega (arith, l, pos)) (omega (arith, l, fits)) w))))

-- Whatever the fence, the clock and the GATT writes do in each round.
pub write_rounds_lem :
    (fuel : ℕ) (outside : ℕ → Outside) (midi : List ℕ) (e t : ℕ)
    → length midi ≤ fuel
    → Wrote midi (write_rounds fuel outside midi e t)
unfolding write_rounds
write_rounds_lem zero outside [] e t h = Wrote-nothing
write_rounds_lem zero outside (b ∷ midi) e t h = absurd (omega arith)
write_rounds_lem (suc fuel) outside [] e t h = Wrote-nothing
write_rounds_lem (suc fuel) outside (b ∷ midi) e t h =
    let rest = b ∷ midi in
    let n = min (length rest) max_midi_per_packet in
    let bounds : (0 < n) × (n ≤ length rest) × (n ≤ max_midi_per_packet) =
      (omega arith, omega arith, omega arith) in
    let size : length (take n rest) ≡ n = length-take_in n rest bounds.1 in
    let left = length-drop_in n rest bounds.1 in
    let (made, len, out) =
      make_packet_lem (outside 0).timestamp_13bit (take n rest) (replicate packet_max 0)
        (omega (arith, size)) (omega (arith, size)) (omega arith) in
    Wrote-round (fence_accept (outside 0).fence e t) _ (outside 0).written
      (outside 0).timestamp_13bit b n _ (take n rest) (drop n rest) midi _ made out (sym size)
      bounds.0 bounds.2 (take-drop n rest)
      (write_rounds_lem fuel (λ i. outside (suc i)) (drop n rest) e t
        (omega (arith, left, bounds.0)))

Wrote-tests :
    (accepted bound : Bool) (b : ℕ) (midi : List ℕ) (o : Outcome)
    → Wrote (b ∷ midi) o
    → Wrote
        (b ∷ midi)
        (if not accepted then dropped false else if not bound then dropped false else o)
Wrote-tests false bound b midi o w = Wrote-dropped b midi false
Wrote-tests true false b midi o w = Wrote-dropped b midi false
Wrote-tests true true b midi o w = w

-- Whatever happens to the session and to the link while it is written, the packets of a message
-- carry a first part of its bytes, in order, with 1 to 18 of them in each packet, and each packet
-- is counted; the loop reports success if that part is the whole message, and a single drop
-- otherwise.
pub write_packet-Wrote :
    (fence : Fence) (bound : Bool) (outside : ℕ → Outside) (midi : List ℕ) (e t : ℕ)
    → Wrote midi (write_packet fence bound outside midi e t)
unfolding write_packet
write_packet-Wrote fence bound outside [] e t = Wrote-nothing
write_packet-Wrote fence bound outside (b ∷ midi) e t =
    Wrote-tests (fence_accept fence e t) bound b midi _
      (write_rounds_lem (length (b ∷ midi)) outside (b ∷ midi) e t (omega arith))

abbrev pub sysex : List ℕ → List ℕ
sysex payload = 0xF0 ∷ (payload ++ (0xF7 ∷ []))

decoded :
    (s : DecoderState) (payload : List ℕ) (o : Outcome)
    → s.sysex_active ≡ false
    → s.pending_status ≡ 0
    → All (λ b. b < 128) payload
    → o.ok ≡ true
    → Wrote (sysex payload) o
    → decode_all s o.sent
      ≡ some (record s { running_status = 0; sysex_active = false }, sysex payload)
decoded s payload o out closed small ok w = elim w.whole [
  | inr failed ↦ absurd (ground (arith, ok, failed.0))
  | inl (it_is, none_left, drops) ↦
      let same : bytes_of w.chunks ≡ sysex payload =
        sym (append-nil (bytes_of w.chunks))
        ∙ ap (λ r. bytes_of w.chunks ++ r) (sym none_left)
        ∙ sym w.part in
      rw w.framed (
        decode_all-sysex s w.chunks payload out closed w.none_empty small same
        ∙ ap (λ l. some (record s { running_status = 0; sysex_active = false }, l)) same)
]

-- A SysEx message that the daemon reports as written, over however many packets, is decoded by a
-- decoder between two messages to exactly the bytes of the message, and the decoder is then between
-- two messages again.
pub write_packet-decode_all :
    (fence : Fence) (bound : Bool) (outside : ℕ → Outside) (payload : List ℕ) (e t : ℕ)
    (s : DecoderState)
    → s.sysex_active ≡ false
    → s.pending_status ≡ 0
    → All (λ b. b < 128) payload
    → (write_packet fence bound outside (sysex payload) e t).ok ≡ true
    → decode_all s (write_packet fence bound outside (sysex payload) e t).sent
      ≡ some (record s { running_status = 0; sysex_active = false }, sysex payload)
write_packet-decode_all fence bound outside payload e t s out closed small ok =
    decoded s payload (write_packet fence bound outside (sysex payload) e t) out closed small ok
      (write_packet-Wrote fence bound outside (sysex payload) e t)

-- Each round finds the fence open and its write succeeds.
abbrev pub Smooth : (ℕ → Outside) → ℕ → ℕ → Type 0
Smooth outside e t =
    (i : ℕ) → (fence_accept (outside i).fence e t ≡ true) × ((outside i).written ≡ true)

round_ok :
    (accepted made written : Bool) (packet : List ℕ) (n : ℕ) (o : Outcome)
    → accepted ≡ true
    → made ≡ true
    → written ≡ true
    → o.ok ≡ true
    → (if not accepted
        then dropped false
        else if not made
        then dropped false
        else if not written
        then dropped true
        else sent_first packet n o).ok
      ≡ true
round_ok accepted made written packet n o a m w ok = rw (a, m, w) ok

write_rounds-ok :
    (fuel : ℕ) (outside : ℕ → Outside) (midi : List ℕ) (e t : ℕ)
    → Smooth outside e t
    → (write_rounds fuel outside midi e t).ok ≡ true
unfolding write_rounds
write_rounds-ok zero outside midi e t h = refl
write_rounds-ok (suc fuel) outside [] e t h = refl
write_rounds-ok (suc fuel) outside (b ∷ midi) e t h =
    let rest = b ∷ midi in
    let n = min (length rest) max_midi_per_packet in
    let size : length (take n rest) ≡ n = length-take_in n rest (omega arith) in
    let (made, len, out) =
      make_packet_lem (outside 0).timestamp_13bit (take n rest) (replicate packet_max 0)
        (omega (arith, size)) (omega (arith, size)) (omega arith) in
    round_ok _ _ _ _ n _ (h 0).0 made (h 0).1
      (write_rounds-ok fuel (λ i. outside (suc i)) (drop n rest) e t (λ i. h (suc i)))

-- With the session bound, the fence open and every GATT write successful, a message of any length
-- is written and reported so.
pub write_packet-ok :
    (fence : Fence) (outside : ℕ → Outside) (midi : List ℕ) (e t : ℕ)
    → fence_accept fence e t ≡ true
    → Smooth outside e t
    → (write_packet fence true outside midi e t).ok ≡ true
unfolding write_packet
write_packet-ok fence outside [] e t a h = refl
write_packet-ok fence outside (b ∷ midi) e t a h =
    rw a (write_rounds-ok (length (b ∷ midi)) outside (b ∷ midi) e t h)
