-- ===== src/BleMidi/SysEx.antt =====
-- A SysEx that src/mb-ble-midi.c carries in several packets.
use midi_ble_rt.Base.{
  ℕ, ◌<◌, ◌≡◌, refl, sym, ap, subst, ◌∙◌, ◌≢◌, true, false, List, [], ◌∷◌, ◌++◌, append-nil, Option,
  none, some, All, arith,
}
use midi_ble_rt.BleMidi.{
  DecoderState, ok, returns, prepend, message, consume_sysex, continue_sysex, decode_packet,
}
use midi_ble_rt.BleMidi.RoundTrip.{frame, decode_frame, consume_sysex-payload, consume_sysex-end}

-- The packets of one stream, decoded in turn: the last state, and all the bytes emitted.
unfoldable pub decode_all : DecoderState → List (List ℕ) → Option (DecoderState × List ℕ)
decode_all s [] = some (s, [])
decode_all s (p ∷ ps) = elim (decode_packet s p) [
  | none ↦ none
  | some r ↦ elim (decode_all r.state ps) [
    | none ↦ none
    | some (s', out) ↦ some (s', r.emitted ++ out)
  ]
]

-- Chunks of MIDI bytes with the timestamps of their packets.
abbrev pub Chunks : Type 0
Chunks = List (ℕ × List ℕ)

abbrev pub bytes_of : Chunks → List ℕ
bytes_of [] = []
bytes_of ((t, c) ∷ cs) = c ++ bytes_of cs

abbrev pub frames_of : Chunks → List (List ℕ)
frames_of [] = []
frames_of ((t, c) ∷ cs) = frame t c ∷ frames_of cs

abbrev pub NoneEmpty : Chunks → Type 0
NoneEmpty [] = Unit
NoneEmpty ((t, c) ∷ cs) = (c ≢ []) × NoneEmpty cs

decode_all-cons :
    (s s' s'' : DecoderState) (p : List ℕ) (ps : List (List ℕ)) (out more : List ℕ)
    → decode_packet s p ≡ some (returns ok s' [] out)
    → decode_all s' ps ≡ some (s'', more)
    → decode_all s (p ∷ ps) ≡ some (s'', out ++ more)
unfolding decode_all
decode_all-cons s s' s'' p ps out more e k = ground arith

message-sysex :
    (s : DecoderState) (rest : List ℕ) (b : ℕ)
    → s.sysex_active ≡ true
    → message s rest b ≡ consume_sysex s rest b
unfolding message
message-sysex s rest b on = ground arith

right_nil : (c ds : List ℕ) → c ++ ds ≡ [] → ds ≡ []
right_nil [] ds h = h
right_nil (x ∷ c) ds h = cc

-- A piece of a list that ends in `e`, which is not in the front, is a piece of the front, or is
-- the whole list.
cut :
    (c ds front : List ℕ) (e : ℕ)
    → c ++ ds ≡ front ++ (e ∷ [])
    → ds ≢ []
    → (front' : List ℕ) × (front ≡ c ++ front') × (ds ≡ front' ++ (e ∷ []))
cut [] ds front e h ne = (front, refl, h)
cut (x ∷ c) ds [] e h ne = absurd (ne (right_nil c ds (cc)))
cut (x ∷ c) ds (y ∷ front) e h ne = let (f, p, q) = cut c ds front e (cc) ne in (f, cc (p), q)

All-append : (P : ℕ → Type 0) (xs ys : List ℕ) → All P (xs ++ ys) → All P xs × All P ys
All-append P [] ys h = (tt, h)
All-append P (x ∷ xs) ys h = let (a, b) = All-append P xs ys h.1 in ((h.0, a), b)

snoc-ne-nil : (xs : List ℕ) (e : ℕ) → xs ++ (e ∷ []) ≢ []
snoc-ne-nil [] e h = cc
snoc-ne-nil (x ∷ xs) e h = cc

append-ne-nil : (xs ys : List ℕ) → xs ≢ [] → xs ++ ys ≢ []
append-ne-nil [] ys h e = h refl
append-ne-nil (x ∷ xs) ys h e = cc

sysex_last :
    (s : DecoderState) (l payload : List ℕ)
    → All (λ b. b < 128) payload
    → l ≡ payload ++ (0xF7 ∷ [])
    → continue_sysex s l ≡ returns ok (record s { sysex_active = false }) [] l
sysex_last s l payload small e = rw e (consume_sysex-end s payload small)

-- Inside a SysEx, the packets of its remaining bytes are emitted byte for byte, and close it.
decode_all-inside :
    (s : DecoderState) (cs : Chunks) (payload : List ℕ)
    → s.sysex_active ≡ true
    → NoneEmpty cs
    → All (λ b. b < 128) payload
    → bytes_of cs ≡ payload ++ (0xF7 ∷ [])
    → decode_all s (frames_of cs) ≡ some (record s { sysex_active = false }, bytes_of cs)
unfolding decode_all
decode_all-inside s [] payload on ne small e = absurd (snoc-ne-nil payload 0xF7 (sym e))
decode_all-inside s ((t, []) ∷ cs) payload on ne small e = absurd (ne.0 refl)
decode_all-inside s ((t, b ∷ c) ∷ []) payload on ne small e =
    decode_all-cons s _ _ _ [] (b ∷ c) []
      (decode_frame s _ t b c (b ∷ c) (
        message-sysex s c b on ∙ sysex_last s (b ∷ c) payload small (sym (append-nil (b ∷ c)) ∙ e)))
      refl
decode_all-inside s ((t, b ∷ c) ∷ (t', c') ∷ cs) payload on ne small e =
    let tail = bytes_of ((t', c') ∷ cs) in
    let (rest, p, q) = cut (b ∷ c) tail payload 0xF7 e (append-ne-nil c' (bytes_of cs) ne.1.0) in
    let (left, right) =
      All-append (λ k. k < 128) (b ∷ c) rest (subst (All (λ k. k < 128)) p small) in
    decode_all-cons s s _ _ (frames_of ((t', c') ∷ cs)) (b ∷ c) tail
      (decode_frame s s t b c (b ∷ c) (message-sysex s c b on ∙ consume_sysex-payload s c b left))
      (decode_all-inside s ((t', c') ∷ cs) rest on ne.1 right q)

-- `state->running_status = 0; state->sysex_active = true;`
abbrev started : DecoderState → DecoderState
started s = record s { running_status = 0; sysex_active = true }

message-start :
    (s : DecoderState) (rest : List ℕ) (b : ℕ)
    → s.sysex_active ≡ false
    → s.pending_status ≡ 0
    → b ≡ 0xF0
    → message s rest b ≡ prepend (b ∷ []) (continue_sysex (started s) rest)
unfolding message
message-start s rest b out closed e = ground arith

continue_sysex-payload :
    (s : DecoderState) (c : List ℕ) → All (λ b. b < 128) c → continue_sysex s c ≡ returns ok s [] c
continue_sysex-payload s [] h = refl
continue_sysex-payload s (b ∷ c) h = consume_sysex-payload s c b h

-- A SysEx of any length, cut anywhere into packets of at least one byte each, is emitted by a
-- decoder between two messages byte for byte, and leaves it between two messages, with no running
-- status and all else as it was.
pub decode_all-sysex :
    (s : DecoderState) (cs : Chunks) (payload : List ℕ)
    → s.sysex_active ≡ false
    → s.pending_status ≡ 0
    → NoneEmpty cs
    → All (λ b. b < 128) payload
    → bytes_of cs ≡ 0xF0 ∷ (payload ++ (0xF7 ∷ []))
    → decode_all s (frames_of cs)
      ≡ some (record s { running_status = 0; sysex_active = false }, bytes_of cs)
unfolding decode_all
decode_all-sysex s [] payload out closed ne small e = cc
decode_all-sysex s ((t, []) ∷ cs) payload out closed ne small e = absurd (ne.0 refl)
decode_all-sysex s ((t, b ∷ c) ∷ []) payload out closed ne small e =
    decode_all-cons s _ _ _ [] (b ∷ c) []
      (decode_frame s _ t b c (b ∷ c) (
        message-start s c b out closed (cc)
        ∙ ap (prepend (b ∷ [])) (sysex_last (started s) c payload small (sym (append-nil c) ∙ cc))))
      refl
decode_all-sysex s ((t, b ∷ c) ∷ (t', c') ∷ cs) payload out closed ne small e =
    let tail = bytes_of ((t', c') ∷ cs) in
    let (rest, p, q) = cut c tail payload 0xF7 (cc) (append-ne-nil c' (bytes_of cs) ne.1.0) in
    let (left, right) = All-append (λ k. k < 128) c rest (subst (All (λ k. k < 128)) p small) in
    decode_all-cons s (started s) _ _ (frames_of ((t', c') ∷ cs)) (b ∷ c) tail
      (decode_frame s (started s) t b c (b ∷ c) (
        message-start s c b out closed (cc)
        ∙ ap (prepend (b ∷ [])) (continue_sysex-payload (started s) c left)))
      (decode_all-inside (started s) ((t', c') ∷ cs) rest refl ne.1 right q)
