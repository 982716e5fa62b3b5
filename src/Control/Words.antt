-- ===== src/Control/Words.antt =====
-- What src/mb-control-protocol.c accepts, told by the words of a line.
use midi_ble_rt.Base.{
  arith, All, ℕ, ◌==◌, ◌≡◌, refl, sym, ap, ◌∙◌, inl, inr, Bool-cases, Bool, true, false, ◌||◌,
  Option, none, some, List, [], ◌∷◌, if◌then◌else◌, if_false, All,
}
use midi_ble_rt.Control.{
  Glib, Command, CommandType, ping, status, list, connect, disconnect, recheck, unknown, is_blank,
  is_unknown, requires_device, find_device, build, type_from_token, parse_tokens, command_parse,
}

abbrev pub is_separator : ℕ → Bool
is_separator b = (b == 32) || (b == 9)

-- The documented behaviour of GLib on which the code relies: `g_strstrip` leaves no white space in
-- front, and `g_strsplit_set` gives no token for the empty text, and a first token that is not
-- empty for a text that starts with something else than a separator.
pub record Documented (glib : Glib) : Type 0 where
  pub stripped :
      (line : List ℕ) (b : ℕ) (bytes : List ℕ)
      → glib.strstrip line ≡ b ∷ bytes
      → is_separator b ≡ false
  pub split_blank : glib.strsplit_set [] ≡ []
  pub split_first :
      (b : ℕ) (bytes : List ℕ)
      → is_separator b ≡ false
      → (t : List ℕ) × (tokens : List (List ℕ)) × (glib.strsplit_set (b ∷ bytes) ≡ t ∷ tokens)
        × (is_blank t ≡ false)

-- The tokens that are not empty.
abbrev pub words : List (List ℕ) → List (List ℕ)
words [] = []
words (t ∷ tokens) = if is_blank t then words tokens else t ∷ words tokens

-- The protocol: each word, its command, and whether that command names a device.
abbrev protocol : List (List ℕ × CommandType × Bool)
protocol =
    (b'P' ∷ b'I' ∷ b'N' ∷ b'G' ∷ [], ping, false)
    ∷ (b'S' ∷ b'T' ∷ b'A' ∷ b'T' ∷ b'U' ∷ b'S' ∷ [], status, false)
    ∷ (b'L' ∷ b'I' ∷ b'S' ∷ b'T' ∷ [], list, false)
    ∷ (b'C' ∷ b'O' ∷ b'N' ∷ b'N' ∷ b'E' ∷ b'C' ∷ b'T' ∷ [], connect, true)
    ∷ (b'D' ∷ b'I' ∷ b'S' ∷ b'C' ∷ b'O' ∷ b'N' ∷ b'N' ∷ b'E' ∷ b'C' ∷ b'T' ∷ [], disconnect, true)
    ∷ (b'R' ∷ b'E' ∷ b'C' ∷ b'H' ∷ b'E' ∷ b'C' ∷ b'K' ∷ [], recheck, true)
    ∷ []

-- The first entry whose word is the one that is read.
abbrev look_up : Glib → List ℕ → List (List ℕ × CommandType × Bool) → Option (CommandType × Bool)
look_up glib w [] = none
look_up glib w ((name, type, for_device) ∷ entries) =
    if glib.same_word w name then some (type, for_device) else look_up glib w entries

abbrev obey_alone : Option (CommandType × Bool) → Option Command
obey_alone none = none
obey_alone (some (type, for_device)) =
    if for_device then none else some (record { type = type; device = none })

abbrev obey_with : List ℕ → Option (CommandType × Bool) → Option Command
obey_with device none = none
obey_with device (some (type, for_device)) =
    if for_device then some (record { type = type; device = some device }) else none

abbrev accept_alone : CommandType → Option Command
accept_alone type =
    if is_unknown type || requires_device type
    then none
    else some (record { type = type; device = none })

abbrev accept_with : CommandType → List ℕ → Option Command
accept_with type device =
    if requires_device type then some (record { type = type; device = some device }) else none

-- One word that names a command without a device, or one that names a command for a device and the
-- device; nothing else.
abbrev pub accept : Glib → List (List ℕ) → Option Command
accept glib (w ∷ []) = obey_alone (look_up glib w protocol)
accept glib (w ∷ device ∷ []) = obey_with device (look_up glib w protocol)
accept glib _ = none

-- The code's tests of a word against the protocol.
accept_alone_lem :
    (glib : Glib) (w : List ℕ)
    → accept_alone (type_from_token glib w) ≡ obey_alone (look_up glib w protocol)
unfolding type_from_token
accept_alone_lem glib w = ground arith

accept_with_lem :
    (glib : Glib) (w device : List ℕ)
    → accept_with (type_from_token glib w) device ≡ obey_with device (look_up glib w protocol)
unfolding type_from_token
accept_with_lem glib w device = ground arith

-- What the loop finds, from the words that are left.
abbrev one_device : List (List ℕ) → Option (Option (List ℕ))
one_device [] = some none
one_device (d ∷ []) = some (some d)
one_device (d ∷ e ∷ ds) = none

find_device-some :
    (tokens : List (List ℕ)) (d : List ℕ)
    → find_device tokens (some d) ≡ one_device (d ∷ words tokens)
unfolding find_device
find_device-some [] d = refl
find_device-some (t ∷ tokens) d = elim (Bool-cases (is_blank t)) [
  | inl blank ↦ rw blank (find_device-some tokens d)
  | inr named ↦ rw named refl
]

find_device-none : (tokens : List (List ℕ)) → find_device tokens none ≡ one_device (words tokens)
unfolding find_device
find_device-none [] = refl
find_device-none (t ∷ tokens) = elim (Bool-cases (is_blank t)) [
  | inl blank ↦ rw blank (find_device-none tokens)
  | inr named ↦ rw named (find_device-some tokens t)
]

words_named : (tokens : List (List ℕ)) → All (λ t. is_blank t ≡ false) (words tokens)
words_named [] = tt
words_named (t ∷ tokens) = elim (Bool-cases (is_blank t)) [
  | inl blank ↦ rw blank (words_named tokens)
  | inr named ↦ rw named (named, words_named tokens)
]

build_alone :
    (type : CommandType)
    → (if is_unknown type then none else build type (some none)) ≡ accept_alone type
build_alone unknown = refl
build_alone ping = refl
build_alone status = refl
build_alone list = refl
build_alone connect = refl
build_alone disconnect = refl
build_alone recheck = refl

build_with :
    (type : CommandType) (d : List ℕ)
    → is_blank d ≡ false
    → (if is_unknown type then none else build type (some (some d))) ≡ accept_with type d
build_with unknown d named = refl
build_with ping d named = refl
build_with status d named = refl
build_with list d named = refl
build_with connect d named = if_false none _ named
build_with disconnect d named = if_false none _ named
build_with recheck d named = if_false none _ named

refused : (b : Bool) → if◌then◌else◌ {A = Option Command} b none none ≡ none
refused true = refl
refused false = refl

build-one_device :
    (glib : Glib) (w : List ℕ) (ws : List (List ℕ))
    → All (λ t. is_blank t ≡ false) ws
    → (if is_unknown (type_from_token glib w)
        then none
        else build (type_from_token glib w) (one_device ws))
      ≡ accept glib (w ∷ ws)
build-one_device glib w [] named = build_alone (type_from_token glib w) ∙ accept_alone_lem glib w
build-one_device glib w (d ∷ []) named =
    build_with (type_from_token glib w) d named.0 ∙ accept_with_lem glib w d
build-one_device glib w (d ∷ e ∷ ds) named = refused (is_unknown (type_from_token glib w))

parse_tokens_lem :
    (glib : Glib) (t : List ℕ) (tokens : List (List ℕ))
    → is_blank t ≡ false
    → parse_tokens glib (t ∷ tokens) ≡ accept glib (words (t ∷ tokens))
parse_tokens_lem glib t tokens named = rw named (
    ap
      (λ found.
        if is_unknown (type_from_token glib t) then none else build (type_from_token glib t) found)
      (find_device-none tokens)
    ∙ build-one_device glib t (words tokens) (words_named tokens))

-- The code after the line was stripped, for each form of what is left.
parse_stripped :
    (glib : Glib) (copy : List ℕ)
    → Documented glib
    → ((b : ℕ) (bytes : List ℕ) → copy ≡ b ∷ bytes → is_separator b ≡ false)
    → (if is_blank copy then none else parse_tokens glib (glib.strsplit_set copy))
      ≡ accept glib (words (glib.strsplit_set copy))
parse_stripped glib [] laws clean = sym (ap (λ t. accept glib (words t)) laws.split_blank)
parse_stripped glib (b ∷ bytes) laws clean =
    let (t, tokens, split, named) = laws.split_first b bytes (clean b bytes refl) in
    ap (parse_tokens glib) split
    ∙ parse_tokens_lem glib t tokens named
    ∙ sym (ap (λ l. accept glib (words l)) split)

-- With GLib as documented, the parser reads every line as its words tell, which are the tokens that
-- `g_strsplit_set` makes of the stripped line, less the empty ones: PING, STATUS and LIST alone,
-- CONNECT, DISCONNECT and RECHECK with exactly one device, which it keeps; it refuses every other
-- line.
pub command_parse-accept :
    (glib : Glib) (line : List ℕ)
    → Documented glib
    → command_parse glib line ≡ accept glib (words (glib.strsplit_set (glib.strstrip line)))
unfolding command_parse
command_parse-accept glib line laws =
    parse_stripped glib (glib.strstrip line) laws (laws.stripped line)
