-- ===== src/Control.antt =====
-- The lines of the control protocol: src/mb-control-protocol.c. A text is its list of bytes; the
-- pointers are given, and a text that is freed is left out.
pub mod Words
use midi_ble_rt.Base.{
  ℕ, zero, suc, ◌+◌, ◌-◌, Bool, true, false, not, ◌&&◌, ◌||◌, ◌==◌, ltb, leb, Option, none, some,
  List, [], ◌∷◌, ◌++◌, if◌then◌else◌,
}

-- MbControlCommandType
pub data CommandType : Type 0 where
  unknown ping status list connect disconnect recheck : CommandType

-- MbControlCommand
pub record Command : Type 0 where
  pub type : CommandType
  pub device : Option (List ℕ)

-- What the code uses of GLib: `g_strstrip`, `g_strsplit_set (line, " \t", 0)`, and
-- `g_ascii_strcasecmp` as a test for equality.
pub record Glib : Type 0 where
  pub strstrip : List ℕ → List ℕ
  pub strsplit_set : List ℕ → List (List ℕ)
  pub same_word : List ℕ → List ℕ → Bool

-- The words of the protocol, in ASCII.
abbrev pub word : CommandType → List ℕ
word ping = 80 ∷ 73 ∷ 78 ∷ 71 ∷ []
word status = 83 ∷ 84 ∷ 65 ∷ 84 ∷ 85 ∷ 83 ∷ []
word list = 76 ∷ 73 ∷ 83 ∷ 84 ∷ []
word connect = 67 ∷ 79 ∷ 78 ∷ 78 ∷ 69 ∷ 67 ∷ 84 ∷ []
word disconnect = 68 ∷ 73 ∷ 83 ∷ 67 ∷ 79 ∷ 78 ∷ 78 ∷ 69 ∷ 67 ∷ 84 ∷ []
word recheck = 82 ∷ 69 ∷ 67 ∷ 72 ∷ 69 ∷ 67 ∷ 75 ∷ []
word unknown = 85 ∷ 78 ∷ 75 ∷ 78 ∷ 79 ∷ 87 ∷ 78 ∷ []

-- `command_requires_device`
abbrev pub requires_device : CommandType → Bool
requires_device connect = true
requires_device disconnect = true
requires_device recheck = true
requires_device _ = false

abbrev pub is_unknown : CommandType → Bool
is_unknown unknown = true
is_unknown _ = false

abbrev pub is_blank : List ℕ → Bool
is_blank [] = true
is_blank (b ∷ bytes) = false

-- The loop over the tokens after the first: none if a second device is met.
pub find_device : List (List ℕ) → Option (List ℕ) → Option (Option (List ℕ))
find_device [] device = some device
find_device (t ∷ tokens) none =
    if is_blank t then find_device tokens none else find_device tokens (some t)
find_device (t ∷ tokens) (some d) = if is_blank t then find_device tokens (some d) else none

-- The tests after the loop.
abbrev pub build : CommandType → Option (Option (List ℕ)) → Option Command
build type none = none
build type (some none) =
    if requires_device type then none else some (record { type = type; device = none })
build type (some (some d)) =
    if requires_device type && is_blank d
    then none
    else if not (requires_device type)
    then none
    else some (record { type = type; device = some d })

module _ (glib : Glib) where
  -- `command_type_from_token`
  unfoldable pub type_from_token : List ℕ → CommandType
  type_from_token token =
      if glib.same_word token (word ping)
      then ping
      else if glib.same_word token (word status)
      then status
      else if glib.same_word token (word list)
      then list
      else if glib.same_word token (word connect)
      then connect
      else if glib.same_word token (word disconnect)
      then disconnect
      else if glib.same_word token (word recheck)
      then recheck
      else unknown

  abbrev pub parse_tokens : List (List ℕ) → Option Command
  parse_tokens [] = none
  parse_tokens (t ∷ tokens) =
      let type = type_from_token t in
      if is_blank t
      then none
      else if is_unknown type
      then none
      else build type (find_device tokens none)

  -- `mb_control_command_parse`
  unfoldable pub command_parse : List ℕ → Option Command
  command_parse line =
      let copy = glib.strstrip line in
      if is_blank copy then none else parse_tokens (glib.strsplit_set copy)
