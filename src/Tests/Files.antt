-- ===== src/Tests/Files.antt =====
-- The theorems on src/mb-config.c and src/mb-control-protocol.c at concrete inputs, with plain
-- functions in the place of GLib's.
use Prim.Native.String.{String}
use text.Mathlib.Text.{◌==◌}
use midi_ble_rt.Base.{
  length, ◌∙◌, if_true, sym, ℕ, leb, get_or, sym, ap, ◌∙◌, if_true, length, ◌≡◌, ◌⊎◌, refl, inl,
  inr, Bool-cases, if_false, Bool, true, false, ◌&&◌, none, some, List, [], ◌∷◌, if◌then◌else◌,
  arith,
}
use midi_ble_rt.Config
use midi_ble_rt.Config.{
  bool_or_default, device_from_key_file, KeyFile, Directory, System, Loading, load_devices,
  daemon_from_key_file, config_load_dir, ini_names,
}
use midi_ble_rt.Config.Devices.{candidates, first_of_each, config_load_dir-devices}
use midi_ble_rt.Config.Settings.{Applied, TurnedOff, config_load_dir-Applied}
use midi_ble_rt.Control
use midi_ble_rt.Control.{type_from_token, is_blank, connect, command_parse}
use midi_ble_rt.Control.Words.{Documented, is_separator, command_parse-accept}

abbrev plain : Config.Glib
plain = record {
  strstrip = λ t. t;
  same_word = λ s t. s == t;
  has_ini_suffix = λ n. true;
  without_suffix = λ n. n;
  sort = λ l. l;
}

-- Both files of devices give the identifier "synth".
abbrev device_file : String → KeyFile
device_file address = record {
  get_string = λ group key.
      if key == "id" then some "synth" else if key == "address" then some address else none;
  get_uint64 = λ group key. none;
}

abbrev daemon_file : KeyFile
daemon_file = record { get_string = λ group key. none; get_uint64 = λ group key. some 90000 }

abbrev studio_files : Directory
studio_files = record {
  daemon_file = some daemon_file;
  listing = some ("a.ini" ∷ "b.ini" ∷ []);
  device_file = λ name. some (device_file name);
}

abbrev before : System
before = record {
  cfg = daemon_from_key_file plain daemon_file;
  rtkit = record {
    enabled = true;
    realtime_rx = true;
    realtime_tx = true;
    priority = 5;
    warned = false;
  };
  diagnostics = (true, 500);
}

config_load_dir-devices_example :
    ((config_load_dir plain studio_files before).0 ≡ true)
    × ((config_load_dir plain studio_files before).1.cfg.devices
        ≡ first_of_each (
            candidates plain studio_files
              (daemon_from_key_file plain daemon_file)
              ("a.ini" ∷ "b.ini" ∷ [])))
config_load_dir-devices_example =
    config_load_dir-devices plain studio_files before daemon_file ("a.ini" ∷ "b.ini" ∷ []) refl refl

-- Of the two, the first stays.
only_first :
    length (
      first_of_each (
        candidates plain studio_files
          (daemon_from_key_file plain daemon_file)
          ("a.ini" ∷ "b.ini" ∷ [])))
    ≡ 1
unfolding device_from_key_file bool_or_default daemon_from_key_file
only_first = refl

config_load_dir-Applied_example :
    let (ok, t) = config_load_dir plain (record studio_files { listing = none }) before in
    ((ok ≡ true) × Applied t) ⊎ ((ok ≡ false) × TurnedOff before t)
config_load_dir-Applied_example =
    config_load_dir-Applied plain (record studio_files { listing = none }) before

abbrev strip_front : List ℕ → List ℕ
strip_front [] = []
strip_front (b ∷ bytes) = if is_separator b then strip_front bytes else b ∷ bytes

abbrev strip_back : List ℕ → List ℕ
strip_back [] = []
strip_back (b ∷ bytes) =
    let rest = strip_back bytes in if is_blank rest && is_separator b then [] else b ∷ rest

abbrev onto_first : ℕ → List (List ℕ) → List (List ℕ)
onto_first b [] = (b ∷ []) ∷ []
onto_first b (t ∷ tokens) = (b ∷ t) ∷ tokens

abbrev fields : List ℕ → List (List ℕ)
fields [] = [] ∷ []
fields (b ∷ bytes) =
    let rest = fields bytes in if is_separator b then [] ∷ rest else onto_first b rest

abbrev split : List ℕ → List (List ℕ)
split [] = []
split (b ∷ bytes) = fields (b ∷ bytes)

abbrev same_bytes : List ℕ → List ℕ → Bool
same_bytes [] [] = true
same_bytes [] (c ∷ t) = false
same_bytes (b ∷ s) [] = false
same_bytes (b ∷ s) (c ∷ t) = leb b c && leb c b && same_bytes s t

abbrev bytes_glib : Control.Glib
bytes_glib = record {
  strstrip = λ line. strip_front (strip_back line);
  strsplit_set = split;
  same_word = same_bytes;
}

strip_front-clean :
    (line : List ℕ) (b : ℕ) (bytes : List ℕ) → strip_front line ≡ b ∷ bytes → is_separator b ≡ false
strip_front-clean [] b bytes e = absurd (ground (arith, e))
strip_front-clean (c ∷ line) b bytes e = elim (Bool-cases (is_separator c)) [
  | inl white ↦ strip_front-clean line b bytes (sym (if_true _ _ white) ∙ e)
  | inr other ↦ ap is_separator (ap (λ l. get_or l 0 0) (sym e ∙ if_false _ _ other)) ∙ other
]

onto_first-named :
    (b : ℕ) (l : List (List ℕ))
    → (t : List ℕ) × (tokens : List (List ℕ)) × (onto_first b l ≡ t ∷ tokens) × (is_blank t ≡ false)
onto_first-named b [] = (b ∷ [], [], refl, refl)
onto_first-named b (t ∷ tokens) = (b ∷ t, tokens, refl, refl)

bytes_glib-Documented : Documented bytes_glib
bytes_glib-Documented = record {
  stripped = λ line. strip_front-clean (strip_back line);
  split_blank = refl;
  split_first = λ b bytes h.
      let (t, tokens, e, named) = onto_first-named b (fields bytes) in
      (t, tokens, if_false _ _ h ∙ e, named);
}

-- " CONNECT  synth "
abbrev connect_line : List ℕ
connect_line =
    32 ∷ 67 ∷ 79 ∷ 78 ∷ 78 ∷ 69 ∷ 67 ∷ 84 ∷ 32 ∷ 9 ∷ 115 ∷ 121 ∷ 110 ∷ 116 ∷ 104 ∷ 32 ∷ []

command_parse-accept_example :
    command_parse bytes_glib connect_line
    ≡ some (record { type = connect; device = some (115 ∷ 121 ∷ 110 ∷ 116 ∷ 104 ∷ []) })
unfolding type_from_token
command_parse-accept_example = command_parse-accept bytes_glib connect_line bytes_glib-Documented
