-- ===== src/Inventory/ConfigFiles.antt =====
-- The search of src/mb-daemon.c for the file that configures a device. The names in the directory
-- and what the key files hold are given, as is GLib's comparison of texts without their case.
use Prim.Native.String.{String}
use text.Mathlib.Text.{◌==◌}
use midi_ble_rt.Base.{
  Bool, false, not, ◌&&◌, ◌||◌, Option, none, some, List, [], ◌∷◌, if◌then◌else◌,
}

-- What `id` and `address` of the group `device` are.
pub record KeyFile : Type 0 where
  pub id : Option String
  pub address : Option String

-- A name in the directory, and its key file, if it loads.
pub record File : Type 0 where
  pub name : String
  pub contents : Option KeyFile

abbrev pub is_there : Option String → Bool
is_there none = false
is_there (some t) = not (t == "")

-- What the code uses of GLib: `g_ascii_strcasecmp (a, b) == 0`, and `g_str_has_suffix`.
module _ (same_nocase has_suffix : String → String → Bool) where
  abbrev pub equals : (String → String → Bool) → Option String → Option String → Bool
  equals test none b = false
  equals test (some a) none = false
  equals test (some a) (some b) = test a b

  abbrev pub key_file_matches : KeyFile → Option String → Option String → Bool
  key_file_matches file id address =
      let by_id =
        is_there id && (equals (λ a b. a == b) file.id id || equals same_nocase file.address id) in
      if not by_id && is_there address then equals same_nocase file.address address else by_id

  unfoldable pub config_file_matches_device : Option KeyFile → Option String → Option String → Bool
  config_file_matches_device none id address = false
  config_file_matches_device (some file) id address = key_file_matches file id address

  -- The loop of `runtime_dbus_find_device_config_path`, over the directory, if it opens.
  pub find_config : List File → Option String → Option String → Option String
  unfolding config_file_matches_device
  find_config [] id address = none
  find_config (f ∷ files) id address =
      let rest = find_config files id address in
      if not (has_suffix f.name ".ini")
      then rest
      else if config_file_matches_device f.contents id address
      then some f.name
      else rest
