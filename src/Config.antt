-- ===== src/Config.antt =====
-- Reading the configuration: src/mb-config.c. The parser of key files, the directory and the string
-- functions of GLib are parameters; a text that is freed and the warnings are left out.
pub mod Devices
pub mod Settings
use Prim.Native.String.{String}
use text.Mathlib.Text.{◌==◌}
use midi_ble_rt.Base.{
  ℕ, Bool, true, false, not, ◌&&◌, ◌||◌, ltb, leb, Option, none, some, List, [], ◌∷◌, ◌++◌,
  if◌then◌else◌,
}
use midi_ble_rt.Rtkit.{Rtkit, rtkit_configure, default_priority, max_priority}

-- What the code uses of GLib: `g_strstrip`, `g_ascii_strcasecmp` as a test for equality,
-- `g_str_has_suffix (name, ".ini")`, `g_strndup` of all but the last four bytes, and
-- `g_ptr_array_sort` by `g_strcmp0`.
pub record Glib : Type 0 where
  pub strstrip : String → String
  pub same_word : String → String → Bool
  pub has_ini_suffix : String → Bool
  pub without_suffix : String → String
  pub sort : List String → List String

-- A GKeyFile that was loaded: a group and a key give a value, or an error.
pub record KeyFile : Type 0 where
  pub get_string : String → String → Option String
  pub get_uint64 : String → String → Option ℕ

-- The files under the directory: daemon.ini, the names in devices.d, and the file of a name.
pub record Directory : Type 0 where
  pub daemon_file : Option KeyFile
  pub listing : Option (List String)
  pub device_file : String → Option KeyFile

-- MbDeviceConfig
pub record DeviceConfig : Type 0 where
  pub id : String
  pub address : String
  pub name : String
  pub profile : String
  pub alsa_port_name : String
  pub enabled : Bool
  pub connect_on_start : Bool
  pub pair : Bool
  pub trust : Bool
  pub reconnect_on_link_loss : Bool
  pub enable_tx : Bool

-- MbConfig
pub record Config : Type 0 where
  pub address : String
  pub name : String
  pub pair : Bool
  pub trust : Bool
  pub reconnect_on_link_loss : Bool
  pub service_uuid : String
  pub io_uuid : String
  pub io_uuid_alias : String
  pub require_notify : Bool
  pub require_write_without_response : Bool
  pub alsa_client_name : String
  pub alsa_port_name : String
  pub print_ble_packets : Bool
  pub print_midi_events : Bool
  pub enable_tx : Bool
  pub stats_enabled : Bool
  pub stats_latency_diagnostics : Bool
  pub stats_interval_ms : ℕ
  pub rtkit_enabled : Bool
  pub rtkit_realtime_rx : Bool
  pub rtkit_realtime_tx : Bool
  pub rtkit_priority : ℕ
  pub devices : List DeviceConfig

-- The configuration, the settings of rtkit, and with what the latency diagnostics were configured
-- last.
pub record System : Type 0 where
  pub cfg : Config
  pub rtkit : Rtkit
  pub diagnostics : Bool × ℕ

abbrev pub default_interval_ms : ℕ
default_interval_ms = 1000

abbrev pub max_interval_ms : ℕ
max_interval_ms = 60000

-- `keyfile_get_string_default`
abbrev pub or_default : Option String → String → String
or_default none fallback = fallback
or_default (some value) fallback = value

-- `keyfile_get_uint_default`
abbrev pub uint_or_default : Option ℕ → ℕ → ℕ
uint_or_default none fallback = fallback
uint_or_default (some value) fallback =
    if not (ltb 0 value) || ltb max_interval_ms value then fallback else value

-- `keyfile_get_uint_range_default`
abbrev pub uint_in_range : Option ℕ → ℕ → ℕ → ℕ → ℕ
uint_in_range none fallback low high = fallback
uint_in_range (some value) fallback low high =
    if ltb value low || ltb high value then fallback else value

-- `str_nonempty_or`
abbrev pub nonempty_or : String → String → String
nonempty_or value fallback = if value == "" then fallback else value

abbrev pub contains : List String → String → Bool
contains [] id = false
contains (s ∷ seen) id = (s == id) || contains seen id

-- The identifiers seen so far and the devices taken so far.
pub record Loading : Type 0 where
  pub seen : List String
  pub devices : List DeviceConfig

-- `mb_config_add_device_if_valid`
unfoldable pub add_device_if_valid : Loading → DeviceConfig → Loading
add_device_if_valid l device =
    if not device.enabled || device.address == ""
    then l
    else if not (device.id == "") && contains l.seen device.id
    then l
    else record {
      seen = if device.id == "" then l.seen else device.id ∷ l.seen;
      devices = l.devices ++ (device ∷ []);
    }

module _ (glib : Glib) where
  -- `keyfile_get_bool_default`
  unfoldable pub bool_or_default : Option String → Bool → Bool
  bool_or_default none fallback = fallback
  bool_or_default (some raw) fallback =
      let value = glib.strstrip raw in
      if glib.same_word value "true"
        || glib.same_word value "yes"
        || glib.same_word value "on"
        || value == "1"
      then true
      else if glib.same_word value "false"
          || glib.same_word value "no"
          || glib.same_word value "off"
          || value == "0"
      then false
      else fallback

  -- `mb_config_load_daemon_from_key_file`, and the new array of devices
  unfoldable pub daemon_from_key_file : KeyFile → Config
  daemon_from_key_file kf = record {
    address = "";
    name = "";
    pair = bool_or_default (kf.get_string "defaults" "pair") false;
    trust = bool_or_default (kf.get_string "defaults" "trust") true;
    reconnect_on_link_loss =
        bool_or_default (kf.get_string "defaults" "reconnect_on_link_loss") true;
    service_uuid =
        or_default (kf.get_string "gatt" "service_uuid") "03b80e5a-ede8-4b33-a751-6ce34ec4c700";
    io_uuid = or_default (kf.get_string "gatt" "io_uuid") "7772e5db-3868-4112-a1a9-f2669d106bf3";
    io_uuid_alias = or_default (kf.get_string "gatt" "io_uuid_alias") "";
    require_notify = bool_or_default (kf.get_string "gatt" "require_notify") true;
    require_write_without_response =
        bool_or_default (kf.get_string "gatt" "require_write_without_response") true;
    alsa_client_name = or_default (kf.get_string "daemon" "client_name") "midi-ble-rt";
    alsa_port_name = or_default (kf.get_string "alsa" "port_name") "BLE-MIDI";
    print_ble_packets = bool_or_default (kf.get_string "debug" "print_ble_packets") false;
    print_midi_events = bool_or_default (kf.get_string "debug" "print_midi_events") false;
    enable_tx = bool_or_default (kf.get_string "defaults" "enable_tx") true;
    stats_enabled = bool_or_default (kf.get_string "stats" "enabled") true;
    stats_latency_diagnostics = bool_or_default (kf.get_string "stats" "latency_diagnostics") false;
    stats_interval_ms = uint_or_default (kf.get_uint64 "stats" "interval_ms") default_interval_ms;
    rtkit_enabled = bool_or_default (kf.get_string "realtime" "rtkit") false;
    rtkit_realtime_rx = bool_or_default (kf.get_string "realtime" "realtime_rx") true;
    rtkit_realtime_tx = bool_or_default (kf.get_string "realtime" "realtime_tx") false;
    rtkit_priority =
        uint_in_range (kf.get_uint64 "realtime" "rt_priority") default_priority 1 max_priority;
    devices = [];
  }

  -- `mb_device_config_from_key_file`, where `defaults` and `fallback_id` are given
  unfoldable pub device_from_key_file : KeyFile → Config → String → DeviceConfig
  device_from_key_file kf defaults fallback_id = record {
    id = or_default (kf.get_string "device" "id") fallback_id;
    address = or_default (kf.get_string "device" "address") "";
    name = or_default (kf.get_string "device" "name") "";
    profile = or_default (kf.get_string "device" "profile") "standard_ble_midi";
    alsa_port_name =
        or_default (kf.get_string "device" "alsa_port_name")
          (nonempty_or defaults.alsa_port_name "BLE-MIDI");
    enabled = bool_or_default (kf.get_string "device" "enabled") true;
    connect_on_start = bool_or_default (kf.get_string "device" "connect_on_start") false;
    pair = bool_or_default (kf.get_string "policy" "pair") defaults.pair;
    trust = bool_or_default (kf.get_string "policy" "trust") defaults.trust;
    reconnect_on_link_loss =
        bool_or_default (kf.get_string "policy" "reconnect_on_link_loss")
          defaults.reconnect_on_link_loss;
    enable_tx = bool_or_default (kf.get_string "midi" "enable_tx") defaults.enable_tx;
  }

  -- The loop over the names of the directory.
  abbrev pub ini_names : List String → List String
  ini_names [] = []
  ini_names (name ∷ names) =
      if glib.has_ini_suffix name then name ∷ ini_names names else ini_names names

  -- One turn of the loop over the files of the devices: a file that does not load is skipped.
  abbrev pub load_device : Config → String → Option KeyFile → Loading → Loading
  load_device defaults name none l = l
  load_device defaults name (some kf) l =
      add_device_if_valid l (device_from_key_file kf defaults (glib.without_suffix name))

  pub load_devices : Directory → Config → List String → Loading → Loading
  load_devices dir defaults [] l = l
  load_devices dir defaults (name ∷ names) l =
      load_devices dir defaults names (load_device defaults name (dir.device_file name) l)

  -- What a failure leaves.
  abbrev pub load_failed : System → Bool × System
  load_failed s = (
    false,
    record s { rtkit = rtkit_configure s.rtkit false 0 false false; diagnostics = (false, 0) },
  )

  abbrev pub load_succeeded : System → Config → Bool × System
  load_succeeded s cfg = (
    true,
    record {
      cfg = cfg;
      rtkit =
          rtkit_configure s.rtkit cfg.rtkit_enabled cfg.rtkit_priority cfg.rtkit_realtime_rx
            cfg.rtkit_realtime_tx;
      diagnostics = (cfg.stats_latency_diagnostics, cfg.stats_interval_ms);
    },
  )

  -- The part of `mb_config_load_dir` after daemon.ini was loaded.
  abbrev pub load_listed : Directory → System → Config → Option (List String) → Bool × System
  load_listed dir s tmp none = load_failed s
  load_listed dir s tmp (some names) =
      let loaded =
        load_devices dir tmp (glib.sort (ini_names names)) (record { seen = []; devices = [] }) in
      load_succeeded s (record tmp { devices = loaded.devices })

  abbrev pub load_from : Directory → System → Option KeyFile → Bool × System
  load_from dir s none = load_failed s
  load_from dir s (some kf) = load_listed dir s (daemon_from_key_file kf) dir.listing

  -- `mb_config_load_dir`: whether it succeeds, and what it leaves.
  unfoldable pub config_load_dir : Directory → System → Bool × System
  config_load_dir dir s = load_from dir s dir.daemon_file
