-- ===== src/Tests/Clients.antt =====
-- The theorems on the clients of the daemon, on BlueZ and on the diagnostics, at concrete inputs.
use Prim.Native.String.{String}
use text.Mathlib.Text.{◌==◌}
use midi_ble_rt.Base.{
  ℕ, zero, suc, ◌+◌, ◌≡◌, ◌≤◌, pos, refl, Bool, true, false, none, some, Option, List, [], ◌∷◌,
  get_elem?, arith,
}
use midi_ble_rt.Duplex
use midi_ble_rt.SliceRing
use midi_ble_rt.Runtime.{flow_init}
use midi_ble_rt.Session.{streaming}
use midi_ble_rt.Startup.{Runtime}
use midi_ble_rt.Lifecycle.{fresh}
use midi_ble_rt.Inventory.{Member, find_device_by_id}
use midi_ble_rt.DeviceStats.{stats_init}
use midi_ble_rt.Inventory.Forget.{Daemon, forget_device, unlinked}
use midi_ble_rt.Inventory.Forgotten.{Forgotten, forget_device-Forgotten}
use midi_ble_rt.Inventory.Server.{Glib, Served, handle_request}
use midi_ble_rt.Inventory.Requests.{IsTrue, handle_request-IsTrue}
use midi_ble_rt.Latency.Window.{LatencyState, configure}
use midi_ble_rt.Latency.Windows.{Call, record_all, held, reported, Works, record_all-Counted}
use midi_ble_rt.Discovery
use midi_ble_rt.Discovery.{
  Object, Characteristic, Device1, discovery_find, find_characteristic, is_official,
}
use midi_ble_rt.Discovery.Priority.{class, discovery_find-class}
use midi_ble_rt.Discovery.Preferred.{find_characteristic-is_official, find_characteristic-alias}
use midi_ble_rt.Bluez.{in_progress, connect_device}
use midi_ble_rt.Bluez.Waiting.{any_within, Connected, connect_device-Connected}
use midi_ble_rt.Tests.Sessions.{playing_device, playing_device-Ok}
use midi_ble_rt.Tests.Daemon.{with_port, all_goes_well, in_reach}

abbrev a_piano : Member
a_piano = record {
  dev = 4;
  id = some "piano";
  address = some "AA:BB";
  name = none;
  removed = false;
}

abbrev a_runtime : Runtime
a_runtime = record with_port { device = playing_device }

abbrev a_daemon : Daemon
a_daemon = record {
  members = a_piano ∷ [];
  lifecycle = fresh;
  devices = λ i. a_runtime;
  stats = λ i. stats_init;
  exports = true;
}

a_piano-found : find_device_by_id (a_piano ∷ []) (some "piano") ≡ some a_piano
unfolding find_device_by_id
a_piano-found = refl

forget_device-Forgotten_example :
    let (ok, t) = forget_device a_daemon (some "piano") unlinked 30 31 in
    (ok ≡ true) × Forgotten a_daemon t 4 31 all_goes_well in_reach
unfolding Duplex.init flow_init SliceRing.init
forget_device-Forgotten_example =
    forget_device-Forgotten a_daemon (some "piano") a_piano unlinked 30 31 all_goes_well in_reach
      a_piano-found refl playing_device-Ok (λ h. (refl, refl))

abbrev plain_glib : Glib
plain_glib = record { strstrip = λ t. t; same_word = λ a b. a == b }

abbrev a_server : Served
a_server = record {
  members = a_piano ∷ [];
  shown = λ i. record { state = streaming; alsa_port = pos 0; rx_works = true; tx_works = true };
  alsa_tx_running = true;
  lifecycle = fresh;
}

handle_request-IsTrue_example : IsTrue fresh (handle_request plain_glib a_server "CONNECT piano")
handle_request-IsTrue_example = handle_request-IsTrue plain_glib a_server "CONNECT piano"

abbrev two_items : List Call
two_items =
    record {
      tx = false;
      times = record { queued_ns = 5; consume_started_ns = 7; consume_finished_ns = 9 };
    }
    ∷ record {
      tx = false;
      times = record { queued_ns = 6; consume_started_ns = 7; consume_finished_ns = 2000000000 };
    }
    ∷ []

abbrev diagnosing : LatencyState
diagnosing = (configure true 1000 true 3).1

diagnosing-Works : Works diagnosing
unfolding configure
diagnosing-Works = record { flagged = refl; enabled = refl; has_path = refl }

record_all-Counted_example :
    let (windows, t) = record_all false diagnosing two_items in
    (windows.0 + (held false t).0 ≡ (held false diagnosing).0 + reported false two_items)
    × (windows.1 + (held false t).1 ≡ (held false diagnosing).1 + reported false two_items)
unfolding configure
record_all-Counted_example =
    record_all-Counted false two_items diagnosing diagnosing-Works (omega arith) (omega arith)

abbrev exact_glib : Discovery.Glib
exact_glib = record { same_nocase = λ a b. a == b; contains_nocase = λ a b. a == b }

abbrev nothing_at : String → Object
nothing_at path = record { path = path; service = none; characteristic = none; device = none }

abbrev named : Device1
named = record { address = some "CC:DD"; name = some "midi"; alias = none; uuids = none }

abbrev wanted : Device1
wanted = record { address = some "AA:BB"; name = none; alias = none; uuids = none }

abbrev two_devices : List Object
two_devices =
    record (nothing_at "/dev_1") { device = some named }
    ∷ record (nothing_at "/dev_2") { device = some wanted }
    ∷ []

discovery_find-class_example :
    (found : Object) × (e : Device1) × (at : ℕ) × (discovery_find exact_glib two_devices
        (some "AA:BB")
        (some "midi")
        "u"
      ≡ some found.path)
    × (get_elem? two_devices at ≡ some found)
    × (found.device ≡ some e)
    × (class exact_glib wanted (some "AA:BB") "u" ≤ class exact_glib e (some "AA:BB") "u")
discovery_find-class_example =
    discovery_find-class exact_glib two_devices (some "AA:BB") (some "midi") "u" 1
      (record (nothing_at "/dev_2") { device = some wanted }) wanted refl refl refl

abbrev chrc : String → List String → Characteristic
chrc uuid flags = record { uuid = some uuid; service = some "/d/s"; flags = some flags }

abbrev official_full : Object
official_full = record (nothing_at "/d/s/1") {
  characteristic = some (chrc "io" ("notify" ∷ "write-without-response" ∷ []));
}

abbrev official_poor : Object
official_poor = record (nothing_at "/d/s/1") {
  characteristic = some (chrc "io" ("notify" ∷ "write" ∷ "read" ∷ []));
}

abbrev aliased : Object
aliased = record (nothing_at "/d/s/2") {
  characteristic = some (chrc "other" ("notify" ∷ "write-without-response" ∷ []));
}

find_characteristic-is_official_example :
    (found : Object) × (e : Characteristic) × (at : ℕ) × (find_characteristic exact_glib
        (aliased ∷ official_full ∷ [])
        "/d"
        "/d/s"
        "io"
        (some "other")
      ≡ some found.path)
    × (get_elem? (aliased ∷ official_full ∷ []) at ≡ some found)
    × (found.characteristic ≡ some e)
    × (is_official exact_glib e "io" ≡ true)
find_characteristic-is_official_example =
    find_characteristic-is_official exact_glib (aliased ∷ official_full ∷ []) "/d" "/d/s" "io"
      (some "other") 1 official_full (chrc "io" ("notify" ∷ "write-without-response" ∷ [])) refl
      refl refl refl refl refl refl

find_characteristic-alias_example :
    find_characteristic exact_glib (official_poor ∷ aliased ∷ []) "/d" "/d/s" "io" (some "other")
    ≡ some "/d/s/2"
find_characteristic-alias_example =
    find_characteristic-alias exact_glib "/d" "/d/s" "io" "other" official_poor aliased
      (chrc "io" ("notify" ∷ "write" ∷ "read" ∷ []))
      (chrc "other" ("notify" ∷ "write-without-response" ∷ [])) refl refl refl refl refl refl refl
      refl refl refl refl refl refl

-- The third reading says that the device is connected.
abbrev third : ℕ → Option Bool
third (suc (suc zero)) = some true
third _ = some false

connect_device-Connected_example :
    Connected false in_progress
      (any_within 60 third)
      (connect_device (some false) in_progress third)
connect_device-Connected_example = connect_device-Connected (some false) in_progress third
