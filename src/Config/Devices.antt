-- ===== src/Config/Devices.antt =====
-- Which devices src/mb-config.c takes from the directory.
use Prim.Native.String.{String}
use text.Mathlib.Text.{◌==◌}
use text.Mathlib.TextEquality.{eq_iff}
use midi_ble_rt.Base.{
  ◌≡◌, ◌≢◌, refl, sym, ap, ◌∙◌, inl, inr, Bool-cases, if_true, if_false, Bool, true, false, not,
  ◌&&◌, ◌||◌, Option, none, some, List, [], ◌∷◌, ◌++◌, append_assoc, append-nil, if◌then◌else◌,
  arith,
}
use midi_ble_rt.Config.{
  Glib, KeyFile, Directory, DeviceConfig, Config, System, Loading, contains, add_device_if_valid,
  daemon_from_key_file, device_from_key_file, ini_names, load_device, load_devices, load_listed,
  load_from, config_load_dir,
}

-- A device counts if it is enabled and has an address.
abbrev pub is_valid : DeviceConfig → Bool
is_valid d = not (not d.enabled || d.address == "")

-- The devices without those of an identifier.
abbrev pub without_id : String → List DeviceConfig → List DeviceConfig
without_id id [] = []
without_id id (d ∷ ds) = if id == d.id then without_id id ds else d ∷ without_id id ds

-- The first device of each identifier; those without one all stay.
abbrev pub first_of_each : List DeviceConfig → List DeviceConfig
first_of_each [] = []
first_of_each (d ∷ ds) =
    d ∷ (if d.id == "" then first_of_each ds else without_id d.id (first_of_each ds))

-- The valid devices of the files that load, in the order of the names.
abbrev pub candidate :
    Glib → Config → String → Option KeyFile → List DeviceConfig → List DeviceConfig
candidate glib defaults name none ds = ds
candidate glib defaults name (some kf) ds =
    let d = device_from_key_file glib kf defaults (glib.without_suffix name) in
    if is_valid d then d ∷ ds else ds

abbrev pub candidates : Glib → Directory → Config → List String → List DeviceConfig
candidates glib dir defaults [] = []
candidates glib dir defaults (name ∷ names) =
    candidate glib defaults name (dir.device_file name) (candidates glib dir defaults names)

-- What is left of the devices that come when some identifiers were seen.
abbrev unseen : List String → List DeviceConfig → List DeviceConfig
unseen seen [] = []
unseen seen (d ∷ ds) =
    if not (d.id == "") && contains seen d.id then unseen seen ds else d ∷ unseen seen ds

unseen-without_seen :
    (seen : List String) (id : String) (ds : List DeviceConfig)
    → contains seen id ≡ true
    → id ≢ ""
    → unseen seen (without_id id ds) ≡ unseen seen ds
unseen-without_seen seen id [] h named = refl
unseen-without_seen seen id (d ∷ ds) h named = elim (Bool-cases (id == d.id)) [
  | inl same ↦
      let path : id ≡ d.id = ground (arith, eq_iff id d.id, same) in
      let seen_too : contains seen d.id ≡ true = ap (contains seen) (sym path) ∙ h in
      ground
        (arith, same, path, named, seen_too, eq_iff d.id "", unseen-without_seen seen id ds h named)
  | inr other ↦ ground (arith, other, unseen-without_seen seen id ds h named)
]

unseen-add :
    (seen : List String) (id : String) (ds : List DeviceConfig)
    → id ≢ ""
    → unseen (id ∷ seen) ds ≡ unseen seen (without_id id ds)
unseen-add seen id [] named = refl
unseen-add seen id (d ∷ ds) named =
    ground (arith, eq_iff id d.id, eq_iff d.id "", unseen-add seen id ds named)

unseen-nothing : (ds : List DeviceConfig) → unseen [] ds ≡ ds
unseen-nothing [] = refl
unseen-nothing (d ∷ ds) = ground (arith, unseen-nothing ds)

add_device_if_valid_skip :
    (l : Loading) (d : DeviceConfig) → is_valid d ≡ false → add_device_if_valid l d ≡ l
unfolding add_device_if_valid
add_device_if_valid_skip l d invalid =
    if_true {t = not d.enabled || d.address == ""} _ _ (ground (arith, invalid))

is_named : (d : DeviceConfig) → (d.id == "") ≡ false → d.id ≢ ""
is_named d named e = absurd (ground (arith, named, e, eq_iff d.id ""))

add_device_if_valid_lem :
    (l : Loading) (d : DeviceConfig) (ds : List DeviceConfig)
    → is_valid d ≡ true
    → (add_device_if_valid l d).devices ++ unseen (add_device_if_valid l d).seen (first_of_each ds)
      ≡ l.devices ++ unseen l.seen (first_of_each (d ∷ ds))
unfolding add_device_if_valid
add_device_if_valid_lem l d ds valid = elim (Bool-cases (d.id == "")) [
  | inl nameless ↦
      ground
        (arith, valid, nameless, append_assoc l.devices (d ∷ []) (unseen l.seen (first_of_each ds)))
  | inr named ↦ elim (Bool-cases (contains l.seen d.id)) [
    | inl seen ↦ ground (
      arith,
      valid,
      named,
      seen,
      unseen-without_seen l.seen d.id (first_of_each ds) seen (is_named d named),
    )
    | inr new ↦ ground (
      arith,
      valid,
      named,
      new,
      append_assoc l.devices (d ∷ []) (unseen (d.id ∷ l.seen) (first_of_each ds)),
      unseen-add l.seen d.id (first_of_each ds) (is_named d named),
    )
  ]
]

load_device_lem :
    (glib : Glib) (defaults : Config) (name : String) (file : Option KeyFile) (l : Loading)
    (ds : List DeviceConfig)
    → let next = load_device glib defaults name file l in
      next.devices ++ unseen next.seen (first_of_each ds)
      ≡ l.devices ++ unseen l.seen (first_of_each (candidate glib defaults name file ds))
unfolding add_device_if_valid
load_device_lem glib defaults name none l ds = refl
load_device_lem glib defaults name (some kf) l ds =
    let d = device_from_key_file glib kf defaults (glib.without_suffix name) in
    elim (Bool-cases (is_valid d)) [
      | inl valid ↦
          add_device_if_valid_lem l d ds valid
          ∙ sym (ap (λ t. l.devices ++ unseen l.seen (first_of_each t)) (if_true (d ∷ ds) ds valid))
      | inr invalid ↦
          ap (λ m. m.devices ++ unseen m.seen (first_of_each ds))
            (add_device_if_valid_skip l d invalid)
          ∙ sym (
              ap (λ t. l.devices ++ unseen l.seen (first_of_each t)) (if_false (d ∷ ds) ds invalid))
    ]

load_devices_lem :
    (glib : Glib) (dir : Directory) (defaults : Config) (names : List String) (l : Loading)
    → (load_devices glib dir defaults names l).devices
      ≡ l.devices ++ unseen l.seen (first_of_each (candidates glib dir defaults names))
unfolding load_devices
load_devices_lem glib dir defaults [] l = sym (append-nil l.devices)
load_devices_lem glib dir defaults (name ∷ names) l =
    load_devices_lem glib dir defaults names
      (load_device glib defaults name (dir.device_file name) l)
    ∙ load_device_lem glib defaults name (dir.device_file name) l
        (candidates glib dir defaults names)

-- When daemon.ini loads and the directory of the devices opens, the load succeeds, and its devices
-- are exactly the enabled devices with an address of the files that load, in the order of the
-- sorted names, where of those that share an identifier only the first stays.
pub config_load_dir-devices :
    (glib : Glib) (dir : Directory) (s : System) (kf : KeyFile) (names : List String)
    → dir.daemon_file ≡ some kf
    → dir.listing ≡ some names
    → ((config_load_dir glib dir s).0 ≡ true)
      × ((config_load_dir glib dir s).1.cfg.devices
          ≡ first_of_each (
              candidates glib dir
                (daemon_from_key_file glib kf)
                (glib.sort (ini_names glib names))))
unfolding config_load_dir
config_load_dir-devices glib dir s kf names loads opens =
    let result =
      ap (load_from glib dir s) loads
      ∙ ap (load_listed glib dir s (daemon_from_key_file glib kf)) opens in
    (
      ap (λ r. r.0) result,
      ap (λ r. r.1.cfg.devices) result
          ∙ load_devices_lem glib dir (daemon_from_key_file glib kf)
              (glib.sort (ini_names glib names)) (record { seen = []; devices = [] })
          ∙ unseen-nothing (
              first_of_each (
                candidates glib dir (daemon_from_key_file glib kf)
                  (glib.sort (ini_names glib names)))),
    )
