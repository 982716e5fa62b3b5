-- ===== src/Discovery.antt =====
-- What the daemon looks for among the objects of BlueZ: src/mb-device-discovery.c, and the searches
-- of src/mb-gatt-midi.c. The objects are given as BlueZ reports them; a property of another type is
-- none. The comparisons of GLib are parameters.
pub mod Best
pub mod Priority
pub mod Preferred
use Prim.Native.String.{String}
use text.Mathlib.Text.{◌==◌, starts_with}
use midi_ble_rt.Base.{
  ℕ, ◌+◌, Bool, true, false, not, ◌&&◌, ◌||◌, Option, none, some, List, [], ◌∷◌, if◌then◌else◌, ltb,
}

-- The properties of a GattCharacteristic1 and of a Device1.
pub record Characteristic : Type 0 where
  pub uuid : Option String
  pub service : Option String
  pub flags : Option (List String)

pub record Device1 : Type 0 where
  pub address : Option String
  pub name : Option String
  pub alias : Option String
  pub uuids : Option (List String)

-- An object: its path, the UUID of its GattService1, if it has that interface, and the others.
pub record Object : Type 0 where
  pub path : String
  pub service : Option (Option String)
  pub characteristic : Option Characteristic
  pub device : Option Device1

-- `g_ascii_strcasecmp (a, b) == 0`, and whether a text contains another in whatever case.
pub record Glib : Type 0 where
  pub same_nocase : String → String → Bool
  pub contains_nocase : String → String → Bool

-- The loop that keeps the object of the highest score: an object without a score is passed over,
-- and an equal score does not replace the one that was found before.
abbrev pub better : Option (Object × ℕ) → Object → Option ℕ → Option (Object × ℕ)
better best o none = best
better none o (some score) = some (o, score)
better (some (b, best_score)) o (some score) =
    if ltb best_score score then some (o, score) else some (b, best_score)

pub pick : (Object → Option ℕ) → Option (Object × ℕ) → List Object → Option (Object × ℕ)
pick score best [] = best
pick score best (o ∷ objects) = pick score (better best o (score o)) objects

abbrev pub path_of : Option (Object × ℕ) → Option String
path_of none = none
path_of (some (o, score)) = some o.path

abbrev pub points : Bool → ℕ → ℕ
points test n = if test then n else 0

abbrev pub is_given : Option String → Bool
is_given none = false
is_given (some t) = not (t == "")

abbrev pub any : (String → Bool) → List String → Bool
any test [] = false
any test (t ∷ texts) = test t || any test texts

abbrev pub array_has : (String → Bool) → Option (List String) → Bool
array_has test none = false
array_has test (some texts) = any test texts

-- `a && b && test (a, b)`
abbrev pub both : (String → String → Bool) → Option String → Option String → Bool
both test none b = false
both test (some a) none = false
both test (some a) (some b) = test a b

module _ (glib : Glib) where
  -- `mb_gatt_midi_find_service`
  pub find_service : List Object → String → String → Option String
  find_service [] device_path uuid = none
  find_service (o ∷ objects) device_path uuid =
      let rest = find_service objects device_path uuid in
      if not (starts_with o.path device_path) then rest else elim o.service [
        | none ↦ rest
        | some u ↦ if both glib.same_nocase u (some uuid) then some o.path else rest
      ]

  -- `mb_bluez_find_device_path_by_address`, for an address that is there, among the objects.
  pub find_device_path : List Object → String → Option String
  find_device_path [] address = none
  find_device_path (o ∷ objects) address =
      let rest = find_device_path objects address in
      elim o.device [
        | none ↦ rest
        | some d ↦ if both glib.same_nocase d.address (some address) then some o.path else rest
      ]

  -- What tells the characteristics of a service apart.
  abbrev pub is_official : Characteristic → String → Bool
  is_official c io_uuid = both glib.same_nocase c.uuid (some io_uuid)

  abbrev pub has_flag : Characteristic → String → Bool
  has_flag c flag = array_has (λ f. f == flag) c.flags

  abbrev pub notifies : Characteristic → Bool
  notifies c = has_flag c "notify" || has_flag c "indicate"

  abbrev pub writes : Characteristic → Bool
  writes c = has_flag c "write-without-response"

  unfoldable pub characteristic_score : Characteristic → String → Option String → ℕ
  characteristic_score c io_uuid io_uuid_alias =
      let official = is_official c io_uuid in
      let alias = both glib.same_nocase c.uuid io_uuid_alias in
      points official 1000
      + points alias 950
      + points (notifies c) 100
      + points (writes c) 100
      + points (has_flag c "write") 20
      + points (has_flag c "read") 20
      + points (not official && not alias && notifies c && writes c) 500

  -- The score of an object, if it is a characteristic of the service.
  abbrev pub rank_in_service :
      (service_path io_uuid : String) → Option String → Option Characteristic → Option ℕ
  rank_in_service service_path io_uuid io_uuid_alias none = none
  rank_in_service service_path io_uuid io_uuid_alias (some c) =
      if both (λ a b. a == b) c.service (some service_path)
      then some (characteristic_score c io_uuid io_uuid_alias)
      else none

  unfoldable pub rank_characteristic :
      (device_path service_path io_uuid : String) → Option String → Object → Option ℕ
  rank_characteristic device_path service_path io_uuid io_uuid_alias o =
      if not (starts_with o.path device_path)
      then none
      else rank_in_service service_path io_uuid io_uuid_alias o.characteristic

  -- `mb_gatt_midi_find_characteristic`
  unfoldable pub find_characteristic :
      List Object → (device_path service_path io_uuid : String) → Option String → Option String
  unfolding rank_characteristic pick
  find_characteristic objects device_path service_path io_uuid io_uuid_alias =
      path_of
        (pick (rank_characteristic device_path service_path io_uuid io_uuid_alias) none objects)

  abbrev pub contains : Option String → String → Bool
  contains none needle = false
  contains (some text) needle = not (needle == "") && glib.contains_nocase text needle

  abbrev pub matches_name : Device1 → Option String → Bool
  matches_name d none = false
  matches_name d (some filter) =
      not (filter == "") && (contains d.name filter || contains d.alias filter)

  abbrev pub has_address : Device1 → Option String → Bool
  has_address d filter = is_given filter && both glib.same_nocase d.address filter

  abbrev pub has_uuid : Device1 → String → Bool
  has_uuid d uuid = array_has (λ u. glib.same_nocase u uuid) d.uuids

  unfoldable pub device_score : Device1 → (address_filter : Option String) → String → ℕ
  device_score d address_filter uuid =
      points (has_address d address_filter) 10000
      + points (has_uuid d uuid) 1000
      + points (contains d.name "midi") 100
      + points (contains d.alias "midi") 100

  abbrev pub rank_device1 :
      (address_filter name_filter : Option String) → String → Option Device1 → Option ℕ
  rank_device1 address_filter name_filter uuid none = none
  rank_device1 address_filter name_filter uuid (some d) =
      if has_address d address_filter || matches_name d name_filter || has_uuid d uuid
      then some (device_score d address_filter uuid)
      else none

  unfoldable pub rank_device :
      (address_filter name_filter : Option String) → String → Object → Option ℕ
  rank_device address_filter name_filter uuid o =
      rank_device1 address_filter name_filter uuid o.device

  -- `mb_device_discovery_find`
  unfoldable pub discovery_find :
      List Object → (address_filter name_filter : Option String) → String → Option String
  unfolding rank_device pick
  discovery_find objects address_filter name_filter uuid =
      path_of (pick (rank_device address_filter name_filter uuid) none objects)
