-- ===== src/Discovery/Priority.antt =====
-- Which device of BlueZ the search of src/mb-device-discovery.c prefers.
use Prim.Native.String.{String}
use midi_ble_rt.Base.{
  some_same, none-some, ℕ, ◌≤◌, ◌≡◌, refl, ◌∙◌, ap, Bool, true, ◌||◌, Option, none, some, List,
  get_elem?, if◌then◌else◌, if_intro, if_true, arith,
}
use midi_ble_rt.Discovery.{
  Object, Device1, Glib, path_of, points, has_address, has_uuid, matches_name, device_score,
  rank_device, rank_device1, discovery_find,
}
use midi_ble_rt.Discovery.Best.{pick-best}

module _ (glib : Glib) where
  -- How the documentation of the code ranks devices: by address, by the service's UUID, by name.
  abbrev pub class : Device1 → Option String → String → ℕ
  class d address uuid =
      if has_address glib d address then 2 else if has_uuid glib d uuid then 1 else 0

  class-score :
      (d e : Device1) (address : Option String) (uuid : String)
      → device_score glib d address uuid ≤ device_score glib e address uuid
      → class d address uuid ≤ class e address uuid
  unfolding device_score
  class-score d e address uuid h = ground (arith, h)

  -- A candidate: it has the address, the name or the UUID that is looked for.
  abbrev pub is_candidate : Device1 → Option String → Option String → String → Bool
  is_candidate d address name uuid =
      has_address glib d address || matches_name glib d name || has_uuid glib d uuid

  rank_device-some :
      (address name : Option String) (uuid : String) (o : Object) (d : Device1)
      → o.device ≡ some d
      → is_candidate d address name uuid ≡ true
      → rank_device glib address name uuid o ≡ some (device_score glib d address uuid)
  unfolding rank_device
  rank_device-some address name uuid o d e c =
      ap (rank_device1 glib address name uuid) e ∙ if_true _ _ c

  rank_device1-of :
      (address name : Option String) (uuid : String) (device : Option Device1) (n : ℕ)
      → rank_device1 glib address name uuid device ≡ some n
      → (d : Device1) × (device ≡ some d) × (device_score glib d address uuid ≡ n)
  rank_device1-of address name uuid none n e = absurd (cc)
  rank_device1-of address name uuid (some d) n e =
      if_intro
        (λ r.
          r ≡ some n → (x : Device1) × (some d ≡ some x) × (device_score glib x address uuid ≡ n))
        (is_candidate d address name uuid) (λ h e. (d, refl, some_same e))
        (λ h e. absurd (none-some e)) e

  device_of :
      (address name : Option String) (uuid : String) (o : Object) (n : ℕ)
      → rank_device glib address name uuid o ≡ some n
      → (d : Device1) × (o.device ≡ some d) × (device_score glib d address uuid ≡ n)
  unfolding rank_device
  device_of address name uuid o n e = rank_device1-of address name uuid o.device n e

  -- No device of a higher rank is passed over: whenever a device of BlueZ has the address, the name
  -- or the UUID that is looked for, one is found, and it is a device of the same rank or of a
  -- higher one, where the address that is configured ranks above the UUID of the service, and that
  -- above a name.
  pub discovery_find-class :
      (objects : List Object) (address name : Option String) (uuid : String) (i : ℕ) (o : Object)
      (d : Device1)
      → get_elem? objects i ≡ some o
      → o.device ≡ some d
      → is_candidate d address name uuid ≡ true
      → (found : Object) × (e : Device1) × (at : ℕ) × (discovery_find glib objects address name uuid
          ≡ some found.path)
        × (get_elem? objects at ≡ some found)
        × (found.device ≡ some e)
        × (class d address uuid ≤ class e address uuid)
  unfolding discovery_find
  discovery_find-class objects address name uuid i o d there is c =
      let score = rank_device glib address name uuid in
      let (f, most) =
        pick-best score objects i o (device_score glib d address uuid) there
          (rank_device-some address name uuid o d is c) in
      let (e, has, points) = device_of address name uuid f.object f.points f.scored in
      (
        f.object,
        e,
        f.at,
        ap path_of f.is,
        f.there,
        has,
        class-score d e address uuid (omega (arith, most, points)),
      )
