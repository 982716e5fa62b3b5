-- ===== src/Discovery/Preferred.antt =====
-- Which GATT characteristic the search of src/mb-gatt-midi.c prefers.
use Prim.Native.String.{String}
use text.Mathlib.Text.{◌==◌, starts_with}
use midi_ble_rt.Base.{
  some_same, none-some, ℕ, ◌≤◌, ◌<◌, ◌≡◌, refl, ◌∙◌, ap, ap₂, lt→ltb, true, false, not, Option,
  none, some, List, [], ◌∷◌, get_elem?, if_intro, if_true, if_false, arith,
}
use midi_ble_rt.Discovery.{
  Object, Characteristic, Glib, better, pick, path_of, points, both, is_official, notifies, writes,
  characteristic_score, rank_characteristic, find_characteristic, rank_in_service,
}
use midi_ble_rt.Discovery.Best.{pick-best}

module _ (glib : Glib) where
  -- What the score tells of a characteristic.
  official-beats :
      (c e : Characteristic) (io : String) (alias : Option String)
      → is_official glib c io ≡ true
      → notifies glib c ≡ true
      → writes glib c ≡ true
      → characteristic_score glib c io alias ≤ characteristic_score glib e io alias
      → is_official glib e io ≡ true
  unfolding characteristic_score
  official-beats c e io alias is n w h = ground (arith, is, n, w, h)

  in_service-some :
      (device_path service_path io : String) (alias : Option String) (o : Object)
      (c : Characteristic)
      → starts_with o.path device_path ≡ true
      → o.characteristic ≡ some c
      → both (λ a b. a == b) c.service (some service_path) ≡ true
      → rank_characteristic glib device_path service_path io alias o
        ≡ some (characteristic_score glib c io alias)
  unfolding rank_characteristic
  in_service-some device_path service_path io alias o c under is inside =
      if_false _ _ (ap not under)
      ∙ ap (rank_in_service glib service_path io alias) is
      ∙ if_true _ _ inside

  in_service-of :
      (service_path io : String) (alias : Option String) (characteristic : Option Characteristic)
      (n : ℕ)
      → rank_in_service glib service_path io alias characteristic ≡ some n
      → (c : Characteristic) × (characteristic ≡ some c)
        × (characteristic_score glib c io alias ≡ n)
  in_service-of service_path io alias none n e = absurd (cc)
  in_service-of service_path io alias (some c) n e =
      if_intro
        (λ r.
          r ≡ some n
          → (x : Characteristic) × (some c ≡ some x) × (characteristic_score glib x io alias ≡ n))
        (both (λ a b. a == b) c.service (some service_path)) (λ h e. (c, refl, some_same e))
        (λ h e. absurd (none-some e)) e

  characteristic_of :
      (device_path service_path io : String) (alias : Option String) (o : Object) (n : ℕ)
      → rank_characteristic glib device_path service_path io alias o ≡ some n
      → (c : Characteristic) × (o.characteristic ≡ some c)
        × (characteristic_score glib c io alias ≡ n)
  unfolding rank_characteristic
  characteristic_of device_path service_path io alias o n =
      if_intro
        (λ r.
          r ≡ some n
          → (x : Characteristic) × (o.characteristic ≡ some x)
            × (characteristic_score glib x io alias ≡ n))
        (not (starts_with o.path device_path)) (λ h e. absurd (none-some e))
        (λ h e. in_service-of service_path io alias o.characteristic n e)

  -- A characteristic with the official UUID that notifies (or indicates) and takes writes without a
  -- response is never passed over for one without that UUID: whenever the service of the device has
  -- such a one, the search finds one with the official UUID.
  pub find_characteristic-is_official :
      (objects : List Object) (device_path service_path io : String) (alias : Option String) (i : ℕ)
      (o : Object) (c : Characteristic)
      → get_elem? objects i ≡ some o
      → starts_with o.path device_path ≡ true
      → o.characteristic ≡ some c
      → both (λ a b. a == b) c.service (some service_path) ≡ true
      → is_official glib c io ≡ true
      → notifies glib c ≡ true
      → writes glib c ≡ true
      → (found : Object) × (e : Characteristic) × (at : ℕ) × (find_characteristic glib objects
            device_path service_path io alias
          ≡ some found.path)
        × (get_elem? objects at ≡ some found)
        × (found.characteristic ≡ some e)
        × (is_official glib e io ≡ true)
  unfolding find_characteristic
  find_characteristic-is_official objects device_path service_path io alias i o c there under is
        inside official n w =
      let score = rank_characteristic glib device_path service_path io alias in
      let (f, most) =
        pick-best score objects i o (characteristic_score glib c io alias) there
          (in_service-some device_path service_path io alias o c under is inside) in
      let (e, has, points) =
        characteristic_of device_path service_path io alias f.object f.points f.scored in
      (
        f.object,
        e,
        f.at,
        ap path_of f.is,
        f.there,
        has,
        official-beats c e io alias official n w (omega (arith, most, points)),
      )

  alias-beats :
      (c e : Characteristic) (io other : String)
      → both glib.same_nocase c.uuid (some other) ≡ false
      → writes glib c ≡ false
      → is_official glib e io ≡ false
      → both glib.same_nocase e.uuid (some other) ≡ true
      → notifies glib e ≡ true
      → writes glib e ≡ true
      → characteristic_score glib c io (some other) < characteristic_score glib e io (some other)
  unfolding characteristic_score
  alias-beats c e io other a w b d n x = ground (arith, a, w, b, d, n, x)

  -- The official UUID does not always win: one that takes no writes without a response is passed
  -- over for a later characteristic of the service that has the UUID of the alias, notifies (or
  -- indicates) and takes them.
  pub find_characteristic-alias :
      (device_path service_path io other : String) (o a : Object) (c e : Characteristic)
      → starts_with o.path device_path ≡ true
      → o.characteristic ≡ some c
      → both (λ a b. a == b) c.service (some service_path) ≡ true
      → is_official glib c io ≡ true
      → both glib.same_nocase c.uuid (some other) ≡ false
      → writes glib c ≡ false
      → starts_with a.path device_path ≡ true
      → a.characteristic ≡ some e
      → both (λ a b. a == b) e.service (some service_path) ≡ true
      → is_official glib e io ≡ false
      → both glib.same_nocase e.uuid (some other) ≡ true
      → notifies glib e ≡ true
      → writes glib e ≡ true
      → find_characteristic glib (o ∷ a ∷ []) device_path service_path io (some other) ≡ some a.path
  unfolding find_characteristic pick
  find_characteristic-alias device_path service_path io other o a c e under is inside official
        no_alias no_write under' is' inside' not_official alias n w =
      let beats = alias-beats c e io other no_alias no_write not_official alias n w in
      let less = lt→ltb _ _ beats in
      ap₂ (λ x y. path_of (better (better none o x) a y))
        (in_service-some device_path service_path io (some other) o c under is inside)
        (in_service-some device_path service_path io (some other) a e under' is' inside')
      ∙ ap path_of (if_true _ _ less)
