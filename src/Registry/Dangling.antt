-- ===== src/Registry/Dangling.antt =====
-- What src/mb-session.c does when a session is moved to the path of another.
use Prim.Native.String.{String}
use text.Mathlib.Text.{◌==◌}
use text.Mathlib.TextEquality.{eq_iff}
use midi_ble_rt.Base.{
  ℕ, ◌≡◌, ◌≢◌, inl, inr, Bool-cases, refl, if◌then◌else◌, if_true, if_false, sym, ap, ap₂, subst,
  ◌∙◌, Option, none, some, arith,
}
use midi_ble_rt.Session.{set_identity}
use midi_ble_rt.Registry.{
  known_by_address, ensure_session, ensure_by_address, ensure_found, replace_path, same_text,
  is_pointer, steal_path_index, reindex_device_path, reindex_address, Registry, assign, store,
}
use midi_ble_rt.Registry.Tables.{some_inj, store_self, reindex_address_keeps, with_text_keeps}
use midi_ble_rt.Registry.Paths.{steal, steal_keeps}
use midi_ble_rt.Registry.Valid.{Valid}
use midi_ble_rt.Registry.Ensure.{dup_or_null_text}

-- An entry of the new path is not given up.
steal_at :
    (r : Registry) (s : ℕ) (p : String) (old : Option String)
    → (steal r s p old).by_path p ≡ r.by_path p
unfolding steal_path_index
steal_at r s p none = refl
steal_at r s p (some o) =
    with_text_keeps (λ q. q.by_path p) (some o) r
      (λ o. if same_text o (some p) then r else steal_path_index r o s)
      (λ o. elim (Bool-cases (o == p)) [
        | inl stays ↦ ap (λ q. q.by_path p) (if_true {t = o == p} r (steal_path_index r o s) stays)
        | inr moves ↦
            ap (λ q. q.by_path p) (if_false {t = o == p} r (steal_path_index r o s) moves)
            ∙ elim (Bool-cases (is_pointer (r.by_path o) s)) [
              | inl his ↦
                  ap (λ q. q.by_path p)
                    (if_true {t = is_pointer (r.by_path o) s}
                      (record r { by_path = assign r.by_path o none }) r his)
                  ∙ if_false {t = p == o} none (r.by_path p)
                      (ground (arith, moves, eq_iff o p, eq_iff p o))
              | inr hers ↦
                  ap (λ q. q.by_path p)
                    (if_false {t = is_pointer (r.by_path o) s}
                      (record r { by_path = assign r.by_path o none }) r hers)
            ]
      ])

-- The session that stands at the path is freed, and its address is left as it is.
reindex_device_path-frees :
    (r : Registry) (s t : ℕ) (p : String) (old : Option String)
    → p ≢ ""
    → r.by_path p ≡ some t
    → t ≢ s
    → let q = reindex_device_path r s (some p) old in
      (q.heap t ≡ none) × (q.by_address ≡ r.by_address)
unfolding reindex_device_path
reindex_device_path-frees r s t p old text stands other =
    let stolen = steal r s p old in
    let at : stolen.by_path p ≡ some t = steal_at r s p old ∙ stands in
    let put =
      if is_pointer (stolen.by_path p) s
      then stolen
      else replace_path stolen p s (stolen.by_path p) in
    let reached : reindex_device_path r s (some p) old ≡ replace_path stolen p s (some t) =
      if_false {t = p == ""} stolen put (ground (arith, text, eq_iff p ""))
      ∙ if_false {t = is_pointer (stolen.by_path p) s} stolen
          (replace_path stolen p s (stolen.by_path p)) (ap (λ o. is_pointer o s) at ∙ ground arith)
      ∙ ap (replace_path stolen p s) at in
    (
      ap (λ q. q.heap t) reached ∙ store_self stolen.heap t none,
      ap (λ q. q.by_address) reached ∙ steal_keeps (λ q. q.by_address) r s p old (λ q u. refl),
    )

-- An address that is given again leaves the others.
reindex_address_other :
    (r : Registry) (s : ℕ) (a b : String)
    → a ≢ ""
    → b ≢ a
    → (reindex_address r s (some a) (some a)).by_address b ≡ r.by_address b
unfolding reindex_address
reindex_address_other r s a b text other = ground (arith, text, other, eq_iff a "", eq_iff b a)

filled :
    (table : String → Option ℕ) (k : String) (s : ℕ) → table "" ≡ none → table k ≡ some s → k ≢ ""
filled table k s blank there e =
    let clash : none ≡ some s = sym blank ∙ ap table (sym e) ∙ there in ground (arith, clash)

-- A lookup of an address that is in the table.
known :
    (r : Registry) (a : String) (s : ℕ)
    → a ≢ ""
    → r.by_address a ≡ some s
    → known_by_address r (some a) ≡ some s
known r a s text there =
    if_false {t = a == ""} none (r.by_address a) (ground (arith, text, eq_iff a "")) ∙ there

-- An address that leads to a freed session brings the next call to it.
uses_freed :
    (q : Registry) (b : String) (t : ℕ)
    → b ≢ ""
    → q.by_address b ≡ some t
    → q.heap t ≡ none
    → (p : String) (n : Option String) → ensure_session q p (some b) n ≡ none
unfolding ensure_session ensure_by_address
uses_freed q b t text leads freed p n =
    ap (λ o. ensure_found q o p (some b) n) (known q b t text leads)
    ∙ ap (λ h. ensure_by_address q t h p (some b) n) freed

-- A session that is ensured under its address at a path where another session stands takes the
-- path, and the other is freed; but the other's address still leads to it, so the next call that
-- ensures a session under that address uses the freed one.
pub ensure_session-dangles :
    (r : Registry) (s t : ℕ) (path a b : String) (name : Option String)
    → Valid r
    → r.by_address a ≡ some s
    → r.by_address b ≡ some t
    → r.by_path path ≡ some t
    → t ≢ s
    → (q : Registry) × (ensure_session r path (some a) name ≡ some (q, s))
      × (q.by_address b ≡ some t)
      × (q.heap t ≡ none)
      × ((p : String) (n : Option String) → ensure_session q p (some b) n ≡ none)
unfolding ensure_session ensure_by_address set_identity
ensure_session-dangles r s t path a b name v named others stands other =
    let (x, live, bears) = v.addresses a s named in
    let y = set_identity x (some path) (some a) name in
    let written = record r { heap = store r.heap s (some y) } in
    let moved = reindex_device_path written s y.device_path x.device_path in
    let q = reindex_address moved s y.address x.address in
    let text = filled r.by_address a s v.no_blank_address named in
    let (freed, same) =
      subst
        (λ m.
          let u = reindex_device_path written s m x.device_path in
          (u.heap t ≡ none) × (u.by_address ≡ r.by_address))
        (sym (dup_or_null_text path (filled r.by_path path t v.no_blank_path stands)))
        (reindex_device_path-frees written s t path x.device_path
          (filled r.by_path path t v.no_blank_path stands) stands other) in
    let leads : q.by_address b ≡ some t =
      ap₂ (λ new old. (reindex_address moved s new old).by_address b) (dup_or_null_text a text)
        bears
      ∙ reindex_address_other moved s a b text
          (λ e. other (some_inj s t (sym named ∙ ap r.by_address (sym e) ∙ others)))
      ∙ ap (λ u. u b) same
      ∙ others in
    let gone : q.heap t ≡ none =
      ap (λ h. h t) (reindex_address_keeps (λ u. u.heap) moved s y.address x.address (λ u w. refl))
      ∙ freed in
    (
      q,
      ap (λ o. ensure_found r o path (some a) name) (known r a s text named)
          ∙ ap (λ h. ensure_by_address r s h path (some a) name) live,
      leads,
      gone,
      uses_freed q b t (filled r.by_address b t v.no_blank_address others) leads gone,
    )
