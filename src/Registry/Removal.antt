-- ===== src/Registry/Removal.antt =====
-- mb_daemon_remove_session_by_device_path of src/mb-session.c.
use Prim.Native.String.{String}
use text.Mathlib.Text.{◌==◌}
use text.Mathlib.TextEquality.{eq_iff}
use midi_ble_rt.Base.{
  false, Bool, true, ℕ, ◌≡◌, ◌≢◌, inl, inr, Bool-cases, Option-cases, refl, if_true, if_false, sym,
  ap, subst, ◌∙◌, Option, none, some, arith,
}
use midi_ble_rt.Session.{Session}
use midi_ble_rt.Registry.{Registry, remove_session, remove_at, remove_found, assign, store}
use midi_ble_rt.Registry.Tables.{remove_address, remove_address_lem, with_text_keeps, store_other}
use midi_ble_rt.Registry.Valid.{Valid}
use midi_ble_rt.Registry.Ensure.{paths-Bears, addresses-Bears}

-- What a removal is to bring about.
abbrev pub Removed : String → Option (Bool × Registry) → Type 0
Removed path result =
    (ok : Bool) × (q : Registry) × (result ≡ some (ok, q)) × Valid q × (q.by_path path ≡ none)

module _ (r : Registry) (path : String) (s : ℕ) (x : Session) (v : Valid r)
    (stands : r.by_path path ≡ some s) (live : r.heap s ≡ some x) where
  -- No entry of the table of paths leads to the session any more.
  path_gone :
      (k : String) (t : ℕ)
      → assign r.by_path path none k ≡ some t
      → (t ≢ s) × (r.by_path k ≡ some t)
  path_gone k t e = elim (Bool-cases (k == path)) [
    | inl hit ↦ ground (arith, e, hit)
    | inr miss ↦
        let there : r.by_path k ≡ some t =
          sym (if_false {t = k == path} none (r.by_path k) miss) ∙ e in
        (
          λ same.
              let mine =
                sym (paths-Bears r s x v live path stands)
                ∙ paths-Bears r s x v live k (there ∙ ap some same) in
              ground (arith, mine, miss, eq_iff k path),
          there,
        )
  ]

  remove_at-Removed : Removed path (remove_at r path s (some x))
  remove_at-Removed =
      let removed = remove_address r x.address in
      let q = record removed { heap = store r.heap s none; by_path = assign r.by_path path none } in
      let address_gone =
        remove_address_lem r s x.address (addresses-Bears r s x v live) v.no_blank_address in
      (
        true,
        q,
        refl,
        record {
          paths = λ k t e.
              let (other, there) = path_gone k t e in
              let (y, at, bears) = v.paths k t there in
              (y, store_other r.heap s t none other ∙ at, bears);
          addresses = λ k t e.
              let (other, there) = address_gone k t e in
              let (y, at, bears) = v.addresses k t there in
              (y, store_other r.heap s t none other ∙ at, bears);
          no_blank_path = elim (Option-cases (q.by_path "")) [
            | inl nothing ↦ nothing
            | inr (t, e) ↦ absurd (ground (arith, (path_gone "" t e).1, v.no_blank_path))
          ];
          no_blank_address = elim (Option-cases (q.by_address "")) [
            | inl nothing ↦ nothing
            | inr (t, e) ↦ absurd (ground (arith, (address_gone "" t e).1, v.no_blank_address))
          ];
          bounded = λ t h.
              let kept : removed.next ≡ r.next =
                with_text_keeps (λ u. u.next) x.address r
                  (λ o. record r { by_address = assign r.by_address o none }) (λ o. refl) in
              ground (arith, v.bounded t (omega (arith, h, kept)));
        },
        if_true {t = path == path} none (r.by_path path) (ground (arith, eq_iff path path)),
      )

-- On a valid registry, removing the session at a path uses no freed session, leaves a valid
-- registry, in which no entry leads to the session that was freed, and nothing stands at the path.
pub remove_session-Removed :
    (r : Registry) (path : String) → Valid r → Removed path (remove_session r path)
unfolding remove_session
remove_session-Removed r path v = elim (Option-cases (r.by_path path)) [
  | inl nobody ↦
      subst (Removed path) (sym (ap (remove_found r path) nobody)) (false, r, refl, v, nobody)
  | inr (s, stands) ↦
      let (x, live, bears) = v.paths path s stands in
      subst (Removed path) (sym (ap (remove_found r path) stands ∙ ap (remove_at r path s) live))
        (remove_at-Removed r path s x v stands live)
]
