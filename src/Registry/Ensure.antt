-- ===== src/Registry/Ensure.antt =====
-- mb_daemon_ensure_session of src/mb-session.c on a valid registry.
use Prim.Native.String.{String}
use text.Mathlib.Text.{◌==◌}
use text.Mathlib.TextEquality.{eq_iff}
use midi_ble_rt.Base.{
  false, Bool, leb, true, suc, ℕ, ◌≤◌, ◌≡◌, ◌≢◌, inl, inr, Bool-cases, Option-cases, refl, ◌+◌,
  if_true, if_false, sym, ap, subst, ◌∙◌, Option, none, some, arith,
}
use midi_ble_rt.Session.{Session, init, set_identity, dup_or_null}
use midi_ble_rt.Registry.{
  ensure_at_path, ensure_found, known_by_address, ensure_by_path, add_session, ensure_session,
  ensure_by_address, reindex_device_path, reindex_address, Registry, same_pointer, assign, store,
}
use midi_ble_rt.Registry.Tables.{Follows, Bears, some_inj, reindex_address-Readdressed}
use midi_ble_rt.Registry.Paths.{IsFree, Moved, reindex_device_path-Moved}
use midi_ble_rt.Registry.Valid.{Valid, write-Valid}

pub dup_or_null_text : (t : String) → t ≢ "" → dup_or_null (some t) ≡ some t
unfolding dup_or_null
dup_or_null_text String.[] h = absurd (h refl)
dup_or_null_text (String.◌∷◌ c t) h = refl

abbrev is_blank : Option String → Bool
is_blank none = false
is_blank (some String.[]) = true
is_blank (some (String.◌∷◌ c t)) = false

dup_or_null_named : (o : Option String) → dup_or_null o ≢ some ""
unfolding dup_or_null
dup_or_null_named none e = ground (arith, e)
dup_or_null_named (some String.[]) e = ground (arith, e)
dup_or_null_named (some (String.◌∷◌ c t)) e = ground (arith, ap is_blank e)

-- What `ensure_session` is to bring about.
abbrev pub Ensured : String → Option (Registry × ℕ) → Type 0
Ensured path result =
    (q : Registry) × (s : ℕ) × (result ≡ some (q, s)) × Valid q × (q.by_path path ≡ some s)

live_below : (r : Registry) (s : ℕ) (x : Session) → Valid r → r.heap s ≡ some x → suc s ≤ r.next
live_below r s x v live = elim (Bool-cases (leb r.next s)) [
  | inl above ↦ absurd (ground (arith, v.bounded s (ground (arith, above)), live))
  | inr below ↦ ground (arith, below)
]

module _ (r : Registry) (s : ℕ) (x : Session) (v : Valid r) (live : r.heap s ≡ some x) where
  pub paths-Bears : Bears r.by_path s x.device_path
  paths-Bears k e =
      let (y, there, bears) = v.paths k s e in
      let same : x ≡ y = ground (arith, live, there) in
      ap (λ (z : Session). z.device_path) same ∙ bears

  pub addresses-Bears : Bears r.by_address s x.address
  addresses-Bears k e =
      let (y, there, bears) = v.addresses k s e in
      let same : x ≡ y = ground (arith, live, there) in ap (λ (z : Session). z.address) same ∙ bears

-- A session was written and stands at its path: with its address, the registry is valid.
module _ (r moved : Registry) (s : ℕ) (y : Session) (path : String) (old : Option String)
    (v : Valid r) (here : y.device_path ≡ some path) (named : y.address ≢ some "")
    (heap : moved.heap ≡ store r.heap s (some y)) (more : r.next ≤ moved.next)
    (inside : suc s ≤ moved.next) (follows : Follows r.by_path moved.by_path s (some path))
    (placed : moved.by_path path ≡ some s) (blank : moved.by_path "" ≡ none)
    (same : moved.by_address ≡ r.by_address) (bears : Bears r.by_address s old) where
  finish-Ensured : Ensured path (some (reindex_address moved s y.address old, s))
  finish-Ensured =
      let q = reindex_address moved s y.address old in
      let a =
        reindex_address-Readdressed moved s y.address old
          (λ k e. bears k (ap (λ t. t k) (sym same) ∙ e)) (ap (λ t. t "") same ∙ v.no_blank_address)
          named in
      (
        q,
        s,
        refl,
        write-Valid r q s y v (a.heap ∙ heap)
            (subst (λ (t : String → Option ℕ). Follows r.by_path t s y.device_path) (sym a.by_path)
              (subst (λ m. Follows r.by_path moved.by_path s m) (sym here) follows))
            (subst (λ (t : String → Option ℕ). Follows t q.by_address s y.address) same a.follows)
            (ap (λ t. t "") a.by_path ∙ blank) a.blank (omega (arith, a.next, more))
            (omega (arith, a.next, inside)),
        ap (λ t. t path) a.by_path ∙ placed,
      )

-- The session that the address names, at a path where nobody else stands.
ensure_by_address-Ensured :
    (r : Registry) (s : ℕ) (x : Session) (path : String) (address name : Option String)
    → Valid r
    → r.heap s ≡ some x
    → path ≢ ""
    → IsFree r path s
    → Ensured path (ensure_by_address r s (some x) path address name)
unfolding ensure_by_address set_identity
ensure_by_address-Ensured r s x path address name v live text free =
    let y = set_identity x (some path) address name in
    let written = record r { heap = store r.heap s (some y) } in
    let here = dup_or_null_text path text in
    let m =
      subst (λ p. Moved written (reindex_device_path written s p x.device_path) s p) (sym here)
        (reindex_device_path-Moved written s path x.device_path (paths-Bears r s x v live)
          v.no_blank_path text free) in
    finish-Ensured r (reindex_device_path written s y.device_path x.device_path) s y path x.address
      v here (dup_or_null_named address) m.heap (omega (arith, m.next))
      (omega (arith, m.next, live_below r s x v live))
      (subst
        (λ p.
          Follows r.by_path (reindex_device_path written s y.device_path x.device_path).by_path s p)
        here m.follows)
      (m.placed path here) m.blank m.by_address (addresses-Bears r s x v live)

-- The session that stands at the path.
ensure_by_path-Ensured :
    (r : Registry) (s : ℕ) (x : Session) (path : String) (address name : Option String)
    → Valid r
    → r.heap s ≡ some x
    → r.by_path path ≡ some s
    → path ≢ ""
    → Ensured path (ensure_by_path r s (some x) path address name)
unfolding ensure_by_path set_identity
ensure_by_path-Ensured r s x path address name v live stands text =
    finish-Ensured r
      (record r { heap = store r.heap s (some (set_identity x (some path) address name)) }) s
      (set_identity x (some path) address name) path x.address v (dup_or_null_text path text)
      (dup_or_null_named address) refl (omega arith) (live_below r s x v live) follows stands
      v.no_blank_path refl (addresses-Bears r s x v live)
  where
    at_path : x.device_path ≡ some path
    at_path = paths-Bears r s x v live path stands

    follows : Follows r.by_path r.by_path s (some path)
    follows k t e = elim (Bool-cases (same_pointer t s)) [
      | inl same ↦
          let mine : t ≡ s = ground (arith, same) in
          inl (mine, sym at_path ∙ paths-Bears r s x v live k (e ∙ ap some mine))
      | inr other ↦ inr (ground (arith, other), e)
    ]

-- No entry of a valid registry leads to the next session.
next_unknown : (r : Registry) (v : Valid r) (t : ℕ) (x : Session) → r.heap t ≡ some x → t ≢ r.next
next_unknown r v t x live e = absurd (omega (arith, live_below r t x v live, e))

-- A session that is new, at a path where nobody stands.
add_session-Ensured :
    (r : Registry) (path : String) (address name : Option String)
    → Valid r
    → path ≢ ""
    → Ensured path (some (add_session r path address name))
unfolding add_session init set_identity reindex_address
add_session-Ensured r path address name v text =
    finish-Ensured r added r.next x path none v (dup_or_null_text path text)
      (dup_or_null_named address) refl (omega arith) (omega arith) follows
      (if_true {t = path == path} (some r.next) (r.by_path path) (ground (arith, eq_iff path path)))
      (if_false {t = "" == path} (some r.next) (r.by_path "") (ground (arith, eq_iff "" path, text))
        ∙ v.no_blank_path)
      refl
      (λ k e.
        let (y, live, bears) = v.addresses k r.next e in
        absurd (next_unknown r v r.next y live refl))
  where
    x : Session
    x = init (some path) address name

    added : Registry
    added = record r {
      heap = store r.heap r.next (some x);
      next = r.next + 1;
      by_path = assign r.by_path path (some r.next);
    }

    follows : Follows r.by_path added.by_path r.next (some path)
    follows k t e = elim (Bool-cases (k == path)) [
      | inl hit ↦ inl (
        some_inj r.next t (sym (if_true {t = k == path} (some r.next) (r.by_path k) hit) ∙ e),
        ground (arith, hit, eq_iff k path),
      )
      | inr miss ↦
          let there : r.by_path k ≡ some t =
            sym (if_false {t = k == path} (some r.next) (r.by_path k) miss) ∙ e in
          let (y, live, bears) = v.paths k t there in inr (next_unknown r v t y live, there)
    ]

known-live :
    (r : Registry) (v : Valid r) (address : Option String) (s : ℕ)
    → known_by_address r address ≡ some s
    → (x : Session) × (r.heap s ≡ some x)
known-live r v none s e = absurd (ground (arith, e))
known-live r v (some a) s e = elim (Bool-cases (a == "")) [
  | inl empty ↦ absurd (ground (arith, e, empty))
  | inr text ↦
      let (x, live, bears) =
        v.addresses a s (sym (if_false {t = a == ""} none (r.by_address a) text) ∙ e) in
      (x, live)
]

-- On a valid registry, for a path that is not empty and on which no other session stands than the
-- one that the address names, if it names one: a session is ensured without a use of a freed one,
-- it is found at the path, and every entry of both tables leads again to a live session that bears
-- its key.
pub ensure_session-Ensured :
    (r : Registry) (path : String) (address name : Option String)
    → Valid r
    → path ≢ ""
    → ((s : ℕ) → known_by_address r address ≡ some s → IsFree r path s)
    → Ensured path (ensure_session r path address name)
unfolding ensure_session
ensure_session-Ensured r path address name v text free =
    elim (Option-cases (known_by_address r address)) [
      | inr (s, known) ↦
          let (x, live) = known-live r v address s known in
          subst (Ensured path)
            (sym (
              ap (λ o. ensure_found r o path address name) known
              ∙ ap (λ h. ensure_by_address r s h path address name) live))
            (ensure_by_address-Ensured r s x path address name v live text (free s known))
      | inl unknown ↦ elim (Option-cases (r.by_path path)) [
        | inr (s, stands) ↦
            let (x, live, bears) = v.paths path s stands in
            subst (Ensured path)
              (sym (
                ap (λ o. ensure_found r o path address name) unknown
                ∙ ap (λ o. ensure_at_path r o path address name) stands
                ∙ ap (λ h. ensure_by_path r s h path address name) live))
              (ensure_by_path-Ensured r s x path address name v live stands text)
        | inl nobody ↦
            subst (Ensured path)
              (sym (
                ap (λ o. ensure_found r o path address name) unknown
                ∙ ap (λ o. ensure_at_path r o path address name) nobody))
              (add_session-Ensured r path address name v text)
      ]
    ]
