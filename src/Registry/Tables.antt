-- ===== src/Registry/Tables.antt =====
-- How the tables of src/mb-session.c change when a session takes a new path or a new address.
use Prim.Native.String.{String}
use text.Mathlib.Text.{◌==◌}
use text.Mathlib.TextEquality.{eq_iff}
use midi_ble_rt.Base.{
  ℕ, ◌≡◌, ◌≢◌, ◌⊎◌, inl, inr, Bool-cases, Option-cases, refl, if_true, if_false, sym, ap, ◌∙◌,
  Option, none, some, arith,
}
use midi_ble_rt.Session.{Session}
use midi_ble_rt.Registry.{reindex_address, Registry, same_pointer, assign, store, with_text}

-- What an operation may do to a table that is to stay valid while the session `s` changes to have
-- the text `mine`: entries that lead elsewhere stay or go, and those that lead to `s` bear `mine`.
abbrev pub Follows : (String → Option ℕ) → (String → Option ℕ) → ℕ → Option String → Type 0
Follows old new s mine =
    (k : String) (t : ℕ)
    → new k ≡ some t
    → ((t ≡ s) × (mine ≡ some k)) ⊎ ((t ≢ s) × (old k ≡ some t))

pub store_self : (heap : ℕ → Option Session) (s : ℕ) (v : Option Session) → store heap s v s ≡ v
store_self heap s v = if_true {t = same_pointer s s} v (heap s) (ground arith)

pub store_other :
    (heap : ℕ → Option Session) (s t : ℕ) (v : Option Session) → t ≢ s → store heap s v t ≡ heap t
store_other heap s t v h = if_false {t = same_pointer t s} v (heap t) (ground arith)

-- Every entry of a table for `s` bears the text `old`.
abbrev pub Bears : (String → Option ℕ) → ℕ → Option String → Type 0
Bears table s old = (k : String) → table k ≡ some s → old ≡ some k

abbrev pub remove_address : Registry → Option String → Registry
remove_address r old = with_text old r (λ o. record r { by_address = assign r.by_address o none })

-- Once the address of a session is removed, no entry leads to it.
pub remove_address_lem :
    (r : Registry) (s : ℕ) (old : Option String)
    → Bears r.by_address s old
    → r.by_address "" ≡ none
    → (k : String) (t : ℕ) → (remove_address r old).by_address k ≡ some t
    → (t ≢ s) × (r.by_address k ≡ some t)
remove_address_lem r s none bears blank k t e =
    (λ same. ground (arith, bears k (e ∙ ap some same)), e)
remove_address_lem r s (some o) bears blank k t e = elim (Bool-cases (o == "")) [
  | inl empty ↦
      let there : r.by_address k ≡ some t =
        sym (
          ap (λ q. q.by_address k)
            (if_true {t = o == ""} r (record r { by_address = assign r.by_address o none }) empty))
        ∙ e in
      (
        λ same. ground (arith, blank, there, empty, eq_iff o "", bears k (there ∙ ap some same)),
        there,
      )
  | inr text ↦
      let kept : assign r.by_address o none k ≡ some t =
        sym (
          ap (λ q. q.by_address k)
            (if_false {t = o == ""} r (record r { by_address = assign r.by_address o none }) text))
        ∙ e in
      elim (Bool-cases (k == o)) [
        | inl hit ↦ ground (arith, kept, hit)
        | inr miss ↦
            let there : r.by_address k ≡ some t =
              sym (if_false {t = k == o} none (r.by_address k) miss) ∙ kept in
            (λ same. ground (arith, miss, eq_iff k o, bears k (there ∙ ap some same)), there)
      ]
]

pub with_text_keeps :
    {B : Type 0} (field : Registry → B) (text : Option String) (r : Registry)
    (f : String → Registry)
    → ((t : String) → field (f t) ≡ field r)
    → field (with_text text r f) ≡ field r
with_text_keeps field none r f h = refl
with_text_keeps field (some t) r f h = elim (Bool-cases (t == "")) [
  | inl empty ↦ ap field (if_true {t = t == ""} r (f t) empty)
  | inr text ↦ ap field (if_false {t = t == ""} r (f t) text) ∙ h t
]

pub reindex_address_keeps :
    {B : Type 0} (field : Registry → B) (r : Registry) (s : ℕ) (new old : Option String)
    → ((q : Registry) (table : String → Option ℕ)
        → field (record q { by_address = table }) ≡ field q)
    → field (reindex_address r s new old) ≡ field r
unfolding reindex_address
reindex_address_keeps field r s new old h =
    with_text_keeps field new (remove_address r old) _ (λ a. h (remove_address r old) _)
    ∙ with_text_keeps field old r _ (λ o. h r _)

pub some_inj : (s t : ℕ) → some s ≡ some t → t ≡ s
some_inj s t e = ground (arith, e)

-- The new address takes the place of the old one, and every other entry stays.
reindex_address-Follows :
    (r : Registry) (s : ℕ) (new old : Option String)
    → Bears r.by_address s old
    → r.by_address "" ≡ none
    → Follows r.by_address (reindex_address r s new old).by_address s new
unfolding reindex_address
reindex_address-Follows r s none old bears blank k t e =
    inr (remove_address_lem r s old bears blank k t e)
reindex_address-Follows r s (some a) old bears blank k t e =
    let removed = remove_address r old in
    let put = record removed { by_address = assign removed.by_address a (some s) } in
    elim (Bool-cases (a == "")) [
      | inl empty ↦ inr (
          remove_address_lem r s old bears blank k t
            (sym (ap (λ q. q.by_address k) (if_true {t = a == ""} removed put empty)) ∙ e))
      | inr text ↦
          let there : assign removed.by_address a (some s) k ≡ some t =
            sym (ap (λ q. q.by_address k) (if_false {t = a == ""} removed put text)) ∙ e in
          elim (Bool-cases (k == a)) [
            | inl hit ↦ inl (
              some_inj s t (sym (if_true {t = k == a} (some s) (removed.by_address k) hit) ∙ there),
              ground (arith, hit, eq_iff k a),
            )
            | inr miss ↦ inr (
                remove_address_lem r s old bears blank k t
                  (sym (if_false {t = k == a} (some s) (removed.by_address k) miss) ∙ there))
          ]
    ]

reindex_address-blank :
    (r : Registry) (s : ℕ) (new old : Option String)
    → Bears r.by_address s old
    → r.by_address "" ≡ none
    → new ≢ some ""
    → (reindex_address r s new old).by_address "" ≡ none
reindex_address-blank r s new old bears blank text =
    elim (Option-cases ((reindex_address r s new old).by_address "")) [
      | inl nothing ↦ nothing
      | inr (t, e) ↦ elim (reindex_address-Follows r s new old bears blank "" t e) [
        | inl (mine, there) ↦ absurd (text there)
        | inr (other, there) ↦ absurd (ground (arith, blank, there))
      ]
    ]

-- What the change of a session's address does to the registry.
pub record Readdressed (r q : Registry) (s : ℕ) (address : Option String) : Type 0 where
  pub follows : Follows r.by_address q.by_address s address
  pub blank : q.by_address "" ≡ none
  pub heap : q.heap ≡ r.heap
  pub next : q.next ≡ r.next
  pub by_path : q.by_path ≡ r.by_path

pub reindex_address-Readdressed :
    (r : Registry) (s : ℕ) (new old : Option String)
    → Bears r.by_address s old
    → r.by_address "" ≡ none
    → new ≢ some ""
    → Readdressed r (reindex_address r s new old) s new
reindex_address-Readdressed r s new old bears blank text = record {
  follows = reindex_address-Follows r s new old bears blank;
  blank = reindex_address-blank r s new old bears blank text;
  heap = reindex_address_keeps (λ q. q.heap) r s new old (λ q t. refl);
  next = reindex_address_keeps (λ q. q.next) r s new old (λ q t. refl);
  by_path = reindex_address_keeps (λ q. q.by_path) r s new old (λ q t. refl);
}
