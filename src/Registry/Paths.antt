-- ===== src/Registry/Paths.antt =====
-- How the table of paths of src/mb-session.c changes when a session takes a new path.
use Prim.Native.String.{String}
use text.Mathlib.Text.{◌==◌}
use text.Mathlib.TextEquality.{eq_iff}
use midi_ble_rt.Base.{
  true, ℕ, ◌≡◌, ◌≢◌, ◌⊎◌, inl, inr, Bool-cases, Option-cases, refl, if◌then◌else◌, if_true,
  if_false, sym, ap, subst, ◌∙◌, Option, none, some, arith,
}
use midi_ble_rt.Registry.{
  replace_path, same_text, is_pointer, steal_path_index, reindex_device_path, Registry,
  same_pointer, assign, with_text,
}
use midi_ble_rt.Registry.Tables.{Follows, Bears, with_text_keeps, some_inj}

abbrev pub steal : Registry → ℕ → String → Option String → Registry
steal r s p old = with_text old r (λ o. if same_text o (some p) then r else steal_path_index r o s)

is_pointer_iff : (o : Option ℕ) (s : ℕ) → is_pointer o s ≡ true → o ≡ some s
is_pointer_iff none s e = ground (arith, e)
is_pointer_iff (some t) s e = ap some (ground (arith, e))

pub is_pointer_self : (s : ℕ) → is_pointer (some s) s ≡ true
is_pointer_self s = ground arith

steal_path_index_lem :
    (r : Registry) (s : ℕ) (o : String)
    → Bears r.by_path s (some o)
    → (k : String) (t : ℕ) → (steal_path_index r o s).by_path k ≡ some t
    → (t ≢ s) × (r.by_path k ≡ some t)
unfolding steal_path_index
steal_path_index_lem r s o bears k t e = elim (Bool-cases (is_pointer (r.by_path o) s)) [
  | inl his ↦
      let kept : assign r.by_path o none k ≡ some t =
        sym (
          ap (λ q. q.by_path k)
            (if_true {t = is_pointer (r.by_path o) s}
              (record r { by_path = assign r.by_path o none }) r his))
        ∙ e in
      elim (Bool-cases (k == o)) [
        | inl hit ↦ ground (arith, kept, hit)
        | inr miss ↦
            let there : r.by_path k ≡ some t =
              sym (if_false {t = k == o} none (r.by_path k) miss) ∙ kept in
            (λ same. ground (arith, miss, eq_iff k o, bears k (there ∙ ap some same)), there)
      ]
  | inr other ↦
      let there : r.by_path k ≡ some t =
        sym (
          ap (λ q. q.by_path k)
            (if_false {t = is_pointer (r.by_path o) s}
              (record r { by_path = assign r.by_path o none }) r other))
        ∙ e in
      (
        λ same.
            let at_k : r.by_path k ≡ some s = there ∙ ap some same in
            let here : o ≡ k = ground (arith, bears k at_k) in
            ground (
              arith,
              other,
              is_pointer_self s,
              ap (λ i. is_pointer i s) (ap r.by_path here ∙ at_k),
            ),
        there,
      )
]

-- After the old path is given up, an entry for the session can only be that of the new path.
steal_lem :
    (r : Registry) (s : ℕ) (p : String) (old : Option String)
    → Bears r.by_path s old
    → r.by_path "" ≡ none
    → (k : String) (t : ℕ) → (steal r s p old).by_path k ≡ some t
    → (r.by_path k ≡ some t) × (t ≡ s → k ≡ p)
steal_lem r s p none bears blank k t e = (e, λ same. ground (arith, bears k (e ∙ ap some same)))
steal_lem r s p (some o) bears blank k t e =
    let given_up = if o == p then r else steal_path_index r o s in
    elim (Bool-cases (o == "")) [
      | inl empty ↦
          let there : r.by_path k ≡ some t =
            sym (ap (λ q. q.by_path k) (if_true {t = o == ""} r given_up empty)) ∙ e in
          (
            there,
            λ same.
                ground (arith, blank, there, empty, eq_iff o "", bears k (there ∙ ap some same)),
          )
      | inr text ↦
          let kept : given_up.by_path k ≡ some t =
            sym (ap (λ q. q.by_path k) (if_false {t = o == ""} r given_up text)) ∙ e in
          elim (Bool-cases (o == p)) [
            | inl stays ↦
                let there : r.by_path k ≡ some t =
                  sym
                    (ap (λ q. q.by_path k) (if_true {t = o == p} r (steal_path_index r o s) stays))
                  ∙ kept in
                (there, λ same. ground (arith, stays, eq_iff o p, bears k (there ∙ ap some same)))
            | inr moves ↦
                let (other, there) = steal_path_index_lem r s o bears k t (
                  sym
                    (ap (λ q. q.by_path k) (if_false {t = o == p} r (steal_path_index r o s) moves))
                  ∙ kept) in
                (there, λ same. absurd (other same))
          ]
    ]

pub steal_keeps :
    {B : Type 0} (field : Registry → B) (r : Registry) (s : ℕ) (p : String) (old : Option String)
    → ((q : Registry) (table : String → Option ℕ) → field (record q { by_path = table }) ≡ field q)
    → field (steal r s p old) ≡ field r
unfolding steal_path_index
steal_keeps field r s p old h = with_text_keeps field old r _ (λ o. elim (Bool-cases (o == p)) [
  | inl stays ↦ ap field (if_true {t = o == p} r (steal_path_index r o s) stays)
  | inr moves ↦
      ap field (if_false {t = o == p} r (steal_path_index r o s) moves)
      ∙ elim (Bool-cases (is_pointer (r.by_path o) s)) [
        | inl his ↦ ap field (if_true {t = is_pointer (r.by_path o) s} _ r his) ∙ h r _
        | inr other ↦ ap field (if_false {t = is_pointer (r.by_path o) s} _ r other)
      ]
])

-- Nobody else stands at the path.
abbrev pub IsFree : Registry → String → ℕ → Type 0
IsFree r p s = (t : ℕ) → r.by_path p ≡ some t → t ≡ s

-- When nobody else stands at the new path, nothing is freed: the session is there, alone.
reindex_device_path_lem :
    (r : Registry) (s : ℕ) (p : String) (old : Option String)
    → Bears r.by_path s old
    → r.by_path "" ≡ none
    → p ≢ ""
    → IsFree r p s
    → let stolen = steal r s p old in
      ((reindex_device_path r s (some p) old ≡ stolen) × (stolen.by_path p ≡ some s))
      ⊎ (reindex_device_path r s (some p) old
          ≡ record stolen { by_path = assign stolen.by_path p (some s) })
unfolding reindex_device_path
reindex_device_path_lem r s p old bears blank text free =
    let stolen = steal r s p old in
    let put =
      if is_pointer (stolen.by_path p) s
      then stolen
      else replace_path stolen p s (stolen.by_path p) in
    let reached : reindex_device_path r s (some p) old ≡ put =
      if_false {t = p == ""} stolen put (ground (arith, text, eq_iff p "")) in
    elim (Option-cases (stolen.by_path p)) [
      | inl nothing ↦ inr (
          reached
          ∙ if_false {t = is_pointer (stolen.by_path p) s} stolen _
              (ap (λ o. is_pointer o s) nothing)
          ∙ ap (replace_path stolen p s) nothing)
      | inr (t, there) ↦
          let mine : t ≡ s = free t (steal_lem r s p old bears blank p t there).0 in
          inl (
            reached
                ∙ if_true {t = is_pointer (stolen.by_path p) s} stolen _
                    (ap (λ o. is_pointer o s) (there ∙ ap some mine) ∙ is_pointer_self s),
            there ∙ ap some mine,
          )
    ]

-- What the change of a session's path does to the registry.
pub record Moved (r q : Registry) (s : ℕ) (path : Option String) : Type 0 where
  pub follows : Follows r.by_path q.by_path s path
  pub placed : (p : String) → path ≡ some p → q.by_path p ≡ some s
  pub blank : q.by_path "" ≡ none
  pub heap : q.heap ≡ r.heap
  pub next : q.next ≡ r.next
  pub by_address : q.by_address ≡ r.by_address

module _ (r : Registry) (s : ℕ) (p : String) (old : Option String) (bears : Bears r.by_path s old)
    (blank : r.by_path "" ≡ none) (text : p ≢ "") (free : IsFree r p s) where
  reindex_device_path_keeps :
      {B : Type 0} (field : Registry → B)
      → ((q : Registry) (table : String → Option ℕ)
          → field (record q { by_path = table }) ≡ field q)
      → field (reindex_device_path r s (some p) old) ≡ field r
  reindex_device_path_keeps field h =
      elim (reindex_device_path_lem r s p old bears blank text free) [
        | inl (e, there) ↦ ap field e ∙ steal_keeps field r s p old h
        | inr e ↦ ap field e ∙ h (steal r s p old) _ ∙ steal_keeps field r s p old h
      ]

  reindex_device_path-Follows :
      Follows r.by_path (reindex_device_path r s (some p) old).by_path s (some p)
  reindex_device_path-Follows k t e =
      elim (reindex_device_path_lem r s p old bears blank text free) [
        | inl (same, there) ↦ stays (sym (ap (λ q. q.by_path k) same) ∙ e)
        | inr put ↦
            let there : assign (steal r s p old).by_path p (some s) k ≡ some t =
              sym (ap (λ q. q.by_path k) put) ∙ e in
            elim (Bool-cases (k == p)) [
              | inl hit ↦ inl (
                some_inj s t
                    (sym (if_true {t = k == p} (some s) ((steal r s p old).by_path k) hit) ∙ there),
                ground (arith, hit, eq_iff k p),
              )
              | inr miss ↦
                  stays (
                    sym (if_false {t = k == p} (some s) ((steal r s p old).by_path k) miss) ∙ there)
            ]
      ]
    where
      stays :
          (steal r s p old).by_path k ≡ some t
          → ((t ≡ s) × (some p ≡ some k)) ⊎ ((t ≢ s) × (r.by_path k ≡ some t))
      stays there =
          let (kept, only) = steal_lem r s p old bears blank k t there in
          elim (Bool-cases (same_pointer t s)) [
            | inl same ↦
                let mine : t ≡ s = ground (arith, same) in inl (mine, ap some (sym (only mine)))
            | inr other ↦ inr (ground (arith, other), kept)
          ]

  pub reindex_device_path-Moved : Moved r (reindex_device_path r s (some p) old) s (some p)
  reindex_device_path-Moved = record {
    follows = reindex_device_path-Follows;
    placed = λ k e.
        subst (λ k. (reindex_device_path r s (some p) old).by_path k ≡ some s) (ground (arith, e))
          (elim (reindex_device_path_lem r s p old bears blank text free) [
            | inl (same, there) ↦ ap (λ q. q.by_path p) same ∙ there
            | inr put ↦
                ap (λ q. q.by_path p) put
                ∙ if_true {t = p == p} (some s) ((steal r s p old).by_path p)
                    (ground (arith, eq_iff p p))
          ]);
    blank = elim (Option-cases ((reindex_device_path r s (some p) old).by_path "")) [
      | inl nothing ↦ nothing
      | inr (t, e) ↦ elim (reindex_device_path-Follows "" t e) [
        | inl (mine, there) ↦ absurd (text (ground (arith, there)))
        | inr (other, there) ↦ absurd (ground (arith, blank, there))
      ]
    ];
    heap = reindex_device_path_keeps (λ q. q.heap) (λ q t. refl);
    next = reindex_device_path_keeps (λ q. q.next) (λ q t. refl);
    by_address = reindex_device_path_keeps (λ q. q.by_address) (λ q t. refl);
  }
