-- ===== src/Discovery/Best.antt =====
-- The loop of src/mb-gatt-midi.c and src/mb-device-discovery.c that keeps the object of the highest
-- score.
use midi_ble_rt.Base.{
  none-some, some_same, ℕ, zero, suc, ◌≤◌, ◌≡◌, ◌⊎◌, refl, sym, ◌∙◌, Option, none, some, List, [],
  ◌∷◌, ltb, get_elem?, if_intro, arith, inl, inr, ap, subst, ltb→lt, ltb→ge,
}
use midi_ble_rt.Discovery.{Object, better, pick}

-- A score that is not above `n`.
abbrev pub Below : ℕ → Option ℕ → Type 0
Below n none = Unit
Below n (some m) = m ≤ n

Below-mono : (n m : ℕ) (o : Option ℕ) → n ≤ m → Below n o → Below m o
Below-mono n m none h b = tt
Below-mono n m (some k) h b = omega (arith, h, b)

module _ (score : Object → Option ℕ) where
  -- The scores of a list are those that `best` covers.
  abbrev pub Covers : Option (Object × ℕ) → Option ℕ → Type 0
  Covers none o = o ≡ none
  Covers (some (b, n)) o = Below n o

  -- What is kept is never replaced by less.
  abbrev Grows : Option (Object × ℕ) → Option (Object × ℕ) → Type 0
  Grows none r = Unit
  Grows (some (b, n)) none = ⊥
  Grows (some (b, n)) (some (c, m)) = n ≤ m

  Grows-refl : (r : Option (Object × ℕ)) → Grows r r
  Grows-refl none = tt
  Grows-refl (some (b, n)) = omega arith

  Grows-trans : (a b c : Option (Object × ℕ)) → Grows a b → Grows b c → Grows a c
  Grows-trans none b c g h = tt
  Grows-trans (some (x, n)) none c g h = absurd g
  Grows-trans (some (x, n)) (some (y, m)) none g h = absurd h
  Grows-trans (some (x, n)) (some (y, m)) (some (z, k)) g h = omega (arith, g, h)

  Grows-Covers :
      (a b : Option (Object × ℕ)) (o : Option ℕ) → Grows a b → Covers a o → (o ≡ none) ⊎ Covers b o
  Grows-Covers none b o g c = inl c
  Grows-Covers (some (x, n)) none o g c = absurd g
  Grows-Covers (some (x, n)) (some (y, m)) o g c = inr (Below-mono n m o g c)

  better-Grows :
      (best : Option (Object × ℕ)) (o : Object) (s : Option ℕ) → Grows best (better best o s)
  better-Grows best o none = Grows-refl best
  better-Grows none o (some n) = tt
  better-Grows (some (b, m)) o (some n) =
      if_intro (Grows (some (b, m))) (ltb m n) (λ h. omega (arith, ltb→lt m n h)) (λ h. omega arith)

  -- The object that was just looked at is covered.
  better-Covers :
      (best : Option (Object × ℕ)) (o : Object) (s : Option ℕ)
      → (s ≡ none) ⊎ Covers (better best o s) s
  better-Covers best o none = inl refl
  better-Covers none o (some n) = inr (omega arith)
  better-Covers (some (b, m)) o (some n) =
      inr (if_intro (λ r. Covers r (some n)) (ltb m n) (λ h. omega arith) (λ h. ltb→ge m n h))

  pick-Grows :
      (objects : List Object) (best : Option (Object × ℕ)) → Grows best (pick score best objects)
  unfolding pick
  pick-Grows [] best = Grows-refl best
  pick-Grows (o ∷ objects) best =
      Grows-trans best (better best o (score o)) (pick score (better best o (score o)) objects)
        (better-Grows best o (score o)) (pick-Grows objects (better best o (score o)))

  -- An object of the list with its score, as the loop keeps it.
  pub record Found (objects : List Object) (r : Option (Object × ℕ)) : Type 0 where
    pub object : Object
    pub points : ℕ
    pub is : r ≡ some (object, points)
    pub at : ℕ
    pub there : get_elem? objects at ≡ some object
    pub scored : score object ≡ some points

  Found-later :
      (o : Object) (objects : List Object) (r : Option (Object × ℕ))
      → Found objects r
      → Found (o ∷ objects) r
  Found-later o objects r f = record {
    object = f.object;
    points = f.points;
    is = f.is;
    at = suc f.at;
    there = f.there;
    scored = f.scored;
  }

  better-Found :
      (best : Option (Object × ℕ)) (o : Object) (objects : List Object) (s : Option ℕ)
      → score o ≡ s
      → (better best o s ≡ best) ⊎ Found (o ∷ objects) (better best o s)
  better-Found best o objects none e = inl refl
  better-Found none o objects (some n) e =
      inr (record { object = o; points = n; is = refl; at = 0; there = refl; scored = e })
  better-Found (some (b, m)) o objects (some n) e =
      if_intro (λ r. (r ≡ some (b, m)) ⊎ Found (o ∷ objects) r) (ltb m n)
        (λ h. inr (record { object = o; points = n; is = refl; at = 0; there = refl; scored = e }))
        (λ h. inl refl)

  pick-Found :
      (objects : List Object) (best : Option (Object × ℕ))
      → (pick score best objects ≡ best) ⊎ Found objects (pick score best objects)
  unfolding pick
  pick-Found [] best = inl refl
  pick-Found (o ∷ objects) best =
      let next = better best o (score o) in
      let r = pick score next objects in
      elim (pick-Found objects next) [
        | inr f ↦ inr (Found-later o objects r f)
        | inl same ↦ elim (better-Found best o objects (score o) refl) [
          | inl kept ↦ inl (same ∙ kept)
          | inr f ↦ inr (subst (Found (o ∷ objects)) (sym same) f)
        ]
      ]

  pick-Covers :
      (objects : List Object) (best : Option (Object × ℕ)) (i : ℕ) (o : Object) (k : ℕ)
      → get_elem? objects i ≡ some o
      → score o ≡ some k
      → Covers (pick score best objects) (some k)
  unfolding pick
  pick-Covers [] best i o k e s = absurd (cc)
  pick-Covers (x ∷ objects) best zero o k e s =
      let it : score x ≡ some k = ap score (some_same e) ∙ s in
      let next = better best x (score x) in
      elim (better-Covers best x (score x)) [
        | inl missing ↦ absurd (none-some (sym missing ∙ it))
        | inr c ↦
            elim (Grows-Covers next (pick score next objects) (score x) (pick-Grows objects next)
              c) [
                | inl missing ↦ absurd (none-some (sym missing ∙ it))
                | inr d ↦ subst (Covers (pick score next objects)) it d
              ]
      ]
  pick-Covers (x ∷ objects) best (suc i) o k e s =
      pick-Covers objects (better best x (score x)) i o k e s

  -- If an object of the list has a score, the loop that starts with nothing ends with an object of
  -- the list whose score is no less.
  pub pick-best :
      (objects : List Object) (i : ℕ) (o : Object) (k : ℕ)
      → get_elem? objects i ≡ some o
      → score o ≡ some k
      → (f : Found objects (pick score none objects)) × (k ≤ f.points)
  pick-best objects i o k e s =
      let c = pick-Covers objects none i o k e s in
      elim (pick-Found objects none) [
        | inl nothing ↦ absurd (none-some (sym (subst (λ r. Covers r (some k)) nothing c)))
        | inr f ↦ (f, subst (λ r. Covers r (some k)) f.is c)
      ]
