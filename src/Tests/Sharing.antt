-- ===== src/Tests/Sharing.antt =====
-- The theorems on the sessions that src/mb-session.c shares between its tables, at concrete inputs.
use Prim.Native.String.{String}
use text.Mathlib.Text.{◌==◌}
use text.Mathlib.TextEquality.{eq_iff}
use midi_ble_rt.Base.{
  ◌⊎◌, ℕ, ◌≡◌, refl, sym, ap, inl, inr, Bool-cases, Option, none, some, if◌then◌else◌, arith,
}
use midi_ble_rt.Session.{Session, init, set_identity, dup_or_null}
use midi_ble_rt.Registry.{same_pointer, Registry, ensure_session, remove_session}
use midi_ble_rt.Registry.Valid.{Valid}
use midi_ble_rt.Registry.Ensure.{Ensured, ensure_session-Ensured}
use midi_ble_rt.Registry.Removal.{Removed, remove_session-Removed}
use midi_ble_rt.Registry.Dangling.{ensure_session-dangles}

abbrev piano : Session
piano = init (some "/dev_1") (some "AA") none

abbrev drums : Session
drums = init (some "/dev_2") (some "BB") none

-- Two devices, each at its path and under its address.
abbrev band : Registry
band = record {
  heap =
      λ s. if same_pointer s 0 then some piano else if same_pointer s 1 then some drums else none;
  next = 2;
  by_path = λ k. if k == "/dev_1" then some 0 else if k == "/dev_2" then some 1 else none;
  by_address = λ k. if k == "AA" then some 0 else if k == "BB" then some 1 else none;
}

-- A table of two keys leads from each to its pointer.
two_keys :
    (k a b : String) (s : ℕ)
    → (if k == a then some 0 else if k == b then some 1 else none) ≡ some s
    → ((k ≡ a) × (s ≡ 0)) ⊎ ((k ≡ b) × (s ≡ 1))
two_keys k a b s e = elim (Bool-cases (k == a)) [
  | inl first ↦ inl (ground (arith, first, eq_iff k a), ground (arith, first, e))
  | inr other ↦ elim (Bool-cases (k == b)) [
    | inl second ↦ inr (ground (arith, second, eq_iff k b), ground (arith, other, second, e))
    | inr neither ↦ absurd (ground (arith, other, neither, e))
  ]
]

band-Valid : Valid band
unfolding init set_identity dup_or_null
band-Valid = record {
  paths = λ p s e. elim (two_keys p "/dev_1" "/dev_2" s e) [
    | inl (key, at) ↦ (piano, ap band.heap at, ap some (sym key))
    | inr (key, at) ↦ (drums, ap band.heap at, ap some (sym key))
  ];
  addresses = λ a s e. elim (two_keys a "AA" "BB" s e) [
    | inl (key, at) ↦ (piano, ap band.heap at, ap some (sym key))
    | inr (key, at) ↦ (drums, ap band.heap at, ap some (sym key))
  ];
  no_blank_path = refl;
  no_blank_address = refl;
  bounded = λ s h. ground arith;
}

remove_session-Removed_example : Removed "/dev_2" (remove_session band "/dev_2")
remove_session-Removed_example = remove_session-Removed band "/dev_2" band-Valid

-- The piano comes back at another path.
ensure_session-Ensured_example : Ensured "/dev_9" (ensure_session band "/dev_9" (some "AA") none)
ensure_session-Ensured_example =
    ensure_session-Ensured band "/dev_9" (some "AA") none band-Valid
      (ground (arith, eq_iff "/dev_9" "")) (λ s known t there. ground (arith, there))

-- The piano comes to the path of the drums.
ensure_session-dangles_example :
    (q : Registry) × (ensure_session band "/dev_2" (some "AA") none ≡ some (q, 0))
    × (q.by_address "BB" ≡ some 1)
    × (q.heap 1 ≡ none)
    × ((p : String) (n : Option String) → ensure_session q p (some "BB") n ≡ none)
ensure_session-dangles_example =
    ensure_session-dangles band 0 1 "/dev_2" "AA" "BB" none band-Valid refl refl refl (ground arith)
