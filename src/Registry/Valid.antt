-- ===== src/Registry/Valid.antt =====
-- When the tables of src/mb-session.c lead to live sessions only.
use Prim.Native.String.{String}
use midi_ble_rt.Base.{suc, ℕ, ◌≤◌, ◌≡◌, inl, inr, ap, ◌∙◌, none, some, arith}
use midi_ble_rt.Session.{Session}
use midi_ble_rt.Registry.{Registry, store}
use midi_ble_rt.Registry.Tables.{Follows, store_self, store_other}

-- Each entry of a table leads to a live session that bears its key.
pub record Valid (r : Registry) : Type 0 where
  pub paths :
      (p : String) (s : ℕ)
      → r.by_path p ≡ some s
      → (x : Session) × (r.heap s ≡ some x) × (x.device_path ≡ some p)
  pub addresses :
      (a : String) (s : ℕ)
      → r.by_address a ≡ some s
      → (x : Session) × (r.heap s ≡ some x) × (x.address ≡ some a)
  pub no_blank_path : r.by_path "" ≡ none
  pub no_blank_address : r.by_address "" ≡ none
  pub bounded : (s : ℕ) → r.next ≤ s → r.heap s ≡ none

-- A valid registry stays so when one session is written and the tables follow.
pub write-Valid :
    (r q : Registry) (s : ℕ) (y : Session)
    → Valid r
    → q.heap ≡ store r.heap s (some y)
    → Follows r.by_path q.by_path s y.device_path
    → Follows r.by_address q.by_address s y.address
    → q.by_path "" ≡ none
    → q.by_address "" ≡ none
    → r.next ≤ q.next
    → suc s ≤ q.next
    → Valid q
write-Valid r q s y v heap paths addresses no_path no_address more inside = record {
  paths = λ p t e. elim (paths p t e) [
    | inl (mine, there) ↦
        (y, ap q.heap mine ∙ ap (λ h. h s) heap ∙ store_self r.heap s (some y), there)
    | inr (other, there) ↦
        let (x, live, bears) = v.paths p t there in
        (x, ap (λ h. h t) heap ∙ store_other r.heap s t (some y) other ∙ live, bears)
  ];
  addresses = λ a t e. elim (addresses a t e) [
    | inl (mine, there) ↦
        (y, ap q.heap mine ∙ ap (λ h. h s) heap ∙ store_self r.heap s (some y), there)
    | inr (other, there) ↦
        let (x, live, bears) = v.addresses a t there in
        (x, ap (λ h. h t) heap ∙ store_other r.heap s t (some y) other ∙ live, bears)
  ];
  no_blank_path = no_path;
  no_blank_address = no_address;
  bounded = λ t h.
      ap (λ h. h t) heap
      ∙ store_other r.heap s t (some y) (λ e. absurd (omega (arith, e, h, inside)))
      ∙ v.bounded t (omega (arith, h, more));
}
