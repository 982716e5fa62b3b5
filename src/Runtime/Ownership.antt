-- ===== src/Runtime/Ownership.antt =====
-- Who holds which frame in a flow of src/mb-runtime.c.
use midi_ble_rt.Base.{ℕ, ◌≡◌, ◌≢◌, refl, sym, ◌∙◌, ap, ap₂, true, Option, List, [], ◌∷◌, ◌++◌, All}
use midi_ble_rt.FrameModel.{Frame, Pool, Slice, slice_ok, frame_at, get}
use midi_ble_rt.FrameModel.Access.{get_lem, shown}
use midi_ble_rt.SliceRing.{Item}
use midi_ble_rt.Runtime.{Message, message_of, message_with}

-- The item is the only holder of its frame.
pub record Holds (p : Pool) (it : Item) : Type 0 where
  pub good : slice_ok it.slice ≡ true
  pub busy : (frame_at p it.slice.id).busy ≢ 0
  pub single : (frame_at p it.slice.id).holders ≡ 1

abbrev pub Apart : ℕ → List Item → Type 0
Apart id its = All (λ (j : Item). j.slice.id ≢ id) its

-- Each item of the list holds a frame of its own.
abbrev pub Owned : Pool → List Item → Type 0
Owned p [] = Unit
Owned p (it ∷ its) = Holds p it × Apart it.slice.id its × Owned p its

-- What the callback will be handed for each item.
abbrev pub messages : Pool → List Item → List (Option Message)
messages p [] = []
messages p (it ∷ its) = message_of p it ∷ messages p its

module _ (p q : Pool) (id : ℕ) (same : (i : ℕ) → i ≢ id → frame_at q i ≡ frame_at p i) where
  get-same : (s : Slice) → s.id ≢ id → get q s ≡ get p s
  get-same s ne = get_lem q s ∙ ap (λ f. shown f s) (same s.id ne) ∙ sym (get_lem p s)

  Holds-same : (it : Item) → it.slice.id ≢ id → Holds p it → Holds q it
  Holds-same it ne h = record {
    good = h.good;
    busy = λ e. h.busy (ap (λ (f : Frame). f.busy) (sym (same it.slice.id ne)) ∙ e);
    single = ap (λ (f : Frame). f.holders) (same it.slice.id ne) ∙ h.single;
  }

  pub Owned-same : (its : List Item) → Apart id its → Owned p its → Owned q its
  Owned-same [] a o = tt
  Owned-same (it ∷ its) a o = (Holds-same it a.0 o.0, o.1, Owned-same its a.1 o.2)

  pub messages-same : (its : List Item) → Apart id its → messages q its ≡ messages p its
  messages-same [] a = refl
  messages-same (it ∷ its) a =
      ap₂ ◌∷◌ (ap (λ o. message_with o it) (get-same it.slice a.0)) (messages-same its a.1)

-- A frame that is free belongs to nobody.
pub Owned-free :
    (p : Pool) (id : ℕ) (its : List Item) → (frame_at p id).busy ≡ 0 → Owned p its → Apart id its
Owned-free p id [] free o = tt
Owned-free p id (it ∷ its) free o =
    ((λ e. o.0.busy (ap (λ i. (frame_at p i).busy) e ∙ free)), Owned-free p id its free o.2)

pub Apart-append : (id : ℕ) (xs ys : List Item) → Apart id xs → Apart id ys → Apart id (xs ++ ys)
Apart-append id [] ys a b = b
Apart-append id (x ∷ xs) ys a b = (a.0, Apart-append id xs ys a.1 b)

pub Owned-snoc :
    (p : Pool) (its : List Item) (x : Item)
    → Owned p its
    → Holds p x
    → Apart x.slice.id its
    → Owned p (its ++ (x ∷ []))
Owned-snoc p [] x o h a = (h, tt, tt)
Owned-snoc p (it ∷ its) x o h a = (
  o.0,
  Apart-append it.slice.id its (x ∷ []) o.1 ((λ e. a.0 (sym e)), tt),
  Owned-snoc p its x o.2 h a.1,
)

pub messages-snoc :
    (p : Pool) (its : List Item) (x : Item)
    → messages p (its ++ (x ∷ [])) ≡ messages p its ++ (message_of p x ∷ [])
messages-snoc p [] x = refl
messages-snoc p (it ∷ its) x = ap (λ l. message_of p it ∷ l) (messages-snoc p its x)
