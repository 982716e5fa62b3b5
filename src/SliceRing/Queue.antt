-- ===== src/SliceRing/Queue.antt =====
-- The contents of the ring of src/mb-slice-ring.c, oldest item first, and how a write to a slot
-- changes them.
use midi_ble_rt.Base.{
  ℕ, zero, suc, ◌+◌, ◌-◌, ◌%◌, ◌^◌, ◌≤◌, ◌<◌, ◌≡◌, ◌≢◌, refl, ◌∙◌, ap, ap₂, List, [], ◌∷◌, ◌++◌,
  length, get_or, set, arith, get_or-set_ne,
}
use midi_ble_rt.SliceRing.{Item, Ring, zero_item, ring_count}

-- The `n` items from sequence number `r` on.
abbrev pub window : List Item → ℕ → ℕ → List Item
window items r zero = []
window items r (suc n) = get_or items (r % ring_count) zero_item ∷ window items ((r + 1) % 2 ^ 32) n

abbrev pub used : Ring → ℕ
used r = (r.write_seq + 2 ^ 32 - r.read_seq) % 2 ^ 32

abbrev pub contents : Ring → List Item
contents r = window r.items r.read_seq (used r)

pub record IsValid (r : Ring) : Type 0 where
  pub slots : length r.items ≡ ring_count
  pub read_in : r.read_seq < 2 ^ 32
  pub write_in : r.write_seq < 2 ^ 32
  pub used_in : used r ≤ ring_count

pub length-window : (items : List Item) (r n : ℕ) → length (window items r n) ≡ n
length-window items r zero = refl
length-window items r (suc n) = ap suc (length-window items ((r + 1) % 2 ^ 32) n)

-- A write to a slot outside a window leaves the window alone.
pub window-set_ne :
    (items : List Item) (i : ℕ) (v : Item) (r n : ℕ)
    → ((k : ℕ) → k < n → i ≢ (r + k) % ring_count)
    → window (set items i v) r n ≡ window items r n
window-set_ne items i v r zero h = refl
window-set_ne items i v r (suc n) h =
    ap₂ ◌∷◌
      (get_or-set_ne items i (r % ring_count) v zero_item (λ e. h 0 (omega arith) (omega arith)))
      (window-set_ne items i v ((r + 1) % 2 ^ 32) n
        (λ k l e. h (suc k) (omega arith) (omega arith)))

-- A window with one more item at its end.
pub window-suc :
    (items : List Item) (r n : ℕ)
    → r < 2 ^ 32
    → window items r (suc n)
      ≡ window items r n ++ (get_or items ((r + n) % ring_count) zero_item ∷ [])
window-suc items r zero h = ap (λ k. get_or items (k % ring_count) zero_item ∷ []) (omega arith)
window-suc items r (suc n) h =
    ap (λ l. get_or items (r % ring_count) zero_item ∷ l)
      (window-suc items ((r + 1) % 2 ^ 32) n (omega arith)
        ∙ ap (λ k. window items ((r + 1) % 2 ^ 32) n ++ (get_or items k zero_item ∷ []))
            (omega arith))
