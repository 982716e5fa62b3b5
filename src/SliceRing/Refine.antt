-- ===== src/SliceRing/Refine.antt =====
-- The ring of src/mb-slice-ring.c behaves as a queue of at most 16 items, for ever: the sequence
-- numbers may wrap.
use midi_ble_rt.Base.{
  ℕ, suc, ◌+◌, ◌%◌, ◌^◌, ◌<◌, ◌≡◌, refl, sym, ◌∙◌, ap, ap₂, Bool, true, false, none, some, [], ◌∷◌,
  ◌++◌, length, get_or, set, leb, ◌==◌, arith, get_or-set_self, length-set, ==_iff,
}
use midi_ble_rt.FrameModel.{Slice, slice_ok}
use midi_ble_rt.SliceRing.{
  Item, Ring, Kind, zero_item, ring_count, ring_count_from_seq, init, push_item, take_item,
}
use midi_ble_rt.SliceRing.Queue.{
  window, used, contents, IsValid, length-window, window-set_ne, window-suc,
}

pub length-contents : (r : Ring) → length (contents r) ≡ used r
length-contents r = length-window r.items r.read_seq (used r)

pub init-IsValid :
    (kind : Kind) (has_pool : Bool)
    → IsValid (init kind has_pool) × (contents (init kind has_pool) ≡ [])
unfolding init
init-IsValid kind has_pool = (
  record { slots = refl; read_in = omega arith; write_in = omega arith; used_in = omega arith },
  refl,
)

-- The clamps of `ring_count_from_seq` do nothing to a valid ring.
pub ring_count_lem : {r : Ring} → IsValid r → ring_count_from_seq r.read_seq r.write_seq ≡ used r
ring_count_lem v = ground (arith, v.used_in)

-- The item that a push stores.
abbrev pub new_item : Ring → Slice → ℕ → ℕ → Item
new_item r slice timestamp_ns epoch = record {
  slice = slice;
  seq = r.next_seq;
  timestamp_ns = timestamp_ns;
  epoch = epoch;
  flags = 0;
}

-- What a push that finds room leaves.
abbrev pub pushed_ring : Ring → Slice → ℕ → ℕ → Ring
pushed_ring r slice timestamp_ns epoch = record r {
  items = set r.items (r.write_seq % ring_count) (new_item r slice timestamp_ns epoch);
  next_seq = (r.next_seq + 1) % 2 ^ 64;
  pushed = (r.pushed + 1) % 2 ^ 64;
  write_seq = (r.write_seq + 1) % 2 ^ 32;
}

pub push_item_room :
    (r : Ring) (slice : Slice) (t e : ℕ)
    → IsValid r
    → r.has_pool ≡ true
    → slice_ok slice ≡ true
    → used r < ring_count
    → push_item r slice t e ≡ (true, pushed_ring r slice t e)
unfolding push_item
push_item_room r slice t e v p o room =
    let free : leb ring_count (used r) ≡ false = ground arith in rw (p, o, ring_count_lem v, free)

pub push_item_full :
    (r : Ring) (slice : Slice) (t e : ℕ)
    → IsValid r
    → r.has_pool ≡ true
    → slice_ok slice ≡ true
    → used r ≡ ring_count
    → push_item r slice t e ≡ (false, record r { overflow = (r.overflow + 1) % 2 ^ 64 })
unfolding push_item
push_item_full r slice t e v p o full =
    let none_free : leb ring_count (used r) ≡ true = ground arith in
    rw (p, o, ring_count_lem v, none_free)

module _ (r : Ring) (slice : Slice) (t e : ℕ) (v : IsValid r) (room : used r < ring_count) where
  pub used-pushed : used (pushed_ring r slice t e) ≡ suc (used r)
  used-pushed = omega (arith, v.read_in, v.write_in)

  pub pushed-IsValid : IsValid (pushed_ring r slice t e)
  pushed-IsValid = record {
    slots = length-set r.items (r.write_seq % ring_count) (new_item r slice t e) ∙ v.slots;
    read_in = v.read_in;
    write_in = omega arith;
    used_in = omega (arith, used-pushed);
  }

  pub contents-pushed :
      contents (pushed_ring r slice t e) ≡ contents r ++ (new_item r slice t e ∷ [])
  contents-pushed =
      let i = r.write_seq % ring_count in
      let x = new_item r slice t e in
      let at_end : (r.read_seq + used r) % ring_count ≡ i = omega (arith, v.read_in, v.write_in) in
      ap (window (set r.items i x) r.read_seq) used-pushed
      ∙ window-suc (set r.items i x) r.read_seq (used r) v.read_in
      ∙ ap₂ (λ l y. l ++ (y ∷ []))
          (window-set_ne r.items i x r.read_seq (used r) (λ k l q. omega (arith, at_end)))
          (ap (λ k. get_or (set r.items i x) k zero_item) at_end
            ∙ get_or-set_self r.items i x zero_item (omega (arith, v.slots)))

-- What taking an item leaves.
abbrev pub taken_ring : Ring → Ring
taken_ring r = record r {
  items = set r.items (r.read_seq % ring_count) zero_item;
  taken = (r.taken + 1) % 2 ^ 64;
  read_seq = (r.read_seq + 1) % 2 ^ 32;
}

abbrev pub oldest : Ring → Item
oldest r = get_or r.items (r.read_seq % ring_count) zero_item

empty_iff : {r : Ring} → IsValid r → used r ≡ 0 → r.read_seq ≡ r.write_seq
empty_iff v e = omega (arith, v.read_in, v.write_in)

pub take_item-empty : (r : Ring) → IsValid r → used r ≡ 0 → take_item r ≡ (none, r)
unfolding take_item
take_item-empty r v e =
    let same : (r.read_seq == r.write_seq) ≡ true = (==_iff _ _).1 (empty_iff v e) in rw same

pub take_item-some :
    (r : Ring) → IsValid r → 0 < used r → take_item r ≡ (some (oldest r), taken_ring r)
unfolding take_item
take_item-some r v h =
    let differ : (r.read_seq == r.write_seq) ≡ false = ground (arith, v.read_in) in rw differ

module _ (r : Ring) (v : IsValid r) (h : 0 < used r) where
  pub used-taken : suc (used (taken_ring r)) ≡ used r
  used-taken = omega (arith, v.read_in, v.write_in)

  pub taken-IsValid : IsValid (taken_ring r)
  taken-IsValid = record {
    slots = length-set r.items (r.read_seq % ring_count) zero_item ∙ v.slots;
    read_in = omega arith;
    write_in = v.write_in;
    used_in = omega (arith, used-taken, v.used_in);
  }

  pub contents-taken : contents r ≡ oldest r ∷ contents (taken_ring r)
  contents-taken =
      let i = r.read_seq % ring_count in
      let n = used (taken_ring r) in
      ap (window r.items r.read_seq) (sym used-taken)
      ∙ ap (λ l. oldest r ∷ l)
          (sym (
            window-set_ne r.items i zero_item ((r.read_seq + 1) % 2 ^ 32) n
              (λ k l q. omega (arith, used-taken, v.used_in))))
