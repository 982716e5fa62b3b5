-- ===== src/SliceRing.antt =====
-- src/mb-slice-ring.h and src/mb-slice-ring.c: the ring of slices between one producer and one
-- consumer. `read_seq` and `write_seq` are kept as 32-bit patterns, so that `write_seq + 1` wraps.
-- `ring->pool` is the pool that is passed beside the ring; `has_pool` says that it is not NULL.
pub mod Queue
pub mod Refine
pub mod Fifo
use midi_ble_rt.Base.{
  ℕ, zero, suc, ◌+◌, ◌-◌, ◌%◌, ◌^◌, Bool, true, false, not, ◌&&◌, ◌||◌, List, [], ◌∷◌, Option, none,
  some, ltb, leb, ◌==◌, if◌then◌else◌, length, get_or, set, replicate,
}
use midi_ble_rt.FrameModel.{Slice, Pool, slice_ok}
use midi_ble_rt.FrameModel

abbrev pub ring_count : ℕ
ring_count = 16

-- MbSliceRingKind
pub data Kind : Type 0 where
  rx_raw rx_decoded rx_active tx_raw tx_decoded tx_active : Kind

-- MbSliceRingItem
pub record Item : Type 0 where
  pub slice : Slice
  pub seq : ℕ
  pub timestamp_ns : ℕ
  pub epoch : ℕ
  pub flags : ℕ

-- MbSliceRing
pub record Ring : Type 0 where
  pub kind : Kind
  pub has_pool : Bool
  pub items : List Item  -- 16 items
  pub read_seq : ℕ  -- gint
  pub write_seq : ℕ  -- gint
  pub next_seq : ℕ  -- uint64_t
  pub pushed : ℕ  -- uint64_t
  pub taken : ℕ  -- uint64_t
  pub dropped : ℕ  -- uint64_t
  pub overflow : ℕ  -- uint64_t

abbrev pub zero_item : Item
zero_item = record {
  slice = record { id = 0; off = 0; len = 0 };
  seq = 0;
  timestamp_ns = 0;
  epoch = 0;
  flags = 0;
}

-- `gint count = write_seq - read_seq`, between 0 and 16: a pattern from 2^31 on is negative.
abbrev pub ring_count_from_seq : ℕ → ℕ → ℕ
ring_count_from_seq read_seq write_seq =
    let count = (write_seq + 2 ^ 32 - read_seq) % 2 ^ 32 in
    if leb (2 ^ 31) count then 0 else if ltb ring_count count then ring_count else count

unfoldable pub init : Kind → Bool → Ring
init kind has_pool = record {
  kind = kind;
  has_pool = has_pool;
  items = replicate ring_count zero_item;
  read_seq = 0;
  write_seq = 0;
  next_seq = 0;
  pushed = 0;
  taken = 0;
  dropped = 0;
  overflow = 0;
}

unfoldable pub push_item : Ring → Slice → ℕ → ℕ → Bool × Ring
push_item r slice timestamp_ns epoch =
    if not r.has_pool || not (slice_ok slice)
    then (false, r)
    else if leb ring_count (ring_count_from_seq r.read_seq r.write_seq)
    then (false, record r { overflow = (r.overflow + 1) % 2 ^ 64 })
    else (
      true,
      record r {
        items = set r.items (r.write_seq % ring_count) (record {
          slice = slice;
          seq = r.next_seq;
          timestamp_ns = timestamp_ns;
          epoch = epoch;
          flags = 0;
        });
        next_seq = (r.next_seq + 1) % 2 ^ 64;
        pushed = (r.pushed + 1) % 2 ^ 64;
        write_seq = (r.write_seq + 1) % 2 ^ 32;
      },
    )

unfoldable pub push_owned_with_epoch : Ring → Slice → ℕ → ℕ → Bool × Ring
unfolding push_item
push_owned_with_epoch r slice timestamp_ns epoch = push_item r slice timestamp_ns epoch

unfoldable pub push_owned : Ring → Slice → ℕ → Bool × Ring
unfolding push_owned_with_epoch
push_owned r slice timestamp_ns = push_owned_with_epoch r slice timestamp_ns 0

-- The producer takes a hold of its own, and gives it back where the ring is full.
unfoldable pub push_shared_with_epoch : Ring → Pool → Slice → ℕ → ℕ → Bool × Ring × Pool
push_shared_with_epoch r p slice timestamp_ns epoch =
    if not r.has_pool
    then (false, r, p)
    else let (held, p') = FrameModel.hold p slice in
      if not held
      then (false, r, p')
      else let (pushed, r') = push_item r slice timestamp_ns epoch in
        if pushed then (true, r', p') else (false, r', (FrameModel.done p' slice).1)

unfoldable pub push_shared : Ring → Pool → Slice → ℕ → Bool × Ring × Pool
unfolding push_shared_with_epoch
push_shared r p slice timestamp_ns = push_shared_with_epoch r p slice timestamp_ns 0

unfoldable pub peek : Ring → Option Item
peek r =
    if r.read_seq == r.write_seq
    then none
    else some (get_or r.items (r.read_seq % ring_count) zero_item)

unfoldable pub take_item : Ring → Option Item × Ring
take_item r = if r.read_seq == r.write_seq then (none, r) else (
  some (get_or r.items (r.read_seq % ring_count) zero_item),
  record r {
    items = set r.items (r.read_seq % ring_count) zero_item;
    taken = (r.taken + 1) % 2 ^ 64;
    read_seq = (r.read_seq + 1) % 2 ^ 32;
  },
)

-- The caller's copy of the item is cleared too, and not used again.
unfoldable pub item_done : Ring → Pool → Item → Pool
item_done r p item = if r.has_pool then (FrameModel.done p item.slice).1 else p

unfoldable pub drop_item : Ring → Pool → Bool × Ring × Pool
drop_item r p =
    let (o, r') = take_item r in
    elim o [
      | none ↦ (false, r', p)
      | some item ↦ (true, record r' { dropped = (r'.dropped + 1) % 2 ^ 64 }, item_done r' p item)
    ]

unfoldable pub is_empty : Ring → Bool
is_empty r = r.read_seq == r.write_seq

unfoldable pub is_full : Ring → Bool
is_full r = leb ring_count (ring_count_from_seq r.read_seq r.write_seq)

-- `(uint8_t)` of a number up to 16.
unfoldable pub count : Ring → ℕ
count r = ring_count_from_seq r.read_seq r.write_seq % 2 ^ 8

unfoldable pub overflow_count : Ring → ℕ
overflow_count r = r.overflow

-- The `while` of `mb_slice_ring_clear`, with the rounds that are left to it.
pub drop_all : ℕ → Ring → Pool → Ring × Pool
unfolding is_empty drop_item
drop_all zero r p = (r, p)
drop_all (suc fuel) r p = elim (is_empty r) [
  | true ↦ (r, p)
  | false ↦ drop_all fuel (drop_item r p).1 (drop_item r p).2
]

-- The ring holds 16 items at most.
unfoldable pub clear : Ring → Pool → Ring × Pool
unfolding drop_all init
clear r p = let (r', p') = drop_all ring_count r p in (init r'.kind r'.has_pool, p')
