-- ===== src/FrameModel.antt =====
-- src/mb-frame-model.h and src/mb-frame-model.c: the pool of reference-counted frames.
-- The atomic operations are the plain reads and writes that they are for one thread; a `gint` is
-- kept as its 32-bit pattern.
pub mod Frames
pub mod Ownership
pub mod Access
use midi_ble_rt.Base.{
  ℕ, zero, suc, ◌+◌, ◌-◌, ◌%◌, ◌^◌, Bool, true, false, not, ◌&&◌, List, [], Option, none, some, ltb,
  leb, ◌==◌, if◌then◌else◌, length, get_or, set, take, drop, replicate, overwrite,
}

abbrev pub frame_count : ℕ
frame_count = 32

abbrev pub capacity : ℕ
capacity = 256

-- MB_FRAME_MODEL_INVALID, UINT16_MAX
abbrev pub invalid_id : ℕ
invalid_id = 65535

-- MbFrameModelSlice, three uint16_t
pub record Slice : Type 0 where
  pub id : ℕ
  pub off : ℕ
  pub len : ℕ

-- MbFrameModelFrame
pub record Frame : Type 0 where
  pub payload : List ℕ  -- 256 bytes
  pub len : ℕ  -- uint16_t
  pub busy : ℕ  -- int
  pub holders : ℕ  -- int
  pub seq : ℕ  -- uint64_t
  pub timestamp_ns : ℕ  -- uint64_t

-- MbFrameModelPool
pub record Pool : Type 0 where
  pub frames : List Frame  -- 32 frames
  pub next : ℕ  -- uint16_t
  pub occupied : ℕ  -- uint16_t
  pub occupied_max : ℕ  -- uint16_t
  pub seq_next : ℕ  -- uint64_t
  pub alloc_count : ℕ  -- uint64_t
  pub empty_count : ℕ  -- uint64_t

abbrev pub zero_frame : Frame
zero_frame = record {
  payload = replicate capacity 0;
  len = 0;
  busy = 0;
  holders = 0;
  seq = 0;
  timestamp_ns = 0;
}

-- `memset(pool, 0, sizeof(*pool))`
unfoldable pub pool_init : Pool
pool_init = record {
  frames = replicate frame_count zero_frame;
  next = 0;
  occupied = 0;
  occupied_max = 0;
  seq_next = 0;
  alloc_count = 0;
  empty_count = 0;
}

abbrev pub slice_ok : Slice → Bool
slice_ok s =
    not (s.id == invalid_id)
    && ltb s.id frame_count
    && leb s.off capacity
    && leb s.len capacity
    && leb ((s.off + s.len) % 2 ^ 32) capacity

abbrev pub invalid_slice : Slice
invalid_slice = record { id = invalid_id; off = 0; len = 0 }

-- The compare-and-exchange of `frame_slot_claim` succeeds.
abbrev pub frame_slot_claim : Frame → Bool
frame_slot_claim f = f.busy == 0

-- The `for` of `mb_frame_model_make` up to the frame that it claims, `rounds` rounds from the end.
pub find_slot : List Frame → ℕ → ℕ → ℕ → Option ℕ
find_slot frames next step zero = none
find_slot frames next step (suc rounds) =
    let rest = find_slot frames next (step + 1) rounds in
    let id = (next + step) % frame_count in
    if frame_slot_claim (get_or frames id zero_frame) then some id else rest

-- The claimed frame with its contents.
abbrev pub fill : Frame → List ℕ → ℕ → ℕ → Frame
fill f bytes seq timestamp_ns = record {
  payload = overwrite f.payload bytes;
  len = length bytes % 2 ^ 16;
  busy = 1;
  holders = 1;
  seq = seq;
  timestamp_ns = timestamp_ns;
}

-- What `mb_frame_model_make` returns, `*out_slice`, and the pool.
pub record Made : Type 0 where
  pub made : Bool
  pub slice : Slice
  pub pool : Pool

-- The body of the `for` once frame `id` is claimed.
abbrev pub make_at : Pool → ℕ → List ℕ → ℕ → Made
make_at p id bytes timestamp_ns =
    let occupied = if ltb p.occupied frame_count then (p.occupied + 1) % 2 ^ 16 else p.occupied in
    record {
      made = true;
      slice = record { id = id; off = 0; len = length bytes % 2 ^ 16 };
      pool = record {
        frames =
            set p.frames id (fill (get_or p.frames id zero_frame) bytes p.seq_next timestamp_ns);
        next = (id + 1) % frame_count;
        occupied = occupied;
        occupied_max = if ltb p.occupied_max occupied then occupied else p.occupied_max;
        seq_next = (p.seq_next + 1) % 2 ^ 64;
        alloc_count = (p.alloc_count + 1) % 2 ^ 64;
        empty_count = p.empty_count;
      };
    }

unfoldable pub make : Pool → List ℕ → ℕ → Made
make p bytes timestamp_ns =
    if ltb capacity (length bytes)
    then record { made = false; slice = invalid_slice; pool = p }
    else elim (find_slot p.frames p.next 0 frame_count) [
      | none ↦ record {
        made = false;
        slice = invalid_slice;
        pool = record p { empty_count = (p.empty_count + 1) % 2 ^ 64 };
      }
      | some id ↦ make_at p id bytes timestamp_ns
    ]

abbrev pub frame_at : Pool → ℕ → Frame
frame_at p id = get_or p.frames id zero_frame

abbrev pub set_frame : Pool → ℕ → Frame → Pool
set_frame p id f = record p { frames = set p.frames id f }

unfoldable pub hold : Pool → Slice → Bool × Pool
hold p s =
    if not (slice_ok s)
    then (false, p)
    else let f = frame_at p s.id in
      if f.busy == 0
      then (false, p)
      else if ltb f.len (s.off + s.len)
      then (false, p)
      else (true, set_frame p s.id (record f { holders = (f.holders + 1) % 2 ^ 32 }))

-- What the last holder leaves.
abbrev pub release : Frame → Frame
release f = record f { len = 0; seq = 0; timestamp_ns = 0; busy = 0; holders = 0 }

unfoldable pub done : Pool → Slice → Bool × Pool
done p s =
    if not (slice_ok s)
    then (false, p)
    else let f = frame_at p s.id in
      if f.busy == 0
      then (false, p)
      else let left = (f.holders + 2 ^ 32 - 1) % 2 ^ 32 in
        if left == 0
        then (true, record (set_frame p s.id (release f)) { occupied = p.occupied - 1 })
        else (true, set_frame p s.id (record f { holders = left }))

-- The bytes that the returned pointer and `*out_len` show.
unfoldable pub get : Pool → Slice → Option (List ℕ)
get p s =
    if not (slice_ok s)
    then none
    else let f = frame_at p s.id in
      if f.busy == 0
      then none
      else if ltb f.len (s.off + s.len)
      then none
      else some (take s.len (drop s.off f.payload))
