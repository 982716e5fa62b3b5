-- ===== src/FrameModel/Ownership.antt =====
-- The invariant of the frame pool of src/mb-frame-model.c, and what each operation does to it.
use midi_ble_rt.Base.{
  ℕ, ◌+◌, ◌%◌, ◌^◌, ◌≤◌, ◌<◌, ◌≡◌, ◌≢◌, refl, ◌∙◌, ap, ◌↔◌, inl, inr, true, false, List, [], ◌∷◌,
  Option, none, some, ltb, length, set, All, arith, Bool-cases, Option-cases, length-set,
  length-overwrite, All-get_or, All-set, All-replicate, if_intro, ltb→lt, ltb→ge,
}
use midi_ble_rt.FrameModel.{
  Frame, Pool, Made, zero_frame, pool_init, invalid_slice, find_slot, fill, make, make_at, frame_at,
  frame_count, capacity,
}
use midi_ble_rt.FrameModel.Frames.{
  busy_bit, busy_count, busy_count-set, free_exists, find_slot_free, find_slot_complete,
}

-- A frame has its 256 bytes, and is in use exactly if somebody holds it.
pub record FrameOk (f : Frame) : Type 0 where
  pub buffer : length f.payload ≡ capacity
  pub fits : f.len ≤ capacity
  pub held : f.busy ≢ 0 → 0 < f.holders
  pub holders_in : f.holders < 2 ^ 32

pub record IsValid (p : Pool) : Type 0 where
  pub count : length p.frames ≡ frame_count
  pub next_in : p.next < frame_count
  pub frames_ok : All FrameOk p.frames
  pub occupancy : p.occupied ≡ busy_count p.frames
  pub peak : p.occupied ≤ p.occupied_max
  pub peak_in : p.occupied_max ≤ frame_count

zero_frame-FrameOk : FrameOk zero_frame
zero_frame-FrameOk = ground arith

-- A fresh pool is valid.
pub pool_init-IsValid : IsValid pool_init
unfolding pool_init
pool_init-IsValid = record {
  count = refl;
  next_in = omega arith;
  frames_ok = All-replicate FrameOk frame_count zero_frame zero_frame-FrameOk;
  occupancy = refl;
  peak = omega arith;
  peak_in = omega arith;
}

pub frame_at-FrameOk : (p : Pool) (id : ℕ) → IsValid p → id < frame_count → FrameOk (frame_at p id)
frame_at-FrameOk p id v h =
    All-get_or FrameOk p.frames id zero_frame v.frames_ok (omega (arith, v.count))

-- The pool with one frame replaced, and its count brought up to date.
pub set_frame-count :
    (p : Pool) (id : ℕ) (f : Frame)
    → IsValid p
    → id < frame_count
    → busy_count (set p.frames id f) + busy_bit (frame_at p id) ≡ p.occupied + busy_bit f
set_frame-count p id f v h =
    omega (arith, busy_count-set p.frames id f (omega (arith, v.count)), v.occupancy)

pub busy_count-le : (fs : List Frame) → busy_count fs ≤ length fs
busy_count-le [] = omega arith
busy_count-le (f ∷ fs) = ground (arith, busy_count-le fs)

-- With a frame to spare and a payload that fits, `make` takes a frame that was free.
pub make_free :
    (p : Pool) (bytes : List ℕ) (timestamp_ns : ℕ)
    → IsValid p
    → length bytes ≤ capacity
    → p.occupied < frame_count
    → (id : ℕ) × (id < frame_count)
      × ((frame_at p id).busy ≡ 0)
      × (make p bytes timestamp_ns ≡ make_at p id bytes timestamp_ns)
unfolding make
make_free p bytes t v small room =
    let (i, hi, free) = free_exists p.frames (omega (arith, v.count, v.occupancy)) in
    let (id, found) =
      find_slot_complete p.frames p.next i v.next_in (omega (arith, v.count)) free in
    let (free', l) = find_slot_free p.frames p.next frame_count 0 found in
    let fits : ltb capacity (length bytes) ≡ false = ground arith in
    (id, l, free', rw (fits, found))

-- A free frame means that not all are in use.
pub free-room :
    (p : Pool) (id : ℕ)
    → IsValid p
    → id < frame_count
    → (frame_at p id).busy ≡ 0
    → p.occupied < frame_count
free-room p id v h free =
    let used = record zero_frame { busy = 1 } in
    ground (
      arith,
      set_frame-count p id used v h,
      busy_count-le (set p.frames id used),
      length-set p.frames id used,
    )

-- With all frames in use `make` only counts the failure.
pub make_full :
    (p : Pool) (bytes : List ℕ) (timestamp_ns : ℕ)
    → IsValid p
    → length bytes ≤ capacity
    → p.occupied ≡ frame_count
    → make p bytes timestamp_ns ≡ record {
      made = false;
      slice = invalid_slice;
      pool = record p { empty_count = (p.empty_count + 1) % 2 ^ 64 };
    }
unfolding make
make_full p bytes t v small full = elim (Option-cases (find_slot p.frames p.next 0 frame_count)) [
  | inl missed ↦ let fits : ltb capacity (length bytes) ≡ false = ground arith in rw (fits, missed)
  | inr found ↦
      let (free, h) = find_slot_free p.frames p.next frame_count 0 found.1 in
      absurd (omega (arith, free-room p found.0 v h free))
]

fill-FrameOk :
    (f : Frame) (bytes : List ℕ) (seq t : ℕ)
    → FrameOk f
    → length bytes ≤ capacity
    → FrameOk (fill f bytes seq t)
fill-FrameOk f bytes seq t o h = record {
  buffer = length-overwrite f.payload bytes ∙ o.buffer;
  fits = omega arith;
  held = λ _. omega arith;
  holders_in = omega arith;
}

make_at-IsValid :
    (p : Pool) (id : ℕ) (bytes : List ℕ) (t : ℕ)
    → IsValid p
    → id < frame_count
    → (frame_at p id).busy ≡ 0
    → length bytes ≤ capacity
    → IsValid (make_at p id bytes t).pool
make_at-IsValid p id bytes t v h free small =
    let f = fill (frame_at p id) bytes p.seq_next t in
    let room : p.occupied < frame_count = free-room p id v h free in
    let now : busy_count (set p.frames id f) ≡ p.occupied + 1 =
      ground (arith, set_frame-count p id f v h) in
    record {
      count = length-set p.frames id f ∙ v.count;
      next_in = omega arith;
      frames_ok =
          All-set FrameOk p.frames id f v.frames_ok
            (fill-FrameOk (frame_at p id) bytes p.seq_next t (frame_at-FrameOk p id v h) small);
      occupancy = ground arith;
      peak = ground arith;
      peak_in = ground (arith, v.peak_in);
    }

-- `mb_frame_model_make` keeps the pool valid, whether it takes a frame or not.
pub make-IsValid :
    (p : Pool) (bytes : List ℕ) (timestamp_ns : ℕ)
    → IsValid p
    → IsValid (make p bytes timestamp_ns).pool
unfolding make
make-IsValid p bytes t v =
    if_intro (λ (m : Made). IsValid m.pool) (ltb capacity (length bytes)) (λ _. v)
      (λ fits. found (find_slot p.frames p.next 0 frame_count) refl (ltb→ge _ _ fits))
  where
    found :
        (o : Option ℕ)
        → find_slot p.frames p.next 0 frame_count ≡ o
        → length bytes ≤ capacity
        → IsValid
            (elim o as (λ _. Made) [
              | none ↦ record {
                made = false;
                slice = invalid_slice;
                pool = record p { empty_count = (p.empty_count + 1) % 2 ^ 64 };
              }
              | some id ↦ make_at p id bytes t
            ]).pool
    found none e small = ground arith
    found (some id) e small =
        let (free, h) = find_slot_free p.frames p.next frame_count 0 e in
        make_at-IsValid p id bytes t v h free small

made-small :
    (p : Pool) (bytes : List ℕ) (timestamp_ns : ℕ)
    → (make p bytes timestamp_ns).made ≡ true
    → length bytes ≤ capacity
unfolding make
made-small p bytes t e = ground arith

made-room :
    (p : Pool) (bytes : List ℕ) (timestamp_ns : ℕ)
    → IsValid p
    → (make p bytes timestamp_ns).made ≡ true
    → p.occupied < frame_count
made-room p bytes t v e = elim (Bool-cases (ltb p.occupied frame_count)) [
  | inl room ↦ ltb→lt _ _ room
  | inr full ↦
      let same : p.occupied ≡ frame_count = omega (arith, ltb→ge _ _ full, v.peak, v.peak_in) in
      cc (make_full p bytes t v (made-small p bytes t e) same)
]

-- On a valid pool `mb_frame_model_make` succeeds exactly if the payload fits in a frame and not all
-- 32 frames are in use.
pub make_succeeds :
    (p : Pool) (bytes : List ℕ) (timestamp_ns : ℕ)
    → IsValid p
    → ((make p bytes timestamp_ns).made ≡ true)
      ↔ ((length bytes ≤ capacity) × (p.occupied < frame_count))
make_succeeds p bytes t v = (
  (λ done. (made-small p bytes t done, made-room p bytes t v done)),
  (λ (small, room). ap (λ (m : Made). m.made) (make_free p bytes t v small room).3),
)
