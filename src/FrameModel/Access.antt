-- ===== src/FrameModel/Access.antt =====
-- Reading, holding and releasing frames of the pool of src/mb-frame-model.c.
use midi_ble_rt.Base.{
  ℕ, suc, ◌+◌, ◌-◌, ◌%◌, ◌^◌, ◌≤◌, ◌<◌, ◌≡◌, ◌≢◌, refl, sym, ◌∙◌, ap, subst, true, false, not, List,
  Option, none, some, ltb, ◌==◌, if◌then◌else◌, length, get_or, set, take, drop, overwrite, arith,
  length-set, take-overwrite, get_or-set_self, get_or-set_ne, All-set, set-set, set-get_or,
}
use midi_ble_rt.FrameModel.{
  Made, Frame, Pool, Slice, zero_frame, slice_ok, fill, make, make_at, frame_at, set_frame, hold,
  done, release, get, frame_count, capacity,
}
use midi_ble_rt.FrameModel.Ownership.{
  IsValid, FrameOk, frame_at-FrameOk, set_frame-count, make_free,
}

-- What a slice shows of its frame.
abbrev pub shown : Frame → Slice → Option (List ℕ)
shown f s =
    if not (slice_ok s)
    then none
    else if f.busy == 0
    then none
    else if ltb f.len (s.off + s.len)
    then none
    else some (take s.len (drop s.off f.payload))

pub get_lem : (p : Pool) (s : Slice) → get p s ≡ shown (frame_at p s.id) s
unfolding get
get_lem p s = refl

pub frame_at-set_self :
    (p : Pool) (id : ℕ) (f : Frame)
    → IsValid p
    → id < frame_count
    → get_or (set p.frames id f) id zero_frame ≡ f
frame_at-set_self p id f v h = get_or-set_self p.frames id f zero_frame (omega (arith, v.count))

shown-fill :
    (f : Frame) (bytes : List ℕ) (seq t id : ℕ)
    → FrameOk f
    → id < frame_count
    → length bytes ≤ capacity
    → shown (fill f bytes seq t) (record { id = id; off = 0; len = length bytes % 2 ^ 16 })
      ≡ some bytes
shown-fill f bytes seq t id o h small =
    let len : length bytes % 2 ^ 16 ≡ length bytes = omega arith in
    let back : take (length bytes) (overwrite f.payload bytes) ≡ bytes =
      take-overwrite f.payload bytes (omega (arith, o.buffer)) in
    rw len (ground (arith, back))

shown_free : (f : Frame) (s : Slice) → f.busy ≡ 0 → shown f s ≡ none
shown_free f s free = ground arith

-- What `mb_frame_model_make` stored is read back through its slice, byte for byte; and what any
-- other slice shows is as it was.
pub get-make :
    (p : Pool) (bytes : List ℕ) (timestamp_ns : ℕ)
    → IsValid p
    → length bytes ≤ capacity
    → p.occupied < frame_count
    → let m = make p bytes timestamp_ns in
      (get m.pool m.slice ≡ some bytes)
      × (get p m.slice ≡ none)
      × ((s : Slice) → s.id ≢ m.slice.id → get m.pool s ≡ get p s)
get-make p bytes t v small room =
    let (id, h, free, e) = make_free p bytes t v small room in
    let slice : Slice = record { id = id; off = 0; len = length bytes % 2 ^ 16 } in
    let q : Pool = (make_at p id bytes t).pool in
    let f : Frame = fill (frame_at p id) bytes p.seq_next t in
    let stored : shown (frame_at q id) slice ≡ some bytes =
      ap (λ g. shown g slice) (frame_at-set_self p id f v h)
      ∙ shown-fill (frame_at p id) bytes p.seq_next t id (frame_at-FrameOk p id v h) h small in
    rw e (
      get_lem q slice ∙ stored,
      get_lem p slice ∙ shown_free (frame_at p id) slice free,
      λ s ne.
          get_lem q s
          ∙ ap (λ g. shown g s) (get_or-set_ne p.frames id s.id f zero_frame (λ x. ne (sym x)))
          ∙ sym (get_lem p s),
    )

-- All that a client of `make` needs to know of a success.
pub record Stored (p : Pool) (bytes : List ℕ) (m : Made) : Type 0 where
  pub made : m.made ≡ true
  pub good : slice_ok m.slice ≡ true
  pub was_free : (frame_at p m.slice.id).busy ≡ 0
  pub busy : (frame_at m.pool m.slice.id).busy ≢ 0
  pub single : (frame_at m.pool m.slice.id).holders ≡ 1
  pub others : (i : ℕ) → i ≢ m.slice.id → frame_at m.pool i ≡ frame_at p i
  pub occupied : m.pool.occupied ≡ p.occupied + 1
  pub shows : get m.pool m.slice ≡ some bytes

make_at-Stored :
    (p : Pool) (id : ℕ) (bytes : List ℕ) (t : ℕ)
    → IsValid p
    → id < frame_count
    → (frame_at p id).busy ≡ 0
    → length bytes ≤ capacity
    → p.occupied < frame_count
    → get (make_at p id bytes t).pool (make_at p id bytes t).slice ≡ some bytes
    → Stored p bytes (make_at p id bytes t)
make_at-Stored p id bytes t v h free small room shows =
    let f : Frame = fill (frame_at p id) bytes p.seq_next t in
    let here = frame_at-set_self p id f v h in
    record {
      made = refl;
      good = ground arith;
      was_free = free;
      busy = λ e. omega (arith, ap (λ (g : Frame). g.busy) here);
      single = ap (λ (g : Frame). g.holders) here;
      others = λ i ne. get_or-set_ne p.frames id i f zero_frame (λ x. ne (sym x));
      occupied = ground arith;
      shows = shows;
    }

pub make-Stored :
    (p : Pool) (bytes : List ℕ) (timestamp_ns : ℕ)
    → IsValid p
    → length bytes ≤ capacity
    → p.occupied < frame_count
    → Stored p bytes (make p bytes timestamp_ns)
make-Stored p bytes t v small room =
    let (id, h, free, e) = make_free p bytes t v small room in
    let shows = (get-make p bytes t v small room).0 in
    subst (Stored p bytes) (sym e) (
      make_at-Stored p id bytes t v h free small room
        (subst (λ (m : Made). get m.pool m.slice ≡ some bytes) e shows))

hold_inv :
    (p q : Pool) (s : Slice)
    → hold p s ≡ (true, q)
    → let f = frame_at p s.id in
      (slice_ok s ≡ true)
      × (f.busy ≢ 0)
      × (q ≡ set_frame p s.id (record f { holders = (f.holders + 1) % 2 ^ 32 }))
unfolding hold
hold_inv p q s e = ground arith

-- A release that is not the last.
pub done_more :
    (p : Pool) (s : Slice) (f : Frame)
    → slice_ok s ≡ true
    → frame_at p s.id ≡ f
    → f.busy ≢ 0
    → 1 < f.holders
    → f.holders < 2 ^ 32
    → done p s ≡ (true, set_frame p s.id (record f { holders = f.holders - 1 }))
unfolding done
done_more p s f o e b l h =
    let left : (f.holders + 2 ^ 32 - 1) % 2 ^ 32 ≡ f.holders - 1 = omega arith in
    let busy : (f.busy == 0) ≡ false = ground arith in
    let some_left : (f.holders - 1 == 0) ≡ false = ground arith in rw (o, e, busy, left, some_left)

-- The last release.
pub done_last :
    (p : Pool) (s : Slice) (f : Frame)
    → slice_ok s ≡ true
    → frame_at p s.id ≡ f
    → f.busy ≢ 0
    → f.holders ≡ 1
    → done p s ≡ (true, record (set_frame p s.id (release f)) { occupied = p.occupied - 1 })
unfolding done
done_last p s f o e b l =
    let left : ((f.holders + 2 ^ 32 - 1) % 2 ^ 32 == 0) ≡ true = ground arith in
    let busy : (f.busy == 0) ≡ false = ground arith in rw (o, e, busy, left)

slice_ok-id : (s : Slice) → slice_ok s ≡ true → s.id < frame_count
slice_ok-id s h = ground arith

release-FrameOk : (f : Frame) → FrameOk f → FrameOk (release f)
release-FrameOk f o = ground arith

-- A hold followed by a release leaves the pool exactly as it was.
done-hold :
    (p q : Pool) (s : Slice)
    → IsValid p
    → (frame_at p s.id).holders < 2 ^ 32 - 1
    → hold p s ≡ (true, q)
    → done q s ≡ (true, p)
done-hold p q s v h e =
    let (o, b, q_is) = hold_inv p q s e in
    let f = frame_at p s.id in
    let g : Frame = record f { holders = (f.holders + 1) % 2 ^ 32 } in
    let id_in = slice_ok-id s o in
    let ok_frame = frame_at-FrameOk p s.id v id_in in
    let held : 0 < f.holders = ok_frame.held b in
    let more : (f.holders + 1) % 2 ^ 32 ≡ suc f.holders = omega arith in
    let back : suc f.holders - 1 ≡ f.holders = omega arith in
    ap (λ r. done r s) q_is
    ∙ done_more (set_frame p s.id g) s g o (frame_at-set_self p s.id g v id_in) b (omega arith)
        (omega arith)
    ∙ ap (λ fs. (true, record p { frames = fs }))
        (set-set p.frames s.id g (record g { holders = g.holders - 1 })
          ∙ ap (λ k. set p.frames s.id (record f { holders = k })) (ap (λ k. k - 1) more ∙ back)
          ∙ set-get_or p.frames s.id zero_frame)

-- The last holder's release frees the frame: its slice shows nothing any more, every other frame
-- is as it was, one frame fewer is in use, and the pool stays valid.
pub done-frees :
    (p : Pool) (s : Slice)
    → IsValid p
    → slice_ok s ≡ true
    → (frame_at p s.id).busy ≢ 0
    → (frame_at p s.id).holders ≡ 1
    → let q = (done p s).1 in
      ((done p s).0 ≡ true)
      × (get q s ≡ none)
      × ((i : ℕ) → i ≢ s.id → frame_at q i ≡ frame_at p i)
      × (q.occupied + 1 ≡ p.occupied)
      × IsValid q
done-frees p s v o b one =
    let f = frame_at p s.id in
    let id_in = slice_ok-id s o in
    let count = set_frame-count p s.id (release f) v id_in in
    let e = done_last p s f o refl b one in
    let q' : Pool = record (set_frame p s.id (release f)) { occupied = p.occupied - 1 } in
    rw e (
      refl,
      get_lem q' s
          ∙ shown_free (frame_at q' s.id) s
              (ap (λ (g : Frame). g.busy) (frame_at-set_self p s.id (release f) v id_in)),
      (λ i ne. get_or-set_ne p.frames s.id i (release f) zero_frame (λ x. ne (sym x))),
      ground (arith, count),
      record {
        count = length-set p.frames s.id (release f) ∙ v.count;
        next_in = v.next_in;
        frames_ok =
            All-set FrameOk p.frames s.id (release f) v.frames_ok
              (release-FrameOk f (frame_at-FrameOk p s.id v id_in));
        occupancy = ground (arith, count);
        peak = omega (arith, v.peak);
        peak_in = v.peak_in;
      },
    )
