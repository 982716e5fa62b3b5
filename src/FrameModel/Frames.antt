-- ===== src/FrameModel/Frames.antt =====
-- Counting the busy frames of the pool of src/mb-frame-model.c, and the search for a free one.
use midi_ble_rt.Base.{
  ℕ, zero, suc, ◌+◌, ◌-◌, ◌%◌, ◌<◌, ◌≡◌, ◌≢◌, refl, ◌∙◌, ap, inl, inr, List, [], ◌∷◌, none, some,
  ◌==◌, if◌then◌else◌, length, get_or, set, replicate, arith, Bool-cases, ==_iff, Option-cases,
}
use midi_ble_rt.FrameModel.{Frame, zero_frame, find_slot, frame_count, frame_slot_claim}

abbrev pub busy_bit : Frame → ℕ
busy_bit f = if f.busy == 0 then 0 else 1

abbrev pub busy_count : List Frame → ℕ
busy_count [] = 0
busy_count (f ∷ fs) = busy_bit f + busy_count fs

pub busy_count-set :
    (fs : List Frame) (i : ℕ) (f : Frame)
    → i < length fs
    → busy_count (set fs i f) + busy_bit (get_or fs i zero_frame) ≡ busy_count fs + busy_bit f
busy_count-set [] i f h = absurd (omega arith)
busy_count-set (g ∷ fs) zero f h = omega arith
busy_count-set (g ∷ fs) (suc i) f h = omega (arith, busy_count-set fs i f (omega arith))

pub busy_count-replicate : (n : ℕ) → busy_count (replicate n zero_frame) ≡ 0
busy_count-replicate zero = refl
busy_count-replicate (suc n) = omega (arith, busy_count-replicate n)

-- Not all frames are busy if fewer are busy than there are.
pub free_exists :
    (fs : List Frame)
    → busy_count fs < length fs
    → (i : ℕ) × (i < length fs) × ((get_or fs i zero_frame).busy ≡ 0)
free_exists [] h = absurd (omega arith)
free_exists (f ∷ fs) h = elim (Bool-cases (f.busy == 0)) [
  | inl free ↦ (0, omega arith, (==_iff _ _).0 free)
  | inr used ↦ let (i, l, e) = free_exists fs (ground arith) in (suc i, omega arith, e)
]

add-zero_right : (a b : ℕ) → a + (b + 0) ≡ a + b
add-zero_right a b = omega arith

shift_one : (a b k : ℕ) → a + (b + 1 + k) ≡ a + (b + suc k)
shift_one a b k = omega arith

-- Where a search that starts at `next` meets frame `i`.
round_trip :
    (next i : ℕ)
    → next < frame_count
    → i < frame_count
    → (next + (0 + (i + frame_count - next) % frame_count)) % frame_count ≡ i
round_trip next i h k = omega arith

module _ (fs : List Frame) (next : ℕ) where
  -- The search returns a free frame.
  pub find_slot_free :
      (rounds step : ℕ) {id : ℕ}
      → find_slot fs next step rounds ≡ some id
      → ((get_or fs id zero_frame).busy ≡ 0) × (id < frame_count)
  unfolding find_slot
  find_slot_free zero step h = cc
  find_slot_free (suc rounds) step {id} h =
      elim (Bool-cases (frame_slot_claim (get_or fs ((next + step) % frame_count) zero_frame))) [
        | inl free ↦
            ground
              (arith, (==_iff (get_or fs ((next + step) % frame_count) zero_frame).busy 0).0 free)
        | inr used ↦ find_slot_free rounds (step + 1) (ground arith)
      ]

  -- If the search finds none, it has seen each of its frames busy.
  find_slot-none :
      (rounds step k : ℕ)
      → find_slot fs next step rounds ≡ none
      → k < rounds
      → (get_or fs ((next + (step + k)) % frame_count) zero_frame).busy ≢ 0
  unfolding find_slot
  find_slot-none zero step k h l = absurd (omega arith)
  find_slot-none (suc rounds) step zero h l = λ free.
      ground
        (arith, ap (λ n. (get_or fs (n % frame_count) zero_frame).busy) (add-zero_right next step))
  find_slot-none (suc rounds) step (suc k) h l = λ free.
      find_slot-none rounds (step + 1) k (ground arith) (omega arith)
        (ap (λ n. (get_or fs (n % frame_count) zero_frame).busy) (shift_one next step k) ∙ free)

-- The search finds a free frame whenever there is one, wherever it starts.
pub find_slot_complete :
    (fs : List Frame) (next i : ℕ)
    → next < frame_count
    → i < frame_count
    → (get_or fs i zero_frame).busy ≡ 0
    → (id : ℕ) × (find_slot fs next 0 frame_count ≡ some id)
find_slot_complete fs next i hn hi free = elim (Option-cases (find_slot fs next 0 frame_count)) [
  | inr found ↦ found
  | inl missed ↦ absurd (
      find_slot-none fs next frame_count 0 ((i + frame_count - next) % frame_count) missed
        (omega arith) (ap (λ n. (get_or fs n zero_frame).busy) (round_trip next i hn hi) ∙ free))
]
