-- ===== src/Runtime/Deliver.antt =====
-- One step of a flow of src/mb-runtime.c: what a push, a take and a release do to the messages
-- that wait, and to the frames.
use midi_ble_rt.Base.{
  ℕ, ◌+◌, ◌%◌, ◌^◌, ◌≤◌, ◌<◌, ◌≡◌, ◌≢◌, refl, sym, ◌∙◌, ap, ap₂, subst, true, false, Option, none,
  some, List, [], ◌∷◌, ◌++◌, length, ltb, if◌then◌else◌, arith, append_assoc, length-append,
}
use midi_ble_rt.FrameModel.{Made, make, done, capacity, frame_count, frame_at}
use midi_ble_rt.FrameModel.Ownership
use midi_ble_rt.FrameModel.Ownership.{make-IsValid}
use midi_ble_rt.FrameModel.Access.{Stored, make-Stored, done-frees}
use midi_ble_rt.SliceRing.{Item, Ring, ring_count, push_owned_with_epoch, take_item, item_done}
use midi_ble_rt.SliceRing.Queue.{contents, used}
use midi_ble_rt.SliceRing.Queue
use midi_ble_rt.SliceRing.Refine.{
  length-contents, push_item_room, push_item_full, pushed_ring, pushed-IsValid, contents-pushed,
  take_item-empty, take_item-some, taken-IsValid, contents-taken, oldest, new_item,
}
use midi_ble_rt.SliceRing.Fifo.{IsReady}
use midi_ble_rt.Runtime.{
  inc64, Flow, Message, message_of, message_with, push_bytes_with_epoch, consume_begin, consume_end,
}
use midi_ble_rt.Runtime.Ownership.{
  Apart, Owned, messages, Owned-same, messages-same, Owned-free, Owned-snoc, messages-snoc,
}

-- The item that the consumer has taken and not yet released, if there is one.
abbrev pub flying : Option Item → List Item
flying none = []
flying (some it) = it ∷ []

-- Every frame in use is held once, by an item in the ring or by the one in flight.
pub record Inv (f : Flow) (flight : Option Item) : Type 0 where
  pub pool_valid : Ownership.IsValid f.pool
  pub ring_ready : IsReady f.ring
  pub owned : Owned f.pool (flying flight ++ contents f.ring)
  pub counted : f.pool.occupied ≡ length (flying flight ++ contents f.ring)

length-flying :
    (flight : Option Item) (its : List Item) → length (flying flight ++ its) ≤ length its + 1
length-flying none its = omega arith
length-flying (some it) its = omega arith

-- At most 17 of the 32 frames are in use.
pub pool-room : {f : Flow} {flight : Option Item} → Inv f flight → f.pool.occupied < frame_count
pool-room {f} {flight} v = omega (
  arith,
  v.counted,
  length-flying flight (contents f.ring),
  length-contents f.ring,
  v.ring_ready.valid.used_in,
)

-- What the callback will be handed, oldest first.
abbrev pub waiting : Flow → List (Option Message)
waiting f = messages f.pool (contents f.ring)

Apart-split :
    (id : ℕ) (flight : Option Item) (its : List Item)
    → Apart id (flying flight ++ its)
    → Apart id its
Apart-split id none its a = a
Apart-split id (some it) its a = a.1

module _ (f : Flow) (flight : Option Item) (bytes : List ℕ) (t e : ℕ) (v : Inv f flight)
    (small : length bytes ≤ capacity) where
  abbrev m : Made
  m = make f.pool bytes t

  stored : Stored f.pool bytes m
  stored = make-Stored f.pool bytes t v.pool_valid small (pool-room v)

  apart : Apart m.slice.id (flying flight ++ contents f.ring)
  apart = Owned-free f.pool m.slice.id (flying flight ++ contents f.ring) stored.was_free v.owned

  -- The ring and the frames after a push that finds room.
  abbrev x : Item
  x = new_item f.ring m.slice t e

  push-room_waiting :
      (room : used f.ring < ring_count)
      → messages m.pool (contents (pushed_ring f.ring m.slice t e))
        ≡ waiting f ++ (some (record { bytes = bytes; timestamp_ns = t; epoch = e }) ∷ [])
  push-room_waiting room =
      ap (messages m.pool) (contents-pushed f.ring m.slice t e v.ring_ready.valid room)
      ∙ messages-snoc m.pool (contents f.ring) x
      ∙ ap₂ (λ l y. l ++ (y ∷ []))
          (messages-same f.pool m.pool m.slice.id stored.others (contents f.ring)
            (Apart-split m.slice.id flight (contents f.ring) apart))
          (ap (λ o. message_with o x) stored.shows)

  push-room_Inv :
      (room : used f.ring < ring_count)
      → Inv
          (record f {
            pool = m.pool;
            ring = pushed_ring f.ring m.slice t e;
            pushed = inc64 f.pushed;
          })
          flight
  push-room_Inv room =
      let live = flying flight ++ contents f.ring in
      let now : flying flight ++ contents (pushed_ring f.ring m.slice t e) ≡ live ++ (x ∷ []) =
        ap (λ l. flying flight ++ l) (contents-pushed f.ring m.slice t e v.ring_ready.valid room)
        ∙ sym (append_assoc (flying flight) (contents f.ring) (x ∷ [])) in
      record {
        pool_valid = make-IsValid f.pool bytes t v.pool_valid;
        ring_ready = record {
          valid = pushed-IsValid f.ring m.slice t e v.ring_ready.valid room;
          has_pool = v.ring_ready.has_pool;
        };
        owned = subst (Owned m.pool) (sym now) (
            Owned-snoc m.pool live x
              (Owned-same f.pool m.pool m.slice.id stored.others live apart v.owned)
              (record { good = stored.good; busy = stored.busy; single = stored.single }) apart);
        counted =
            omega (arith, stored.occupied, v.counted, ap length now, length-append live (x ∷ []));
      }

  -- The frame of a push that was refused goes back to the pool.
  push-full_Inv :
      let q = (done m.pool m.slice).1 in
      let g = record f {
        pool = q;
        ring = record (f.ring) { overflow = (f.ring.overflow + 1) % 2 ^ 64 };
        push_failures = inc64 f.push_failures;
      } in
      (waiting g ≡ waiting f) × Inv g flight
  push-full_Inv =
      let q = (done m.pool m.slice).1 in
      let live = flying flight ++ contents f.ring in
      let freed =
        done-frees m.pool m.slice (make-IsValid f.pool bytes t v.pool_valid) stored.good stored.busy
          stored.single in
      let others : (i : ℕ) → i ≢ m.slice.id → frame_at q i ≡ frame_at f.pool i =
        λ i ne. freed.2 i ne ∙ stored.others i ne in
      (
        messages-same f.pool q m.slice.id others (contents f.ring)
            (Apart-split m.slice.id flight (contents f.ring) apart),
        record {
          pool_valid = freed.4;
          ring_ready = record {
            valid = record {
              slots = v.ring_ready.valid.slots;
              read_in = v.ring_ready.valid.read_in;
              write_in = v.ring_ready.valid.write_in;
              used_in = v.ring_ready.valid.used_in;
            };
            has_pool = v.ring_ready.has_pool;
          };
          owned = Owned-same f.pool q m.slice.id others live apart v.owned;
          counted = omega (arith, freed.3, stored.occupied, v.counted);
        },
      )

  -- A push with room in the ring.
  pub push-room :
      used f.ring < ring_count
      → let (accepted, g) = push_bytes_with_epoch f bytes t e in
        (accepted ≡ true)
        × (waiting g
            ≡ waiting f ++ (some (record { bytes = bytes; timestamp_ns = t; epoch = e }) ∷ []))
        × Inv g flight
  unfolding push_bytes_with_epoch push_owned_with_epoch
  push-room room =
      let r = f.ring in
      let w = v.ring_ready.valid in
      let fits : ltb capacity (length bytes) ≡ false = ground arith in
      let step = push_item_room r m.slice t e w v.ring_ready.has_pool stored.good room in
      rw (fits, stored.made, step) (refl, push-room_waiting room, push-room_Inv room)

  -- A push to a full ring gives its frame back.
  pub push-full :
      used f.ring ≡ ring_count
      → let (accepted, g) = push_bytes_with_epoch f bytes t e in
        (accepted ≡ false) × (waiting g ≡ waiting f) × Inv g flight
  unfolding push_bytes_with_epoch push_owned_with_epoch
  push-full full =
      let w = v.ring_ready.valid in
      let fits : ltb capacity (length bytes) ≡ false = ground arith in
      let step = push_item_full f.ring m.slice t e w v.ring_ready.has_pool stored.good full in
      rw (fits, stored.made, step) (refl, push-full_Inv.0, push-full_Inv.1)

-- A payload that no frame holds is refused, and only counted.
pub push-long :
    (f : Flow) (flight : Option Item) (bytes : List ℕ) (t e : ℕ)
    → Inv f flight
    → capacity < length bytes
    → let (accepted, g) = push_bytes_with_epoch f bytes t e in
      (accepted ≡ false) × (waiting g ≡ waiting f) × Inv g flight
unfolding push_bytes_with_epoch
push-long f flight bytes t e v long =
    let l : ltb capacity (length bytes) ≡ true = ground arith in
    rw l (
      refl,
      refl,
      record {
        pool_valid = v.pool_valid;
        ring_ready = v.ring_ready;
        owned = v.owned;
        counted = v.counted;
      },
    )

pub consume_begin-some :
    (f : Flow) {it : Item} {r : Ring}
    → take_item f.ring ≡ (some it, r)
    → consume_begin f
      ≡ (some (it, message_of f.pool it), record f { ring = r; consumed = inc64 f.consumed })
unfolding consume_begin
consume_begin-some f e = rw (e, consume_begin) (rw e)

consume_begin-none :
    (f : Flow) {r : Ring}
    → take_item f.ring ≡ (none, r)
    → consume_begin f ≡ (none, record f { ring = r })
unfolding consume_begin
consume_begin-none f e = rw (e, consume_begin) (rw e)

pub consume_end_lem :
    (f : Flow) (it : Item)
    → f.ring.has_pool ≡ true
    → consume_end f it ≡ record f { pool = (done f.pool it.slice).1 }
unfolding consume_end item_done
consume_end_lem f it h =
    ap (λ b. record f { pool = if b then (done f.pool it.slice).1 else f.pool }) h

-- Taking the oldest item hands its message out, and keeps its frame.
pub begin_some :
    (f : Flow)
    → Inv f none
    → 0 < used f.ring
    → let (taken, g) = consume_begin f in
      let it = oldest f.ring in
      (taken ≡ some (it, message_of f.pool it))
      × (waiting f ≡ message_of f.pool it ∷ waiting g)
      × Inv g (some it)
begin_some f v h =
    let w = v.ring_ready.valid in
    let c = contents-taken f.ring w h in
    rw (consume_begin-some f (take_item-some f.ring w h)) (
      refl,
      ap (messages f.pool) c,
      record {
        pool_valid = v.pool_valid;
        ring_ready = record { valid = taken-IsValid f.ring w h; has_pool = v.ring_ready.has_pool };
        owned = subst (Owned f.pool) c v.owned;
        counted = v.counted ∙ ap length c;
      },
    )

pub begin_none :
    (f : Flow)
    → Inv f none
    → used f.ring ≡ 0
    → let (taken, g) = consume_begin f in
      (taken ≡ none) × (waiting f ≡ []) × (waiting g ≡ []) × Inv g none
begin_none f v z =
    let w = v.ring_ready.valid in
    let c : contents f.ring ≡ [] = ap (Queue.window f.ring.items f.ring.read_seq) z in
    rw (consume_begin-none f (take_item-empty f.ring w z))
      (refl, ap (messages f.pool) c, ap (messages f.pool) c, v)

-- Releasing the item in flight frees its frame, and touches no message that waits.
pub end_lem :
    (f : Flow) (it : Item)
    → Inv f (some it)
    → let g = consume_end f it in (waiting g ≡ waiting f) × Inv g none
end_lem f it v =
    let h = v.owned.0 in
    let freed = done-frees f.pool it.slice v.pool_valid h.good h.busy h.single in
    let q = (done f.pool it.slice).1 in
    rw (consume_end_lem f it v.ring_ready.has_pool) (
      messages-same f.pool q it.slice.id freed.2 (contents f.ring) v.owned.1,
      record {
        pool_valid = freed.4;
        ring_ready = v.ring_ready;
        owned = Owned-same f.pool q it.slice.id freed.2 (contents f.ring) v.owned.1 v.owned.2;
        counted = omega (arith, freed.3, v.counted);
      },
    )
