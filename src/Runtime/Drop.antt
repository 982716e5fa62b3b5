-- ===== src/Runtime/Drop.antt =====
-- What mb_runtime_flow_drop_pending of src/mb-runtime.c leaves of a flow.
use midi_ble_rt.Base.{
  ℕ, zero, suc, ◌+◌, ◌%◌, ◌^◌, ◌<◌, ◌≡◌, refl, sym, subst, ap, ◌∙◌, Bool, true, false, none, [],
  length, ltb, Bool-cases, inl, inr, ltb→lt, ltb→ge, arith,
}
use midi_ble_rt.FrameModel.{Pool, done}
use midi_ble_rt.SliceRing.{Ring, ring_count, drop_item, item_done}
use midi_ble_rt.SliceRing.Queue.{window, IsValid, used}
use midi_ble_rt.SliceRing.Refine.{
  length-contents, oldest, taken_ring, take_item-some, take_item-empty, used-taken,
}
use midi_ble_rt.Runtime.{Flow, inc64, consume_begin, consume_end, drop_rounds, drop_pending}
use midi_ble_rt.Runtime.Ownership.{messages}
use midi_ble_rt.Runtime.Drain.{length-waiting}
use midi_ble_rt.Runtime.Deliver.{
  Inv, waiting, begin_some, end_lem, consume_begin-some, consume_end_lem,
}

dropped_ring : Ring → Ring
dropped_ring r = record (taken_ring r) { dropped = ((taken_ring r).dropped + 1) % 2 ^ 64 }

drop_item-some :
    (r : Ring) (p : Pool)
    → IsValid r
    → r.has_pool ≡ true
    → 0 < used r
    → drop_item r p ≡ (true, dropped_ring r, (done p (oldest r).slice).1)
unfolding drop_item item_done dropped_ring
drop_item-some r p v pool h =
    let e = take_item-some r v h in rw (drop_item, ap (λ t. t.0) e, ap (λ t. t.1) e, pool) refl

drop_item-empty : (r : Ring) (p : Pool) → IsValid r → used r ≡ 0 → drop_item r p ≡ (false, r, p)
unfolding drop_item
drop_item-empty r p v h =
    let e = take_item-empty r v h in rw (drop_item, ap (λ t. t.0) e, ap (λ t. t.1) e) refl

-- The flow after one round that drops an item.
dropped_flow : Flow → Flow
dropped_flow f = record f {
  ring = dropped_ring f.ring;
  pool = (done f.pool (oldest f.ring).slice).1;
  dropped = inc64 f.dropped;
}

dropped_flow-Inv : (f : Flow) → Inv f none → 0 < used f.ring → Inv (dropped_flow f) none
unfolding dropped_flow dropped_ring
dropped_flow-Inv f v h =
    let it = oldest f.ring in
    let begun = consume_begin-some f (take_item-some f.ring v.ring_ready.valid h) in
    let (a, w, i) = begin_some f v h in
    let (w', i') = end_lem (consume_begin f).1 it i in
    let same : consume_end (consume_begin f).1 it ≡ record f {
      ring = taken_ring f.ring;
      consumed = inc64 f.consumed;
      pool = (done f.pool it.slice).1;
    } =
      ap (λ t. consume_end t.1 it) begun ∙ consume_end_lem _ it v.ring_ready.has_pool in
    let k = subst (λ g. Inv g none) same i' in
    record {
      pool_valid = k.pool_valid;
      ring_ready = record {
        valid = record {
          slots = k.ring_ready.valid.slots;
          read_in = k.ring_ready.valid.read_in;
          write_in = k.ring_ready.valid.write_in;
          used_in = k.ring_ready.valid.used_in;
        };
        has_pool = k.ring_ready.has_pool;
      };
      owned = k.owned;
      counted = k.counted;
    }

drop_rounds-some :
    (fuel : ℕ) (f : Flow)
    → Inv f none
    → 0 < used f.ring
    → drop_rounds (suc fuel) f ≡ drop_rounds fuel (dropped_flow f)
unfolding drop_rounds dropped_flow
drop_rounds-some fuel f v h =
    let e = drop_item-some f.ring f.pool v.ring_ready.valid v.ring_ready.has_pool h in
    rw (drop_rounds, ap (λ t. t.0) e, ap (λ t. t.1) e, ap (λ t. t.2) e) refl

drop_rounds-empty :
    (fuel : ℕ) (f : Flow) → Inv f none → used f.ring ≡ 0 → drop_rounds (suc fuel) f ≡ f
unfolding drop_rounds
drop_rounds-empty fuel f v h =
    let e = drop_item-empty f.ring f.pool v.ring_ready.valid h in
    rw (drop_rounds, ap (λ t. t.0) e)
      (ap (λ (t : Bool × Ring × Pool). record f { ring = t.1; pool = t.2 }) e)

dropped_flow-counts :
    (f : Flow)
    → Inv f none
    → 0 < used f.ring
    → let g = dropped_flow f in
      (suc (used g.ring) ≡ used f.ring) × (g.dropped ≡ (f.dropped + 1) % 2 ^ 64)
unfolding dropped_flow dropped_ring
dropped_flow-counts f v h = (used-taken f.ring v.ring_ready.valid h, refl)

nothing_waits : (f : Flow) → used f.ring ≡ 0 → waiting f ≡ []
nothing_waits f z = ap (λ n. messages f.pool (window f.ring.items f.ring.read_seq n)) z

-- As many rounds as items wait, and one that finds nothing, are enough.
drop_rounds_lem :
    (fuel : ℕ) (f : Flow)
    → Inv f none
    → f.dropped < 2 ^ 64
    → used f.ring < fuel
    → let g = drop_rounds fuel f in
      (waiting g ≡ []) × (g.dropped ≡ (f.dropped + used f.ring) % 2 ^ 64) × Inv g none
drop_rounds_lem zero f v small h = absurd (omega arith)
drop_rounds_lem (suc fuel) f v small h = elim (Bool-cases (ltb 0 (used f.ring))) [
  | inl waits ↦
      let some_used = ltb→lt _ _ waits in
      let (fewer, one) = dropped_flow-counts f v some_used in
      let (e, d, i) =
        drop_rounds_lem fuel (dropped_flow f) (dropped_flow-Inv f v some_used) (omega (arith, one))
          (omega (arith, fewer, h)) in
      rw (drop_rounds-some fuel f v some_used) (e, omega (arith, d, one, fewer), i)
  | inr idle ↦
      let z : used f.ring ≡ 0 = omega (arith, ltb→ge _ _ idle) in
      rw (drop_rounds-empty fuel f v z) (nothing_waits f z, omega (arith, z, small), v)
]

no_frames : (g : Flow) → Inv g none → waiting g ≡ [] → g.pool.occupied ≡ 0
no_frames g i e = i.counted ∙ length-contents g.ring ∙ sym (length-waiting g) ∙ ap length e

-- Dropping what is pending, with the consumer between two items, leaves nothing waiting, counts
-- each message that waited, and gives every frame back, so that the flow may go on.
pub drop_pending_lem :
    (f : Flow)
    → Inv f none
    → f.dropped < 2 ^ 64
    → let g = drop_pending f in
      (waiting g ≡ [])
      × (g.dropped ≡ (f.dropped + length (waiting f)) % 2 ^ 64)
      × (g.pool.occupied ≡ 0)
      × Inv g none
unfolding drop_pending
drop_pending_lem f v small =
    let (e, d, i) =
      drop_rounds_lem (ring_count + 1) f v small (omega (arith, v.ring_ready.valid.used_in)) in
    (e, rw (length-waiting f) d, no_frames (drop_rounds (ring_count + 1) f) i e, i)
