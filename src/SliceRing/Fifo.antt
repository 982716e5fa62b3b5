-- ===== src/SliceRing/Fifo.antt =====
-- A bounded queue as the specification of the ring of src/mb-slice-ring.c.
use midi_ble_rt.Base.{
  ℕ, ◌+◌, ◌%◌, ◌^◌, ◌≡◌, refl, sym, ◌∙◌, ap, Bool, true, false, Option, none, some, List, [], ◌∷◌,
  ◌++◌, length, ltb, if◌then◌else◌, arith, Bool-cases, ltb→lt, ltb→ge, inl, inr,
}
use midi_ble_rt.FrameModel.{Slice, slice_ok}
use midi_ble_rt.SliceRing.{Item, Ring, ring_count, push_item, take_item}
use midi_ble_rt.SliceRing.Queue.{contents, used, window, IsValid}
use midi_ble_rt.SliceRing.Refine.{
  length-contents, push_item_room, push_item_full, pushed-IsValid, contents-pushed, take_item-empty,
  take_item-some, taken-IsValid, contents-taken,
}

-- The calls of the producer and of the consumer, in some order.
pub data Op : Type 0 where
  push : Slice → ℕ → ℕ → Op
  take : Op

-- What a call returns: a push whether it was accepted, a take the item.
abbrev pub Reply : Type 0
Reply = Bool × Option Item

-- A queue of items, and the number that the next one gets.
pub record Fifo : Type 0 where
  pub queue : List Item
  pub next_seq : ℕ

unfoldable pub fifo_push : Fifo → Slice → ℕ → ℕ → Bool × Fifo
fifo_push f slice t e =
    if slice_ok slice
    then (if ltb (length f.queue) ring_count
        then (
          true,
          record {
            queue =
                f.queue
                ++ (record {
                  slice = slice;
                  seq = f.next_seq;
                  timestamp_ns = t;
                  epoch = e;
                  flags = 0;
                }
                    ∷ []);
            next_seq = (f.next_seq + 1) % 2 ^ 64;
          },
        )
        else (false, f))
    else (false, f)

take_from : List Item → ℕ → Option Item × Fifo
take_from [] n = (none, record { queue = []; next_seq = n })
take_from (x ∷ q) n = (some x, record { queue = q; next_seq = n })

unfoldable pub fifo_take : Fifo → Option Item × Fifo
unfolding take_from
fifo_take f = take_from f.queue f.next_seq

unfoldable pub fifo_run : Fifo → List Op → List Reply
fifo_run f [] = []
fifo_run f (push s t e ∷ ops) = let (b, f') = fifo_push f s t e in (b, none) ∷ fifo_run f' ops
fifo_run f (take ∷ ops) = let (o, f') = fifo_take f in (true, o) ∷ fifo_run f' ops

-- The same calls on the ring.
unfoldable pub ring_run : Ring → List Op → List Reply
ring_run r [] = []
ring_run r (push s t e ∷ ops) = let (b, r') = push_item r s t e in (b, none) ∷ ring_run r' ops
ring_run r (take ∷ ops) = let (o, r') = take_item r in (true, o) ∷ ring_run r' ops

abbrev pub view : Ring → Fifo
view r = record { queue = contents r; next_seq = r.next_seq }

-- A ring that the queue's operations may go on with.
pub record IsReady (r : Ring) : Type 0 where
  pub valid : IsValid r
  pub has_pool : r.has_pool ≡ true

push_item_bad :
    (r : Ring) (s : Slice) (t e : ℕ)
    → r.has_pool ≡ true
    → slice_ok s ≡ false
    → push_item r s t e ≡ (false, r)
unfolding push_item
push_item_bad r s t e p o = rw (p, o)

push_step :
    (r : Ring) (s : Slice) (t e : ℕ)
    → IsReady r
    → let (b, r') = push_item r s t e in ((b, view r') ≡ fifo_push (view r) s t e) × IsReady r'
unfolding fifo_push
push_step r s t e v = elim (Bool-cases (slice_ok s)) [
  | inr bad ↦ rw (push_item_bad r s t e v.has_pool bad, bad) (refl, v)
  | inl good ↦ elim (Bool-cases (ltb (used r) ring_count)) [
    | inl room ↦
        let l = ltb→lt _ _ room in
        rw (push_item_room r s t e v.valid v.has_pool good l, good, length-contents r, room)
          (
            ap (λ q. (true, record { queue = q; next_seq = (r.next_seq + 1) % 2 ^ 64 }))
                (contents-pushed r s t e v.valid l),
            record { valid = pushed-IsValid r s t e v.valid l; has_pool = v.has_pool },
          )
    | inr full ↦
        rw
          (
            push_item_full r s t e v.valid v.has_pool good
                (omega (arith, ltb→ge _ _ full, v.valid.used_in)),
            good,
            length-contents r,
            full,
          )
          (
            refl,
            record {
              valid = record {
                slots = v.valid.slots;
                read_in = v.valid.read_in;
                write_in = v.valid.write_in;
                used_in = v.valid.used_in;
              };
              has_pool = v.has_pool;
            },
          )
  ]
]

take_step :
    (r : Ring)
    → IsReady r
    → let (o, r') = take_item r in ((o, view r') ≡ fifo_take (view r)) × IsReady r'
unfolding fifo_take
take_step r v = elim (Bool-cases (ltb 0 (used r))) [
  | inl some_used ↦
      let l = ltb→lt _ _ some_used in
      rw (take_item-some r v.valid l) (
        ap (λ c. take_from c r.next_seq) (sym (contents-taken r v.valid l)),
        record { valid = taken-IsValid r v.valid l; has_pool = v.has_pool },
      )
  | inr nothing ↦
      let z : used r ≡ 0 = omega (arith, ltb→ge _ _ nothing) in
      rw (take_item-empty r v.valid z) (
        ap (λ n. (none, record { queue = window r.items r.read_seq n; next_seq = r.next_seq })) z
            ∙ ap (λ n. take_from (window r.items r.read_seq n) r.next_seq) (sym z),
        v,
      )
]

-- No sequence of pushes and takes tells a valid ring from the queue of its items: a push of a
-- good slice is accepted exactly while fewer than 16 items wait, the items are numbered in order,
-- and a take returns the oldest item, or nothing. It holds across the wrap of the counters.
pub ring_run_refines :
    (ops : List Op) (r : Ring) → IsReady r → ring_run r ops ≡ fifo_run (view r) ops
unfolding ring_run fifo_run
ring_run_refines [] r v = refl
ring_run_refines (push s t e ∷ ops) r v =
    let (e', v') = push_step r s t e v in
    ap (λ l. ((push_item r s t e).0, none) ∷ l) (ring_run_refines ops (push_item r s t e).1 v')
    ∙ ap (λ q. (q.0, none) ∷ fifo_run q.1 ops) e'
ring_run_refines (take ∷ ops) r v =
    let (e', v') = take_step r v in
    ap (λ l. (true, (take_item r).0) ∷ l) (ring_run_refines ops (take_item r).1 v')
    ∙ ap (λ q. (true, q.0) ∷ fifo_run q.1 ops) e'
