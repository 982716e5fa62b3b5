-- ===== src/Runtime/Drain.antt =====
-- The end of a flow of src/mb-runtime.c: what the consumer thread still delivers before it ends,
-- and what is dropped.
use midi_ble_rt.Base.{
  ℕ, zero, suc, ◌≤◌, ◌≡◌, refl, sym, ap, ◌∙◌, true, false, Option, none, some, List, [], ◌∷◌,
  length, ltb, Bool-cases, inl, inr, ltb→lt, ltb→ge, arith,
}
use midi_ble_rt.SliceRing.{Item, ring_count}
use midi_ble_rt.SliceRing.Queue.{used, contents}
use midi_ble_rt.SliceRing.Refine.{length-contents, oldest}
use midi_ble_rt.Runtime.{Pool, Flow, Message, message_of, consume_begin, consume_end, drain, stop}
use midi_ble_rt.Runtime.Ownership.{messages}
use midi_ble_rt.Runtime.Deliver.{Inv, waiting, begin_some, begin_none, end_lem}

length-messages : (p : Pool) (its : List Item) → length (messages p its) ≡ length its
length-messages p [] = refl
length-messages p (it ∷ its) = ap suc (length-messages p its)

pub length-waiting : (f : Flow) → length (waiting f) ≡ used f.ring
length-waiting f = length-messages f.pool (contents f.ring) ∙ length-contents f.ring

empty_waiting : (l : List (Option Message)) → length l ≤ 0 → l ≡ []
empty_waiting [] h = refl
empty_waiting (m ∷ l) h = absurd (omega arith)

-- All that waited is delivered, in order, and nothing waits then.
abbrev pub Drained : ℕ → Flow → Type 0
Drained fuel f = let (ms, g) = drain fuel f in (ms ≡ waiting f) × (waiting g ≡ []) × Inv g none

drain-some :
    (fuel : ℕ) (f : Flow) (it : Item) (m : Option Message)
    → (consume_begin f).0 ≡ some (it, m)
    → let g = consume_end (consume_begin f).1 it in
      drain (suc fuel) f ≡ (m ∷ (drain fuel g).0, (drain fuel g).1)
unfolding drain
drain-some fuel f it m e = rw (drain, e) refl

drain-none :
    (fuel : ℕ) (f : Flow)
    → (consume_begin f).0 ≡ none
    → drain (suc fuel) f ≡ ([], (consume_begin f).1)
unfolding drain
drain-none fuel f e = rw (drain, e) refl

-- A round for each message is enough.
pub drain_lem : (fuel : ℕ) (f : Flow) → Inv f none → length (waiting f) ≤ fuel → Drained fuel f
unfolding drain
drain_lem zero f v h = (sym (empty_waiting (waiting f) h), empty_waiting (waiting f) h, v)
drain_lem (suc fuel) f v h = elim (Bool-cases (ltb 0 (used f.ring))) [
  | inl waits ↦
      let (a, w, i) = begin_some f v (ltb→lt _ _ waits) in
      let g = (consume_begin f).1 in
      let (w', i') = end_lem g (oldest f.ring) i in
      let (d, e, j) =
        drain_lem fuel (consume_end g (oldest f.ring)) i'
          (omega (arith, h, ap length w, ap length w')) in
      rw (drain-some fuel f _ _ a)
        (ap (λ l. message_of f.pool (oldest f.ring) ∷ l) (d ∙ w') ∙ sym w, e, j)
  | inr idle ↦
      let (a, w, w', i) = begin_none f v (omega (arith, ltb→ge _ _ idle)) in
      rw (drain-none fuel f a) (sym w, w', i)
]

same : (f : Flow) → Inv f none → Inv (record f { has_thread = true; stop_requested = true }) none
same f v = record {
  pool_valid = v.pool_valid;
  ring_ready = v.ring_ready;
  owned = v.owned;
  counted = v.counted;
}

-- Stopping a flow whose consumer is between two items, with its thread at work, delivers every
-- message that waits to the callback, once and in order, and leaves nothing waiting and no thread.
pub stop_lem :
    (f : Flow)
    → Inv f none
    → f.has_thread ≡ true
    → let (delivered, g) = stop f in
      (delivered ≡ waiting f) × (waiting g ≡ []) × (g.has_thread ≡ false) × Inv g none
unfolding stop
stop_lem f v on =
    let asked = record f { has_thread = true; stop_requested = true } in
    let (d, w, i) =
      drain_lem ring_count asked (same f v)
        (omega (arith, length-waiting f, v.ring_ready.valid.used_in)) in
    rw on (
      d,
      w,
      refl,
      record {
        pool_valid = i.pool_valid;
        ring_ready = i.ring_ready;
        owned = i.owned;
        counted = i.counted;
      },
    )
