-- ===== src/Runtime/Channel.antt =====
-- A flow of src/mb-runtime.c is a channel: a bounded queue of messages between a producer and a
-- consumer, in whatever order their steps come.
use midi_ble_rt.Base.{
  ℕ, suc, ◌≡◌, refl, ◌∙◌, ap, ap₂, Bool, true, false, ◌&&◌, Option, none, some, List, [], ◌∷◌, ◌++◌,
  length, ltb, leb, if◌then◌else◌, arith, Bool-cases, ltb→lt, ltb→ge, leb→le, leb→gt, inl, inr,
}
use midi_ble_rt.FrameModel.{pool_init, Pool, capacity}
use midi_ble_rt.FrameModel.Ownership.{pool_init-IsValid}
use midi_ble_rt.SliceRing
use midi_ble_rt.SliceRing.{Kind, Item, Ring, ring_count}
use midi_ble_rt.SliceRing.Queue.{contents, used}
use midi_ble_rt.SliceRing.Refine.{length-contents, init-IsValid, oldest}
use midi_ble_rt.Runtime.{
  Flow, Message, message_of, flow_init, push_bytes_with_epoch, consume_begin, consume_end,
}
use midi_ble_rt.Runtime.Ownership.{messages}
use midi_ble_rt.Runtime.Deliver.{
  Inv, waiting, push-room, push-full, push-long, begin_some, begin_none, end_lem,
}

-- The steps of the two threads: a push of the producer, the consumer's take, its release.
pub data Op : Type 0 where
  push : List ℕ → ℕ → ℕ → Op
  take : Op
  finish : Op

-- Whether a step was accepted, and what it handed to the consumer's callback.
abbrev pub Reply : Type 0
Reply = Bool × Option (Option Message)

-- A flow with the item that its consumer is at.
pub record System : Type 0 where
  pub flow : Flow
  pub flight : Option Item

-- The consumer takes no item while it is at one, and releases one only then.
take_at : Flow → Option Item → Reply × System
take_at f (some it) = ((false, none), record { flow = f; flight = some it })
take_at f none =
    let (taken, g) = consume_begin f in
    elim taken [
      | none ↦ ((false, none), record { flow = g; flight = none })
      | some (it, m) ↦ ((true, some m), record { flow = g; flight = some it })
    ]

finish_at : Flow → Option Item → Reply × System
finish_at f none = ((false, none), record { flow = f; flight = none })
finish_at f (some it) = ((true, none), record { flow = consume_end f it; flight = none })

unfoldable pub step : System → Op → Reply × System
unfolding take_at finish_at
step s (push bytes t e) =
    let (accepted, f) = push_bytes_with_epoch s.flow bytes t e in
    ((accepted, none), record { flow = f; flight = s.flight })
step s take = take_at s.flow s.flight
step s finish = finish_at s.flow s.flight

unfoldable pub run : System → List Op → List Reply
run s [] = []
run s (op ∷ ops) = let (reply, s') = step s op in reply ∷ run s' ops

-- The specification: the messages that wait, and whether the consumer is at one.
pub record Channel : Type 0 where
  pub queue : List (Option Message)
  pub at_work : Bool

channel_take : List (Option Message) → Bool → Reply × Channel
channel_take q true = ((false, none), record { queue = q; at_work = true })
channel_take [] false = ((false, none), record { queue = []; at_work = false })
channel_take (m ∷ q) false = ((true, some m), record { queue = q; at_work = true })

unfoldable pub channel_step : Channel → Op → Reply × Channel
unfolding channel_take
channel_step c (push bytes t e) =
    if leb (length bytes) capacity && ltb (length c.queue) ring_count
    then (
      (true, none),
      record {
        queue = c.queue ++ (some (record { bytes = bytes; timestamp_ns = t; epoch = e }) ∷ []);
        at_work = c.at_work;
      },
    )
    else ((false, none), c)
channel_step c take = channel_take c.queue c.at_work
channel_step c finish = ((c.at_work, none), record { queue = c.queue; at_work = false })

unfoldable pub channel_run : Channel → List Op → List Reply
channel_run c [] = []
channel_run c (op ∷ ops) = let (reply, c') = channel_step c op in reply ∷ channel_run c' ops

abbrev busy : Option Item → Bool
busy none = false
busy (some it) = true

abbrev pub view : System → Channel
view s = record { queue = waiting s.flow; at_work = busy s.flight }

abbrev pub IsValid : System → Type 0
IsValid s = Inv s.flow s.flight

pub length-messages : (p : Pool) (its : List Item) → length (messages p its) ≡ length its
length-messages p [] = refl
length-messages p (it ∷ its) = ap suc (length-messages p its)

pub length-waiting : (f : Flow) → length (waiting f) ≡ used f.ring
length-waiting f = length-messages f.pool (contents f.ring) ∙ length-contents f.ring

-- What a step owes: its reply, the channel that it leaves, and a valid system.
abbrev Simulates : System → Op → Type 0
Simulates s op =
    let (reply, s') = step s op in ((reply, view s') ≡ channel_step (view s) op) × IsValid s'

module _ (f : Flow) (flight : Option Item) (bytes : List ℕ) (t e : ℕ) (v : Inv f flight) where
  abbrev after_push : Bool → List (Option Message) → Reply × Channel
  after_push accepted q = ((accepted, none), record { queue = q; at_work = busy flight })

  push_step : Simulates (record { flow = f; flight = flight }) (push bytes t e)
  unfolding step channel_step
  push_step = elim (Bool-cases (leb (length bytes) capacity)) [
    | inr long ↦
        let (a, w, i) = push-long f flight bytes t e v (leb→gt _ _ long) in
        rw long (ap₂ after_push a w, i)
    | inl small ↦ elim (Bool-cases (ltb (used f.ring) ring_count)) [
      | inl room ↦
          let (a, w, i) = push-room f flight bytes t e v (leb→le _ _ small) (ltb→lt _ _ room) in
          rw (small, length-waiting f, room) (ap₂ after_push a w, i)
      | inr full ↦
          let (a, w, i) =
            push-full f flight bytes t e v (leb→le _ _ small)
              (omega (arith, ltb→ge _ _ full, v.ring_ready.valid.used_in)) in
          rw (small, length-waiting f, full) (ap₂ after_push a w, i)
    ]
  ]

taken_some :
    (taken : Option (Item × Option Message)) (g : Flow) (it : Item) (m : Option Message)
    {q : List (Option Message)}
    → taken ≡ some (it, m)
    → q ≡ m ∷ waiting g
    → Inv g (some it)
    → let (reply, s') : Reply × System = elim taken [
      | none ↦ ((false, none), record { flow = g; flight = none })
      | some (it', m') ↦ ((true, some m'), record { flow = g; flight = some it' })
    ] in
      ((reply, view s') ≡ channel_take q false) × IsValid s'
unfolding channel_take
taken_some taken g it m a w i = rw (a, w) (refl, i)

taken_none :
    (taken : Option (Item × Option Message)) (g : Flow) {q : List (Option Message)}
    → taken ≡ none
    → q ≡ []
    → waiting g ≡ []
    → Inv g none
    → let (reply, s') : Reply × System = elim taken [
      | none ↦ ((false, none), record { flow = g; flight = none })
      | some (it', m') ↦ ((true, some m'), record { flow = g; flight = some it' })
    ] in
      ((reply, view s') ≡ channel_take q false) × IsValid s'
unfolding channel_take
taken_none taken g a w w' i =
    rw (a, w) (ap (λ l. ((false, none), record { queue = l; at_work = false })) w', i)

take_step :
    (f : Flow) (flight : Option Item)
    → Inv f flight
    → Simulates (record { flow = f; flight = flight }) take
unfolding step channel_step
take_step f (some it) v = (refl, v)
take_step f none v = elim (Bool-cases (ltb 0 (used f.ring))) [
  | inl waits ↦
      let (a, w, i) = begin_some f v (ltb→lt _ _ waits) in
      taken_some (consume_begin f).0 (consume_begin f).1 (oldest f.ring)
        (message_of f.pool (oldest f.ring)) a w i
  | inr idle ↦
      let (a, w, w', i) = begin_none f v (omega (arith, ltb→ge _ _ idle)) in
      taken_none (consume_begin f).0 (consume_begin f).1 a w w' i
]

finish_step :
    (f : Flow) (flight : Option Item)
    → Inv f flight
    → Simulates (record { flow = f; flight = flight }) finish
unfolding step channel_step
finish_step f none v = (refl, v)
finish_step f (some it) v =
    let (w, i) = end_lem f it v in
    (ap (λ q. ((true, none), record { queue = q; at_work = false })) w, i)

step-Simulates : (s : System) (op : Op) → IsValid s → Simulates s op
step-Simulates s (push bytes t e) v = push_step s.flow s.flight bytes t e v
step-Simulates s take v = take_step s.flow s.flight v
step-Simulates s finish v = finish_step s.flow s.flight v

-- Whatever the order of the steps of producer and consumer, a valid flow answers them as a channel
-- does: a push is accepted exactly if the payload has at most 256 bytes and fewer than 16 messages
-- wait (frames never run out); each message is handed to the consumer once, in order, with the
-- bytes, time stamp and epoch that were pushed; and the consumer is at one message at a time.
pub run_refines : (ops : List Op) (s : System) → IsValid s → run s ops ≡ channel_run (view s) ops
unfolding run channel_run
run_refines [] s v = refl
run_refines (op ∷ ops) s v =
    let (e, v') = step-Simulates s op v in
    ap (λ l. (step s op).0 ∷ l) (run_refines ops (step s op).1 v')
    ∙ ap (λ (q : Reply × Channel). q.0 ∷ channel_run q.1 ops) e

abbrev pub fresh : Kind → System
fresh kind = record { flow = flow_init kind; flight = none }

pub fresh-IsValid : (kind : Kind) → IsValid (fresh kind)
unfolding flow_init pool_init SliceRing.init
fresh-IsValid kind = record {
  pool_valid = pool_init-IsValid;
  ring_ready = record { valid = (init-IsValid kind true).0; has_pool = refl };
  owned = tt;
  counted = refl;
}
