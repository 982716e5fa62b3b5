-- ===== src/Lifecycle/Wakeup.antt =====
-- Which lifecycle commands of src/mb-daemon.c are begun, whatever the threads do.
use midi_ble_rt.Base.{
  inl, inr, sym, false, Bool-cases, ℕ, zero, suc, length, ◌≡◌, refl, ap, ◌∙◌, true, ◌||◌, ltb,
  Option, none, some, List, [], ◌∷◌, ◌++◌, append_assoc, append-nil, arith,
}
use midi_ble_rt.Session.{Event}
use midi_ble_rt.Lifecycle.{
  has_pending, pop, CommandType, Command, Lifecycle, fresh, is_empty, push_tail, enqueue,
  drop_device_commands, enqueue_event, schedule, process_begin, process_end,
}
use midi_ble_rt.Lifecycle.Order.{others, drop_device_commands_lem}

-- The steps of the threads: of those that add commands, of the main loop, and of a client that
-- forgets a device.
pub data Op : Type 0 where
  add : ℕ → CommandType → Op
  add_event : ℕ → Event → Op
  call_schedule : Op
  begin_next : Op
  end_command : Op
  forget : ℕ → Op

-- A run of the daemon, with the commands that were begun, and those that were added, less the ones
-- of a device that was forgotten before they were begun, in order.
pub record Run : Type 0 where
  pub state : Lifecycle
  pub added : List Command
  pub begun : List Command

abbrev pub start : Run
start = record { state = fresh; added = []; begun = [] }

-- The commands that a step adds to the end of the queue.
abbrev pub newest : List Command → List Command → List Command
newest old [] = []
newest [] (c ∷ queue) = c ∷ queue
newest (o ∷ old) (c ∷ queue) = newest old queue

abbrev pub note_begun : Option Command → List Command → List Command
note_begun none begun = begun
note_begun (some c) begun = begun ++ (c ∷ [])

-- Without the commands of a device, but for the first `n`.
abbrev pub forget_after : ℕ → ℕ → List Command → List Command
forget_after zero dev log = others dev log
forget_after (suc n) dev [] = []
forget_after (suc n) dev (c ∷ log) = c ∷ forget_after n dev log

unfoldable pub step : Run → Op → Run
step r (add dev type) =
    let (ok, s) = enqueue r.state dev type in
    record r { state = s; added = r.added ++ newest r.state.queue s.queue }
step r (add_event dev event) =
    let s = enqueue_event r.state dev event in
    record r { state = s; added = r.added ++ newest r.state.queue s.queue }
step r call_schedule = record r { state = schedule r.state }
step r begin_next =
    let (taken, s) = process_begin r.state in
    record r { state = s; begun = note_begun taken r.begun }
step r end_command = record r { state = process_end r.state }
step r (forget dev) = record r {
  state = drop_device_commands r.state dev;
  added = forget_after (length r.begun) dev r.added;
}

unfoldable pub run : Run → List Op → Run
run r [] = r
run r (op ∷ ops) = run (step r op) ops

-- Something will look at the queue while a command waits.
abbrev pub Watched : Lifecycle → Type 0
Watched s = (s.busy || is_empty s.queue || s.scheduled || ltb 0 s.owed) ≡ true

-- The commands of the log are those that were begun and those that wait, in this order.
pub record Good (r : Run) : Type 0 where
  pub watched : Watched r.state
  pub order : r.added ≡ r.begun ++ r.state.queue

newest-append : (old new : List Command) → newest old (old ++ new) ≡ new
newest-append [] [] = refl
newest-append [] (c ∷ new) = refl
newest-append (o ∷ old) new = newest-append old new

push_tail-Good :
    (r : Run) (c : Command)
    → Good r
    → Good (record r {
      state = push_tail r.state c;
      added = r.added ++ newest r.state.queue (r.state.queue ++ (c ∷ []));
    })
push_tail-Good r c g = record {
  watched = ground arith;
  order =
      ap (λ l. r.added ++ l) (newest-append r.state.queue (c ∷ []))
      ∙ ap (λ l. l ++ (c ∷ [])) g.order
      ∙ append_assoc r.begun r.state.queue (c ∷ []);
}

newest_self : (old : List Command) → newest old old ≡ []
newest_self [] = refl
newest_self (o ∷ old) = newest_self old

-- Whether a command is taken or none waits, the queue is watched.
pop-Good :
    (r : Run) (s : Lifecycle) (queue : List Command)
    → s.queue ≡ queue
    → r.added ≡ r.begun ++ queue
    → let (taken, t) = pop s queue in
      Good (record r { state = t; begun = note_begun taken r.begun })
pop-Good r s [] e order = record {
  watched = ground (arith, ap is_empty e);
  order = order ∙ ap (λ l. r.begun ++ l) (sym e);
}
pop-Good r s (c ∷ queue) e order = record {
  watched = refl;
  order = order ∙ sym (append_assoc r.begun (c ∷ []) queue);
}

no_first : (queue : List Command) → is_empty queue ≡ true → queue ≡ []
no_first [] e = refl
no_first (c ∷ queue) e = absurd (ground (arith, e))

forget_after-append :
    (dev : ℕ) (begun queue : List Command)
    → forget_after (length begun) dev (begun ++ queue) ≡ begun ++ others dev queue
forget_after-append dev [] queue = refl
forget_after-append dev (c ∷ begun) queue = ap (λ l. c ∷ l) (forget_after-append dev begun queue)

others-Watched :
    (s : Lifecycle) (dev : ℕ) → Watched s → Watched (record s { queue = others dev s.queue })
others-Watched s dev w = elim (Bool-cases (is_empty s.queue)) [
  | inl e ↦ ground (arith, ap (others dev) (no_first s.queue e))
  | inr waits ↦ ground (arith, w, waits)
]

forget-Good :
    (r : Run) (dev : ℕ)
    → Good r
    → Good (record r {
      state = drop_device_commands r.state dev;
      added = forget_after (length r.begun) dev r.added;
    })
forget-Good r dev g = rw (drop_device_commands_lem r.state dev) (record {
  watched = others-Watched r.state dev g.watched;
  order =
      ap (forget_after (length r.begun) dev) g.order
      ∙ forget_after-append dev r.begun r.state.queue;
})

step-Good : (r : Run) (op : Op) → Good r → Good (step r op)
unfolding step enqueue enqueue_event schedule process_begin process_end
step-Good r (add dev type) g = elim (Bool-cases (has_pending r.state.queue dev type)) [
  | inl pending ↦ rw pending record {
    watched = g.watched;
    order = ap (λ l. r.added ++ l) (newest_self r.state.queue) ∙ append-nil r.added ∙ g.order;
  }
  | inr absent ↦ rw absent (push_tail-Good r _ g)
]
step-Good r (add_event dev event) g = push_tail-Good r _ g
step-Good r call_schedule g = ground (arith, g.watched, g.order)
step-Good r begin_next g = elim (Bool-cases r.state.scheduled) [
  | inr off ↦ rw off (record { watched = ground (arith, g.watched, off); order = g.order })
  | inl on ↦ elim (Bool-cases r.state.busy) [
    | inl busy ↦ rw (on, busy) (record { watched = refl; order = g.order })
    | inr free ↦ rw (on, free) (pop-Good r _ r.state.queue refl g.order)
  ]
]
step-Good r end_command g = elim (Bool-cases r.state.busy) [
  | inl busy ↦ rw busy (record { watched = ground (arith, g.watched); order = g.order })
  | inr free ↦ rw free (record { watched = ground (arith, g.watched, free); order = g.order })
]
step-Good r (forget dev) g = forget-Good r dev g

run-Good : (ops : List Op) (r : Run) → Good r → Good (run r ops)
unfolding run
run-Good [] r g = g
run-Good (op ∷ ops) r g = run-Good ops (step r op) (step-Good r op g)

start-Good : Good start
start-Good = record { watched = refl; order = refl }

-- Whatever the threads do and in whatever order, from the daemon's start: once no command is being
-- carried out, the main loop's source is not set and no thread has yet to set it, the queue is
-- empty, and the commands begun are exactly those that were added, less the ones of a device that
-- was forgotten before they were begun, in the order they were added.
pub quiet-run :
    (ops : List Op)
    → (run start ops).state.busy ≡ false
    → (run start ops).state.scheduled ≡ false
    → (run start ops).state.owed ≡ 0
    → ((run start ops).state.queue ≡ []) × ((run start ops).added ≡ (run start ops).begun)
quiet-run ops free off paid =
    let g = run-Good ops start start-Good in
    let none_left =
      no_first (run start ops).state.queue (ground (arith, g.watched, free, off, paid)) in
    (
      none_left,
      g.order ∙ ap (λ l. (run start ops).begun ++ l) none_left ∙ append-nil (run start ops).begun,
    )
