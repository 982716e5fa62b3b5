-- ===== src/Lifecycle/Pending.antt =====
-- How often a command of a device waits in the queue of lifecycle commands of src/mb-daemon.c.
use midi_ble_rt.Base.{
  ℕ, ◌+◌, ◌≤◌, ◌≡◌, ◌≢◌, refl, sym, ap, ap₂, ◌∙◌, subst, inl, inr, Bool-cases, false, ◌&&◌, ◌==◌,
  if◌then◌else◌, List, [], ◌∷◌, ◌++◌, arith,
}
use midi_ble_rt.Session.{Event, cmd_scan}
use midi_ble_rt.Lifecycle.{
  CommandType, Command, Lifecycle, is_command, value, discover, connect, disconnect, recheck,
  mark_disconnected, session_event, has_pending, enqueue, enqueue_event, schedule, process_begin,
  process_end, pop, drop_device_commands,
}
use midi_ble_rt.Lifecycle.Wakeup.{
  Op, Run, start, step, run, add, add_event, call_schedule, begin_next, end_command, forget,
}
use midi_ble_rt.Lifecycle.Order.{others, drop_device_commands_lem}

-- The commands for a device that stand in the queue, other than events.
abbrev pub count : ℕ → CommandType → List Command → ℕ
count dev type [] = 0
count dev type (c ∷ queue) = (if is_command dev type c then 1 else 0) + count dev type queue

count-append :
    (dev : ℕ) (type : CommandType) (p q : List Command)
    → count dev type (p ++ q) ≡ count dev type p + count dev type q
count-append dev type [] q = omega arith
count-append dev type (c ∷ p) q = omega (arith, count-append dev type p q)

count-absent :
    (queue : List Command) (dev : ℕ) (type : CommandType)
    → has_pending queue dev type ≡ false
    → count dev type queue ≡ 0
unfolding has_pending
count-absent [] dev type h = refl
count-absent (c ∷ queue) dev type h = elim (Bool-cases (is_command dev type c)) [
  | inl same ↦ absurd (ground (arith, h, same))
  | inr other ↦ ground (arith, other, count-absent queue dev type (ground (arith, h, other)))
]

-- Each command but an event waits at most once for each device.
abbrev pub NoTwice : List Command → Type 0
NoTwice queue = (dev : ℕ) (type : CommandType) → type ≢ session_event → count dev type queue ≤ 1

count-value :
    (queue : List Command) (dev : ℕ) (t u : CommandType)
    → value t ≡ value u
    → count dev t queue ≡ count dev u queue
count-value [] dev t u e = refl
count-value (c ∷ queue) dev t u e =
    ap₂ (λ n k. (if (c.dev == dev) && (value c.type == n) then 1 else 0) + k) e
      (count-value queue dev t u e)

value-event : (t : CommandType) → t ≢ session_event → value t ≢ 5
value-event discover h = ground arith
value-event connect h = ground arith
value-event disconnect h = ground arith
value-event recheck h = ground arith
value-event mark_disconnected h = ground arith
value-event session_event h = absurd (h refl)

-- A command whose like does not wait yet, and an event, keep the queue without doubles.
push_command :
    (queue : List Command) (dev : ℕ) (type : CommandType) (event : Event)
    → has_pending queue dev type ≡ false
    → NoTwice queue
    → NoTwice (queue ++ (record { type = type; dev = dev; event = event } ∷ []))
push_command queue dev type event absent once other t plain =
    let c : Command = record { type = type; dev = dev; event = event } in
    elim (Bool-cases (is_command other t c)) [
      | inl same ↦
          let absent_too : count other t queue ≡ 0 =
            ap (λ d. count d t queue) (ground (arith, same))
            ∙ count-value queue dev t type (ground (arith, same))
            ∙ count-absent queue dev type absent in
          ground (arith, count-append other t queue (c ∷ []), same, absent_too)
      | inr differs ↦
          ground (arith, count-append other t queue (c ∷ []), differs, once other t plain)
    ]

push_event :
    (queue : List Command) (dev : ℕ) (event : Event)
    → NoTwice queue
    → NoTwice (queue ++ (record { type = session_event; dev = dev; event = event } ∷ []))
push_event queue dev event once other t plain =
    let c : Command = record { type = session_event; dev = dev; event = event } in
    ground (arith, count-append other t queue (c ∷ []), value-event t plain, once other t plain)

pop-NoTwice :
    (s : Lifecycle) (queue : List Command)
    → NoTwice s.queue
    → NoTwice queue
    → NoTwice (pop s queue).1.queue
pop-NoTwice s [] own once other t plain = own other t plain
pop-NoTwice s (c ∷ queue) own once other t plain = ground (arith, once other t plain)

others-NoTwice :
    (dev : ℕ) (queue : List Command) (other : ℕ) (t : CommandType)
    → count other t (others dev queue) ≤ count other t queue
others-NoTwice dev [] other t = omega arith
others-NoTwice dev (c ∷ queue) other t = ground (arith, others-NoTwice dev queue other t)

abbrev Sound : Run → Type 0
Sound r = NoTwice r.state.queue

step-Sound : (r : Run) (op : Op) → Sound r → Sound (step r op)
unfolding step enqueue enqueue_event schedule process_begin process_end
step-Sound r (add dev type) once = elim (Bool-cases (has_pending r.state.queue dev type)) [
  | inl pending ↦ rw pending once
  | inr absent ↦ rw absent (push_command r.state.queue dev type cmd_scan absent once)
]
step-Sound r (add_event dev event) once = push_event r.state.queue dev event once
step-Sound r call_schedule once = elim (Bool-cases (r.state.owed == 0)) [
  | inl nobody ↦ rw nobody once
  | inr owed ↦ rw owed once
]
step-Sound r begin_next once = elim (Bool-cases r.state.scheduled) [
  | inr off ↦ rw off once
  | inl on ↦ elim (Bool-cases r.state.busy) [
    | inl busy ↦ rw (on, busy) once
    | inr free ↦ rw (on, free) (pop-NoTwice _ r.state.queue once once)
  ]
]
step-Sound r end_command once = elim (Bool-cases r.state.busy) [
  | inl busy ↦ rw busy once
  | inr free ↦ rw free once
]
step-Sound r (forget dev) once =
    subst (λ s. NoTwice s.queue) (sym (drop_device_commands_lem r.state dev))
      (λ d t h. omega (arith, others-NoTwice dev r.state.queue d t, once d t h))

run-Sound : (ops : List Op) (r : Run) → Sound r → Sound (run r ops)
unfolding run
run-Sound [] r once = once
run-Sound (op ∷ ops) r once = run-Sound ops (step r op) (step-Sound r op once)

-- Whatever the threads do and in whatever order, from the daemon's start, no command but a session
-- event waits twice for one device; and dropping the commands of any device keeps this.
pub run-NoTwice :
    (ops : List Op) (dev : ℕ)
    → NoTwice (run start ops).state.queue
      × NoTwice (drop_device_commands (run start ops).state dev).queue
run-NoTwice ops dev =
    let once = run-Sound ops start (λ d t h. omega arith) in
    (
      once,
      subst (λ s. NoTwice s.queue) (sym (drop_device_commands_lem (run start ops).state dev))
          (λ d t h. omega (arith, others-NoTwice dev (run start ops).state.queue d t, once d t h)),
    )
