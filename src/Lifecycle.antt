-- ===== src/Lifecycle.antt =====
-- The queue of lifecycle commands of src/mb-daemon.c. Several threads add to it; the main loop runs
-- lifecycle_process_next_cb whenever the source that `lifecycle_schedule` sets is due. What stands
-- under one hold of `lifecycle_lock` is one step. The reasons of commands go to the log only, and
-- the queue is there, as it is from the daemon's start to its end.
pub mod Wakeup
pub mod Order
pub mod Pending
pub mod Configured
use midi_ble_rt.Base.{
  ℕ, zero, suc, ◌+◌, ◌-◌, ltb, ◌==◌, Bool, true, false, not, ◌&&◌, ◌||◌, Option, none, some, List,
  [], ◌∷◌, ◌++◌, if◌then◌else◌,
}
use midi_ble_rt.Session.{Event, State, cmd_scan, reconnecting, idle, error}
use midi_ble_rt.Startup.{can_mark_disconnected}

-- MbLifecycleCommandType
pub data CommandType : Type 0 where
  discover connect disconnect recheck mark_disconnected session_event : CommandType

-- The value of the enumeration.
abbrev pub value : CommandType → ℕ
value discover = 0
value connect = 1
value disconnect = 2
value recheck = 3
value mark_disconnected = 4
value session_event = 5

-- MbLifecycleCommand; a device is the number that stands for its address.
pub record Command : Type 0 where
  pub type : CommandType
  pub dev : ℕ
  pub event : Event

-- The fields `lifecycle_...` of the daemon, and how many threads have yet to call
-- `lifecycle_schedule` after they left the lock.
pub record Lifecycle : Type 0 where
  pub queue : List Command
  pub busy : Bool
  pub scheduled : Bool  -- lifecycle_source_id is not 0
  pub owed : ℕ

abbrev pub fresh : Lifecycle
fresh = record { queue = []; busy = false; scheduled = false; owed = 0 }

abbrev pub is_command : ℕ → CommandType → Command → Bool
is_command dev type c = (c.dev == dev) && (value c.type == value type)

unfoldable pub has_pending : List Command → ℕ → CommandType → Bool
has_pending [] dev type = false
has_pending (c ∷ queue) dev type = is_command dev type c || has_pending queue dev type

abbrev pub is_empty : List Command → Bool
is_empty [] = true
is_empty (c ∷ queue) = false

abbrev pub push_tail : Lifecycle → Command → Lifecycle
push_tail s c = record s { queue = s.queue ++ (c ∷ []); owed = s.owed + 1 }

-- `lifecycle_enqueue` under the lock: whether the command was added. Its event is 0.
unfoldable pub enqueue : Lifecycle → ℕ → CommandType → Bool × Lifecycle
enqueue s dev type =
    if has_pending s.queue dev type
    then (false, s)
    else (true, push_tail s (record { type = type; dev = dev; event = cmd_scan }))

-- `lifecycle_enqueue_event` under the lock.
unfoldable pub enqueue_event : Lifecycle → ℕ → Event → Lifecycle
enqueue_event s dev event = push_tail s (record { type = session_event; dev = dev; event = event })

-- `lifecycle_schedule`, of a thread that owes it.
unfoldable pub schedule : Lifecycle → Lifecycle
schedule s = if s.owed == 0 then s else record s { scheduled = true; owed = s.owed - 1 }

abbrev pub pop : Lifecycle → List Command → Option Command × Lifecycle
pop s [] = (none, s)
pop s (c ∷ queue) = (some c, record s { queue = queue; busy = true })

-- The first part of `lifecycle_process_next_cb`, which runs if the source is set: the command that
-- is to be carried out.
unfoldable pub process_begin : Lifecycle → Option Command × Lifecycle
process_begin s =
    if not s.scheduled
    then (none, s)
    else if s.busy
    then (none, record s { scheduled = false })
    else pop (record s { scheduled = false }) s.queue

-- Its last part, after the command was carried out.
unfoldable pub process_end : Lifecycle → Lifecycle
process_end s =
    if not s.busy
    then s
    else record s { busy = false; owed = if is_empty s.queue then s.owed else s.owed + 1 }

unfoldable pub lifecycle_is_idle : Lifecycle → Bool
lifecycle_is_idle s = not s.busy && is_empty s.queue

-- The two loops of `runtime_lifecycle_drop_device_commands`: what is kept, and the way back.
pub keep_others : ℕ → List Command → List Command → List Command
keep_others dev [] kept = kept
keep_others dev (c ∷ queue) kept =
    keep_others dev queue (if c.dev == dev then kept else kept ++ (c ∷ []))

pub move_back : List Command → List Command → List Command
move_back [] queue = queue
move_back (c ∷ kept) queue = move_back kept (queue ++ (c ∷ []))

unfoldable pub drop_device_commands : Lifecycle → ℕ → Lifecycle
unfolding keep_others move_back
drop_device_commands s dev = record s { queue = move_back (keep_others dev s.queue []) [] }

-- A device as the timers of the daemon see it.
pub record Listed : Type 0 where
  pub dev : ℕ
  pub removed : Bool
  pub state : State
  pub connect_on_start : Bool

-- `lifecycle_enqueue` as a whole, with nobody else at work.
unfoldable pub enqueue_now : ℕ → CommandType → Lifecycle → Lifecycle
unfolding enqueue schedule
enqueue_now dev type s = let (added, t) = enqueue s dev type in if added then schedule t else t

abbrev pub is_reconnecting : State → Bool
is_reconnecting State.reconnecting = true
is_reconnecting _ = false

pub each : (Listed → Bool) → CommandType → List Listed → Lifecycle → Lifecycle
unfolding enqueue_now
each test type [] s = s
each test type (d ∷ devices) s =
    each test type devices (if test d then enqueue_now d.dev type s else s)

unfoldable pub device_health : List Listed → Lifecycle → Lifecycle
unfolding each lifecycle_is_idle
device_health devices s =
    if not (lifecycle_is_idle s)
    then s
    else each (λ d. can_mark_disconnected d.state) recheck devices s

unfoldable pub reconnect : List Listed → Lifecycle → Lifecycle
unfolding each lifecycle_is_idle
reconnect devices s =
    if not (lifecycle_is_idle s)
    then s
    else each (λ d. not d.removed && is_reconnecting d.state) connect devices s

pub start_configured_devices : List Listed → Lifecycle → Lifecycle
unfolding enqueue_now
start_configured_devices [] s = s
start_configured_devices (d ∷ devices) s = start_configured_devices devices (
    if not d.removed && d.connect_on_start
    then enqueue_now d.dev connect (enqueue_now d.dev discover s)
    else s)
