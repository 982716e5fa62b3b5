-- ===== src/Lifecycle/Configured.antt =====
-- What the daemon does first with the devices of its configuration (src/mb-daemon.c).
use midi_ble_rt.Base.{
  ℕ, ◌<◌, ◌≡◌, refl, sym, ap, ◌∙◌, inl, inr, Bool-cases, Bool, false, not, ◌&&◌, ◌||◌, ◌==◌,
  if◌then◌else◌, List, [], ◌∷◌, ◌++◌, append_assoc, append-nil, length, All, arith,
}
use midi_ble_rt.Session.{cmd_scan}
use midi_ble_rt.Lifecycle.{
  CommandType, Command, Lifecycle, Listed, discover, connect, fresh, is_empty, has_pending, enqueue,
  enqueue_now, schedule, start_configured_devices,
}
use midi_ble_rt.Lifecycle.Order.{serve, serve_lem, serve-fresh}

abbrev pub command : ℕ → CommandType → Command
command dev type = record { type = type; dev = dev; event = cmd_scan }

-- A device is to be connected when the daemon starts.
abbrev pub starts : Listed → Bool
starts d = not d.removed && d.connect_on_start

-- The commands for the devices that are to be connected, in their order: discover, then connect.
abbrev pub wanted : List Listed → List Command
wanted [] = []
wanted (d ∷ devices) =
    if starts d
    then command d.dev discover ∷ command d.dev connect ∷ wanted devices
    else wanted devices

-- No two devices have the same address.
abbrev pub Distinct : List Listed → Type 0
Distinct [] = Unit
Distinct (d ∷ devices) = All (λ e. (d.dev == e.dev) ≡ false) devices × Distinct devices

-- No command of a device waits.
abbrev Absent : List Command → Listed → Type 0
Absent queue d = (type : CommandType) → has_pending queue d.dev type ≡ false

has_pending-append :
    (p q : List Command) (dev : ℕ) (type : CommandType)
    → has_pending (p ++ q) dev type ≡ (has_pending p dev type || has_pending q dev type)
unfolding has_pending
has_pending-append [] q dev type = refl
has_pending-append (c ∷ p) q dev type = ground (arith, has_pending-append p q dev type)

-- The source is set as soon as something waits, and nobody has yet to set it.
abbrev rest : List Command → Lifecycle
rest queue = record { queue = queue; busy = false; scheduled = not (is_empty queue); owed = 0 }

enqueue_now_lem :
    (queue : List Command) (dev : ℕ) (type : CommandType)
    → has_pending queue dev type ≡ false
    → enqueue_now dev type (rest queue) ≡ rest (queue ++ (command dev type ∷ []))
unfolding enqueue_now enqueue schedule
enqueue_now_lem [] dev type absent = rw absent refl
enqueue_now_lem (c ∷ queue) dev type absent = rw absent refl

add_both :
    (queue : List Command) (d : Listed)
    → Absent queue d
    → enqueue_now d.dev connect (enqueue_now d.dev discover (rest queue))
      ≡ rest ((queue ++ (command d.dev discover ∷ [])) ++ (command d.dev connect ∷ []))
unfolding has_pending
add_both queue d absent =
    ap (enqueue_now d.dev connect) (enqueue_now_lem queue d.dev discover (absent discover))
    ∙ enqueue_now_lem (queue ++ (command d.dev discover ∷ [])) d.dev connect (
        ground (
          arith,
          has_pending-append queue (command d.dev discover ∷ []) d.dev connect,
          absent connect,
        ))

Absent-add :
    (queue : List Command) (d : Listed) (devices : List Listed)
    → All (λ e. (d.dev == e.dev) ≡ false) devices
    → All (Absent queue) devices
    → All
        (Absent ((queue ++ (command d.dev discover ∷ [])) ++ (command d.dev connect ∷ [])))
        devices
unfolding has_pending
Absent-add queue d [] differ absent = tt
Absent-add queue d (e ∷ devices) differ absent = (
  λ t. ground (
    arith,
    has_pending-append (queue ++ (command d.dev discover ∷ [])) (command d.dev connect ∷ []) e.dev
        t,
    has_pending-append queue (command d.dev discover ∷ []) e.dev t,
    differ.0,
    absent.0 t,
  ),
  Absent-add queue d devices differ.1 absent.1,
)

start_from :
    (devices : List Listed) (queue : List Command)
    → Distinct devices
    → All (Absent queue) devices
    → start_configured_devices devices (rest queue) ≡ rest (queue ++ wanted devices)
unfolding start_configured_devices
start_from [] queue distinct absent = ap rest (sym (append-nil queue))
start_from (d ∷ devices) queue distinct absent = elim (Bool-cases (starts d)) [
  | inl on ↦ rw on (
      ap (start_configured_devices devices) (add_both queue d absent.0)
      ∙ start_from devices _ distinct.1 (Absent-add queue d devices distinct.0 absent.1)
      ∙ ap rest (
          append_assoc (queue ++ (command d.dev discover ∷ [])) (command d.dev connect ∷ [])
            (wanted devices)
          ∙ append_assoc queue (command d.dev discover ∷ [])
              (command d.dev connect ∷ wanted devices)))
  | inr off ↦ rw off (start_from devices queue distinct.1 absent.1)
]

nothing_waits : (devices : List Listed) → All (Absent []) devices
unfolding has_pending
nothing_waits [] = tt
nothing_waits (d ∷ devices) = (λ t. refl, nothing_waits devices)

serve-rest :
    (queue : List Command) (rounds : ℕ)
    → length queue < rounds
    → serve rounds (rest queue) ≡ (queue, fresh)
serve-rest [] rounds h = serve-fresh rounds
serve-rest (c ∷ queue) rounds h = serve_lem (c ∷ queue) rounds h

-- For devices with different addresses, and while nobody else adds a command (what the commands do
-- when they are carried out is left out), the daemon's start and one round of the main loop more
-- than there are commands begin exactly these: for each device that is to be connected and was not
-- removed, in the order of the configuration, first discover, then connect. Then the queue is
-- empty.
pub start_configured_devices-serve :
    (devices : List Listed) (rounds : ℕ)
    → Distinct devices
    → length (wanted devices) < rounds
    → serve rounds (start_configured_devices devices fresh) ≡ (wanted devices, fresh)
start_configured_devices-serve devices rounds distinct h =
    ap (serve rounds) (start_from devices [] distinct (nothing_waits devices))
    ∙ serve-rest (wanted devices) rounds h
