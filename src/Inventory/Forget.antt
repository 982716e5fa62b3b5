-- ===== src/Inventory/Forget.antt =====
-- runtime_dbus_forget_device of src/mb-daemon.c. What the file system and BlueZ answer is an
-- argument; the signals to the clients leave no trace in the model, and of an export of the
-- statistics only the new windows of the devices do.
use Prim.Native.String.{String}
use text.Mathlib.Text.{◌==◌}
use midi_ble_rt.Base.{
  ℕ, ◌&&◌, ◌||◌, minus_one, nonneg, Bool, true, false, not, leb, Option, none, some, List, [], ◌∷◌,
  if◌then◌else◌,
}
use midi_ble_rt.Session.{set_alsa_port}
use midi_ble_rt.Runtime.{depth}
use midi_ble_rt.Duplex
use midi_ble_rt.DeviceStats.{DeviceStats, export_device}
use midi_ble_rt.Dataplane.{Fence}
use midi_ble_rt.Startup.{Runtime, stop_notify, with_session, session_of}
use midi_ble_rt.Lifecycle.{Lifecycle, disconnect, enqueue_now, drop_device_commands}
use midi_ble_rt.Inventory.{Member, find_device_by_id}

-- The parts of ConfigDirRuntime that are changed.
pub record Daemon : Type 0 where
  pub members : List Member
  pub lifecycle : Lifecycle
  pub devices : ℕ → Runtime
  pub stats : ℕ → DeviceStats
  -- The statistics are enabled, and their directory is there or can be made.
  pub exports : Bool

abbrev pub same_pointer : ℕ → ℕ → Bool
same_pointer s t = leb s t && leb t s

-- `runtime_device_remove_alsa_port`; what ALSA answers is logged only.
unfoldable pub remove_alsa_port : Runtime → Runtime
remove_alsa_port d =
    if not (nonneg d.alsa_port)
    then d
    else let e = with_session d (set_alsa_port (session_of d) minus_one) in
      record e { port_route = false; alsa_port = minus_one }

abbrev pub close : Fence → ℕ → Fence
close f now_ns = record f { streaming = false; closed_epoch = f.epoch; closed_at_ns = now_ns }

abbrev pub drop_started : Runtime → Runtime
drop_started d =
    if d.runtime_started
    then record d { device = record d.device { runtime = Duplex.drop_pending d.device.runtime } }
    else d

abbrev pub close_fence : Runtime → ℕ → Runtime
close_fence d now_ns = record d { device = record d.device { fence = close d.device.fence now_ns } }

-- `runtime_dbus_deactivate_forgotten_device`, before the export.
unfoldable pub deactivate : Runtime → ℕ → Runtime
unfolding remove_alsa_port
deactivate d now_ns = remove_alsa_port (close_fence (drop_started (stop_notify d)) now_ns)

abbrev pub mark_removed : List Member → ℕ → List Member
mark_removed [] dev = []
mark_removed (m ∷ members) dev =
    (if same_pointer m.dev dev then record m { removed = true } else m) ∷ mark_removed members dev

abbrev pub is_active : List Member → ℕ → Bool
is_active [] dev = false
is_active (m ∷ members) dev = (not m.removed && same_pointer m.dev dev) || is_active members dev

abbrev pub export_stats : Runtime → DeviceStats → ℕ → DeviceStats
export_stats d stats now_ns =
    let rx = if d.runtime_started then depth d.device.runtime.rx else 0 in
    let tx = if d.runtime_started then depth d.device.runtime.tx else 0 in
    let (rx_row, tx_row, t) = export_device stats now_ns rx tx in t

-- What `runtime_stats_export_snapshot` leaves of the statistics of the active devices.
abbrev pub export_snapshot : Daemon → ℕ → Daemon
export_snapshot s now_ns = record s {
  stats = λ i.
      if s.exports && is_active s.members i
      then export_stats (s.devices i) (s.stats i) now_ns
      else s.stats i;
}

-- What is done to the daemon for the device that was found, which is not removed.
unfoldable pub forget_member : Daemon → ℕ → ℕ → ℕ → Daemon
unfolding deactivate
forget_member s dev now_ns later_ns =
    export_snapshot
      (record {
        members = mark_removed s.members dev;
        lifecycle = enqueue_now dev disconnect (drop_device_commands s.lifecycle dev);
        devices = λ i. if same_pointer i dev then deactivate (s.devices i) now_ns else s.devices i;
        stats = s.stats;
        exports = s.exports;
      })
      later_ns

-- What the file system answers: no file configures the device, or one does, and is unlinked or not.
pub data OnDisk : Type 0 where
  no_file unlinked kept : OnDisk

abbrev pub is_blank : Option String → Bool
is_blank none = true
is_blank (some t) = t == ""

abbrev pub forget_found : Daemon → ℕ → ℕ → Option Member → Daemon
forget_found s now_ns later_ns none = s
forget_found s now_ns later_ns (some m) =
    if not m.removed then forget_member s m.dev now_ns later_ns else s

-- Whether it succeeds, and the daemon. The address of the device, or else the identifier, is what
-- BlueZ is asked to remove.
unfoldable pub forget_device : Daemon → Option String → OnDisk → ℕ → ℕ → Bool × Daemon
unfolding forget_member find_device_by_id
forget_device s id disk now_ns later_ns = if is_blank id then (false, s) else elim disk [
  | kept ↦ (false, s)
  | _ ↦ (true, forget_found s now_ns later_ns (find_device_by_id s.members id))
]
