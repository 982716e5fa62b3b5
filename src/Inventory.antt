-- ===== src/Inventory.antt =====
-- The devices that src/mb-daemon.c lists, and the commands that its clients, on the control socket
-- or on D-Bus, give it for one of them.
pub mod ConfigFiles
pub mod Forget
pub mod Pieces
pub mod Closed
pub mod Forgotten
pub mod Server
pub mod Requests
use Prim.Native.String.{String}
use text.Mathlib.Text.{◌==◌}
use midi_ble_rt.Base.{
  ℕ, Bool, true, false, not, ◌&&◌, ◌||◌, Option, none, some, List, [], ◌∷◌, if◌then◌else◌,
}
use midi_ble_rt.Lifecycle.{Lifecycle, CommandType, enqueue_now}

-- A ConfigDeviceRuntime, which stands at the address `dev`, as it is listed.
pub record Member : Type 0 where
  pub dev : ℕ
  pub id : Option String
  pub address : Option String
  pub name : Option String
  pub removed : Bool

-- `g_strcmp0 (a, text) == 0`
abbrev pub is_text : Option String → String → Bool
is_text none text = false
is_text (some t) text = t == text

-- `runtime_find_device_by_id`, for an identifier that is there.
pub find_member : List Member → String → Option Member
find_member [] id = none
find_member (m ∷ members) id =
    let rest = find_member members id in
    if m.removed then rest else if is_text m.id id || is_text m.address id then some m else rest

unfoldable pub find_device_by_id : List Member → Option String → Option Member
unfolding find_member
find_device_by_id members none = none
find_device_by_id members (some id) = if id == "" then none else find_member members id

-- What a client is told.
pub data Answer : Type 0 where
  queued : CommandType → Member → Answer
  not_found : Answer

abbrev pub enqueue_for : Lifecycle → CommandType → Option Member → Answer × Lifecycle
enqueue_for s type none = (not_found, s)
enqueue_for s type (some m) = (queued type m, enqueue_now m.dev type s)

-- `runtime_dbus_enqueue_device_command`
unfoldable pub enqueue_device_command :
    List Member → Option String → CommandType → Lifecycle → Answer × Lifecycle
unfolding find_device_by_id
enqueue_device_command members id type s = enqueue_for s type (find_device_by_id members id)
