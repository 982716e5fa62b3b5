-- ===== src/Commands.antt =====
-- What the main loop of src/mb-daemon.c does for each lifecycle command: the switch of
-- lifecycle_process_next_cb with discover, disconnect and recheck. The signal to the clients on
-- D-Bus leaves no trace in the device.
pub mod Pieces
pub mod Consistent
use Prim.Native.String.{String}
use text.Mathlib.Text.{◌==◌}
use midi_ble_rt.Base.{Bool, true, false, not, Option, none, some, List, [], ◌∷◌, if◌then◌else◌}
use midi_ble_rt.Session.{set_identity}
use midi_ble_rt.Startup.{
  Runtime, Answers, event, has_bluez_path, session_of, with_session, try_start_streaming,
  lifecycle_disconnect, mark_disconnected,
}
use midi_ble_rt.Lifecycle.{Command, discover, connect, disconnect, recheck, session_event}
use midi_ble_rt.Lifecycle

-- What the configuration says of the device, and what BlueZ answers when it is asked.
pub record Known : Type 0 where
  pub address : String
  pub name : Option String
  pub device_path : Option String  -- of the address
  pub is_connected : Option Bool  -- the property `Connected`

abbrev discover_at : Known → Runtime → Option String → Bool × Runtime
discover_at k d none = (false, d)
discover_at k d (some path) =
    (true, with_session d (set_identity (session_of d) (some path) (some k.address) k.name))

-- `device_lifecycle_discover`
unfoldable pub lifecycle_discover : Known → Runtime → Bool × Runtime
lifecycle_discover k d = if k.address == "" then (false, d) else discover_at k d k.device_path

abbrev says_connected : Option Bool → Bool
says_connected none = false
says_connected (some connected) = connected

-- `device_lifecycle_recheck`
unfoldable pub lifecycle_recheck : Answers → Known → Runtime → Runtime
unfolding lifecycle_discover mark_disconnected
lifecycle_recheck a k d =
    if not (has_bluez_path (session_of d).device_path)
    then (lifecycle_discover k d).1
    else if says_connected k.is_connected
    then d
    else mark_disconnected a d

-- The switch on the type of the command.
unfoldable pub carry_out : Answers → Known → Command → Runtime → Runtime
unfolding lifecycle_discover lifecycle_recheck try_start_streaming lifecycle_disconnect
    mark_disconnected event
carry_out a k c d = elim c.type [
  | discover ↦ (lifecycle_discover k d).1
  | connect ↦
      let found =
        if has_bluez_path (session_of d).device_path then d else (lifecycle_discover k d).1 in
      (try_start_streaming a found).1
  | disconnect ↦ lifecycle_disconnect a d
  | recheck ↦ lifecycle_recheck a k d
  | Lifecycle.mark_disconnected ↦ mark_disconnected a d
  | session_event ↦ event a c.event d
]

-- The commands that the main loop takes one after the other, each with what is answered.
pub carry_out_all : List (Command × Answers × Known) → Runtime → Runtime
unfolding carry_out
carry_out_all [] d = d
carry_out_all ((c, a, k) ∷ rest) d = carry_out_all rest (carry_out a k c d)
