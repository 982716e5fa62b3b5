-- ===== src/Inventory/Server.antt =====
-- runtime_control_handle_request of src/mb-daemon.c: a line from the control socket, and what is
-- answered. The answers stand for the texts that are written; the settings of rtkit, which STATUS
-- shows too, are left out.
use Prim.Native.String.{String}
use text.Mathlib.Text.{starts_with}
use midi_ble_rt.Base.{
  ℕ, ℤ, zero, suc, ◌+◌, Bool, true, false, Option, none, some, List, [], ◌∷◌, if◌then◌else◌, length,
}
use midi_ble_rt.Session.{State, is_streaming}
use midi_ble_rt.Lifecycle.{Lifecycle, CommandType, connect, disconnect, recheck, enqueue_now}
use midi_ble_rt.Inventory.{Member, find_device_by_id}

-- What the code uses of GLib: `g_strstrip`, and `g_ascii_strcasecmp (a, b) == 0`.
pub record Glib : Type 0 where
  pub strstrip : String → String
  pub same_word : String → String → Bool

-- `text + n`, for a text that is at least so long.
pub skip : ℕ → String → String
skip zero text = text
skip (suc n) String.[] = String.[]
skip (suc n) (String.◌∷◌ c text) = skip n text

-- What the daemon knows of the device at an address.
pub record Shown : Type 0 where
  pub state : State
  pub alsa_port : ℤ
  pub rx_works : Bool  -- the workers are started, and the thread of RX is there
  pub tx_works : Bool

pub record Status : Type 0 where
  pub devices : ℕ
  pub streaming : ℕ
  pub rx_workers : ℕ
  pub tx_workers : ℕ
  pub alsa_tx_running : Bool
  pub lifecycle_busy : Bool
  pub lifecycle_queue : ℕ

pub data Reply : Type 0 where
  pong unknown_command device_not_found : Reply
  status_is : Status → Reply
  devices_are : List (Member × Shown) → Reply
  device_is : Member → Shown → Reply
  command_queued : CommandType → Member → State → Reply

pub record Served : Type 0 where
  pub members : List Member
  pub shown : ℕ → Shown
  pub alsa_tx_running : Bool
  pub lifecycle : Lifecycle

-- The devices that are not removed.
abbrev pub active : (ℕ → Shown) → List Member → List (Member × Shown)
active shown [] = []
active shown (m ∷ members) =
    if m.removed then active shown members else (m, shown m.dev) ∷ active shown members

abbrev pub count_if : (Shown → Bool) → List (Member × Shown) → ℕ
count_if test [] = 0
count_if test ((m, d) ∷ rest) = if test d then 1 + count_if test rest else count_if test rest

-- Removed devices are counted among `devices`.
unfoldable pub status_of : Served → Status
status_of s =
    let rows = active s.shown s.members in
    record {
      devices = length s.members;
      streaming = count_if (λ d. is_streaming d.state) rows;
      rx_workers = count_if (λ d. d.rx_works) rows;
      tx_workers = count_if (λ d. d.tx_works) rows;
      alsa_tx_running = s.alsa_tx_running;
      lifecycle_busy = s.lifecycle.busy;
      lifecycle_queue = length s.lifecycle.queue;
    }

abbrev pub found_reply : Served → Option Member → Reply
found_reply s none = device_not_found
found_reply s (some m) = device_is m (s.shown m.dev)

abbrev pub queued_reply : Served → CommandType → Option Member → List Reply × Lifecycle
queued_reply s type none = (device_not_found ∷ [], s.lifecycle)
queued_reply s type (some m) =
    (command_queued type m (s.shown m.dev).state ∷ [], enqueue_now m.dev type s.lifecycle)

abbrev pub is_empty : String → Bool
is_empty String.[] = true
is_empty _ = false

-- `runtime_control_enqueue_lifecycle`, which answers nothing to an empty identifier.
unfoldable pub control_enqueue_lifecycle : Served → String → CommandType → List Reply × Lifecycle
unfolding find_device_by_id
control_enqueue_lifecycle s id type =
    if is_empty id
    then ([], s.lifecycle)
    else queued_reply s type (find_device_by_id s.members (some id))

unfoldable pub handle_request : Glib → Served → String → List Reply × Lifecycle
unfolding control_enqueue_lifecycle find_device_by_id status_of skip
handle_request glib s request =
    let line = glib.strstrip request in
    if glib.same_word line "PING"
    then (pong ∷ [], s.lifecycle)
    else if glib.same_word line "STATUS"
    then (status_is (status_of s) ∷ [], s.lifecycle)
    else if glib.same_word line "LIST"
    then (devices_are (active s.shown s.members) ∷ [], s.lifecycle)
    else if starts_with line "FIND "
    then (
      found_reply s (find_device_by_id s.members (some (glib.strstrip (skip 5 line)))) ∷ [],
      s.lifecycle,
    )
    else if starts_with line "CONNECT "
    then control_enqueue_lifecycle s (glib.strstrip (skip 8 line)) connect
    else if starts_with line "DISCONNECT "
    then control_enqueue_lifecycle s (glib.strstrip (skip 11 line)) disconnect
    else if starts_with line "RECHECK "
    then control_enqueue_lifecycle s (glib.strstrip (skip 8 line)) recheck
    else (unknown_command ∷ [], s.lifecycle)
