-- ===== src/Rtkit.antt =====
-- The settings that src/mb-rtkit.c keeps for the threads; what it does with them is calls over
-- D-Bus and of the scheduler.
use midi_ble_rt.Base.{not, ℕ, Bool, true, false, ◌&&◌, ltb, if◌then◌else◌}

abbrev pub default_priority : ℕ
default_priority = 1

abbrev pub max_priority : ℕ
max_priority = 20

pub record Rtkit : Type 0 where
  pub enabled : Bool
  pub realtime_rx : Bool
  pub realtime_tx : Bool
  pub priority : ℕ
  pub warned : Bool

-- `rtkit_clamp_priority`
abbrev pub clamp_priority : ℕ → ℕ
clamp_priority priority =
    if not (ltb 0 priority)
    then default_priority
    else if ltb max_priority priority
    then max_priority
    else priority

-- `mb_rtkit_configure`
unfoldable pub rtkit_configure : Rtkit → Bool → ℕ → Bool → Bool → Rtkit
rtkit_configure r enabled priority rx tx =
    let off = if not enabled then record r { enabled = false } else r in
    let set = record off {
      priority = clamp_priority priority;
      realtime_rx = rx;
      realtime_tx = tx;
      warned = false;
    } in
    if enabled then record set { enabled = true } else set

-- `mb_rtkit_realtime_rx_enabled` and `mb_rtkit_realtime_tx_enabled`
unfoldable pub realtime_rx_enabled : Rtkit → Bool
realtime_rx_enabled r = r.enabled && r.realtime_rx

unfoldable pub realtime_tx_enabled : Rtkit → Bool
realtime_tx_enabled r = r.enabled && r.realtime_tx
