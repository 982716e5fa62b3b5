-- ===== src/Config/Settings.antt =====
-- Which settings src/mb-config.c hands on.
use midi_ble_rt.Base.{
  ℕ, ◌≤◌, ◌≡◌, ◌⊎◌, refl, sym, ap, subst, ◌∙◌, inl, inr, Option-cases, Bool, true, false, Option,
  none, some, List, arith,
}
use midi_ble_rt.Rtkit.{Rtkit, rtkit_configure}
use midi_ble_rt.Config.{
  Glib, KeyFile, Directory, DeviceConfig, System, uint_or_default, uint_in_range,
  daemon_from_key_file, load_listed, load_from, load_succeeded, load_failed, config_load_dir,
}

-- The settings of a configuration that was loaded are in their ranges, and the others follow them.
pub record Applied (s : System) : Type 0 where
  pub interval_low : 1 ≤ s.cfg.stats_interval_ms
  pub interval_high : s.cfg.stats_interval_ms ≤ 60000
  pub rtkit_enabled : s.rtkit.enabled ≡ s.cfg.rtkit_enabled
  pub priority_low : 1 ≤ s.rtkit.priority
  pub priority_high : s.rtkit.priority ≤ 20
  pub priority : s.rtkit.priority ≡ s.cfg.rtkit_priority
  pub realtime_rx : s.rtkit.realtime_rx ≡ s.cfg.rtkit_realtime_rx
  pub realtime_tx : s.rtkit.realtime_tx ≡ s.cfg.rtkit_realtime_tx
  pub may_warn : s.rtkit.warned ≡ false
  pub diagnostics : s.diagnostics ≡ (s.cfg.stats_latency_diagnostics, s.cfg.stats_interval_ms)

-- After a failure the configuration is as before, and real time and the diagnostics are off.
pub record TurnedOff (before after : System) : Type 0 where
  pub cfg : after.cfg ≡ before.cfg
  pub rtkit : after.rtkit.enabled ≡ false
  pub diagnostics : after.diagnostics ≡ (false, 0)

uint_or_default-range :
    (o : Option ℕ) → (1 ≤ uint_or_default o 1000) × (uint_or_default o 1000 ≤ 60000)
uint_or_default-range none = (omega arith, omega arith)
uint_or_default-range (some value) = (ground arith, ground arith)

uint_in_range-range : (o : Option ℕ) → (1 ≤ uint_in_range o 1 1 20) × (uint_in_range o 1 1 20 ≤ 20)
uint_in_range-range none = (omega arith, omega arith)
uint_in_range-range (some value) = (ground arith, ground arith)

load_failed-TurnedOff : (glib : Glib) (s : System) → TurnedOff s (load_failed glib s).1
unfolding rtkit_configure
load_failed-TurnedOff glib s = record { cfg = refl; rtkit = refl; diagnostics = refl }

rtkit_configure_lem :
    (r : Rtkit) (enabled : Bool) (priority : ℕ) (rx tx : Bool)
    → 1 ≤ priority
    → priority ≤ 20
    → ((rtkit_configure r enabled priority rx tx).enabled ≡ enabled)
      × ((rtkit_configure r enabled priority rx tx).priority ≡ priority)
      × ((rtkit_configure r enabled priority rx tx).realtime_rx ≡ rx)
      × ((rtkit_configure r enabled priority rx tx).realtime_tx ≡ tx)
      × ((rtkit_configure r enabled priority rx tx).warned ≡ false)
unfolding rtkit_configure
rtkit_configure_lem r true priority rx tx low high = (refl, ground arith, refl, refl, refl)
rtkit_configure_lem r false priority rx tx low high = (refl, ground arith, refl, refl, refl)

load_succeeded-Applied :
    (glib : Glib) (s : System) (kf : KeyFile) (devices : List DeviceConfig)
    → Applied
        (load_succeeded glib s (record (daemon_from_key_file glib kf) { devices = devices })).1
unfolding daemon_from_key_file
load_succeeded-Applied glib s kf devices =
    let cfg = daemon_from_key_file glib kf in
    let interval = uint_or_default-range (kf.get_uint64 "stats" "interval_ms") in
    let priority = uint_in_range-range (kf.get_uint64 "realtime" "rt_priority") in
    let (enabled, same_priority, rx, tx, warned) =
      rtkit_configure_lem s.rtkit cfg.rtkit_enabled cfg.rtkit_priority cfg.rtkit_realtime_rx
        cfg.rtkit_realtime_tx priority.0 priority.1 in
    record {
      interval_low = interval.0;
      interval_high = interval.1;
      rtkit_enabled = enabled;
      priority_low = omega (arith, same_priority, priority.0);
      priority_high = omega (arith, same_priority, priority.1);
      priority = same_priority;
      realtime_rx = rx;
      realtime_tx = tx;
      may_warn = warned;
      diagnostics = refl;
    }

fails :
    (glib : Glib) (dir : Directory) (s : System)
    → config_load_dir glib dir s ≡ load_failed glib s
    → let (ok, t) = config_load_dir glib dir s in
      ((ok ≡ true) × Applied t) ⊎ ((ok ≡ false) × TurnedOff s t)
fails glib dir s e =
    inr (ap (λ r. r.0) e, subst (λ r. TurnedOff s r.1) (sym e) (load_failed-TurnedOff glib s))

-- Whatever the files are: either the load succeeds, and the interval of the statistics is from 1 to
-- 60000 ms, the priority from 1 to 20, and the settings of rtkit (whether it is on, the priority,
-- whether RX and TX run in real time) and of the diagnostics are those of the configuration, with
-- rtkit's warning armed again; or it fails, the configuration is as before, and both are off.
pub config_load_dir-Applied :
    (glib : Glib) (dir : Directory) (s : System)
    → let (ok, t) = config_load_dir glib dir s in
      ((ok ≡ true) × Applied t) ⊎ ((ok ≡ false) × TurnedOff s t)
unfolding config_load_dir
config_load_dir-Applied glib dir s = elim (Option-cases dir.daemon_file) [
  | inl missing ↦ fails glib dir s (ap (load_from glib dir s) missing)
  | inr (kf, loads) ↦ elim (Option-cases dir.listing) [
    | inl closed ↦ fails glib dir s (
        ap (load_from glib dir s) loads
        ∙ ap (load_listed glib dir s (daemon_from_key_file glib kf)) closed)
    | inr (names, opens) ↦
        let result =
          ap (load_from glib dir s) loads
          ∙ ap (load_listed glib dir s (daemon_from_key_file glib kf)) opens in
        inl (
          ap (λ r. r.0) result,
          subst (λ r. Applied r.1) (sym result) (load_succeeded-Applied glib s kf _),
        )
  ]
]
