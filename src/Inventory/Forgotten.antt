-- ===== src/Inventory/Forgotten.antt =====
-- What is left of a device of src/mb-daemon.c that was forgotten.
use Prim.Native.String.{String}
use text.Mathlib.Text.{◌==◌}
use midi_ble_rt.Base.{
  ◌&&◌, ℕ, ◌^◌, ◌<◌, ◌≡◌, ◌⊎◌, refl, sym, ◌∙◌, ap, subst, Bool, true, false, Option, none, some,
  List, [], ◌∷◌, ◌++◌, if◌then◌else◌, nonneg, Bool-cases, inl, inr, arith, if_intro, if_true,
  if_false,
}
use midi_ble_rt.Session.{idle, cmd_disconnect, cmd_scan}
use midi_ble_rt.BleMidi.Invariant as Decoder
use midi_ble_rt.Runtime.Deliver.{waiting}
use midi_ble_rt.Duplex.{Duplex, drop_pending}
use midi_ble_rt.Dataplane.{Fence}
use midi_ble_rt.Device.Clean.{DeviceOk, DuplexOk, drop_pending-Ok}
use midi_ble_rt.Startup.{Runtime, Answers, event, lifecycle_disconnect, session_of}
use midi_ble_rt.Commands.{Known, carry_out}
use midi_ble_rt.Commands.Pieces.{Ok}
use midi_ble_rt.Lifecycle.{Command, disconnect}
use midi_ble_rt.Lifecycle.Order.{others}
use midi_ble_rt.Inventory.{Member, find_device_by_id}
use midi_ble_rt.DeviceStats.{DeviceStats, export_device, reset_window}
use midi_ble_rt.Inventory.Forget.{
  is_active, Daemon, same_pointer, deactivate, mark_removed, forget_member, OnDisk, no_file,
  unlinked, kept, forget_device, is_blank,
}
use midi_ble_rt.Inventory.Closed.{Silent, closed_lem, disconnect-Ok}
use midi_ble_rt.Inventory.Pieces.{
  deactivate-Deactivated, is_dev, find_member-hidden, find_member-active, forgotten_queue,
}

same_self : (i : ℕ) → same_pointer i i ≡ true
same_self i = ground arith

abbrev pub to_disconnect : ℕ → Command
to_disconnect dev = record { type = disconnect; dev = dev; event = cmd_scan }

-- What is left of the device `dev` when the daemon went from `s` to `t`; `a` and `k` are what is
-- answered when the command that was queued is carried out.
pub record Forgotten (s t : Daemon) (dev later : ℕ) (a : Answers) (k : Known) : Type 0 where
  pub hidden : (id : Option String) → is_dev dev (find_device_by_id t.members id) ≡ false
  pub queue : t.lifecycle.queue ≡ others dev s.lifecycle.queue ++ (to_disconnect dev ∷ [])
  pub silent : Silent (t.devices dev).device
  pub no_port : nonneg (t.devices dev).alsa_port ≡ false
  pub no_notify : (t.devices dev).notify_sub ≡ false
  pub consistent : Ok (carry_out a k (to_disconnect dev) (t.devices dev))
  pub still_silent : Silent (carry_out a k (to_disconnect dev) (t.devices dev)).device
  pub idles : (session_of (carry_out a k (to_disconnect dev) (t.devices dev))).state ≡ idle
  pub others_same : (i : ℕ) → (same_pointer i dev ≡ true) ⊎ (t.devices i ≡ s.devices i)
  pub own_stats : t.stats dev ≡ s.stats dev
  pub new_windows :
      (i : ℕ)
      → (t.stats i ≡ s.stats i) ⊎ ((s.exports ≡ true) × ((t.stats i).window_started_ns ≡ later))

-- The device itself, from before `deactivate` to after the command.
module _ (d : Runtime) (now : ℕ) (v : Ok d)
    (unstarted : d.runtime_started ≡ false
      → (waiting d.device.runtime.rx ≡ []) × (waiting d.device.runtime.tx ≡ [])) where
  flows_dropped :
      let r = if d.runtime_started then drop_pending d.device.runtime else d.device.runtime in
      DuplexOk r × (waiting r.rx ≡ []) × (waiting r.tx ≡ [])
  flows_dropped =
      if_intro (λ (r : Duplex). DuplexOk r × (waiting r.rx ≡ []) × (waiting r.tx ≡ []))
        d.runtime_started (λ h. drop_pending-Ok d.device.runtime v.runtime_ok)
        (λ h. (v.runtime_ok, (unstarted h).0, (unstarted h).1))

  deactivate-Silent : Silent (deactivate d now).device
  deactivate-Silent =
      let x = deactivate-Deactivated d now in
      let (r, rx, tx) = flows_dropped in
      record {
        closed = λ e t. closed_lem _ e t (ap (λ (f : Fence). f.streaming) x.fence);
        no_rx = ap (λ (q : Duplex). waiting q.rx) x.runtime ∙ rx;
        no_tx = ap (λ (q : Duplex). waiting q.tx) x.runtime ∙ tx;
      }

  disconnect_after :
      (a : Answers) (k : Known) (dev : ℕ)
      → let e = carry_out a k (to_disconnect dev) (deactivate d now) in
        DeviceOk e.device × Silent e.device × (e.device.session.state ≡ idle)
  unfolding carry_out lifecycle_disconnect event
  disconnect_after a k dev =
      let x = deactivate-Deactivated d now in
      let (r, rx, tx) = flows_dropped in
      let quiet = deactivate-Silent in
      disconnect-Ok (deactivate d now).device (a.clock cmd_disconnect)
        (ap (λ (f : Fence). f.streaming) x.fence)
        (ap (λ (f : Fence). f.closed_epoch) x.fence ∙ sym (ap (λ (f : Fence). f.epoch) x.fence))
        (subst (λ (f : Fence). f.epoch < 2 ^ 64) (sym x.fence) v.fence_ok.small)
        (subst DuplexOk (sym x.runtime) r) (subst Decoder.IsValid (sym x.decoder) v.decoder_ok)
        quiet.no_rx quiet.no_tx

pub found_active :
    (members : List Member) (id : Option String) (m : Member)
    → find_device_by_id members id ≡ some m
    → (is_blank id ≡ false) × (m.removed ≡ false)
unfolding find_device_by_id
found_active members none m e = absurd (cc)
found_active members (some id) m e = elim (Bool-cases (id == "")) [
  | inl blank ↦ let h : none ≡ some m = sym (if_true _ _ blank) ∙ e in absurd (cc)
  | inr there ↦ (there, find_member-active members id m (sym (if_false _ _ there) ∙ e))
]

find_device_by_id-hidden :
    (members : List Member) (dev : ℕ) (id : Option String)
    → is_dev dev (find_device_by_id (mark_removed members dev) id) ≡ false
unfolding find_device_by_id
find_device_by_id-hidden members dev none = refl
find_device_by_id-hidden members dev (some id) =
    if_intro (λ o. is_dev dev o ≡ false) (id == "") (λ h. refl)
      (λ h. find_member-hidden members dev id)

-- A device that was marked is not active.
is_active-hidden :
    (members : List Member) (dev : ℕ) → is_active (mark_removed members dev) dev ≡ false
is_active-hidden [] dev = refl
is_active-hidden (m ∷ members) dev = elim (Bool-cases (same_pointer m.dev dev)) [
  | inl it ↦ rw it (is_active-hidden members dev)
  | inr other ↦ rw (other, other) (ground (arith, is_active-hidden members dev))
]

-- What was exported has a new window.
export-window :
    (stats : DeviceStats) (now rx tx : ℕ)
    → (let (rx_row, tx_row, t) = export_device stats now rx tx in t.window_started_ns) ≡ now
unfolding export_device reset_window
export-window stats now rx tx = refl

forget_member-Forgotten :
    (s : Daemon) (dev now later : ℕ) (a : Answers) (k : Known)
    → Ok (s.devices dev)
    → ((s.devices dev).runtime_started ≡ false
        → (waiting (s.devices dev).device.runtime.rx ≡ [])
          × (waiting (s.devices dev).device.runtime.tx ≡ []))
    → Forgotten s (forget_member s dev now later) dev later a k
unfolding forget_member
forget_member-Forgotten s dev now later a k v unstarted =
    let d = s.devices dev in
    let t = forget_member s dev now later in
    let at : t.devices dev ≡ deactivate d now = if_true _ _ (same_self dev) in
    let x = deactivate-Deactivated d now in
    let (ok, silent, idles) = disconnect_after d now v unstarted a k dev in
    record {
      hidden = find_device_by_id-hidden s.members dev;
      queue = forgotten_queue s.lifecycle dev;
      silent =
          subst (λ (e : Runtime). Silent e.device) (sym at) (deactivate-Silent d now v unstarted);
      no_port = ap (λ (e : Runtime). nonneg e.alsa_port) at ∙ x.port;
      no_notify = ap (λ (e : Runtime). e.notify_sub) at ∙ x.notify;
      consistent = subst (λ (e : Runtime). Ok (carry_out a k (to_disconnect dev) e)) (sym at) ok;
      still_silent =
          subst (λ (e : Runtime). Silent (carry_out a k (to_disconnect dev) e).device) (sym at)
            silent;
      idles =
          ap (λ (e : Runtime). (session_of (carry_out a k (to_disconnect dev) e)).state) at ∙ idles;
      others_same = λ i. elim (Bool-cases (same_pointer i dev)) [
        | inl it ↦ inl it
        | inr other ↦ inr (if_false _ _ other)
      ];
      own_stats =
          if_false {t = s.exports && is_active (mark_removed s.members dev) dev} _ _
            (ground (arith, is_active-hidden s.members dev));
      new_windows = λ i. elim (Bool-cases (s.exports && is_active (mark_removed s.members dev) i)) [
        | inl exported ↦ inr (
          ground (arith, exported),
          ap (λ (x : DeviceStats). x.window_started_ns) (if_true _ _ exported)
              ∙ export-window (s.stats i) later _ _,
        )
        | inr stays ↦ inl (if_false _ _ stays)
      ];
    }

abbrev pub is_kept : OnDisk → Bool
is_kept kept = true
is_kept _ = false

forgets :
    (s : Daemon) (id : Option String) (m : Member) (disk : OnDisk) (now later : ℕ)
    → find_device_by_id s.members id ≡ some m
    → is_kept disk ≡ false
    → is_blank id ≡ false
    → m.removed ≡ false
    → forget_device s id disk now later ≡ (true, forget_member s m.dev now later)
unfolding forget_device
forgets s id m kept now later found gone there active = absurd (cc)
forgets s id m no_file now later found gone there active = rw (there, found, active) refl
forgets s id m unlinked now later found gone there active = rw (there, found, active) refl

-- Forgetting a device that is found, unless the file that configures it cannot be removed,
-- succeeds, and the device is never found again under any name, if the device is consistent (its
-- flows were initialised, and neither consumer is at a message) and nothing waits in its flows
-- unless its workers were started. Of the commands that wait, those
-- of other devices stay, in order, and one to disconnect it follows them. At once nothing waits in
-- its flows and its fence is closed to every item, its ALSA port and its notifications are gone.
-- When the command is carried out, with any answers, the device is consistent, as silent as
-- before, and IDLE. No other device is touched, but for its statistics: if they are exported, a new
-- window may begin for it, at that time; the statistics of the forgotten device stay.
pub forget_device-Forgotten :
    (s : Daemon) (id : Option String) (m : Member) (disk : OnDisk) (now later : ℕ) (a : Answers)
    (k : Known)
    → find_device_by_id s.members id ≡ some m
    → is_kept disk ≡ false
    → Ok (s.devices m.dev)
    → ((s.devices m.dev).runtime_started ≡ false
        → (waiting (s.devices m.dev).device.runtime.rx ≡ [])
          × (waiting (s.devices m.dev).device.runtime.tx ≡ []))
    → let (ok, t) = forget_device s id disk now later in (ok ≡ true) × Forgotten s t m.dev later a k
unfolding forget_device
forget_device-Forgotten s id m disk now later a k found gone v unstarted =
    let (there, active) = found_active s.members id m found in
    let result : forget_device s id disk now later ≡ (true, forget_member s m.dev now later) =
      forgets s id m disk now later found gone there active in
    (
      ap (λ r. r.0) result,
      subst (λ (r : Bool × Daemon). Forgotten s r.1 m.dev later a k) (sym result)
          (forget_member-Forgotten s m.dev now later a k v unstarted),
    )
