-- ===== src/Inventory/Pieces.antt =====
-- The pieces of src/mb-daemon.c that forget a device: its deactivation, the list, the queue.
use Prim.Native.String.{String}
use midi_ble_rt.Base.{
  some_same, ℕ, ◌==◌, ◌≡◌, refl, sym, subst, Bool, false, not, ◌||◌, Option, none, some, List, [],
  ◌∷◌, ◌++◌, if◌then◌else◌, nonneg, Bool-cases, inl, inr, arith, if_intro,
}
use midi_ble_rt.Session.{cmd_scan}
use midi_ble_rt.Duplex.{drop_pending}
use midi_ble_rt.Startup.{Runtime, stop_notify}
use midi_ble_rt.Lifecycle.{
  Lifecycle, Command, CommandType, disconnect, enqueue_now, enqueue, schedule, has_pending,
  drop_device_commands,
}
use midi_ble_rt.Lifecycle.Order.{others, drop_device_commands_lem}
use midi_ble_rt.Inventory.{Member, find_member, is_text}
use midi_ble_rt.Inventory.Forget.{
  same_pointer, close, close_fence, drop_started, deactivate, remove_alsa_port, mark_removed,
}

-- What `deactivate` does to a device.
pub record Deactivated (d : Runtime) (now : ℕ) (e : Runtime) : Type 0 where
  pub fence : e.device.fence ≡ close d.device.fence now
  pub runtime :
      e.device.runtime
      ≡ (if d.runtime_started then drop_pending d.device.runtime else d.device.runtime)
  pub decoder : e.device.decoder ≡ d.device.decoder
  pub port : nonneg e.alsa_port ≡ false
  pub notify : e.notify_sub ≡ false

remove_alsa_port-Deactivated :
    (d : Runtime) (now : ℕ) (e : Runtime)
    → e.device.fence ≡ close d.device.fence now
    → e.device.runtime
      ≡ (if d.runtime_started then drop_pending d.device.runtime else d.device.runtime)
    → e.device.decoder ≡ d.device.decoder
    → e.notify_sub ≡ false
    → Deactivated d now (remove_alsa_port e)
unfolding remove_alsa_port
remove_alsa_port-Deactivated d now e f r c n =
    if_intro (Deactivated d now) (not (nonneg e.alsa_port))
      (λ h. record { fence = f; runtime = r; decoder = c; port = ground (arith, h); notify = n })
      (λ h. record { fence = f; runtime = r; decoder = c; port = refl; notify = n })

pub deactivate-Deactivated : (d : Runtime) (now : ℕ) → Deactivated d now (deactivate d now)
unfolding deactivate
deactivate-Deactivated d now =
    let e = close_fence (drop_started (stop_notify d)) now in
    let started = d.runtime_started in
    remove_alsa_port-Deactivated d now e
      (if_intro (λ (x : Runtime). close x.device.fence now ≡ close d.device.fence now) started
        (λ h. refl) (λ h. refl))
      (elim (Bool-cases started) [ inl h ↦ rw h refl | inr h ↦ rw h refl ])
      (if_intro (λ (x : Runtime). x.device.decoder ≡ d.device.decoder) started (λ h. refl)
        (λ h. refl))
      (if_intro (λ (x : Runtime). x.notify_sub ≡ false) started (λ h. refl) (λ h. refl))

-- No device is found that was marked.
abbrev pub is_dev : ℕ → Option Member → Bool
is_dev dev none = false
is_dev dev (some m) = same_pointer m.dev dev

pub find_member-hidden :
    (members : List Member) (dev : ℕ) (id : String)
    → is_dev dev (find_member (mark_removed members dev) id) ≡ false
unfolding find_member
find_member-hidden [] dev id = refl
find_member-hidden (m ∷ members) dev id = elim (Bool-cases (same_pointer m.dev dev)) [
  | inl it ↦ rw it (find_member-hidden members dev id)
  | inr other ↦ rw other (
      if_intro (λ o. is_dev dev o ≡ false) m.removed (λ h. find_member-hidden members dev id)
        (λ h.
          if_intro (λ o. is_dev dev o ≡ false) (is_text m.id id || is_text m.address id)
            (λ h. other) (λ h. find_member-hidden members dev id)))
]

-- A member that is found was not removed.
pub find_member-active :
    (members : List Member) (id : String) (m : Member)
    → find_member members id ≡ some m
    → m.removed ≡ false
unfolding find_member
find_member-active [] id m = λ e. absurd (cc)
find_member-active (x ∷ members) id m =
    if_intro (λ o. o ≡ some m → m.removed ≡ false) x.removed (λ h. find_member-active members id m)
      (λ h.
        if_intro (λ o. o ≡ some m → m.removed ≡ false) (is_text x.id id || is_text x.address id)
          (λ t e. subst (λ (y : Member). y.removed ≡ false) (some_same e) h)
          (λ t. find_member-active members id m))

has_pending-others :
    (queue : List Command) (dev : ℕ) (type : CommandType)
    → has_pending (others dev queue) dev type ≡ false
unfolding has_pending
has_pending-others [] dev type = refl
has_pending-others (c ∷ queue) dev type = elim (Bool-cases (c.dev == dev)) [
  | inl it ↦ rw it (has_pending-others queue dev type)
  | inr other ↦ rw (other, other) (has_pending-others queue dev type)
]

pub schedule-queue : (s : Lifecycle) → (schedule s).queue ≡ s.queue
unfolding schedule
schedule-queue s =
    if_intro (λ (t : Lifecycle). t.queue ≡ s.queue) (s.owed == 0) (λ h. refl) (λ h. refl)

pub enqueue_now-new :
    (s : Lifecycle) (dev : ℕ) (type : CommandType)
    → has_pending s.queue dev type ≡ false
    → (enqueue_now dev type s).queue
      ≡ s.queue ++ (record { type = type; dev = dev; event = cmd_scan } ∷ [])
unfolding enqueue_now enqueue
enqueue_now-new s dev type new = rw new (schedule-queue _)

-- The queue after the commands of the device were dropped and one to disconnect it was added.
pub forgotten_queue :
    (s : Lifecycle) (dev : ℕ)
    → (enqueue_now dev disconnect (drop_device_commands s dev)).queue
      ≡ others dev s.queue ++ (record { type = disconnect; dev = dev; event = cmd_scan } ∷ [])
forgotten_queue s dev =
    subst
      (λ t.
        (enqueue_now dev disconnect t).queue
        ≡ others dev s.queue ++ (record { type = disconnect; dev = dev; event = cmd_scan } ∷ []))
      (sym (drop_device_commands_lem s dev))
      (enqueue_now-new (record s { queue = others dev s.queue }) dev disconnect
        (has_pending-others s.queue dev disconnect))
