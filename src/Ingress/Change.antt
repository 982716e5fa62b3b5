-- ===== src/Ingress/Change.antt =====
-- A change of one device of src/mb-daemon.c, and one after another.
use midi_ble_rt.Base.{ℕ, ◌≡◌, ◌⊎◌, refl, true, arith, Bool-cases, inl, inr}
use midi_ble_rt.Duplex.{Duplex}
use midi_ble_rt.Device.{Device}
use midi_ble_rt.Device.Clean.{DuplexOk, DeviceOk}
use midi_ble_rt.Stats
use midi_ble_rt.Ingress.{Hub, Station, same, change}

pub same_self : (i : ℕ) → same i i ≡ true
same_self i = ground arith

-- A device whose flows were replaced by ones that are in order.
pub with_runtime-DeviceOk :
    (d : Device) (r : Duplex) → DeviceOk d → DuplexOk r → DeviceOk (record d { runtime = r })
with_runtime-DeviceOk d r v w = record {
  session_ok = v.session_ok;
  fence_ok = v.fence_ok;
  runtime_ok = w;
  decoder_ok = v.decoder_ok;
}

-- Another device is not changed.
pub change-others :
    (h : Hub) (dev : ℕ) (f : Station → Station) (i : ℕ)
    → (same i dev ≡ true) ⊎ ((change h dev f).devices i ≡ h.devices i)
change-others h dev f i = elim (Bool-cases (same i dev)) [
  | inl at ↦ inl at
  | inr away ↦ inr (rw away refl)
]

pub change-at :
    (h : Hub) (dev : ℕ) (f : Station → Station) → (change h dev f).devices dev ≡ f (h.devices dev)
change-at h dev f = rw (same_self dev) refl

-- Two changes of one device.
pub change-twice_others :
    (h : Hub) (dev : ℕ) (f g : Station → Station) (i : ℕ)
    → (same i dev ≡ true) ⊎ ((change (change h dev f) dev g).devices i ≡ h.devices i)
change-twice_others h dev f g i = elim (Bool-cases (same i dev)) [
  | inl at ↦ inl at
  | inr away ↦ inr (rw away refl)
]

pub change-twice :
    (h : Hub) (dev : ℕ) (f g : Station → Station)
    → (change (change h dev f) dev g).devices dev ≡ g (f (h.devices dev))
change-twice h dev f g = rw (same_self dev) refl

-- The depth that is observed leaves the statistics enabled as they were.
pub queue_depth-enabled :
    (s : Stats.Stats) (rx tx : ℕ) → (Stats.queue_depth s rx tx).enabled ≡ s.enabled
unfolding Stats.queue_depth
queue_depth-enabled s rx tx = ground arith
