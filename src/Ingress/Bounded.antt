-- ===== src/Ingress/Bounded.antt =====
-- A bounded queue that counts what it loses, for the TX flow of a device in src/mb-daemon.c.
use midi_ble_rt.Base.{
  ℕ, ◌+◌, ◌≡◌, subst, sym, ◌∙◌, ap, Bool, ◌&&◌, none, some, List, [], ◌∷◌, ◌++◌, length, Option,
  leb, ltb, if◌then◌else◌, arith, append-nil, append_assoc,
}
use midi_ble_rt.FrameModel.{capacity}
use midi_ble_rt.SliceRing.{ring_count}
use midi_ble_rt.Runtime.{Message}
use midi_ble_rt.Runtime.Deliver.{waiting}
use midi_ble_rt.Device.Clean.{DeviceOk}
use midi_ble_rt.Ingress.{Hub, Station}
use midi_ble_rt.Ingress.Push.{message}

-- A bounded queue that counts what it loses: `waits` is how many messages wait, and none stands
-- for an event that was not understood.
abbrev pub offer_one :
    (streams : Bool) (epoch waits : ℕ) → Option (List ℕ) → ℕ → List (Option Message) × ℕ
offer_one streams epoch waits none now = ([], 1)
offer_one streams epoch waits (some []) now = ([], 0)
offer_one streams epoch waits (some (b ∷ midi)) now =
    if streams && (leb (length (b ∷ midi)) capacity && ltb waits ring_count)
    then (message (b ∷ midi) now epoch ∷ [], 0)
    else ([], 1)

-- The messages that it takes of those that are offered, and how many it loses.
abbrev pub offer :
    (streams : Bool) (epoch waits : ℕ) → List (Option (List ℕ) × ℕ) → List (Option Message) × ℕ
offer streams epoch waits [] = ([], 0)
offer streams epoch waits ((said, now) ∷ more) =
    let (kept, lost) = offer_one streams epoch waits said now in
    let (kept', lost') = offer streams epoch (waits + length kept) more in
    (kept ++ kept', lost + lost')

-- What became of a device from `h` to `g`: what its TX flow took, and how many drops it counted.
pub record Carried (dev : ℕ) (h g : Hub) (kept : List (Option Message)) (lost : ℕ) : Type 0 where
  pub device_ok : DeviceOk (g.devices dev).device
  pub queue :
      waiting (g.devices dev).device.runtime.tx ≡ waiting (h.devices dev).device.runtime.tx ++ kept
  pub drops : (g.devices dev).stats.tx.drops ≡ (h.devices dev).stats.tx.drops + lost
  pub fence_same : (g.devices dev).device.fence ≡ (h.devices dev).device.fence
  pub enable_same : (g.devices dev).enable_tx ≡ (h.devices dev).enable_tx
  pub enabled : g.stats.enabled ≡ h.stats.enabled

pub Carried-none :
    (dev : ℕ) (h g : Hub)
    → DeviceOk ((h.devices dev).device)
    → g.devices dev ≡ h.devices dev
    → g.stats.enabled ≡ h.stats.enabled
    → Carried dev h g [] 0
Carried-none dev h g v at e = record {
  device_ok = subst (λ (s : Station). DeviceOk s.device) (sym at) v;
  queue =
      ap (λ (s : Station). waiting s.device.runtime.tx) at
      ∙ sym (append-nil (waiting (h.devices dev).device.runtime.tx));
  drops = omega (arith, ap (λ (s : Station). s.stats.tx.drops) at);
  fence_same = ap (λ (s : Station). s.device.fence) at;
  enable_same = ap (λ (s : Station). s.enable_tx) at;
  enabled = e;
}

pub Carried-from :
    (dev : ℕ) (h h' g : Hub) (kept : List (Option Message)) (lost : ℕ)
    → h'.devices dev ≡ h.devices dev
    → h'.stats.enabled ≡ h.stats.enabled
    → Carried dev h' g kept lost
    → Carried dev h g kept lost
Carried-from dev h h' g kept lost at e c = record {
  device_ok = c.device_ok;
  queue = c.queue ∙ ap (λ (s : Station). waiting s.device.runtime.tx ++ kept) at;
  drops = c.drops ∙ ap (λ (s : Station). s.stats.tx.drops + lost) at;
  fence_same = c.fence_same ∙ ap (λ (s : Station). s.device.fence) at;
  enable_same = c.enable_same ∙ ap (λ (s : Station). s.enable_tx) at;
  enabled = c.enabled ∙ e;
}

pub Carried-then :
    (dev : ℕ) (h g k : Hub) (kept kept' : List (Option Message)) (lost lost' : ℕ)
    → Carried dev h g kept lost
    → Carried dev g k kept' lost'
    → Carried dev h k (kept ++ kept') (lost + lost')
Carried-then dev h g k kept kept' lost lost' a b = record {
  device_ok = b.device_ok;
  queue =
      b.queue
      ∙ ap (λ q. q ++ kept') a.queue
      ∙ append_assoc (waiting (h.devices dev).device.runtime.tx) kept kept';
  drops = omega (arith, a.drops, b.drops);
  fence_same = b.fence_same ∙ a.fence_same;
  enable_same = b.enable_same ∙ a.enable_same;
  enabled = b.enabled ∙ a.enabled;
}
