-- ===== src/Egress.antt =====
-- device_tx_consume of src/mb-daemon.c: what the TX thread of a device does with a message, on the
-- counters and the lifecycle of the daemon. What the write loop reads from outside is an argument,
-- as are the readings of the clock.
pub mod Through
use midi_ble_rt.Base.{
  ℕ, zero, suc, ◌+◌, Bool, true, false, not, Option, none, some, List, [], ◌∷◌, if◌then◌else◌, ◌==◌,
}
use midi_ble_rt.Session.{gatt_write_failure}
use midi_ble_rt.Runtime.{Message, depth}
use midi_ble_rt.Dataplane.{Fence, Outside, Outcome, fence_accept, write_packet}
use midi_ble_rt.Stats
use midi_ble_rt.DeviceStats.{observe_queue_depth, device_tx_packet}
use midi_ble_rt.Ingress.{Hub, Station, change, tx_dropped, event_now}

abbrev pub tx_observed : Hub → ℕ → ℕ → ℕ → Hub
tx_observed h dev depth now_ns =
    change (record h { stats = Stats.queue_depth h.stats 0 depth }) dev
      (λ s. record s { stats = observe_queue_depth h.stats.enabled s.stats true depth now_ns })

abbrev pub tx_counted : Hub → ℕ → ℕ → ℕ → Hub
tx_counted h dev bytes now_ns =
    change (record h { stats = Stats.tx_packet h.stats bytes now_ns }) dev
      (λ s. record s { stats = device_tx_packet h.stats.enabled s.stats bytes now_ns })

-- The packets that were written, each counted with the clock as it stands then.
pub count_sent : Hub → ℕ → (ℕ → ℕ) → List ℕ → Hub
count_sent h dev clock [] = h
count_sent h dev clock (chunk ∷ chunks) =
    count_sent (tx_counted h dev chunk (clock 0)) dev (λ i. clock (suc i)) chunks

-- What the loop leaves behind, put into the daemon: a round that breaks it is its last.
unfoldable pub settle : Hub → ℕ → (ℕ → ℕ) → ℕ → Outcome → Hub
unfolding count_sent
settle h dev clock later_ns o =
    let g = count_sent h dev clock o.counted in
    let dropped = if o.tx_drops == 0 then g else tx_dropped g dev later_ns in
    if o.failed then event_now dropped dev gatt_write_failure else dropped

abbrev pub has_path {ℓ} : {A : Type ℓ} → Option A → Bool
has_path none = false
has_path (some p) = true

-- The packets that are written, and the daemon after that.
unfoldable pub tx_consume :
    Hub → ℕ → Message → (ℕ → Outside) → (ℕ → ℕ) → ℕ → ℕ → List (List ℕ) × Hub
unfolding settle
tx_consume h dev m outside clock now_ns later_ns =
    let d = (h.devices dev).device in
    if not (fence_accept d.fence m.epoch m.timestamp_ns)
    then ([], tx_dropped h dev later_ns)
    else let o =
        write_packet d.fence (has_path d.session.midi_char_path) outside m.bytes m.epoch
          m.timestamp_ns in
      (o.sent, settle (tx_observed h dev (depth d.runtime.tx + 1) now_ns) dev clock later_ns o)
