-- ===== src/Dataplane.antt =====
-- The part of src/mb-daemon.c between a device's session and its flows: the fence that keeps the
-- data of one streaming session out of the next, and the loop that writes a message of the TX flow
-- as BLE-MIDI packets. The locks leave no trace in the model, and what the loop reads from outside
-- in each round is an argument.
pub mod Fencing
pub mod Writing
pub mod Single
use midi_ble_rt.Base.{
  min, ℕ, zero, suc, ◌+◌, ◌%◌, ◌^◌, Bool, true, false, not, ◌&&◌, Option, none, some, List, [], ◌∷◌,
  ltb, leb, ◌==◌, if◌then◌else◌, length, take, drop, replicate,
}
use midi_ble_rt.Session.{State, is_streaming}
use midi_ble_rt.BleMidi.{make_packet}

-- The fields `dataplane_...` of ConfigDeviceRuntime.
pub record Fence : Type 0 where
  pub streaming : Bool
  pub epoch : ℕ  -- uint64_t
  pub closed_epoch : ℕ  -- uint64_t
  pub closed_at_ns : ℕ  -- uint64_t

-- A fence of a device that was just allocated.
abbrev pub fence_init : Fence
fence_init = record { streaming = false; epoch = 0; closed_epoch = 0; closed_at_ns = 0 }

unfoldable pub fence_accept : Fence → ℕ → ℕ → Bool
fence_accept f epoch timestamp_ns =
    let ok = f.streaming && (epoch == f.epoch) in
    if ok && (epoch == f.closed_epoch) && leb timestamp_ns f.closed_at_ns then false else ok

-- The epoch and the time stamp that are written, if it succeeds.
unfoldable pub stamp : Fence → ℕ → Option (ℕ × ℕ)
stamp f now_ns = if f.streaming then some (f.epoch, now_ns) else none

abbrev pub next_epoch : ℕ → ℕ
next_epoch epoch = let next = (epoch + 1) % 2 ^ 64 in if next == 0 then 1 else next

-- What a change of the session's state does to the fence; the code returns at once if the states
-- are the same.
unfoldable pub on_session_change : Fence → State → State → ℕ → Fence
on_session_change f before after now_ns =
    if not (is_streaming before) && is_streaming after
    then record f { epoch = next_epoch f.epoch; streaming = true }
    else if is_streaming before && not (is_streaming after)
    then record f { streaming = false; closed_epoch = f.epoch; closed_at_ns = now_ns }
    else f

-- MB_BLE_MIDI_PACKET_MAX_BYTES and MB_BLE_MIDI_MAX_MIDI_BYTES_PER_PACKET
abbrev pub packet_max : ℕ
packet_max = 20

abbrev pub max_midi_per_packet : ℕ
max_midi_per_packet = 18

-- What one round of the loop reads: the fence, the time in the packet, and whether the GATT write
-- succeeds.
pub record Outside : Type 0 where
  pub fence : Fence
  pub timestamp_13bit : ℕ
  pub written : Bool

-- What the loop leaves behind: the packets that were written, the sizes that were counted as sent,
-- how many drops were counted, and whether a failed write was reported to the lifecycle.
pub record Outcome : Type 0 where
  pub ok : Bool
  pub sent : List (List ℕ)
  pub counted : List ℕ
  pub tx_drops : ℕ
  pub failed : Bool

abbrev pub nothing_left : Outcome
nothing_left = record { ok = true; sent = []; counted = []; tx_drops = 0; failed = false }

-- The drop of a round that breaks the loop.
abbrev pub dropped : Bool → Outcome
dropped failed = record { ok = false; sent = []; counted = []; tx_drops = 1; failed = failed }

abbrev pub sent_first : List ℕ → ℕ → Outcome → Outcome
sent_first packet chunk o = record o { sent = packet ∷ o.sent; counted = chunk ∷ o.counted }

-- The `while (off < len)`: `midi` is `midi[off .. len)`, and `outside` gives what each round reads.
-- A round takes a byte at least, so the length is fuel enough. What `packet` holds before it is
-- written is never read.
pub write_rounds : ℕ → (ℕ → Outside) → List ℕ → ℕ → ℕ → Outcome
write_rounds zero outside midi epoch timestamp_ns = nothing_left
write_rounds (suc fuel) outside [] epoch timestamp_ns = nothing_left
write_rounds (suc fuel) outside (b ∷ midi) epoch timestamp_ns =
    let now = outside 0 in
    let rest = b ∷ midi in
    let chunk = min (length rest) max_midi_per_packet in
    let p = make_packet now.timestamp_13bit (take chunk rest) (replicate packet_max 0) in
    let more = write_rounds fuel (λ i. outside (suc i)) (drop chunk rest) epoch timestamp_ns in
    if not (fence_accept now.fence epoch timestamp_ns)
    then dropped false
    else if not p.made
    then dropped false
    else if not now.written
    then dropped true
    else sent_first (take p.out_len p.out) chunk more

-- `fence` is what the test before the loop reads; `bound` is whether the session has a
-- characteristic path.
unfoldable pub write_packet : Fence → Bool → (ℕ → Outside) → List ℕ → ℕ → ℕ → Outcome
unfolding write_rounds
write_packet fence bound outside [] epoch timestamp_ns = nothing_left
write_packet fence bound outside (b ∷ midi) epoch timestamp_ns =
    if not (fence_accept fence epoch timestamp_ns)
    then dropped false
    else if not bound
    then dropped false
    else write_rounds (length (b ∷ midi)) outside (b ∷ midi) epoch timestamp_ns
