-- ===== src/Runtime.antt =====
-- src/mb-runtime.h and src/mb-runtime.c: a flow, that is a pool of frames and a ring of slices
-- between a producer and one consumer thread. `flow->ring.pool` is `flow->pool`. The locks, the
-- wake-ups, the real-time scheduling and the latency records leave no trace in the model; a
-- callback shows by what it is handed.
pub mod Ownership
pub mod Deliver
pub mod Channel
pub mod Drain
pub mod Drop
use midi_ble_rt.Base.{
  ℕ, zero, suc, ◌+◌, ◌%◌, ◌^◌, Bool, true, false, not, ◌||◌, List, [], ◌∷◌, ◌++◌, Option, none,
  some, ltb, if◌then◌else◌, length,
}
use midi_ble_rt.FrameModel.{Pool, Made, pool_init, make, done, get, capacity}
use midi_ble_rt.SliceRing.{
  Kind, tx_raw, tx_decoded, tx_active, Item, Ring, ring_count, push_owned_with_epoch, take_item,
  item_done, drop_item, is_empty, count, overflow_count,
}
use midi_ble_rt.SliceRing

-- MbRuntimeFlow
pub record Flow : Type 0 where
  pub pool : Pool
  pub ring : Ring
  pub has_thread : Bool  -- consumer_thread is not NULL
  pub stop_requested : Bool
  pub pushed : ℕ  -- uint64_t
  pub consumed : ℕ  -- uint64_t
  pub dropped : ℕ  -- uint64_t
  pub push_failures : ℕ  -- uint64_t

-- What is handed to the consumer's callback: the bytes, their time stamp and epoch.
pub record Message : Type 0 where
  pub bytes : List ℕ
  pub timestamp_ns : ℕ
  pub epoch : ℕ

abbrev pub inc64 : ℕ → ℕ
inc64 n = (n + 1) % 2 ^ 64

-- The direction of `mb_runtime_flow_latency_direction` is TX.
unfoldable pub is_tx : Kind → Bool
is_tx tx_raw = true
is_tx tx_decoded = true
is_tx tx_active = true
is_tx _ = false

unfoldable pub flow_init : Kind → Flow
flow_init kind = record {
  pool = pool_init;
  ring = SliceRing.init kind true;
  has_thread = false;
  stop_requested = false;
  pushed = 0;
  consumed = 0;
  dropped = 0;
  push_failures = 0;
}

unfoldable pub push_bytes_with_epoch : Flow → List ℕ → ℕ → ℕ → Bool × Flow
push_bytes_with_epoch f bytes timestamp_ns epoch =
    if ltb capacity (length bytes)
    then (false, record f { dropped = inc64 f.dropped; push_failures = inc64 f.push_failures })
    else let m = make f.pool bytes timestamp_ns in
      if not m.made
      then (false, record f { pool = m.pool; push_failures = inc64 f.push_failures })
      else let (accepted, ring) = push_owned_with_epoch f.ring m.slice timestamp_ns epoch in
        if not accepted
        then (
          false,
          record f {
            pool = (done m.pool m.slice).1;
            ring = ring;
            push_failures = inc64 f.push_failures;
          },
        )
        else (true, record f { pool = m.pool; ring = ring; pushed = inc64 f.pushed })

unfoldable pub push_bytes : Flow → List ℕ → ℕ → Bool × Flow
unfolding push_bytes_with_epoch
push_bytes f bytes timestamp_ns = push_bytes_with_epoch f bytes timestamp_ns 0

-- What the callback is handed for an item: nothing, if the slice shows no bytes.
abbrev pub message_with : Option (List ℕ) → Item → Option Message
message_with none item = none
message_with (some bytes) item =
    some (record { bytes = bytes; timestamp_ns = item.timestamp_ns; epoch = item.epoch })

abbrev pub message_of : Pool → Item → Option Message
message_of p item = message_with (get p item.slice) item

-- The consumer's round in two steps, since the producer may run between them: the item is taken
-- and handed to the callback, and then its frame is released.
unfoldable pub consume_begin : Flow → Option (Item × Option Message) × Flow
consume_begin f =
    let (taken, ring) = take_item f.ring in
    elim taken [
      | none ↦ (none, record f { ring = ring })
      | some item ↦ (
        some (item, message_of f.pool item),
        record f { ring = ring; consumed = inc64 f.consumed },
      )
    ]

unfoldable pub consume_end : Flow → Item → Flow
consume_end f item = record f { pool = item_done f.ring f.pool item }

-- The inner `for (;;)` of `runtime_flow_thread`, with nobody else at work: what the callback is
-- handed, in order. The ring holds 16 items at most.
pub drain : ℕ → Flow → List (Option Message) × Flow
drain zero f = ([], f)
drain (suc fuel) f =
    let (taken, f') = consume_begin f in
    elim taken [
      | none ↦ ([], f')
      | some (item, m) ↦ let (ms, f'') = drain fuel (consume_end f' item) in (m ∷ ms, f'')
    ]

-- A thread that is asked to stop drains the ring and ends; `g_thread_join` waits for it.
unfoldable pub stop : Flow → List (Option Message) × Flow
stop f =
    if not f.has_thread
    then ([], f)
    else let (ms, f') = drain ring_count (record f { stop_requested = true }) in
      (ms, record f' { has_thread = false })

-- `g_thread_new` succeeds or ends the program.
unfoldable pub start : Flow → Bool × Flow
start f =
    if f.has_thread
    then (false, f)
    else (true, record f { stop_requested = false; has_thread = true })

-- The `while` of `mb_runtime_flow_drop_pending`.
pub drop_rounds : ℕ → Flow → Flow
drop_rounds zero f = f
drop_rounds (suc fuel) f =
    let (dropped, ring, pool) = drop_item f.ring f.pool in
    elim dropped [
      | true ↦ drop_rounds fuel (record f { ring = ring; pool = pool; dropped = inc64 f.dropped })
      | false ↦ record f { ring = ring; pool = pool }
    ]

unfoldable pub drop_pending : Flow → Flow
unfolding drop_rounds
drop_pending f = drop_rounds (ring_count + 1) f

unfoldable pub depth : Flow → ℕ
depth f = count f.ring

unfoldable pub overflows : Flow → ℕ
overflows f = overflow_count f.ring

-- MbRuntimeFlowStats
pub record Stats : Type 0 where
  pub pushed : ℕ
  pub consumed : ℕ
  pub dropped : ℕ
  pub push_failures : ℕ
  pub overflows : ℕ
  pub depth : ℕ

unfoldable pub stats : Flow → Stats
stats f = record {
  pushed = f.pushed;
  consumed = f.consumed;
  dropped = f.dropped;
  push_failures = f.push_failures;
  overflows = overflows f;
  depth = depth f;
}
