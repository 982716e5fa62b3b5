-- ===== src/Tests/Flows.antt =====
-- The theorems on the frames, the ring and the flows at concrete contents.
use midi_ble_rt.Base.{
  ℕ, ◌≡◌, ◌<◌, ◌^◌, refl, true, false, none, List, [], ◌∷◌, replicate, set, All-set, All-replicate,
  arith,
}
use midi_ble_rt.FrameModel.{Frame, zero_frame, fill, Slice, Pool, pool_init, make, frame_count}
use midi_ble_rt.FrameModel.Ownership.{FrameOk, IsValid, pool_init-IsValid, make-IsValid}
use midi_ble_rt.SliceRing
use midi_ble_rt.SliceRing.{Ring, rx_raw}
use midi_ble_rt.SliceRing.Refine.{init-IsValid}
use midi_ble_rt.SliceRing.Fifo
use midi_ble_rt.SliceRing.Fifo.{IsReady, ring_run, fifo_run, ring_run_refines}
use midi_ble_rt.Runtime.{Flow, flow_init, stop}
use midi_ble_rt.Runtime.Deliver.{Inv, waiting}
use midi_ble_rt.Runtime.Channel
use midi_ble_rt.Runtime.Channel.{System, run_refines, fresh, fresh-IsValid}
use midi_ble_rt.Runtime.Drain.{stop_lem}

abbrev note_on : List ℕ
note_on = 0x90 ∷ 60 ∷ 100 ∷ []

abbrev stored : Pool
stored = (make pool_init note_on 5).pool

abbrev first_slice : Slice
first_slice = (make pool_init note_on 5).slice

stored-IsValid : IsValid stored
stored-IsValid = make-IsValid pool_init note_on 5 pool_init-IsValid

make-IsValid_example : IsValid (make stored note_on 6).pool
make-IsValid_example = make-IsValid stored note_on 6 stored-IsValid

-- A pool whose frame 3 is in use.
abbrev used_frame : Frame
used_frame = fill zero_frame note_on 0 5

abbrev used_pool : Pool
used_pool = record {
  frames = set (replicate frame_count zero_frame) 3 used_frame;
  next = 4;
  occupied = 1;
  occupied_max = 1;
  seq_next = 1;
  alloc_count = 1;
  empty_count = 0;
}

zero_frame-Ok : FrameOk zero_frame
zero_frame-Ok = record {
  buffer = refl;
  fits = omega arith;
  held = λ h. absurd (h refl);
  holders_in = omega arith;
}

used_frame-Ok : FrameOk used_frame
used_frame-Ok = record {
  buffer = refl;
  fits = omega arith;
  held = λ h. omega arith;
  holders_in = omega arith;
}

used_pool-IsValid : IsValid used_pool
used_pool-IsValid = record {
  count = refl;
  next_in = omega arith;
  frames_ok =
      All-set FrameOk (replicate frame_count zero_frame) 3 used_frame
        (All-replicate FrameOk frame_count zero_frame zero_frame-Ok) used_frame-Ok;
  occupancy = refl;
  peak = omega arith;
  peak_in = omega arith;
}

abbrev used_slice : Slice
used_slice = record { id = 3; off = 0; len = 3 }

abbrev ring_start : Ring
ring_start = SliceRing.init rx_raw true

ring_start-IsReady : IsReady ring_start
unfolding SliceRing.init
ring_start-IsReady = record { valid = (init-IsValid rx_raw true).0; has_pool = refl }

abbrev ring_ops : List Fifo.Op
ring_ops =
    Fifo.Op.push (record { id = 3; off = 0; len = 2 }) 10 1 ∷ Fifo.Op.take ∷ Fifo.Op.take ∷ []

ring_run_refines_example : ring_run ring_start ring_ops ≡ fifo_run (Fifo.view ring_start) ring_ops
ring_run_refines_example = ring_run_refines ring_ops ring_start ring_start-IsReady

abbrev flow_ops : List Channel.Op
flow_ops =
    Channel.Op.push note_on 10 1
    ∷ Channel.Op.take
    ∷ Channel.Op.push [] 11 1
    ∷ Channel.Op.finish
    ∷ []

run_refines_example :
    Channel.run (fresh rx_raw) flow_ops ≡ Channel.channel_run (Channel.view (fresh rx_raw)) flow_ops
run_refines_example = run_refines flow_ops (fresh rx_raw) (fresh-IsValid rx_raw)

abbrev running : Flow
running = record (flow_init rx_raw) { has_thread = true }

running-Inv : Inv running none
running-Inv =
    let v = fresh-IsValid rx_raw in
    record {
      pool_valid = v.pool_valid;
      ring_ready = v.ring_ready;
      owned = v.owned;
      counted = v.counted;
    }

stop_lem_example :
    let (delivered, g) = stop running in
    (delivered ≡ waiting running) × (waiting g ≡ []) × (g.has_thread ≡ false) × Inv g none
stop_lem_example = stop_lem running running-Inv refl

running-small : running.dropped < 2 ^ 64
unfolding flow_init
running-small = omega arith
