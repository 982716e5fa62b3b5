-- ===== src/Tests/Daemon.antt =====
-- The theorems on the lifecycle of src/mb-daemon.c, the configuration and the control protocol at
-- concrete inputs.
use midi_ble_rt.Base.{none, pos, ◌≡◌, refl, true, false, some, List, [], ◌∷◌, arith}
use midi_ble_rt.Session.{is_streaming, dup_or_null, init, idle, streaming, bluez_disconnected}
use midi_ble_rt.BleMidi.{decoder_reset}
use midi_ble_rt.Duplex
use midi_ble_rt.Device.{Device}
use midi_ble_rt.Dataplane.{fence_init}
use midi_ble_rt.Startup.{Runtime, Answers, try_start_streaming, lifecycle_disconnect, session_of}
use midi_ble_rt.Startup.Moves.{state_of}
use midi_ble_rt.Startup.Outcome.{try_start_streaming_lem}
use midi_ble_rt.Startup.Ports.{Granted, reconnected_port}
use midi_ble_rt.Lifecycle.{
  session_event, has_pending, process_end, process_begin, schedule, enqueue_event, enqueue, Command,
  Listed, discover, connect, recheck, fresh, drop_device_commands, start_configured_devices,
}
use midi_ble_rt.Lifecycle.Wakeup.{
  step, Op, add, add_event, call_schedule, begin_next, end_command, step, run, start, quiet-run,
}
use midi_ble_rt.Lifecycle.Order.{serve, waiting, serve_lem}
use midi_ble_rt.Lifecycle.Pending.{NoTwice, run-NoTwice}
use midi_ble_rt.Lifecycle.Configured.{command, start_configured_devices-serve}
use midi_ble_rt.Commands.{Known, carry_out_all}
use midi_ble_rt.Commands.Pieces.{Ok}
use midi_ble_rt.Commands.Consistent.{carry_out_all-Ok}
use midi_ble_rt.Tests.Sessions.{fresh_device, fresh_device-Ok}

abbrev synth : Device
synth = record {
  session = init (some "/org/bluez/hci0/dev_1") (some "AA:BB") (some "Synth");
  fence = fence_init;
  runtime = Duplex.init;
  decoder = decoder_reset;
}

abbrev pub with_port : Runtime
with_port = record {
  device = synth;
  alsa_port = pos 3;
  has_coders = true;
  port_route = true;
  runtime_started = false;
  device_sub = false;
  notify_sub = false;
  has_client = true;
  pair = false;
  events = [];
}

abbrev pub all_goes_well : Answers
all_goes_well = record {
  paired = true;
  connected = true;
  resolved = true;
  service_path = some "/s";
  char_path = some "/c";
  io_uuid = "io";
  client_opened = true;
  new_port = pos 7;
  coders_made = true;
  workers_started = true;
  watching = true;
  subscribed = true;
  notifying = true;
  clock = λ e. 5;
}

all_goes_well-Granted : Granted all_goes_well
unfolding dup_or_null
all_goes_well-Granted = record {
  pair_ok = refl;
  connect_ok = refl;
  services_ok = refl;
  service = "/s";
  service_found = refl;
  char = "/c";
  char_found = refl;
  char_named = refl;
  workers_ok = refl;
  watch_ok = refl;
  subscribe_ok = refl;
  notify_ok = refl;
}

try_start_streaming_lem_example :
    (try_start_streaming all_goes_well with_port).0
    ≡ is_streaming (state_of (try_start_streaming all_goes_well with_port).1)
try_start_streaming_lem_example = try_start_streaming_lem all_goes_well with_port

reconnected_port_example :
    let (ok, e) =
      try_start_streaming all_goes_well (lifecycle_disconnect all_goes_well with_port) in
    (ok ≡ true)
    × (state_of e ≡ streaming)
    × (e.alsa_port ≡ pos 3)
    × ((session_of e).alsa_port_id ≡ pos 0)
unfolding init dup_or_null
reconnected_port_example =
    reconnected_port all_goes_well with_port 3 all_goes_well-Granted refl refl

-- A command is added while another is carried out, and an event once both are through.
abbrev busy_day : List Op
busy_day =
    add 1 connect
    ∷ call_schedule
    ∷ begin_next
    ∷ add 1 recheck
    ∷ call_schedule
    ∷ begin_next
    ∷ end_command
    ∷ call_schedule
    ∷ begin_next
    ∷ end_command
    ∷ add_event 1 bluez_disconnected
    ∷ call_schedule
    ∷ begin_next
    ∷ end_command
    ∷ []

quiet-run_example :
    ((run start busy_day).state.queue ≡ [])
    × ((run start busy_day).added ≡ (run start busy_day).begun)
unfolding run step enqueue enqueue_event schedule process_begin process_end has_pending
quiet-run_example = quiet-run busy_day refl refl refl

run-NoTwice_example :
    NoTwice (run start (add 1 connect ∷ add 1 connect ∷ add 2 connect ∷ [])).state.queue
    × NoTwice
        (drop_device_commands
          (run start (add 1 connect ∷ add 1 connect ∷ add 2 connect ∷ [])).state
          2).queue
run-NoTwice_example = run-NoTwice (add 1 connect ∷ add 1 connect ∷ add 2 connect ∷ []) 2

abbrev two_devices : List Command
two_devices = command 1 discover ∷ command 2 connect ∷ command 1 connect ∷ []

serve_lem_example : serve 5 (waiting two_devices) ≡ (two_devices, fresh)
serve_lem_example = serve_lem two_devices 5 (omega arith)

abbrev studio : List Listed
studio =
    record { dev = 1; removed = false; state = idle; connect_on_start = true }
    ∷ record { dev = 2; removed = false; state = idle; connect_on_start = false }
    ∷ record { dev = 3; removed = false; state = idle; connect_on_start = true }
    ∷ []

start_configured_devices-serve_example :
    serve 6 (start_configured_devices studio fresh)
    ≡ (command 1 discover ∷ command 1 connect ∷ command 3 discover ∷ command 3 connect ∷ [], fresh)
start_configured_devices-serve_example =
    start_configured_devices-serve studio 6 ((refl, (refl, tt)), ((refl, tt), (tt, tt)))
      (omega arith)

-- BlueZ knows the device, and says that it is connected.
abbrev pub in_reach : Known
in_reach = record {
  address = "AA:BB";
  name = none;
  device_path = some "/dev_1";
  is_connected = some true;
}

-- A device is found, connected, checked, and the link to it is lost.
abbrev evening : List (Command × Answers × Known)
evening =
    (command 1 discover, all_goes_well, in_reach)
    ∷ (command 1 connect, all_goes_well, in_reach)
    ∷ (command 1 recheck, all_goes_well, in_reach)
    ∷ (
      record { type = session_event; dev = 1; event = bluez_disconnected },
      all_goes_well,
      in_reach,
    )
    ∷ []

carry_out_all-Ok_example : Ok (carry_out_all evening (record with_port { device = fresh_device }))
carry_out_all-Ok_example =
    carry_out_all-Ok evening (record with_port { device = fresh_device }) fresh_device-Ok
