-- ===== src/Lib.antt =====
-- midi-ble-rt: a daemon that carries MIDI between Bluetooth LE instruments and ALSA.
--
-- A notification from the instrument is stamped with the epoch of the streaming session, pushed to
-- the RX flow of its device, taken by the flow's thread, let through by the fence if its session
-- still streams, and decoded to MIDI bytes. A message from ALSA takes the TX flow the other way and
-- is cut into BLE-MIDI packets of at most 20 bytes. A session's state machine says when a device
-- streams; each flow is a ring of slices over a pool of frames.
--
-- * BleMidi models src/mb-ble-midi.c: `decode_packet` is mb_ble_midi_decode_packet, `make_packet` is
--   mb_ble_midi_make_packet, `message` one round of the decoder's loop. A position in the packet is
--   the list of the bytes that remain; the emit callback is the list of the bytes it is given. The
--   fuel of `decode_loop` is the length of the packet, and is proved to be enough. BleMidi.Receiver
--   is a MIDI 1.0 receiver that knows nothing of packets, against which the decoder is judged.
-- * Session models mb_session_... of src/mb-session.c: `handle_event` is mb_session_handle_event, in
--   two parts, the events that are handled in every state and the `switch` on the state.
-- * Registry models MbDaemon of src/mb-session.c: a pointer is a number, the heap gives what it stands
--   for, and a hash table is a function from its keys. `ensure_session` is mb_daemon_ensure_session;
--   a use of a freed session is `none`.
-- * FrameModel models src/mb-frame-model.c: `make`, `hold`, `done`, `get` are mb_frame_model_....
-- * SliceRing models src/mb-slice-ring.c: `push_item`, `take_item`, `drop_item`. A gint is its
--   pattern of 32 bits, and adding 1 wraps.
-- * Runtime models src/mb-runtime.c: `push_bytes_with_epoch` is the producer's step; `consume_begin`
--   and `consume_end` are a round of the consumer's thread in two steps, so that the producer may
--   run between them; `drain` is the thread that is asked to stop, with a round for each of the 16
--   slots of the ring, which is enough since the ring holds no more.
-- * Duplex models src/mb-duplex-runtime.c: a pair of flows.
-- * Stats models src/mb-stats.c, and Latency the accumulators and the windows of
--   src/mb-latency-diagnostics.c. DeviceStats models runtime_device_stats_... of src/mb-daemon.c and
--   the rows that its export is made of.
-- * Dataplane models device_dataplane_... and device_ble_midi_write_packet of src/mb-daemon.c. What
--   the write loop reads from outside (fence, clock, result of the GATT write) is an argument for
--   each round, so it may change in any way while a message is written; the fuel is the length of
--   the message, which is enough since each round takes a byte at least.
-- * Rx models device_rx_consume, device_ble_midi_decode_packet and device_alsa_emit_midi_panic of
--   src/mb-daemon.c. ALSA's byte encoder is a parameter, and starts anew after a byte that it refuses;
--   that it takes the bytes of a MIDI stream is a hypothesis, `Documented`.
-- * Ingress models where data comes in to src/mb-daemon.c: `on_properties_changed` is
--   device_on_properties_changed, and `drain_alsa_tx_queue` is runtime_drain_alsa_tx_queue, on the
--   devices under their addresses, with the counters and the queue of the lifecycle. Egress models
--   device_tx_consume. Alsa models how src/mb-alsa.c names and sorts events. The coders of ALSA are
--   parameters, and so are the readings of the clock.
-- * Device models device_session_event of src/mb-daemon.c, which ties a session to the fence, the
--   flows and the decoder of its device.
-- * Startup models device_try_start_streaming of src/mb-daemon.c, piece by piece, on a device with
--   its ALSA port, subscriptions and workers: a `Progress` stops at the code's early return. What
--   BlueZ, GATT and ALSA answer is an argument of the attempt.
-- * Lifecycle models the queue of lifecycle commands of src/mb-daemon.c: `enqueue` and
--   `enqueue_event` are what stands under the lock, `schedule` is lifecycle_schedule, and
--   `process_begin` and `process_end` are lifecycle_process_next_cb before and after the command
--   is carried out, so that other threads may add meanwhile. The rounds of `serve` are one more
--   than the commands that wait, which is proved to be enough.
-- * Commands models the switch of lifecycle_process_next_cb and device_lifecycle_... of
--   src/mb-daemon.c: `carry_out` is what is done for one command, on the device of Startup.
-- * Config models src/mb-config.c: `config_load_dir` is mb_config_load_dir, `add_device_if_valid` is
--   mb_config_add_device_if_valid. Key files, the directory and the string functions of GLib are
--   parameters. Rtkit models the settings of src/mb-rtkit.c.
-- * Inventory models what clients of the daemon reach, in src/mb-daemon.c: `find_device_by_id`,
--   `handle_request` of the control socket, `forget_device` of D-Bus. What the file system answers is
--   an argument.
-- * Discovery models the searches of src/mb-gatt-midi.c and src/mb-device-discovery.c among the
--   objects of BlueZ, which are given as a list; Bluez models the waits of src/mb-bluez.c. The fuel of
--   `wait_polls` is the time in milliseconds, which is enough since each round lasts one at least.
-- * Control models src/mb-control-protocol.c: `command_parse` is mb_control_command_parse. What GLib
--   documents of g_strstrip and g_strsplit_set is a hypothesis, `Documented`.
-- * Base holds the numbers, lists and tests that all share, and Tests the theorems at concrete
--   inputs.
--
-- A byte is a number below 256, and unsigned integers wrap where the source lets them. A pointer
-- argument is a value, so the guards against NULL are left out, except for strings, where NULL is
-- `none`. An atomic operation is a plain read or write, and a lock leaves no trace: steps of two
-- threads interleave at the operations of the flows. Allocation succeeds.
--
-- Not modelled: the calls of BlueZ and rtkit over D-Bus, the ALSA ports, scan and import of devices,
-- start and shutdown of the daemon, the command line tools and the graphical interface, since they
-- are calls of other libraries, text or files in the main.
pub mod Base
pub mod BleMidi
pub mod Session
pub mod FrameModel
pub mod SliceRing
pub mod Runtime
pub mod Duplex
pub mod Stats
pub mod Latency
pub mod Dataplane
pub mod Rx
pub mod Device
pub mod DeviceStats
pub mod Alsa
pub mod Ingress
pub mod Egress
pub mod Startup
pub mod Lifecycle
pub mod Commands
pub mod Inventory
pub mod Discovery
pub mod Bluez
pub mod Rtkit
pub mod Config
pub mod Control
pub mod Registry
pub mod Tests
