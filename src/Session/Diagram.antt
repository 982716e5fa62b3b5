-- ===== src/Session/Diagram.antt =====
-- The diagram of the states of a session (src/mb-session.c), and the ways through it.
use Prim.Native.Nat.{ℕ, ◌+◌, ◌%◌, ◌^◌}
use Prim.Native.String.{String}
use midi_ble_rt.Base.{◌≡◌, true, Option, none, pos, arith}
use midi_ble_rt.Session.{
  Session, State, idle, scanning, connecting, wait_services, binding_midi, creating_alsa,
  enabling_notify, streaming, reconnecting, error, Event, cmd_connect, cmd_disconnect,
  bluez_connected, bluez_disconnected, bluez_services_resolved, char_found, alsa_ready, notify_ok,
  reconnect_timer, set_midi_binding, set_alsa_port, handle_event, is_streaming_ready, dup_or_null,
  is_some,
}
use midi_ble_rt.Session.Invariant.{is_linked}

infix 40 ◌⟶◌
pub data ◌⟶◌ : State → State → Type 0 where
  stay : {s : State} → s ⟶ s
  scan : idle ⟶ scanning
  scan_again : error ⟶ scanning
  connect : idle ⟶ connecting
  connect_found : scanning ⟶ connecting
  connect_again : error ⟶ connecting
  retry : reconnecting ⟶ connecting
  link_up : connecting ⟶ wait_services
  services : wait_services ⟶ binding_midi
  bind : binding_midi ⟶ creating_alsa
  port_up : creating_alsa ⟶ enabling_notify
  play : enabling_notify ⟶ streaming
  stop : {s : State} → s ⟶ idle
  fail : {s : State} → s ⟶ error
  lose : {s : State} → s ⟶ reconnecting

ruleset edges = (
  stay, scan, scan_again, connect, connect_found, connect_again, retry, link_up, services, bind,
  port_up, play, stop, fail, lose,
)

-- Each event moves a session along one edge of the diagram: the way up to STREAMING is taken one
-- state at a time, and it is left only for IDLE, ERROR or RECONNECTING.
pub handle_event-⟶ : (s : Session) (e : Event) → s.state ⟶ (handle_event s e).0.state
unfolding handle_event
handle_event-⟶ s e = grind (arith, edges)

-- After a loss of the link, a session that reconnects keeps its ALSA port and its identity, drops
-- its binding, and is connecting again, with one more attempt counted, at the next timer event.
link_loss_recovers :
    (s : Session)
    → is_linked s.state ≡ true
    → s.auto_reconnect ≡ true
    → let lost = (handle_event s bluez_disconnected).0 in
      let again = (handle_event lost reconnect_timer).0 in
      (lost.state ≡ reconnecting)
      × (lost.alsa_port_id ≡ s.alsa_port_id)
      × (lost.alsa_ready ≡ s.alsa_ready)
      × (lost.midi_char_path ≡ none)
      × (again.state ≡ connecting)
      × (again.alsa_port_id ≡ s.alsa_port_id)
      × (again.address ≡ s.address)
      × (again.reconnect_attempts ≡ (s.reconnect_attempts + 1) % 2 ^ 32)
unfolding handle_event
link_loss_recovers s l r = ground arith

-- The steps by which the daemon brings a session up, from any state at all.
pub bring_up : Session → Option String → ℕ → Session
bring_up s char_path port =
    let a = (handle_event s cmd_disconnect).0 in
    let b = (handle_event a cmd_connect).0 in
    let c = (handle_event b bluez_connected).0 in
    let d = (handle_event c bluez_services_resolved).0 in
    let e = set_midi_binding d none char_path none in
    let f = (handle_event e char_found).0 in
    let g = set_alsa_port f (pos port) in
    let h = (handle_event g alsa_ready).0 in (handle_event h notify_ok).0

-- Every session, whatever its state, is brought to STREAMING by a disconnect, a connect and the
-- five reports of success; it is ready to stream exactly if a characteristic path was bound.
bring_up-is_streaming_ready :
    (s : Session) (char_path : Option String) (port : ℕ)
    → ((bring_up s char_path port).state ≡ streaming)
      × (is_streaming_ready (bring_up s char_path port) ≡ is_some (dup_or_null char_path))
unfolding bring_up handle_event set_midi_binding set_alsa_port is_streaming_ready
bring_up-is_streaming_ready s char_path port = ground arith
