-- ===== src/Alsa.antt =====
-- src/mb-alsa.c: the types of ALSA's sequencer events that the daemon tells apart.
use Prim.Native.String.{String}
use midi_ble_rt.Base.{Bool, true, false}

-- The field `type` of an event, less the prefix SND_SEQ_EVENT_; `other` is each of the rest.
pub data EventType : Type 0 where
  note noteon noteoff keypress controller pgmchange chanpress pitchbend control14 : EventType
  nonregparam regparam songpos songsel qframe timesign keysign : EventType
  start continue stop setpos_tick setpos_time tempo clock tick : EventType
  tune_request reset sensing : EventType
  port_subscribed port_unsubscribed client_start client_exit client_change : EventType
  port_start port_exit port_change other : EventType

unfoldable pub event_is_midi_payload : EventType → Bool
event_is_midi_payload port_subscribed = false
event_is_midi_payload port_unsubscribed = false
event_is_midi_payload client_start = false
event_is_midi_payload client_exit = false
event_is_midi_payload client_change = false
event_is_midi_payload port_start = false
event_is_midi_payload port_exit = false
event_is_midi_payload port_change = false
event_is_midi_payload other = false
event_is_midi_payload _ = true

unfoldable pub event_type_name : EventType → String
event_type_name port_subscribed = "PORT_SUBSCRIBED"
event_type_name port_unsubscribed = "PORT_UNSUBSCRIBED"
event_type_name client_start = "CLIENT_START"
event_type_name client_exit = "CLIENT_EXIT"
event_type_name client_change = "CLIENT_CHANGE"
event_type_name port_start = "PORT_START"
event_type_name port_exit = "PORT_EXIT"
event_type_name port_change = "PORT_CHANGE"
event_type_name _ = "non-MIDI/control"
