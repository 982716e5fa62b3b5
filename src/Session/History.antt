-- ===== src/Session/History.antt =====
-- What the events of a session's life tell of its state (src/mb-session.c).
use Prim.Native.String.{String}
use midi_ble_rt.Base.{◌≡◌, sym, subst, ◌⊎◌, inl, inr, Option, List, [], ◌∷◌, arith}
use midi_ble_rt.Session.{
  Session, State, wait_services, binding_midi, creating_alsa, enabling_notify, streaming, Event,
  bluez_connected, bluez_services_resolved, char_found, alsa_ready, notify_ok, init, handle_event,
}
use midi_ble_rt.Session.Invariant.{Inv, init-Inv, handle_event-Inv}

-- The session after a history of events, the latest event first.
abbrev pub after : Session → List Event → Session
after s [] = s
after s (e ∷ history) = (handle_event (after s history) e).0

-- The reports that a state rests on, the latest first.
abbrev pub required : State → List Event
required wait_services = bluez_connected ∷ []
required binding_midi = bluez_services_resolved ∷ bluez_connected ∷ []
required creating_alsa = char_found ∷ bluez_services_resolved ∷ bluez_connected ∷ []
required enabling_notify = alsa_ready ∷ char_found ∷ bluez_services_resolved ∷ bluez_connected ∷ []
required streaming =
    notify_ok ∷ alsa_ready ∷ char_found ∷ bluez_services_resolved ∷ bluez_connected ∷ []
required _ = []

-- The first list is left of the second when some of its elements are taken out.
pub data Within : List Event → List Event → Type 0 where
  none_left : {ys : List Event} → Within [] ys
  keep : {x : Event} {xs ys : List Event} → Within xs ys → Within (x ∷ xs) (x ∷ ys)
  skip : {y : Event} {xs ys : List Event} → Within xs ys → Within xs (y ∷ ys)

required-handle_event :
    (s : Session) (e : Event)
    → let t = (handle_event s e).0.state in
      (required t ≡ []) ⊎ (required t ≡ required s.state) ⊎ (required t ≡ e ∷ required s.state)
unfolding handle_event
required-handle_event s e = ground arith

-- A session that started in IDLE and is in a state on the way to STREAMING has seen the reports
-- that the state rests on, in their order: the link, the services, the characteristic, the ALSA
-- port, the notifications.
pub required-Within :
    (device_path address name : Option String) (history : List Event)
    → let s = after (init device_path address name) history in Within (required s.state) history
required-Within device_path address name [] = unfold init in none_left
required-Within device_path address name (e ∷ history) =
    let s = after (init device_path address name) history in
    let seen = required-Within device_path address name history in
    elim (required-handle_event s e) [
      | inl q ↦ subst (λ r. Within r (e ∷ history)) (sym q) none_left
      | inr (inl q) ↦ subst (λ r. Within r (e ∷ history)) (sym q) (skip seen)
      | inr (inr q) ↦ subst (λ r. Within r (e ∷ history)) (sym q) (keep seen)
    ]

-- The session is consistent after every history.
pub after-Inv :
    (device_path address name : Option String) (history : List Event)
    → Inv (after (init device_path address name) history)
after-Inv device_path address name [] = init-Inv device_path address name
after-Inv device_path address name (e ∷ history) =
    handle_event-Inv _ e (after-Inv device_path address name history)
