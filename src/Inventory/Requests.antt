-- ===== src/Inventory/Requests.antt =====
-- What the answers of src/mb-daemon.c to requests tell of the queue of lifecycle commands.
use Prim.Native.String.{String}
use text.Mathlib.Text.{starts_with}
use midi_ble_rt.Session.{cmd_scan}
use midi_ble_rt.Base.{
  ℕ, ◌≡◌, ◌≤◌, refl, sym, ◌∙◌, ap, true, false, Option, none, some, List, [], ◌∷◌, ◌++◌, length,
  arith, append-nil, Bool-cases, inl, inr, if_intro, ==_self,
}
use midi_ble_rt.Lifecycle.{
  Lifecycle, Command, CommandType, value, has_pending, is_command, connect, disconnect, recheck,
  enqueue_now, enqueue,
}
use midi_ble_rt.Inventory.{Member, find_device_by_id}
use midi_ble_rt.Inventory.Forgotten.{found_active}
use midi_ble_rt.Inventory.Pieces.{enqueue_now-new}
use midi_ble_rt.Inventory.Server.{
  Glib, Served, Reply, command_queued, handle_request, control_enqueue_lifecycle, queued_reply,
  found_reply, is_empty, skip,
}

-- The command is among those that wait, and at most one was added, behind the others.
pub record Queued (s t : Lifecycle) (dev : ℕ) (type : CommandType) : Type 0 where
  pub pending : has_pending t.queue dev type ≡ true
  pub added : List Command
  pub one : length added ≤ 1
  pub behind : t.queue ≡ s.queue ++ added

-- What an answer says is so.
abbrev pub IsTrue : Lifecycle → List Reply × Lifecycle → Type 0
IsTrue s (command_queued type m state ∷ [], t) = Queued s t m.dev type × (m.removed ≡ false)
IsTrue s (replies, t) = t ≡ s

has_pending-last :
    (queue : List Command) (c : Command) → has_pending (queue ++ (c ∷ [])) c.dev c.type ≡ true
unfolding has_pending
has_pending-last [] c = rw (==_self c.dev, ==_self (value c.type)) refl
has_pending-last (x ∷ queue) c = elim (Bool-cases (is_command c.dev c.type x)) [
  | inl it ↦ rw it refl
  | inr other ↦ rw other (has_pending-last queue c)
]

enqueue_now-kept :
    (s : Lifecycle) (dev : ℕ) (type : CommandType)
    → has_pending s.queue dev type ≡ true
    → enqueue_now dev type s ≡ s
unfolding enqueue_now enqueue
enqueue_now-kept s dev type there = rw there refl

enqueue_now-Queued :
    (s : Lifecycle) (dev : ℕ) (type : CommandType) → Queued s (enqueue_now dev type s) dev type
enqueue_now-Queued s dev type = elim (Bool-cases (has_pending s.queue dev type)) [
  | inl there ↦
      let same = ap (λ (t : Lifecycle). t.queue) (enqueue_now-kept s dev type there) in
      record {
        pending = ap (λ q. has_pending q dev type) same ∙ there;
        added = [];
        one = omega arith;
        behind = same ∙ sym (append-nil s.queue);
      }
  | inr new ↦
      let c : Command = record { type = type; dev = dev; event = cmd_scan } in
      let grown = enqueue_now-new s dev type new in
      record {
        pending = ap (λ q. has_pending q dev type) grown ∙ has_pending-last s.queue c;
        added = c ∷ [];
        one = omega arith;
        behind = grown;
      }
]

queued_reply-IsTrue :
    (s : Served) (id : String) (type : CommandType) (found : Option Member)
    → find_device_by_id s.members (some id) ≡ found
    → IsTrue s.lifecycle (queued_reply s type found)
queued_reply-IsTrue s id type none e = refl
queued_reply-IsTrue s id type (some m) e =
    (enqueue_now-Queued s.lifecycle m.dev type, (found_active s.members (some id) m e).1)

control-IsTrue :
    (s : Served) (id : String) (type : CommandType)
    → IsTrue s.lifecycle (control_enqueue_lifecycle s id type)
unfolding control_enqueue_lifecycle
control-IsTrue s id type =
    if_intro (IsTrue s.lifecycle) (is_empty id) (λ h. refl)
      (λ h. queued_reply-IsTrue s id type (find_device_by_id s.members (some id)) refl)

found_reply-IsTrue :
    (s : Served) (found : Option Member)
    → IsTrue s.lifecycle (found_reply s found ∷ [], s.lifecycle)
found_reply-IsTrue s none = refl
found_reply-IsTrue s (some m) = refl

-- Whatever line comes over the control socket, what is answered is so: a client that is told that
-- a command was queued for a device finds it among those that wait, once at most added and behind
-- the others, for a device that is not removed; a client that is told anything else, or nothing,
-- has left the queue as it was.
pub handle_request-IsTrue :
    (glib : Glib) (s : Served) (request : String)
    → IsTrue s.lifecycle (handle_request glib s request)
unfolding handle_request
handle_request-IsTrue glib s request =
    let line = glib.strstrip request in
    let P : List Reply × Lifecycle → Type 0 = IsTrue s.lifecycle in
    if_intro P (glib.same_word line "PING") (λ h. refl)
      (λ h.
        if_intro P (glib.same_word line "STATUS") (λ h. refl)
          (λ h.
            if_intro P (glib.same_word line "LIST") (λ h. refl)
              (λ h.
                if_intro P (starts_with line "FIND ") (λ h. found_reply-IsTrue s _)
                  (λ h.
                    if_intro P (starts_with line "CONNECT ")
                      (λ h. control-IsTrue s (glib.strstrip (skip 8 line)) connect)
                      (λ h.
                        if_intro P (starts_with line "DISCONNECT ")
                          (λ h. control-IsTrue s (glib.strstrip (skip 11 line)) disconnect)
                          (λ h.
                            if_intro P (starts_with line "RECHECK ")
                              (λ h. control-IsTrue s (glib.strstrip (skip 8 line)) recheck)
                              (λ h. refl)))))))
