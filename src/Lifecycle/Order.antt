-- ===== src/Lifecycle/Order.antt =====
-- What stands in the queue of lifecycle commands, and in which order it is served.
use midi_ble_rt.Base.{
  ◌<◌, ℕ, zero, suc, ◌≡◌, refl, sym, ap, ◌∙◌, inl, inr, Bool-cases, true, false, ◌==◌,
  if◌then◌else◌, Option, none, some, List, [], ◌∷◌, ◌++◌, length, append_assoc, append-nil, arith,
}
use midi_ble_rt.Lifecycle.{
  Command, Lifecycle, schedule, process_begin, process_end, fresh, keep_others, move_back,
  drop_device_commands,
}

-- The commands that are not for a device, in their order.
abbrev pub others : ℕ → List Command → List Command
others dev [] = []
others dev (c ∷ queue) = if c.dev == dev then others dev queue else c ∷ others dev queue

move_back_lem : (kept queue : List Command) → move_back kept queue ≡ queue ++ kept
unfolding move_back
move_back_lem [] queue = sym (append-nil queue)
move_back_lem (c ∷ kept) queue =
    move_back_lem kept (queue ++ (c ∷ [])) ∙ append_assoc queue (c ∷ []) kept

keep_others_lem :
    (dev : ℕ) (queue kept : List Command) → keep_others dev queue kept ≡ kept ++ others dev queue
unfolding keep_others
keep_others_lem dev [] kept = sym (append-nil kept)
keep_others_lem dev (c ∷ queue) kept = elim (Bool-cases (c.dev == dev)) [
  | inl same ↦ rw same (keep_others_lem dev queue kept)
  | inr other ↦
      rw other (
        keep_others_lem dev queue (kept ++ (c ∷ []))
        ∙ append_assoc kept (c ∷ []) (others dev queue))
]

-- Dropping the commands of a device through the second queue, as the code does, leaves exactly the
-- commands of the other devices, in the order in which they stood, and changes nothing else.
pub drop_device_commands_lem :
    (s : Lifecycle) (dev : ℕ) → drop_device_commands s dev ≡ record s { queue = others dev s.queue }
unfolding drop_device_commands
drop_device_commands_lem s dev =
    ap (λ q. record s { queue = q })
      (move_back_lem (keep_others dev s.queue []) [] ∙ keep_others_lem dev s.queue [])

abbrev note : Option Command → List Command → List Command
note none begun = begun
note (some c) begun = c ∷ begun

-- The rounds of the main loop while nobody adds: a command is taken and carried out, and the source
-- is set again if one more waits. The commands begun, in order, and what is left.
unfoldable pub serve : ℕ → Lifecycle → List Command × Lifecycle
unfolding process_begin process_end schedule
serve zero s = ([], s)
serve (suc rounds) s =
    let (taken, t) = process_begin s in
    let (begun, u) = serve rounds (schedule (process_end t)) in (note taken begun, u)

-- The source is set, and no command is being carried out.
abbrev pub waiting : List Command → Lifecycle
waiting queue = record { queue = queue; busy = false; scheduled = true; owed = 0 }

pub serve-fresh : (rounds : ℕ) → serve rounds fresh ≡ ([], fresh)
unfolding serve process_begin process_end schedule
serve-fresh zero = refl
serve-fresh (suc rounds) = serve-fresh rounds

-- While nobody adds, one round more than the commands that wait serves them all, in their order,
-- and then the loop rests: the queue is empty, the source is not set and nobody has yet to set it.
-- More rounds change nothing.
pub serve_lem :
    (queue : List Command) (rounds : ℕ)
    → length queue < rounds
    → serve rounds (waiting queue) ≡ (queue, fresh)
unfolding serve process_begin process_end schedule
serve_lem queue zero h = absurd (omega arith)
serve_lem [] (suc rounds) h = serve-fresh rounds
serve_lem (c ∷ []) (suc rounds) h = ap (λ r. (c ∷ r.0, r.1)) (serve-fresh rounds)
serve_lem (c ∷ d ∷ queue) (suc rounds) h =
    ap (λ r. (c ∷ r.0, r.1)) (serve_lem (d ∷ queue) rounds (omega arith))
