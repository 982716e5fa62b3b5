-- ===== src/Bluez/Waiting.antt =====
-- How long src/mb-bluez.c waits, and what ends the wait.
use midi_ble_rt.Base.{
  ℕ, zero, suc, ◌+◌, ◌≤◌, ◌<◌, ◌≡◌, refl, Bool, true, false, not, ◌&&◌, ◌||◌, Option, none, some,
  if_intro, ltb, arith,
}
use midi_ble_rt.Bluez.{
  Waited, Connect, connected, already_connected, in_progress, timed_out, failed, Done, says_yes,
  wait_polls, wait_connected, connect_device, or_reset,
}

-- One of the first `n` readings says yes.
unfoldable pub any_within : ℕ → (ℕ → Option Bool) → Bool
any_within zero poll = false
any_within (suc n) poll = says_yes (poll 0) || any_within n (λ i. poll (suc i))

abbrev span : ℕ → ℕ → ℕ
span zero step = 0
span (suc n) step = step + span n step

abbrev Waits : ℕ → (ℕ → Option Bool) → ℕ → Waited → Type 0
Waits n poll step w = (w.ok ≡ any_within n poll) × (w.slept_ms ≤ span n step)

-- A wait of `n` intervals reads the property `n` times at most.
wait_polls_lem :
    (n fuel : ℕ) (poll : ℕ → Option Bool) (step elapsed timeout : ℕ)
    → 0 < step
    → n ≤ fuel
    → timeout ≡ elapsed + span n step
    → Waits n poll step (wait_polls fuel poll step elapsed timeout)
unfolding wait_polls any_within
wait_polls_lem zero zero poll step elapsed timeout pos h e = (refl, omega arith)
wait_polls_lem zero (suc fuel) poll step elapsed timeout pos h e =
    if_intro (Waits 0 poll step) (not (ltb elapsed timeout)) (λ t. (refl, omega arith))
      (λ t. absurd (ground (arith, t, e)))
wait_polls_lem (suc n) zero poll step elapsed timeout pos h e = absurd (omega (arith, h))
wait_polls_lem (suc n) (suc fuel) poll step elapsed timeout pos h e =
    let (ok, slept) =
      wait_polls_lem n fuel (λ i. poll (suc i)) step (elapsed + step) timeout pos (omega (arith, h))
        (omega (arith, e)) in
    if_intro (Waits (suc n) poll step) (not (ltb elapsed timeout))
      (λ t. absurd (ground (arith, t, e, pos)))
      (λ t.
        if_intro (Waits (suc n) poll step) (says_yes (poll 0))
          (λ y. (ground (arith, y), omega arith))
          (λ m. (ground (arith, m, ok), omega (arith, slept))))

-- What is known of the link after the answer to Connect: it is there, it may come, or it is not.
abbrev pub is_up : Connect → Bool
is_up connected = true
is_up already_connected = true
is_up _ = false

abbrev pub may_come : Connect → Bool
may_come in_progress = true
may_come timed_out = true
may_come _ = false

-- What a call did, if the device was connected before or not, and if one of 60 readings of the
-- property says that it is.
pub record Connected (before : Bool) (answer : Connect) (any : Bool) (d : Done) : Type 0 where
  pub ok : d.ok ≡ (before || (is_up answer || (may_come answer && any)))
  pub called : d.called ≡ not before
  pub reset : d.reset ≡ (not before && (may_come answer && not any))
  pub soon : d.slept_ms ≤ 16000

or_reset-Connected :
    (answer : Connect) (any : Bool) (w : Waited)
    → may_come answer ≡ true
    → is_up answer ≡ false
    → w.ok ≡ any
    → w.slept_ms ≤ 15000
    → Connected false answer any (or_reset true w)
or_reset-Connected answer true w c u ok slept = rw ok (record {
  ok = ground (arith, c, u);
  called = refl;
  reset = ground (arith, c, u);
  soon = omega (arith, slept);
})
or_reset-Connected answer false w c u ok slept = rw ok (record {
  ok = ground (arith, c, u);
  called = refl;
  reset = ground (arith, c, u);
  soon = omega (arith, slept);
})

waited : (poll : ℕ → Option Bool) → Waits 60 poll 250 (wait_connected poll 15000)
unfolding wait_connected
waited poll = wait_polls_lem 60 15000 poll 250 0 15000 (omega arith) (omega arith) refl

not_before :
    (answer : Connect) (poll : ℕ → Option Bool)
    → Connected false answer (any_within 60 poll) (connect_device none answer poll)
unfolding connect_device
not_before connected poll = record { ok = refl; called = refl; reset = refl; soon = omega arith }
not_before already_connected poll = record {
  ok = refl;
  called = refl;
  reset = refl;
  soon = omega arith;
}
not_before in_progress poll =
    let (ok, slept) = waited poll in
    or_reset-Connected in_progress (any_within 60 poll) (wait_connected poll 15000) refl refl ok
      slept
not_before timed_out poll =
    let (ok, slept) = waited poll in
    or_reset-Connected timed_out (any_within 60 poll) (wait_connected poll 15000) refl refl ok slept
not_before failed poll = record { ok = refl; called = refl; reset = refl; soon = omega arith }

-- Connecting a device, whatever BlueZ answers, ends after 16 seconds of sleep at most. It succeeds
-- exactly if the device was connected before, if Connect says that it is, or if Connect is in
-- progress or timed out and one of the first 60 readings of the property says that it is.
-- Connect is called exactly if the device was not connected, and the connection is reset exactly
-- if none of those readings says so.
pub connect_device-Connected :
    (before : Option Bool) (answer : Connect) (poll : ℕ → Option Bool)
    → Connected (says_yes before) answer (any_within 60 poll) (connect_device before answer poll)
unfolding connect_device
connect_device-Connected (some true) answer poll = record {
  ok = refl;
  called = refl;
  reset = refl;
  soon = omega arith;
}
connect_device-Connected (some false) answer poll = not_before answer poll
connect_device-Connected none answer poll = not_before answer poll
