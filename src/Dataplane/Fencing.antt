-- ===== src/Dataplane/Fencing.antt =====
-- The fence of src/mb-daemon.c: what was stamped in one streaming session never passes in another.
use midi_ble_rt.Base.{
  ℕ, zero, suc, ◌+◌, ◌-◌, ◌%◌, ◌^◌, ◌<◌, ◌≡◌, ◌≢◌, ◌⊎◌, refl, sym, ap, ◌∙◌, true, false, some, List,
  [], ◌∷◌, length, ◌==◌, Bool-cases, inl, inr, arith,
}
use midi_ble_rt.Session.{State, is_streaming}
use midi_ble_rt.Dataplane.{stamp, fence_accept, Fence, next_epoch, on_session_change}

-- The changes of a session from a state on, each with the time at which the fence sees it.
unfoldable pub run : Fence → State → List (State × ℕ) → Fence
run f before [] = f
run f before ((after, now) ∷ more) = run (on_session_change f before after now) after more

-- The number of epochs before they repeat: 0 is never one.
abbrev pub epochs : ℕ
epochs = 2 ^ 64 - 1

-- The fence is open exactly while the session is streaming, under an epoch that is not the one
-- that was closed last.
pub record IsValid (f : Fence) (now : State) : Type 0 where
  pub agrees : f.streaming ≡ is_streaming now
  pub small : f.epoch < 2 ^ 64
  pub counted : f.streaming ≡ true → 0 < f.epoch
  pub fresh : f.streaming ≡ true → f.closed_epoch ≢ f.epoch
  pub not_ahead : f.streaming ≡ false → f.closed_epoch ≡ f.epoch

-- The fence after `n` openings, as an item of epoch `e` sees it.
record Past (f : Fence) (now : State) (e n : ℕ) : Type 0 where
  agrees : f.streaming ≡ is_streaming now
  ahead : f.epoch ≡ (e + n - 1) % epochs + 1
  closed : n ≡ 0 → f.streaming ≡ false

next_lem : (e n : ℕ) → 0 < e → next_epoch ((e + n - 1) % epochs + 1) ≡ (e + suc n - 1) % epochs + 1
next_lem e n h = ground arith

-- How often the fence opens, at most.
Past-step :
    (f : Fence) (before after : State) (now e n : ℕ)
    → 0 < e
    → Past f before e n
    → let g = on_session_change f before after now in Past g after e n ⊎ Past g after e (suc n)
unfolding on_session_change
Past-step f before after now e n pos v = elim (Bool-cases (is_streaming before)) [
  | inl was ↦ elim (Bool-cases (is_streaming after)) [
    | inl is ↦ inl (record {
      agrees = ground arith;
      ahead = ground (arith, v.ahead);
      closed = λ z. ground (arith, v.closed z);
    })
    | inr isnt ↦ inl (record {
      agrees = ground arith;
      ahead = ground (arith, v.ahead);
      closed = λ z. ground arith;
    })
  ]
  | inr wasnt ↦ elim (Bool-cases (is_streaming after)) [
    | inl is ↦ inr (record {
      agrees = ground arith;
      ahead = rw (wasnt, is) (ap next_epoch v.ahead ∙ next_lem e n pos);
      closed = λ z. absurd (omega (arith, z));
    })
    | inr isnt ↦ inl (record {
      agrees = ground arith;
      ahead = ground (arith, v.ahead);
      closed = λ z. ground arith;
    })
  ]
]

-- An item of the epoch, however it is stamped, is refused.
Past-refuses :
    (f : Fence) (now : State) (e n t : ℕ)
    → 0 < e
    → e < 2 ^ 64
    → n < epochs
    → Past f now e n
    → fence_accept f e t ≡ false
unfolding fence_accept
Past-refuses f now e zero t pos small few v = rw (v.closed refl) refl
Past-refuses f now e (suc k) t pos small few v =
    let other : f.epoch ≢ e = λ h. omega (arith, v.ahead, h) in
    let no : (e == f.epoch) ≡ false = ground (arith, other) in rw no (ground arith)

Past-run :
    (changes : List (State × ℕ)) (f : Fence) (now : State) (e n t : ℕ)
    → 0 < e
    → e < 2 ^ 64
    → n + length changes < epochs
    → Past f now e n
    → fence_accept (run f now changes) e t ≡ false
unfolding run
Past-run [] f now e n t pos small few v = Past-refuses f now e n t pos small (omega (arith, few)) v
Past-run ((after, at) ∷ more) f now e n t pos small few v =
    elim (Past-step f now after at e n pos v) [
      | inl w ↦
          Past-run more (on_session_change f now after at) after e n t pos small
            (omega (arith, few)) w
      | inr w ↦
          Past-run more (on_session_change f now after at) after e (suc n) t pos small
            (omega (arith, few)) w
    ]

opens :
    (f : Fence) (after : State)
    → is_streaming after ≡ true
    → f.epoch < 2 ^ 64
    → f.closed_epoch ≡ f.epoch
    → IsValid (record f { epoch = next_epoch f.epoch; streaming = true }) after
opens f after is small same = record {
  agrees = sym is;
  small = ground arith;
  counted = λ h. ground arith;
  fresh = λ h k. ground (arith, same, k);
  not_ahead = λ h. absurd (cc);
}

pub on_session_change-IsValid :
    (f : Fence) (before after : State) (now : ℕ)
    → IsValid f before
    → IsValid (on_session_change f before after now) after
unfolding on_session_change
on_session_change-IsValid f before after now v = elim (Bool-cases (is_streaming before)) [
  | inl was ↦ elim (Bool-cases (is_streaming after)) [
    | inl is ↦
        rw (was, is)
          (record {
            agrees = v.agrees ∙ was ∙ sym is;
            small = v.small;
            counted = v.counted;
            fresh = v.fresh;
            not_ahead = v.not_ahead;
          })
    | inr isnt ↦
        rw (was, isnt)
          (record {
            agrees = sym isnt;
            small = v.small;
            counted = λ h. absurd (cc);
            fresh = λ h. absurd (cc);
            not_ahead = λ h. refl;
          })
  ]
  | inr wasnt ↦ elim (Bool-cases (is_streaming after)) [
    | inl is ↦ rw (wasnt, is) (opens f after is v.small (v.not_ahead (v.agrees ∙ wasnt)))
    | inr isnt ↦
        rw (wasnt, isnt)
          (record {
            agrees = v.agrees ∙ wasnt ∙ sym isnt;
            small = v.small;
            counted = v.counted;
            fresh = v.fresh;
            not_ahead = v.not_ahead;
          })
  ]
]

stamped :
    (f : Fence) (now e t : ℕ) → stamp f now ≡ some (e, t) → (f.streaming ≡ true) × (e ≡ f.epoch)
unfolding stamp
stamped f now e t s = elim (Bool-cases f.streaming) [
  | inl on ↦ (on, ground (arith, on, s))
  | inr off ↦ absurd (ground (arith, off, s))
]

pub open_accepts :
    (f : Fence) (now : State) (t : ℕ)
    → IsValid f now
    → f.streaming ≡ true
    → fence_accept f f.epoch t ≡ true
unfolding fence_accept
open_accepts f now t v on =
    let other : f.closed_epoch ≢ f.epoch = v.fresh on in ground (arith, other, on)

-- Leaving closes the fence on the items of its epoch.
left-Past :
    (f : Fence) (before after : State) (at : ℕ)
    → IsValid f before
    → f.streaming ≡ true
    → is_streaming after ≡ false
    → Past (on_session_change f before after at) after f.epoch 0
unfolding on_session_change
left-Past f before after at v on left =
    let was : is_streaming before ≡ true = sym v.agrees ∙ on in
    rw (was, left)
      (record {
        agrees = sym left;
        ahead = omega (arith, v.small, v.counted on);
        closed = λ z. refl;
      })

-- What is stamped while the session is streaming passes the fence at once, and never again after
-- the session left the streaming state, wherever it goes then and however often it streams again,
-- for fewer than 2 ^ 64 - 1 changes in all.
pub fence_accept-stamped :
    (f : Fence) (before after : State) (changes : List (State × ℕ)) (e t now at : ℕ)
    → IsValid f before
    → stamp f now ≡ some (e, t)
    → is_streaming after ≡ false
    → length changes < epochs
    → (fence_accept f e t ≡ true)
      × (fence_accept (run f before ((after, at) ∷ changes)) e t ≡ false)
unfolding stamp run
fence_accept-stamped f before after changes e t now at v s left few =
    let (on, e_at) = stamped f now e t s in
    rw e_at (
      open_accepts f before t v on,
      Past-run changes (on_session_change f before after at) after f.epoch 0 t (v.counted on)
          v.small (omega (arith, few)) (left-Past f before after at v on left),
    )
