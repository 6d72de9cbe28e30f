-- ===== src/Drivers/Scheduler/Next.antt =====
-- What `next` of pid_scheduler.cpp returns in every state.
use rev_dash.Prelude.{
  ◌+◌, ◌≤◌, ◌<◌, ◌≡◌, refl, inl, inr, Bool, true, false, Option, none, some, List, [], ◌∷◌, arith,
  ap, ◌∙◌, if◌then◌else◌,
}
use rev_dash.Core.Types.{TimePoint, milliseconds, ObdRequest, obd_request}
use rev_dash.Drivers.Scheduler.{
  AdaptivePidScheduler, Candidate, select_from, poll, next_of, next, set_at, period_for, tier_for,
}
use rev_dash.Drivers.Scheduler.Select.{
  Best, Slots, IsAt, IsBehind, select_from-Best, select_from-Found,
}

-- The state after the PID of `c` was asked for: it is in flight, and due again after its period.
abbrev pub polled : TimePoint → Candidate → AdaptivePidScheduler → AdaptivePidScheduler
polled now c s = record s {
  next_due = set_at c.index (now + milliseconds (period_for s (tier_for c.pid))) s.next_due;
  in_flight = true;
}

-- The PID at the index of `c` is due, and no other due PID comes before it: none has a higher tier,
-- and none of the same tier was due earlier.
pub record IsChosen (now : TimePoint) (s : AdaptivePidScheduler) (c : Candidate) : Type 0 where
  pub place : IsAt c.index c.pid c.due s.supported s.next_due
  pub is_due : c.due ≤ now
  pub is_first : Slots (IsBehind now c) s.supported s.next_due

-- What a poll of the supported PIDs must return.
abbrev pub Polls :
    TimePoint → AdaptivePidScheduler → Option ObdRequest × AdaptivePidScheduler → Type 0
Polls now s (none, t) = (t ≡ s) × Slots (λ p d. now < d) s.supported s.next_due
Polls now s (some r, t) =
    (c : Candidate) × (r ≡ obd_request 0x01 c.pid) × (t ≡ polled now c s) × IsChosen now s c

if_true {ℓ} : {A : Type ℓ} (b : Bool) (x y : A) → b ≡ true → (if b then x else y) ≡ x
if_true true x y h = refl
if_true false x y h = absurd cc

if_false {ℓ} : {A : Type ℓ} (b : Bool) (x y : A) → b ≡ false → (if b then x else y) ≡ y
if_false true x y h = absurd cc
if_false false x y h = refl

poll-Polls :
    (now : TimePoint) (s : AdaptivePidScheduler) (r : Option Candidate)
    → select_from 0 s.supported s.next_due now none ≡ r
    → Polls now s (poll now r s)
unfolding poll
poll-Polls now s none e =
    let best : Best now s.supported s.next_due none none =
      rw e at (select_from-Best 0 s.supported s.next_due now none) in
    (refl, best.1)
poll-Polls now s (some c) e =
    let best : Best now s.supported s.next_due none (some c) =
      rw e at (select_from-Best 0 s.supported s.next_due now none) in
    elim (select_from-Found 0 s.supported s.next_due now none c e) [
      | inl bad ↦ absurd cc
      | inr (j, i, h, l) ↦
          (let same : c.index ≡ j = omega arith in
            (c, refl, refl, record { place = rw same h; is_due = l; is_first = best.0 }))
    ]

-- While a request is in flight `next` returns none and changes nothing. Otherwise the oldest
-- diagnostic request goes out, if there is one. With none queued, a supported PID is polled that is due
-- and that no other due PID comes before; it becomes due again after the period of its tier. If no PID
-- is due, nothing is returned or changed.
pub next_lem :
    (now : TimePoint) (s : AdaptivePidScheduler)
    → (s.in_flight ≡ true → next now s ≡ (none, s))
      × ((r : ObdRequest) (rs : List ObdRequest)
          → s.in_flight ≡ false
          → s.diagnostics ≡ r ∷ rs
          → next now s ≡ (some r, record s { diagnostics = rs; in_flight = true }))
      × (s.in_flight ≡ false → s.diagnostics ≡ [] → Polls now s (next now s))
unfolding next next_of
next_lem now s = (
  λ b. if_true s.in_flight _ _ b,
  λ r rs b q. if_false s.in_flight _ _ b ∙ ap (λ k. next_of now k s) q,
  λ b q. idle b q,
)
  where
    idle : s.in_flight ≡ false → s.diagnostics ≡ [] → Polls now s (next now s)
    idle b q =
        let e : next now s ≡ poll now (select_from 0 s.supported s.next_due now none) s =
          if_false s.in_flight _ _ b ∙ ap (λ k. next_of now k s) q in
        rw e (poll-Polls now s _ refl)
