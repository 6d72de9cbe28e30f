-- ===== src/Drivers/Scheduler/Invariant.antt =====
-- The two vectors of the scheduler keep step, its PIDs are sorted and distinct, and the bounds of its
-- averaged round trip.
use rev_dash.Prelude.{
  ℕ, zero, suc, ◌≤◌, ◌<◌, ◌≡◌, refl, inl, inr, Bool, true, false, Option, none, some, List, [], ◌∷◌,
  arith, min, max, ltb, ◌==◌, if◌then◌else◌, length, replicate, Bool-cases,
}
use rev_dash.Core.Types.{TimePoint, ObdRequest}
use rev_dash.Drivers.Scheduler.{
  AdaptivePidScheduler, insert, sort_unique, set_supported_pids, enqueue_diagnostic,
  dispatch_interval, set_at, poll, next_of, next, complete, set_congested, reset, Call, step, run,
  Candidate,
}

-- Every item of the list is above `p`.
abbrev pub Above : ℕ → List ℕ → Type 0
Above p [] = Unit
Above p (q ∷ qs) = (p < q) × Above p qs

abbrev pub IsAscending : List ℕ → Type 0
IsAscending [] = Unit
IsAscending (p ∷ ps) = Above p ps × IsAscending ps

-- Every supported PID has one due time, and the PIDs ascend.
pub record IsValid (s : AdaptivePidScheduler) : Type 0 where
  pub in_step : length s.next_due ≡ length s.supported
  pub ascending : IsAscending s.supported

Above-less : (p q : ℕ) (ps : List ℕ) → p < q → Above q ps → Above p ps
Above-less p q [] h a = tt
Above-less p q (r ∷ rs) h a = (omega arith, Above-less p q rs h a.1)

Above-insert : (p q : ℕ) (ps : List ℕ) → p < q → Above p ps → Above p (insert q ps)
Above-insert p q [] h a = (h, tt)
Above-insert p q (r ∷ rs) h a = elim (Bool-cases (ltb q r)) [
  | inl y ↦ rw y (h, a)
  | inr n ↦ rw n (elim (Bool-cases (q == r)) [
    | inl y ↦ rw y a
    | inr m ↦ rw m (a.0, Above-insert p q rs h a.1)
  ])
]

insert-IsAscending : (p : ℕ) (ps : List ℕ) → IsAscending ps → IsAscending (insert p ps)
insert-IsAscending p [] a = (tt, tt)
insert-IsAscending p (q ∷ qs) a = elim (Bool-cases (ltb p q)) [
  | inl y ↦ rw y ((ground arith, Above-less p q qs (ground arith) a.0), a)
  | inr n ↦ rw n (elim (Bool-cases (p == q)) [
    | inl y ↦ rw y a
    | inr m ↦ rw m (Above-insert q p qs (ground arith) a.0, insert-IsAscending p qs a.1)
  ])
]

sort_unique-IsAscending : (ps : List ℕ) → IsAscending (sort_unique ps)
sort_unique-IsAscending [] = tt
sort_unique-IsAscending (p ∷ ps) =
    insert-IsAscending p (sort_unique ps) (sort_unique-IsAscending ps)

length-replicate : (n : ℕ) → length (replicate {A = ℕ} n 0) ≡ n
length-replicate zero = refl
length-replicate (suc n) = omega (arith, length-replicate n)

length-set_at : (i due : ℕ) (ds : List ℕ) → length (set_at i due ds) ≡ length ds
length-set_at i due [] = refl
length-set_at zero due (d ∷ ds) = refl
length-set_at (suc i) due (d ∷ ds) = omega (arith, length-set_at i due ds)

poll-IsValid :
    (now : TimePoint) (r : Option Candidate) (s : AdaptivePidScheduler)
    → IsValid s
    → IsValid (poll now r s).1
unfolding poll
poll-IsValid now none s v = v
poll-IsValid now (some c) s v = record {
  in_step = omega (arith, length-set_at c.index _ s.next_due, v.in_step);
  ascending = v.ascending;
}

next_of-IsValid :
    (now : TimePoint) (rs : List ObdRequest) (s : AdaptivePidScheduler)
    → IsValid s
    → IsValid (next_of now rs s).1
unfolding next_of
next_of-IsValid now [] s v = poll-IsValid now _ s v
next_of-IsValid now (r ∷ rs) s v = record { in_step = v.in_step; ascending = v.ascending }

next-IsValid : (now : TimePoint) (s : AdaptivePidScheduler) → IsValid s → IsValid (next now s).1
unfolding next
next-IsValid now s v = go s.in_flight
  where
    go : (b : Bool) → IsValid (if b then (none, s) else next_of now s.diagnostics s).1
    go true = v
    go false = next_of-IsValid now s.diagnostics s v

step-IsValid : (c : Call) (s : AdaptivePidScheduler) → IsValid s → IsValid (step c s).1
unfolding step set_supported_pids enqueue_diagnostic complete set_congested reset
step-IsValid (Call.supports pids) s v = record {
  in_step = length-replicate _;
  ascending = sort_unique-IsAscending pids;
}
step-IsValid (Call.enqueues r) s v = record { in_step = v.in_step; ascending = v.ascending }
step-IsValid (Call.asks now) s v = next-IsValid now s v
step-IsValid (Call.completes rtt timed_out) s v = record {
  in_step = v.in_step;
  ascending = v.ascending;
}
step-IsValid (Call.congests c) s v = record { in_step = v.in_step; ascending = v.ascending }
step-IsValid Call.resets s v = record { in_step = refl; ascending = tt }

-- After any calls of a valid scheduler every supported PID has one due time, and the PIDs are
-- sorted and distinct.
pub run-IsValid : (cs : List Call) (s : AdaptivePidScheduler) → IsValid s → IsValid (run cs s)
unfolding run
run-IsValid [] s v = v
run-IsValid (c ∷ cs) s v = run-IsValid cs (step c s).1 (step-IsValid c s v)

-- The averaged round trip moves to a value between the old one and the one observed, which counts as a
-- second at least after a timeout, and the dispatch interval is 10 ms at least.
pub complete-bounds :
    (round_trip : ℕ) (timed_out : Bool) (s : AdaptivePidScheduler)
    → let observed = if timed_out then max round_trip 1000 else round_trip in
      (min s.ewma_rtt observed ≤ (complete round_trip timed_out s).ewma_rtt)
      × ((complete round_trip timed_out s).ewma_rtt ≤ max s.ewma_rtt observed)
      × (10 ≤ dispatch_interval (complete round_trip timed_out s))
unfolding complete dispatch_interval
complete-bounds round_trip timed_out s = (ground arith, ground arith, ground arith)
