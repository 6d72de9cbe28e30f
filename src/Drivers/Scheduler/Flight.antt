-- ===== src/Drivers/Scheduler/Flight.antt =====
-- Never are two requests of the scheduler in flight at once.
use rev_dash.Prelude.{
  ◌≡◌, refl, ◌∙◌, Bool, true, false, Option, none, some, List, [], ◌∷◌, if◌then◌else◌,
}
use rev_dash.Core.Types.{TimePoint, ObdRequest}
use rev_dash.Drivers.Scheduler.{
  AdaptivePidScheduler, Candidate, set_supported_pids, enqueue_diagnostic, poll, next_of, next,
  complete, set_congested, reset, Call, step,
}

-- The call ends what is in flight.
abbrev pub frees : Call → Bool
frees (Call.completes rtt timed_out) = true
frees Call.resets = true
frees _ = false

-- Whether a request is out, by the calls and their answers alone.
abbrev pub out_after : Bool → Call → Option ObdRequest → Bool
out_after busy c (some r) = true
out_after busy c none = if frees c then false else busy

abbrev pub IsFree : Bool → Option ObdRequest → Type 0
IsFree busy (some r) = busy ≡ false
IsFree busy none = Unit

-- Each request goes out while none is, in the run of these calls.
abbrev pub IsExclusive : Bool → List Call → AdaptivePidScheduler → Type 0
IsExclusive busy [] s = Unit
IsExclusive busy (c ∷ cs) s =
    IsFree busy (step c s).0 × IsExclusive (out_after busy c (step c s).0) cs (step c s).1

-- The flag after an answer.
abbrev Flag : Bool → Option ObdRequest × AdaptivePidScheduler → Type 0
Flag busy (some r, t) = t.in_flight ≡ true
Flag busy (none, t) = t.in_flight ≡ busy

poll-Flag :
    (now : TimePoint) (r : Option Candidate) (s : AdaptivePidScheduler)
    → Flag s.in_flight (poll now r s)
unfolding poll
poll-Flag now none s = refl
poll-Flag now (some c) s = refl

next_of-Flag :
    (now : TimePoint) (rs : List ObdRequest) (s : AdaptivePidScheduler)
    → Flag s.in_flight (next_of now rs s)
unfolding next_of
next_of-Flag now [] s = poll-Flag now _ s
next_of-Flag now (r ∷ rs) s = refl

-- What a call must do to the flag.
abbrev Steps : Bool → Call → Option ObdRequest × AdaptivePidScheduler → Type 0
Steps busy c o = IsFree busy o.0 × (o.1.in_flight ≡ out_after busy c o.0)

from_Flag :
    (now : TimePoint) (flag : Bool) (o : Option ObdRequest × AdaptivePidScheduler)
    → flag ≡ false
    → Flag flag o
    → Steps false (Call.asks now) o
from_Flag now flag (none, t) e h = (tt, h ∙ e)
from_Flag now flag (some r, t) e h = (refl, h)

next-Steps :
    (now : TimePoint) (s : AdaptivePidScheduler) → Steps s.in_flight (Call.asks now) (next now s)
unfolding next
next-Steps now s = go s.in_flight refl
  where
    go :
        (b : Bool)
        → s.in_flight ≡ b
        → Steps b (Call.asks now) (if b then (none, s) else next_of now s.diagnostics s)
    go true e = (tt, e)
    go false e = from_Flag now s.in_flight _ e (next_of-Flag now s.diagnostics s)

step-Steps : (c : Call) (s : AdaptivePidScheduler) → Steps s.in_flight c (step c s)
unfolding step set_supported_pids enqueue_diagnostic complete set_congested reset
step-Steps (Call.supports pids) s = (tt, refl)
step-Steps (Call.enqueues r) s = (tt, refl)
step-Steps (Call.asks now) s = next-Steps now s
step-Steps (Call.completes rtt timed_out) s = (tt, refl)
step-Steps (Call.congests c) s = (tt, refl)
step-Steps Call.resets s = (tt, refl)

-- In any run of calls a request goes out only while none is: after one has gone out, the next goes out
-- after a call of `complete` or `reset`.
pub run-IsExclusive : (cs : List Call) (s : AdaptivePidScheduler) → IsExclusive s.in_flight cs s
run-IsExclusive [] s = tt
run-IsExclusive (c ∷ cs) s =
    let (free, flag) = step-Steps c s in (free, rw (← flag) (run-IsExclusive cs (step c s).1))
