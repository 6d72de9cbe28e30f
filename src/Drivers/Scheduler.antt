-- ===== src/Drivers/Scheduler.antt =====
-- drivers/pid_scheduler.hpp and pid_scheduler.cpp: which request is sent next. Round trips and
-- intervals are milliseconds, time points nanoseconds; neither overflows in a run of the program.
pub mod Select
pub mod Next
pub mod Invariant
pub mod Flight
mod Tests
use rev_dash.Prelude.{
  ℕ, zero, suc, ◌+◌, ◌*◌, ◌/◌, max, Bool, true, false, not, ◌&&◌, ◌||◌, Option, none, some, List,
  [], ◌∷◌, ◌++◌, ltb, leb, ◌==◌, if◌then◌else◌, length, replicate,
}
use rev_dash.Core.Types.{TimePoint, milliseconds, ObdRequest, obd_request}

pub data PollTier : Type 0 where
  high medium low : PollTier

-- The number of an enumerator, by which the code compares tiers.
abbrev pub tier_rank : PollTier → ℕ
tier_rank PollTier.high = 0
tier_rank PollTier.medium = 1
tier_rank PollTier.low = 2

pub record AdaptivePidScheduler : Type 0 where
  pub supported : List ℕ
  pub next_due : List TimePoint
  pub diagnostics : List ObdRequest
  pub in_flight : Bool
  pub congested : Bool
  pub ewma_rtt : ℕ

abbrev pub initial : AdaptivePidScheduler
initial = record {
  supported = [];
  next_due = [];
  diagnostics = [];
  in_flight = false;
  congested = false;
  ewma_rtt = 50;
}

-- `std::sort`, by insertion, and `std::unique` of the sorted vector.
abbrev pub insert : ℕ → List ℕ → List ℕ
insert p [] = p ∷ []
insert p (q ∷ qs) = if ltb p q then p ∷ q ∷ qs else if p == q then q ∷ qs else q ∷ insert p qs

abbrev pub sort_unique : List ℕ → List ℕ
sort_unique [] = []
sort_unique (p ∷ ps) = insert p (sort_unique ps)

-- `setSupportedPids`
unfoldable pub set_supported_pids : List ℕ → AdaptivePidScheduler → AdaptivePidScheduler
set_supported_pids pids s = record s {
  supported = sort_unique pids;
  next_due = replicate (length (sort_unique pids)) 0;
}

-- `enqueueDiagnostic`
unfoldable pub enqueue_diagnostic : ObdRequest → AdaptivePidScheduler → AdaptivePidScheduler
enqueue_diagnostic r s = record s { diagnostics = s.diagnostics ++ r ∷ [] }

-- `tierFor`
unfoldable pub tier_for : ℕ → PollTier
tier_for pid =
    if pid == 0x0c || pid == 0x0d || pid == 0x11
    then PollTier.high
    else if pid == 0x0b || pid == 0x10 || pid == 0x04 || pid == 0x0e || leb 0x14 pid && leb pid 0x2b
    then PollTier.medium
    else PollTier.low

-- `dispatchInterval`
unfoldable pub dispatch_interval : AdaptivePidScheduler → ℕ
dispatch_interval s = max 10 (s.ewma_rtt * 5 / 4)

-- `periodFor`
unfoldable pub period_for : AdaptivePidScheduler → PollTier → ℕ
unfolding dispatch_interval
period_for s PollTier.high = dispatch_interval s * 3
period_for s PollTier.medium = dispatch_interval s * (if s.congested then 10 else 6)
period_for s PollTier.low = dispatch_interval s * (if s.congested then 20 else 12)

-- The index that is selected, with the PID and the due time that stand at it.
pub record Candidate : Type 0 where
  pub index : ℕ
  pub pid : ℕ
  pub due : TimePoint

-- The test of the loop that a PID and its due time come before those of the selection.
unfoldable pub comes_before : ℕ → TimePoint → ℕ → TimePoint → Bool
comes_before p d p' d' =
    ltb (tier_rank (tier_for p)) (tier_rank (tier_for p'))
    || tier_rank (tier_for p) == tier_rank (tier_for p') && ltb d d'

unfoldable pub replaces : ℕ → TimePoint → Option Candidate → Bool
replaces p d none = true
replaces p d (some c) = comes_before p d c.pid c.due

-- The loop over the two vectors, from index `i` on.
unfoldable pub select_from :
    ℕ → List ℕ → List TimePoint → TimePoint → Option Candidate → Option Candidate
unfolding replaces
select_from i (p ∷ ps) (d ∷ ds) now selected = select_from (suc i) ps ds now (
    if ltb now d
    then selected
    else if replaces p d selected
    then some (record { index = i; pid = p; due = d })
    else selected)
select_from i _ _ now selected = selected

-- `next_due_[index] = due`
abbrev pub set_at : ℕ → TimePoint → List TimePoint → List TimePoint
set_at i due [] = []
set_at zero due (d ∷ ds) = due ∷ ds
set_at (suc i) due (d ∷ ds) = d ∷ set_at i due ds

-- The end of `next`, for a selection.
unfoldable pub poll :
    TimePoint → Option Candidate → AdaptivePidScheduler → Option ObdRequest × AdaptivePidScheduler
unfolding period_for
poll now none s = (none, s)
poll now (some c) s = (
  some (obd_request 0x01 c.pid),
  record s {
    next_due = set_at c.index (now + milliseconds (period_for s (tier_for c.pid))) s.next_due;
    in_flight = true;
  },
)

-- `next`, with the queue of diagnostic requests
unfoldable pub next_of :
    TimePoint → List ObdRequest → AdaptivePidScheduler → Option ObdRequest × AdaptivePidScheduler
unfolding poll
next_of now [] s = poll now (select_from 0 s.supported s.next_due now none) s
next_of now (r ∷ rs) s = (some r, record s { diagnostics = rs; in_flight = true })

-- `next`
unfoldable pub next : TimePoint → AdaptivePidScheduler → Option ObdRequest × AdaptivePidScheduler
unfolding next_of
next now s = if s.in_flight then (none, s) else next_of now s.diagnostics s

-- `complete`; its time is not used.
unfoldable pub complete : ℕ → Bool → AdaptivePidScheduler → AdaptivePidScheduler
complete round_trip timed_out s = record s {
  in_flight = false;
  ewma_rtt = (s.ewma_rtt * 7 + (if timed_out then max round_trip 1000 else round_trip)) / 8;
}

-- `setCongested`
unfoldable pub set_congested : Bool → AdaptivePidScheduler → AdaptivePidScheduler
set_congested congested s = record s { congested = congested }

-- `reset`
unfoldable pub reset : AdaptivePidScheduler → AdaptivePidScheduler
reset s = initial

-- `streamingPaused`
abbrev pub streaming_paused : AdaptivePidScheduler → Bool
streaming_paused s = not (length s.diagnostics == 0)

-- The calls that drivers make of the scheduler.
pub data Call : Type 0 where
  supports : List ℕ → Call
  enqueues : ObdRequest → Call
  asks : TimePoint → Call
  completes : ℕ → Bool → Call
  congests : Bool → Call
  resets : Call

-- One call: what `next` returned, if it was that, and the state after.
unfoldable pub step : Call → AdaptivePidScheduler → Option ObdRequest × AdaptivePidScheduler
step (Call.supports pids) s = (none, set_supported_pids pids s)
step (Call.enqueues r) s = (none, enqueue_diagnostic r s)
step (Call.asks now) s = next now s
step (Call.completes rtt timed_out) s = (none, complete rtt timed_out s)
step (Call.congests c) s = (none, set_congested c s)
step Call.resets s = (none, reset s)

unfoldable pub run : List Call → AdaptivePidScheduler → AdaptivePidScheduler
unfolding step
run [] s = s
run (c ∷ cs) s = run cs (step c s).1
