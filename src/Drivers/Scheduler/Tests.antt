-- ===== src/Drivers/Scheduler/Tests.antt =====
-- Runs of the scheduler, and its theorems at concrete inputs.
use rev_dash.Prelude.{◌≤◌, ◌≡◌, refl, true, false, none, some, List, [], ◌∷◌, min, max}
use rev_dash.Core.Types.{ObdRequest, obd_request}
use rev_dash.Drivers.Scheduler.{
  AdaptivePidScheduler, initial, Call, run, next, complete, dispatch_interval, select_from,
  replaces, comes_before, tier_for, poll, next_of,
}
use rev_dash.Drivers.Scheduler.Next.{Polls, next_lem}
use rev_dash.Drivers.Scheduler.Invariant.{IsValid, run-IsValid, complete-bounds}
use rev_dash.Drivers.Scheduler.Flight.{IsExclusive, run-IsExclusive}

abbrev calls : List Call
calls =
    Call.supports (0x0d ∷ 0x05 ∷ 0x0c ∷ 0x05 ∷ [])
    ∷ Call.asks 10
    ∷ Call.completes 40 false
    ∷ Call.asks 20
    ∷ Call.asks 30
    ∷ Call.resets
    ∷ []

-- Engine speed and vehicle speed are in the high tier; the coolant temperature is in the low one.
abbrev two_tiers : AdaptivePidScheduler
two_tiers = record initial { supported = 0x05 ∷ 0x0c ∷ []; next_due = 3 ∷ 4 ∷ [] }

next_lem_example :
    (false ≡ true → next 10 two_tiers ≡ (none, two_tiers))
    × ((r : ObdRequest) (rs : List ObdRequest)
        → false ≡ false
        → [] ≡ r ∷ rs
        → next 10 two_tiers ≡ (some r, record two_tiers { diagnostics = rs; in_flight = true }))
    × (false ≡ false → two_tiers.diagnostics ≡ [] → Polls 10 two_tiers (next 10 two_tiers))
next_lem_example = next_lem 10 two_tiers

-- The PID 0x0c goes first, though 0x05 was due earlier.
next-two_tiers : (next 10 two_tiers).0 ≡ some (obd_request 0x01 0x0c)
unfolding next next_of poll select_from replaces comes_before tier_for
next-two_tiers = refl

run-IsValid_example : IsValid (run calls initial)
run-IsValid_example = run-IsValid calls initial (record { in_step = refl; ascending = tt })

complete-bounds_example :
    (min 50 1000 ≤ (complete 40 true initial).ewma_rtt)
    × ((complete 40 true initial).ewma_rtt ≤ max 50 1000)
    × (10 ≤ dispatch_interval (complete 40 true initial))
complete-bounds_example = complete-bounds 40 true initial

run-IsExclusive_example : IsExclusive false calls initial
run-IsExclusive_example = run-IsExclusive calls initial
