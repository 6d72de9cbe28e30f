-- ===== src/Core/Aggregator/Recent.antt =====
-- headers/revdash/core/metric_aggregator.hpp: insertion into a window and what pruning leaves of it.
use rev_dash.Prelude.{
  ◌≤◌, ◌-◌, ◌≡◌, refl, ap, List, [], ◌∷◌, All, arith, ltb, Bool, true, false, if◌then◌else◌,
}
use mathlib.Core.List.{Perm}
use mathlib.Core.List.Perm
use rev_dash.Core.Types.{TimePoint, Duration}
use rev_dash.Core.Telemetry.{TelemetrySample}
use rev_dash.Core.Aggregator.{insert_sample, prune}

module _ {F : Type 0} where
  abbrev NoSooner : TimePoint → TelemetrySample F → Type 0
  NoSooner t r = t ≤ r.monotonic_ts

  -- The samples stand in the order of their times.
  abbrev pub IsOrdered : List (TelemetrySample F) → Type 0
  IsOrdered [] = Unit
  IsOrdered (s ∷ ss) = All (NoSooner s.monotonic_ts) ss × IsOrdered ss

  All-insert_sample :
      (t : TimePoint) (s : TelemetrySample F) (rs : List (TelemetrySample F))
      → t ≤ s.monotonic_ts
      → All (NoSooner t) rs
      → All (NoSooner t) (insert_sample s rs)
  unfolding insert_sample
  All-insert_sample t s [] h k = (h, tt)
  All-insert_sample t s (r ∷ rs) h k = ground (arith, All-insert_sample t s rs h k.1)

  All-weaken :
      (t u : TimePoint) (rs : List (TelemetrySample F))
      → t ≤ u
      → All (NoSooner u) rs
      → All (NoSooner t) rs
  All-weaken t u [] h k = tt
  All-weaken t u (r ∷ rs) h k = (omega (arith, k.0), All-weaken t u rs h k.1)

  pub insert_sample-IsOrdered :
      (s : TelemetrySample F) (rs : List (TelemetrySample F))
      → IsOrdered rs
      → IsOrdered (insert_sample s rs)
  unfolding insert_sample
  insert_sample-IsOrdered s [] k = (tt, tt)
  insert_sample-IsOrdered s (r ∷ rs) k = ground (
    arith,
    All-weaken s.monotonic_ts r.monotonic_ts rs,
    All-insert_sample r.monotonic_ts s rs,
    insert_sample-IsOrdered s rs k.1,
  )

  pub prune-IsOrdered :
      (w : Duration) (now : TimePoint) (rs : List (TelemetrySample F))
      → IsOrdered rs
      → IsOrdered (prune w now rs)
  unfolding prune
  prune-IsOrdered w now [] k = tt
  prune-IsOrdered w now (r ∷ rs) k = ground (arith, prune-IsOrdered w now rs k.1)

  -- The samples that are not older than the window.
  abbrev pub recent : Duration → TimePoint → List (TelemetrySample F) → List (TelemetrySample F)
  recent w now [] = []
  recent w now (s ∷ ss) =
      let rest = recent w now ss in if ltb w (now - s.monotonic_ts) then rest else s ∷ rest

  recent_later :
      (w : Duration) (now : TimePoint) (t : TimePoint) (rs : List (TelemetrySample F))
      → now - t ≤ w
      → All (NoSooner t) rs
      → recent w now rs ≡ rs
  recent_later w now t [] h k = refl
  recent_later w now t (r ∷ rs) h k =
      ground (arith, k.0, ap (◌∷◌ r) (recent_later w now t rs h k.1))

  -- Of samples in order dropping old ones from the front leaves the recent ones.
  pub prune-recent :
      (w : Duration) (now : TimePoint) (rs : List (TelemetrySample F))
      → IsOrdered rs
      → prune w now rs ≡ recent w now rs
  unfolding prune
  prune-recent w now [] k = refl
  prune-recent w now (r ∷ rs) k =
      ground (arith, prune-recent w now rs k.1, recent_later w now r.monotonic_ts rs)

  pub recent-prune :
      (w : Duration) (t now : TimePoint) (rs : List (TelemetrySample F))
      → t ≤ now
      → recent w now (prune w t rs) ≡ recent w now rs
  unfolding prune
  recent-prune w t now [] h = refl
  recent-prune w t now (r ∷ rs) h = ground (arith, recent-prune w t now rs h)

  pub recent-insert_sample :
      (w : Duration) (now : TimePoint) (s : TelemetrySample F) (rs : List (TelemetrySample F))
      → recent w now (insert_sample s rs) ≡ (
          if ltb w (now - s.monotonic_ts)
          then recent w now rs
          else insert_sample s (recent w now rs))
  unfolding insert_sample
  recent-insert_sample w now s [] = ground arith
  recent-insert_sample w now s (r ∷ rs) = ground (arith, recent-insert_sample w now s rs)

  insert_sample-Perm :
      (s : TelemetrySample F) (rs : List (TelemetrySample F)) → Perm (insert_sample s rs) (s ∷ rs)
  unfolding insert_sample
  insert_sample-Perm s [] = Perm.refl (s ∷ [])
  insert_sample-Perm s (r ∷ rs) = go (ltb s.monotonic_ts r.monotonic_ts) (insert_sample-Perm s rs)
    where
      go :
          (b : Bool)
          → Perm (insert_sample s rs) (s ∷ rs)
          → Perm (if b then s ∷ r ∷ rs else r ∷ insert_sample s rs) (s ∷ r ∷ rs)
      go true h = Perm.refl (s ∷ r ∷ rs)
      go false h = Perm.trans (Perm.cons r h) (Perm.swap s r rs)

  -- A sample that goes into a window counts as recent there when it does on its own.
  pub recent-insert_sample_perm :
      (w : Duration) (now : TimePoint) (s : TelemetrySample F) (rs taken : List (TelemetrySample F))
      → Perm (recent w now rs) (recent w now taken)
      → Perm (recent w now (insert_sample s rs)) (recent w now (s ∷ taken))
  recent-insert_sample_perm w now s rs taken h =
      rw (recent-insert_sample w now s rs) (go (ltb w (now - s.monotonic_ts)))
    where
      go :
          (b : Bool)
          → Perm
              (if b then recent w now rs else insert_sample s (recent w now rs))
              (if b then recent w now taken else s ∷ recent w now taken)
      go true = h
      go false = Perm.trans (insert_sample-Perm s (recent w now rs)) (Perm.cons s h)
