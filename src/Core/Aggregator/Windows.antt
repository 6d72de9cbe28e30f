-- ===== src/Core/Aggregator/Windows.antt =====
-- headers/revdash/core/metric_aggregator.hpp: the windows and the marks after calls in any order.
use rev_dash.Prelude.{
  ℕ, zero, suc, ◌≤◌, ◌<◌, ◌≡◌, refl, sym, ◌&&◌, List, [], ◌∷◌, All, arith, ◌==◌, ==_iff, Bool-cases,
  inl, inr, if◌then◌else◌, length, get_or, replicate,
}
use mathlib.Core.List.{Perm}
use mathlib.Core.List.Perm
use rev_dash.Core.Types.{TimePoint, Duration}
use rev_dash.Core.Float.{Float}
use rev_dash.Core.Telemetry.{
  MetricId, metric_index, metric_count, TelemetrySample, is_valid_quality,
}
use rev_dash.Core.Store.{length-replace_at, get_or-replace_at}
use rev_dash.Core.Aggregator.{
  MetricAggregator, Call, samples_of, insert_sample, prune, reset, reset_for_source_switch,
  reset_for_playback_seek, set_epoch, ingest, summary, statistics, call, run, aggregator,
}
use rev_dash.Core.Aggregator.Recent.{
  recent-insert_sample_perm, IsOrdered, recent, insert_sample-IsOrdered, prune-IsOrdered,
  prune-recent, recent-prune,
}

module _ {F : Type 0} where
  -- What has been taken in of the metric since the last reset, the newest arrival first.
  abbrev pub recorded :
      MetricId → ℕ → List (TelemetrySample F) → List (Call F) → List (TelemetrySample F)
  recorded id epoch taken [] = taken
  recorded id epoch taken (Call.ingests s ∷ cs) =
      let takes = metric_index s.metric_id == metric_index id && is_valid_quality s.quality in
      recorded id epoch (if takes then s ∷ taken else taken) cs
  recorded id epoch taken (Call.asks m t ∷ cs) = recorded id epoch taken cs
  recorded id epoch taken (Call.sets_epoch e ∷ cs) =
      recorded id e (if e == epoch then taken else []) cs
  recorded id epoch taken (Call.source_switches ∷ cs) = recorded id epoch [] cs
  recorded id epoch taken (Call.playback_seeks ∷ cs) = recorded id epoch [] cs

  -- The times that a call brings are not later than the given one.
  abbrev pub IsBy : TimePoint → Call F → Type 0
  IsBy now (Call.ingests s) = s.monotonic_ts ≤ now
  IsBy now (Call.asks m t) = t ≤ now
  IsBy now _ = Unit

pub get_or-replicate {ℓ} : {A : Type ℓ} (n i : ℕ) (a : A) → get_or (replicate n a) i a ≡ a
get_or-replicate zero i a = refl
get_or-replicate (suc n) zero a = refl
get_or-replicate (suc n) (suc i) a = get_or-replicate n i a

module _ {F : Type 0} (fl : Float F) (id : MetricId) (w : Duration) (now : TimePoint) where
  -- The aggregator keeps what is recent at `now` of the samples taken in.
  record Tracks (e : ℕ) (taken : List (TelemetrySample F)) (a : MetricAggregator F) : Type 0 where
    window_same : a.window ≡ w
    epoch_same : a.epoch ≡ e
    full : length a.values ≡ metric_count
    ordered : IsOrdered (samples_of id a)
    tracks : Perm (recent w now (samples_of id a)) (recent w now taken)

  reset-Tracks :
      (e : ℕ) (a : MetricAggregator F) → a.window ≡ w → a.epoch ≡ e → Tracks e [] (reset a)
  unfolding reset
  reset-Tracks e a h k = record {
    window_same = h;
    epoch_same = k;
    full = refl;
    ordered =
        rw (get_or-replicate {A = List (TelemetrySample F)} metric_count (metric_index id) []) tt;
    tracks =
        rw (get_or-replicate {A = List (TelemetrySample F)} metric_count (metric_index id) [])
          (Perm.refl []);
  }

  set_epoch-Tracks :
      (e new : ℕ) (taken : List (TelemetrySample F)) (a : MetricAggregator F)
      → Tracks e taken a
      → Tracks new (if new == e then taken else []) (set_epoch new a)
  unfolding set_epoch
  set_epoch-Tracks e new taken a h = elim (Bool-cases (new == e)) [
    | inl y ↦
        rw (h.epoch_same, y)
          (record {
            window_same = h.window_same;
            epoch_same = sym ((==_iff new e).0 y);
            full = h.full;
            ordered = h.ordered;
            tracks = h.tracks;
          })
    | inr n ↦ rw (h.epoch_same, n) (reset-Tracks new (record a { epoch = new }) h.window_same refl)
  ]

  module _ (b : metric_index id < metric_count) where
    samples_of-ingest :
        (s : TelemetrySample F) (a : MetricAggregator F)
        → length a.values ≡ metric_count
        → samples_of id (ingest s a) ≡ (
            if metric_index s.metric_id == metric_index id && is_valid_quality s.quality
            then prune a.window s.monotonic_ts (insert_sample s (samples_of id a))
            else samples_of id a)
    unfolding ingest
    samples_of-ingest s a h = ground (
      arith,
      get_or-replace_at (metric_index s.metric_id) (metric_index id)
          (prune a.window s.monotonic_ts
            (insert_sample s (get_or a.values (metric_index s.metric_id) [])))
          [] a.values,
    )

    ingest-Tracks :
        (e : ℕ) (s : TelemetrySample F) (taken : List (TelemetrySample F)) (a : MetricAggregator F)
        → s.monotonic_ts ≤ now
        → Tracks e taken a
        → Tracks e
            (if metric_index s.metric_id == metric_index id && is_valid_quality s.quality
              then s ∷ taken
              else taken)
            (ingest s a)
    unfolding ingest
    ingest-Tracks e s taken a h k = record {
      window_same = ground (arith, k.window_same);
      epoch_same = ground (arith, k.epoch_same);
      full = ground (
        arith,
        k.full,
        length-replace_at (metric_index s.metric_id)
            (prune a.window s.monotonic_ts
              (insert_sample s (get_or a.values (metric_index s.metric_id) [])))
            a.values,
      );
      ordered =
          rw (samples_of-ingest s a k.full)
            (elim (Bool-cases
              (metric_index s.metric_id == metric_index id && is_valid_quality s.quality)) [
                | inl y ↦ rw (y) (
                    prune-IsOrdered a.window s.monotonic_ts (insert_sample s (samples_of id a))
                      (insert_sample-IsOrdered s (samples_of id a) k.ordered))
                | inr n ↦ rw (n) k.ordered
              ]);
      tracks =
          rw (samples_of-ingest s a k.full)
            (elim (Bool-cases
              (metric_index s.metric_id == metric_index id && is_valid_quality s.quality)) [
                | inl y ↦
                    rw
                      (
                        y,
                        k.window_same,
                        recent-prune w s.monotonic_ts now (insert_sample s (samples_of id a)) h,
                      )
                      (recent-insert_sample_perm w now s (samples_of id a) taken k.tracks)
                | inr n ↦ rw (n) k.tracks
              ]);
    }

    samples_of-statistics :
        (m : MetricId) (t : TimePoint) (a : MetricAggregator F)
        → length a.values ≡ metric_count
        → samples_of id (statistics fl m t a).1 ≡ (
            if metric_index m == metric_index id
            then prune a.window t (samples_of id a)
            else samples_of id a)
    unfolding statistics
    samples_of-statistics m t a h = ground (
      arith,
      get_or-replace_at (metric_index m) (metric_index id) (prune a.window t (samples_of m a)) []
          a.values,
    )

    statistics-Tracks :
        (e : ℕ) (m : MetricId) (t : TimePoint) (taken : List (TelemetrySample F))
        (a : MetricAggregator F)
        → t ≤ now
        → Tracks e taken a
        → Tracks e taken (statistics fl m t a).1
    unfolding statistics
    statistics-Tracks e m t taken a h k = record {
      window_same = ground (arith, k.window_same);
      epoch_same = ground (arith, k.epoch_same);
      full = ground (
        arith,
        k.full,
        length-replace_at (metric_index m) (prune a.window t (samples_of m a)) a.values,
      );
      ordered =
          rw (samples_of-statistics m t a k.full)
            (elim (Bool-cases (metric_index m == metric_index id)) [
              | inl y ↦ rw (y) (prune-IsOrdered a.window t (samples_of id a) k.ordered)
              | inr n ↦ rw (n) k.ordered
            ]);
      tracks =
          rw (samples_of-statistics m t a k.full)
            (elim (Bool-cases (metric_index m == metric_index id)) [
              | inl y ↦ rw (y, k.window_same, recent-prune w t now (samples_of id a) h) k.tracks
              | inr n ↦ rw (n) k.tracks
            ]);
    }

    run-Tracks :
        (e : ℕ) (taken : List (TelemetrySample F)) (cs : List (Call F)) (a : MetricAggregator F)
        → All (IsBy now) cs
        → Tracks e taken a
        → (final : ℕ) × Tracks final (recorded id e taken cs) (run fl cs a)
    unfolding run call reset_for_source_switch reset_for_playback_seek
    run-Tracks e taken [] a h k = (e, k)
    run-Tracks e taken (Call.ingests s ∷ cs) a h k =
        run-Tracks e _ cs (ingest s a) h.1 (ingest-Tracks e s taken a h.0 k)
    run-Tracks e taken (Call.asks m t ∷ cs) a h k =
        run-Tracks e taken cs (statistics fl m t a).1 h.1 (statistics-Tracks e m t taken a h.0 k)
    run-Tracks e taken (Call.sets_epoch new ∷ cs) a h k =
        run-Tracks new _ cs (set_epoch new a) h.1 (set_epoch-Tracks e new taken a k)
    run-Tracks e taken (Call.source_switches ∷ cs) a h k =
        run-Tracks e [] cs (reset a) h.1 (reset-Tracks e a k.window_same k.epoch_same)
    run-Tracks e taken (Call.playback_seeks ∷ cs) a h k =
        run-Tracks e [] cs (reset a) h.1 (reset-Tracks e a k.window_same k.epoch_same)

    -- After any calls of a new aggregator that bring no time later than `now`, the statistics of a
    -- metric at `now` are those of a list in the order of times that holds, as often as they came in,
    -- just the valid samples of the metric since the last reset that are not older than the window.
    pub run-statistics :
        (cs : List (Call F))
        → All (IsBy now) cs
        → (kept : List (TelemetrySample F)) × Perm kept (recent w now (recorded id 0 [] cs))
          × IsOrdered kept
          × ((statistics fl id now (run fl cs (aggregator w))).0 ≡ summary fl kept)
    unfolding statistics aggregator reset
    run-statistics cs h =
        let final = run-Tracks 0 [] cs (aggregator w) h (reset-Tracks 0 (aggregator w) refl refl) in
        let a = run fl cs (aggregator w) in
        let same = prune-recent w now (samples_of id a) final.1.ordered in
        (
          prune w now (samples_of id a),
          rw (same) final.1.tracks,
          prune-IsOrdered w now (samples_of id a) final.1.ordered,
          ground (arith, final.1.window_same),
        )
