-- ===== src/Core/Aggregator/Marks.antt =====
-- headers/revdash/core/metric_aggregator.hpp: the quality of a metric after calls in any order.
use rev_dash.Prelude.{
  ℕ, ◌+◌, ◌-◌, ◌<◌, ◌≡◌, refl, sym, ◌∙◌, ap, Option, none, some, List, [], ◌∷◌, arith, leb, ltb,
  ◌==◌, ==_iff, Bool-cases, inl, inr, if◌then◌else◌, length,
}
use rev_dash.Core.Types.{TimePoint, Duration}
use rev_dash.Core.Float.{Float}
use rev_dash.Core.Telemetry.{
  MetricId, metric_index, metric_count, SampleQuality, TelemetrySample, is_valid_quality,
}
use rev_dash.Core.Store.{length-replace_at, get_or-replace_at}
use rev_dash.Core.Aggregator.{
  MetricAggregator, Call, last_of, reset, reset_for_source_switch, reset_for_playback_seek,
  set_epoch, ingest, statistics, quality, stale_after, call, run, aggregator,
}
use rev_dash.Core.Aggregator.Windows.{get_or-replicate}

module _ {F : Type 0} where
  -- The last sample of the metric that came in since the last reset, of whatever quality.
  abbrev pub newest :
      MetricId → ℕ → Option (TelemetrySample F) → List (Call F) → Option (TelemetrySample F)
  newest id epoch found [] = found
  newest id epoch found (Call.ingests s ∷ cs) =
      newest id epoch (if metric_index s.metric_id == metric_index id then some s else found) cs
  newest id epoch found (Call.asks m t ∷ cs) = newest id epoch found cs
  newest id epoch found (Call.sets_epoch e ∷ cs) =
      newest id e (if e == epoch then found else none) cs
  newest id epoch found (Call.source_switches ∷ cs) = newest id epoch none cs
  newest id epoch found (Call.playback_seeks ∷ cs) = newest id epoch none cs

  -- A valid sample is good until its time and the span of its metric have passed.
  abbrev pub graded : MetricId → TimePoint → Option (TelemetrySample F) → SampleQuality
  graded id now none = SampleQuality.unsupported
  graded id now (some s) =
      if is_valid_quality s.quality
      then (if leb now (s.monotonic_ts + stale_after id)
          then SampleQuality.valid
          else SampleQuality.stale)
      else s.quality

module _ {F : Type 0} (fl : Float F) (id : MetricId) (b : metric_index id < metric_count) where
  record Marks (e : ℕ) (found : Option (TelemetrySample F)) (a : MetricAggregator F) : Type 0 where
    epoch_same : a.epoch ≡ e
    full : length a.last ≡ metric_count
    mark : last_of id a ≡ found

  reset-Marks : (e : ℕ) (a : MetricAggregator F) → a.epoch ≡ e → Marks e none (reset a)
  unfolding reset
  reset-Marks e a h = record {
    epoch_same = h;
    full = refl;
    mark = get_or-replicate metric_count (metric_index id) none;
  }

  set_epoch-Marks :
      (e new : ℕ) (found : Option (TelemetrySample F)) (a : MetricAggregator F)
      → Marks e found a
      → Marks new (if new == e then found else none) (set_epoch new a)
  unfolding set_epoch
  set_epoch-Marks e new found a h = elim (Bool-cases (new == e)) [
    | inl y ↦
        rw (h.epoch_same, y)
          (record { epoch_same = sym ((==_iff new e).0 y); full = h.full; mark = h.mark })
    | inr n ↦ rw (h.epoch_same, n) (reset-Marks new (record a { epoch = new }) refl)
  ]

  ingest-Marks :
      (e : ℕ) (s : TelemetrySample F) (found : Option (TelemetrySample F)) (a : MetricAggregator F)
      → Marks e found a
      → Marks e (if metric_index s.metric_id == metric_index id then some s else found) (ingest s a)
  unfolding ingest
  ingest-Marks e s found a h = record {
    epoch_same = ground (arith, h.epoch_same);
    full = ground (
      arith,
      h.full,
      length-replace_at {A = Option (TelemetrySample F)} (metric_index s.metric_id) (some s) a.last,
    );
    mark = ground (
      arith,
      h.mark,
      h.full,
      get_or-replace_at {A = Option (TelemetrySample F)} (metric_index s.metric_id)
          (metric_index id) (some s) none a.last,
    );
  }

  statistics-Marks :
      (e : ℕ) (m : MetricId) (t : TimePoint) (found : Option (TelemetrySample F))
      (a : MetricAggregator F)
      → Marks e found a
      → Marks e found (statistics fl m t a).1
  unfolding statistics
  statistics-Marks e m t found a h = record {
    epoch_same = ground (arith, h.epoch_same);
    full = ground (arith, h.full);
    mark = ground (arith, h.mark);
  }

  run-Marks :
      (e : ℕ) (found : Option (TelemetrySample F)) (cs : List (Call F)) (a : MetricAggregator F)
      → Marks e found a
      → last_of id (run fl cs a) ≡ newest id e found cs
  unfolding run call reset_for_source_switch reset_for_playback_seek
  run-Marks e found [] a h = h.mark
  run-Marks e found (Call.ingests s ∷ cs) a h =
      run-Marks e _ cs (ingest s a) (ingest-Marks e s found a h)
  run-Marks e found (Call.asks m t ∷ cs) a h =
      run-Marks e found cs (statistics fl m t a).1 (statistics-Marks e m t found a h)
  run-Marks e found (Call.sets_epoch new ∷ cs) a h =
      run-Marks new _ cs (set_epoch new a) (set_epoch-Marks e new found a h)
  run-Marks e found (Call.source_switches ∷ cs) a h =
      run-Marks e none cs (reset a) (reset-Marks e a h.epoch_same)
  run-Marks e found (Call.playback_seeks ∷ cs) a h =
      run-Marks e none cs (reset a) (reset-Marks e a h.epoch_same)

  quality-graded :
      (now : TimePoint) (a : MetricAggregator F) → quality id now a ≡ graded id now (last_of id a)
  unfolding quality
  quality-graded now a = go (last_of id a)
    where
      go :
          (o : Option (TelemetrySample F))
          → (if leb metric_count (metric_index id) then SampleQuality.unsupported else elim o [
            | none ↦ SampleQuality.unsupported
            | some s ↦
                if is_valid_quality s.quality
                then (if ltb (stale_after id) (now - s.monotonic_ts)
                    then SampleQuality.stale
                    else SampleQuality.valid)
                else s.quality
          ])
            ≡ graded id now o
      go none = ground arith
      go (some s) = ground arith

  -- After any calls of a new aggregator the quality of a metric at any time is that of the newest
  -- sample of it since the last reset: its own quality when that is not valid, else valid up to
  -- the time of the sample plus the span of the metric, and stale after it; without a sample the
  -- metric is unsupported.
  pub run-quality :
      (w : Duration) (now : TimePoint) (cs : List (Call F))
      → quality id now (run fl cs (aggregator w)) ≡ graded id now (newest id 0 none cs)
  unfolding aggregator reset
  run-quality w now cs =
      quality-graded now (run fl cs (aggregator w))
      ∙ ap (graded id now) (run-Marks 0 none cs (aggregator w) (reset-Marks 0 (aggregator w) refl))
