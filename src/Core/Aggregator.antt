-- ===== src/Core/Aggregator.antt =====
-- headers/revdash/core/metric_aggregator.hpp: the rolling window of each metric and its statistics.
-- Times are unsigned, so a sample that is later than the time asked about has the age zero.
-- `std::upper_bound` is a walk to the first later sample, `std::sort` an insertion sort by `<`.
pub mod Recent
pub mod Windows
pub mod Marks
pub mod Summary
mod Tests
use rev_dash.Prelude.{
  ℕ, ◌-◌, ◌*◌, ◌/◌, ◌%◌, Bool, true, Option, none, some, List, [], ◌∷◌, map, leb, ltb, ◌==◌,
  if◌then◌else◌, length, get_or, replicate,
}
use rev_dash.Core.Types.{TimePoint, Duration, milliseconds}
use rev_dash.Core.Float.{Float}
use rev_dash.Core.Telemetry.{
  MetricId, metric_index, metric_count, SampleQuality, TelemetrySample, is_valid_quality,
}
use rev_dash.Core.Store.{replace_at}

-- `std::chrono::seconds` in the ticks of a time point.
abbrev pub seconds : ℕ → Duration
seconds n = milliseconds (n * 1000)

abbrev pub stale_after : MetricId → Duration
stale_after MetricId.rpm = seconds 1
stale_after MetricId.vehicle_speed = seconds 1
stale_after MetricId.throttle_position = seconds 1
stale_after MetricId.manifold_pressure = seconds 1
stale_after MetricId.fuel_level = seconds 5
stale_after MetricId.ambient_air_temp = seconds 5
stale_after MetricId.module_voltage = seconds 5
stale_after _ = seconds 2

module _ (F : Type 0) where
  pub record MetricStatistics : Type 0 where
    pub minimum : F
    pub maximum : F
    pub mean : F
    pub median : F
    pub count : ℕ

  pub record MetricAggregator : Type 0 where
    pub window : Duration
    pub values : List (List (TelemetrySample F))
    pub last : List (Option (TelemetrySample F))
    pub epoch : ℕ

  -- A call of one of the operations that change the aggregator; `asks` is `statistics`.
  pub data Call : Type 0 where
    ingests : TelemetrySample F → Call
    asks : MetricId → TimePoint → Call
    sets_epoch : ℕ → Call
    source_switches playback_seeks : Call

module _ {F : Type 0} where
  -- The samples of a metric that are kept.
  abbrev pub samples_of : MetricId → MetricAggregator F → List (TelemetrySample F)
  samples_of id agg = get_or agg.values (metric_index id) []

  abbrev pub last_of : MetricId → MetricAggregator F → Option (TelemetrySample F)
  last_of id agg = get_or agg.last (metric_index id) none

  unfoldable pub insert_sample :
      TelemetrySample F → List (TelemetrySample F) → List (TelemetrySample F)
  insert_sample s [] = s ∷ []
  insert_sample s (r ∷ rs) =
      let rest = insert_sample s rs in
      if ltb s.monotonic_ts r.monotonic_ts then s ∷ r ∷ rs else r ∷ rest

  unfoldable pub prune : Duration → TimePoint → List (TelemetrySample F) → List (TelemetrySample F)
  prune window now [] = []
  prune window now (s ∷ ss) =
      let rest = prune window now ss in if ltb window (now - s.monotonic_ts) then rest else s ∷ ss

  unfoldable pub reset : MetricAggregator F → MetricAggregator F
  reset agg = record agg { values = replicate metric_count []; last = replicate metric_count none }

  unfoldable pub reset_for_source_switch : MetricAggregator F → MetricAggregator F
  reset_for_source_switch agg = reset agg

  unfoldable pub reset_for_playback_seek : MetricAggregator F → MetricAggregator F
  reset_for_playback_seek agg = reset agg

  unfoldable pub set_epoch : ℕ → MetricAggregator F → MetricAggregator F
  set_epoch epoch agg = if epoch == agg.epoch then agg else reset (record agg { epoch = epoch })

  unfoldable pub ingest : TelemetrySample F → MetricAggregator F → MetricAggregator F
  ingest sample agg =
      let index = metric_index sample.metric_id in
      let noted = record agg { last = replace_at index (some sample) agg.last } in
      let kept =
        prune agg.window sample.monotonic_ts (insert_sample sample (get_or agg.values index [])) in
      if leb metric_count index
      then agg
      else if is_valid_quality sample.quality
      then record noted { values = replace_at index kept agg.values }
      else noted

  unfoldable pub quality : MetricId → TimePoint → MetricAggregator F → SampleQuality
  quality id now agg =
      if leb metric_count (metric_index id)
      then SampleQuality.unsupported
      else elim (last_of id agg) [
        | none ↦ SampleQuality.unsupported
        | some sample ↦
            if is_valid_quality sample.quality
            then (if ltb (stale_after id) (now - sample.monotonic_ts)
                then SampleQuality.stale
                else SampleQuality.valid)
            else sample.quality
      ]

  module _ (fl : Float F) where
    unfoldable pub insert_value : F → List F → List F
    insert_value x [] = x ∷ []
    insert_value x (y ∷ ys) =
        let rest = insert_value x ys in if fl.lt x y then x ∷ y ∷ ys else y ∷ rest

    unfoldable pub sort_values : List F → List F → List F
    unfolding insert_value
    sort_values [] sorted = sorted
    sort_values (x ∷ xs) sorted = sort_values xs (insert_value x sorted)

    unfoldable pub sum_values : List F → F → F
    sum_values [] sum = sum
    sum_values (x ∷ xs) sum = sum_values xs (fl.add sum x)

    -- The statistics of the samples that are left, none when there are none.
    unfoldable pub summary : List (TelemetrySample F) → Option (MetricStatistics F)
    unfolding insert_value sort_values sum_values
    summary [] = none
    summary (s ∷ ss) =
        let taken = map (λ r. r.value) (s ∷ ss) in
        let values = sort_values taken [] in
        let zero_value = fl.literal 0 0 in
        let n = length values in
        let middle = n / 2 in
        some (record {
          minimum = get_or values 0 zero_value;
          maximum = get_or values (n - 1) zero_value;
          mean = fl.div (sum_values taken zero_value) (fl.of_nat n);
          median =
              if n % 2 == 0
              then fl.div
                  (fl.add (get_or values (middle - 1) zero_value) (get_or values middle zero_value))
                  (fl.literal 2 0)
              else get_or values middle zero_value;
          count = n;
        })

    -- The answer, and the aggregator with the samples that were too old dropped.
    unfoldable pub statistics :
        MetricId → TimePoint → MetricAggregator F → Option (MetricStatistics F) × MetricAggregator F
    unfolding summary prune
    statistics id now agg =
        let kept = prune agg.window now (samples_of id agg) in
        if leb metric_count (metric_index id)
        then (none, agg)
        else (summary kept, record agg { values = replace_at (metric_index id) kept agg.values })

    unfoldable pub call : Call F → MetricAggregator F → MetricAggregator F
    unfolding ingest statistics set_epoch reset_for_source_switch reset_for_playback_seek
    call (Call.ingests sample) agg = ingest sample agg
    call (Call.asks id now) agg = (statistics id now agg).1
    call (Call.sets_epoch epoch) agg = set_epoch epoch agg
    call Call.source_switches agg = reset_for_source_switch agg
    call Call.playback_seeks agg = reset_for_playback_seek agg

    unfoldable pub run : List (Call F) → MetricAggregator F → MetricAggregator F
    unfolding call
    run [] agg = agg
    run (c ∷ cs) agg = run cs (call c agg)

-- `MetricAggregator::MetricAggregator`
unfoldable pub aggregator : {F : Type 0} → Duration → MetricAggregator F
aggregator window = record {
  window = window;
  values = replicate metric_count [];
  last = replicate metric_count none;
  epoch = 0;
}
