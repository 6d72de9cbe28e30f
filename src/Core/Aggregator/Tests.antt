-- ===== src/Core/Aggregator/Tests.antt =====
-- An aggregator that takes samples, some of them late, and a change of epoch.
use rev_dash.Prelude.{
  some, false, ℕ, ◌≡◌, none, List, [], ◌∷◌, arith, ◌+◌, ◌-◌, ◌*◌, ◌/◌, ◌^◌, ◌==◌, ltb, true,
}
use mathlib.Core.List.{Perm}
use rev_dash.Core.Float.{Float}
use rev_dash.Core.Telemetry.{MetricId, metric_index, SampleQuality, TelemetrySample}
use rev_dash.Core.Aggregator.{MetricStatistics, Call, quality, aggregator, run, statistics, summary}
use rev_dash.Core.Aggregator.Recent.{IsOrdered, recent}
use rev_dash.Core.Aggregator.Windows.{recorded, run-statistics}
use rev_dash.Core.Aggregator.Summary.{Describes, values_of, summary-Describes}
use rev_dash.Core.Aggregator.Marks.{newest, graded, run-quality}

abbrev whole : Float ℕ
whole = record {
  of_nat = λ n. n;
  literal = λ m digits. m / 10 ^ digits;
  neg = λ x. 0 - x;
  add = ◌+◌;
  sub = ◌-◌;
  mul = ◌*◌;
  div = ◌/◌;
  lt = ltb;
  eq = ◌==◌;
  is_finite = λ x. true;
}

abbrev sample : MetricId → SampleQuality → ℕ → ℕ → TelemetrySample ℕ
sample id quality time value = record {
  metric_id = id;
  value = value;
  quality = quality;
  monotonic_ts = time;
  utc_ts = none;
  sequence_number = 0;
  ecu_address = none;
}

abbrev calls : List (Call ℕ)
calls =
    Call.ingests (sample MetricId.rpm SampleQuality.valid 1 700)
    ∷ Call.sets_epoch 2
    ∷ Call.ingests (sample MetricId.rpm SampleQuality.valid 5 800)
    ∷ Call.ingests (sample MetricId.rpm SampleQuality.valid 20 950)
    ∷ Call.ingests (sample MetricId.maf SampleQuality.valid 22 12)
    ∷ Call.ingests (sample MetricId.rpm SampleQuality.valid 18 900)
    ∷ Call.asks MetricId.rpm 25
    ∷ Call.ingests (sample MetricId.rpm SampleQuality.invalid 26 1)
    ∷ []

run-statistics_example :
    (kept : List (TelemetrySample ℕ)) × Perm kept (recent 10 27 (recorded MetricId.rpm 0 [] calls))
    × IsOrdered kept
    × ((statistics whole MetricId.rpm 27 (run whole calls (aggregator 10))).0 ≡ summary whole kept)
unfolding metric_index
run-statistics_example = run-statistics whole MetricId.rpm 10 27 (omega arith) calls (
  omega arith,
  (
    tt,
    (omega arith, (omega arith, (omega arith, (omega arith, (omega arith, (omega arith, tt)))))),
  ),
)

run-quality_example :
    quality MetricId.rpm 27 (run whole calls (aggregator 10))
    ≡ graded MetricId.rpm 27 (newest MetricId.rpm 0 none calls)
unfolding metric_index
run-quality_example = run-quality whole MetricId.rpm (omega arith) 10 27 calls

below_asym : (x y : ℕ) → ltb x y ≡ true → ltb y x ≡ false
below_asym x y h = ground (arith, h)

below_trans : (x y z : ℕ) → ltb y x ≡ false → ltb z y ≡ false → ltb z x ≡ false
below_trans x y z h k = ground (arith, h, k)

abbrev early : TelemetrySample ℕ
early = sample MetricId.rpm SampleQuality.valid 5 800

abbrev late : List (TelemetrySample ℕ)
late =
    sample MetricId.rpm SampleQuality.valid 20 950
    ∷ sample MetricId.rpm SampleQuality.valid 21 700
    ∷ []

summary-Describes_example :
    (st : MetricStatistics ℕ) × (summary whole (early ∷ late) ≡ some st)
    × Describes whole (values_of (early ∷ late)) st
summary-Describes_example = summary-Describes whole below_asym below_trans early late
