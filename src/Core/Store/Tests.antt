-- ===== src/Core/Store/Tests.antt =====
-- A store that takes samples.
use rev_dash.Prelude.{ℕ, ◌≡◌, refl, none, [], ◌∷◌, List, arith}
use rev_dash.Core.Telemetry.{
  MetricId, metric_index, SampleQuality, TelemetrySample, TelemetrySnapshot,
}
use rev_dash.Core.Store.{get, update_all, latest, set_epoch, get-update_all}

abbrev sample : MetricId → ℕ → TelemetrySample ℕ
sample id value = record {
  metric_id = id;
  value = value;
  quality = SampleQuality.valid;
  monotonic_ts = value;
  utc_ts = none;
  sequence_number = 0;
  ecu_address = none;
}

abbrev empty : TelemetrySnapshot ℕ
unfolding set_epoch
empty = set_epoch (sample MetricId.rpm 0) 0 none 1

abbrev came : List (TelemetrySample ℕ)
came = sample MetricId.rpm 900 ∷ sample MetricId.vehicle_speed 50 ∷ sample MetricId.rpm 950 ∷ []

get-update_all_example :
    get (sample MetricId.rpm 0) MetricId.rpm (update_all came empty)
    ≡ latest MetricId.rpm (get (sample MetricId.rpm 0) MetricId.rpm empty) came
unfolding metric_index set_epoch
get-update_all_example =
    get-update_all (sample MetricId.rpm 0) MetricId.rpm came empty (omega arith) refl
