-- ===== src/Core/Telemetry.antt =====
-- headers/revdash/core/telemetry_types.hpp: metrics, samples and snapshots. A value is a C++ `double`;
-- the type of values is a parameter.
pub mod Names
use rev_dash.Prelude.{ℕ, Option, none, String, Bool, true, false, List, ltb, if◌then◌else◌, get_or}
use rev_dash.Core.Types.{EcuAddress, TimePoint}

-- `manifold_pressure` is `MetricId::Map`, and `count` is `_Count`.
pub data MetricId : Type 0 where
  rpm vehicle_speed throttle_position manifold_pressure maf engine_load timing_advance : MetricId
  coolant_temp short_term_fuel_trim1 long_term_fuel_trim1 short_term_fuel_trim2 : MetricId
  long_term_fuel_trim2 ambient_air_temp fuel_level module_voltage o2_sensor1_voltage : MetricId
  o2_sensor2_voltage o2_sensor3_voltage o2_sensor4_voltage o2_sensor5_voltage : MetricId
  o2_sensor6_voltage o2_sensor7_voltage o2_sensor8_voltage : MetricId
  o2_sensor1_equivalence_ratio o2_sensor2_equivalence_ratio : MetricId
  o2_sensor3_equivalence_ratio o2_sensor4_equivalence_ratio : MetricId
  o2_sensor5_equivalence_ratio o2_sensor6_equivalence_ratio : MetricId
  o2_sensor7_equivalence_ratio o2_sensor8_equivalence_ratio o2_sensor1_current : MetricId
  o2_sensor2_current o2_sensor3_current o2_sensor4_current o2_sensor5_current : MetricId
  o2_sensor6_current o2_sensor7_current o2_sensor8_current count : MetricId

-- The number of an enumerator.
unfoldable pub metric_index : MetricId → ℕ
metric_index MetricId.rpm = 0
metric_index MetricId.vehicle_speed = 1
metric_index MetricId.throttle_position = 2
metric_index MetricId.manifold_pressure = 3
metric_index MetricId.maf = 4
metric_index MetricId.engine_load = 5
metric_index MetricId.timing_advance = 6
metric_index MetricId.coolant_temp = 7
metric_index MetricId.short_term_fuel_trim1 = 8
metric_index MetricId.long_term_fuel_trim1 = 9
metric_index MetricId.short_term_fuel_trim2 = 10
metric_index MetricId.long_term_fuel_trim2 = 11
metric_index MetricId.ambient_air_temp = 12
metric_index MetricId.fuel_level = 13
metric_index MetricId.module_voltage = 14
metric_index MetricId.o2_sensor1_voltage = 15
metric_index MetricId.o2_sensor2_voltage = 16
metric_index MetricId.o2_sensor3_voltage = 17
metric_index MetricId.o2_sensor4_voltage = 18
metric_index MetricId.o2_sensor5_voltage = 19
metric_index MetricId.o2_sensor6_voltage = 20
metric_index MetricId.o2_sensor7_voltage = 21
metric_index MetricId.o2_sensor8_voltage = 22
metric_index MetricId.o2_sensor1_equivalence_ratio = 23
metric_index MetricId.o2_sensor2_equivalence_ratio = 24
metric_index MetricId.o2_sensor3_equivalence_ratio = 25
metric_index MetricId.o2_sensor4_equivalence_ratio = 26
metric_index MetricId.o2_sensor5_equivalence_ratio = 27
metric_index MetricId.o2_sensor6_equivalence_ratio = 28
metric_index MetricId.o2_sensor7_equivalence_ratio = 29
metric_index MetricId.o2_sensor8_equivalence_ratio = 30
metric_index MetricId.o2_sensor1_current = 31
metric_index MetricId.o2_sensor2_current = 32
metric_index MetricId.o2_sensor3_current = 33
metric_index MetricId.o2_sensor4_current = 34
metric_index MetricId.o2_sensor5_current = 35
metric_index MetricId.o2_sensor6_current = 36
metric_index MetricId.o2_sensor7_current = 37
metric_index MetricId.o2_sensor8_current = 38
metric_index MetricId.count = 39

abbrev pub metric_count : ℕ
metric_count = 39

pub data SampleQuality : Type 0 where
  valid stale unsupported dropped invalid : SampleQuality

-- `TelemetrySample::isValid`, and the other test that the code makes of a quality.
abbrev pub is_valid_quality : SampleQuality → Bool
is_valid_quality SampleQuality.valid = true
is_valid_quality _ = false

abbrev pub is_unsupported_quality : SampleQuality → Bool
is_unsupported_quality SampleQuality.unsupported = true
is_unsupported_quality _ = false

module _ (F : Type 0) where
  pub record TelemetrySample : Type 0 where
    pub metric_id : MetricId
    pub value : F
    pub quality : SampleQuality
    pub monotonic_ts : TimePoint
    pub utc_ts : Option TimePoint
    pub sequence_number : ℕ
    pub ecu_address : Option EcuAddress

  pub record TelemetrySnapshot : Type 0 where
    pub snapshot_monotonic_ts : TimePoint
    pub snapshot_utc_ts : Option TimePoint
    pub epoch : ℕ
    pub samples : List (TelemetrySample)
