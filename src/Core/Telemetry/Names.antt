-- ===== src/Core/Telemetry/Names.antt =====
-- The texts of telemetry_types.hpp: `toString(MetricId)`, `getCanonicalUnit`, `toString(SampleQuality)`.
use rev_dash.Prelude.{String}
use rev_dash.Core.Telemetry.{MetricId, SampleQuality}

unfoldable pub metric_to_string : MetricId → String
metric_to_string MetricId.rpm = "RPM"
metric_to_string MetricId.vehicle_speed = "VehicleSpeed"
metric_to_string MetricId.throttle_position = "ThrottlePosition"
metric_to_string MetricId.manifold_pressure = "MAP"
metric_to_string MetricId.maf = "MAF"
metric_to_string MetricId.engine_load = "EngineLoad"
metric_to_string MetricId.timing_advance = "TimingAdvance"
metric_to_string MetricId.coolant_temp = "CoolantTemp"
metric_to_string MetricId.short_term_fuel_trim1 = "STFT1"
metric_to_string MetricId.long_term_fuel_trim1 = "LTFT1"
metric_to_string MetricId.short_term_fuel_trim2 = "STFT2"
metric_to_string MetricId.long_term_fuel_trim2 = "LTFT2"
metric_to_string MetricId.ambient_air_temp = "AmbientAirTemp"
metric_to_string MetricId.fuel_level = "FuelLevel"
metric_to_string MetricId.module_voltage = "ModuleVoltage"
metric_to_string MetricId.o2_sensor1_voltage = "O2Sensor1Voltage"
metric_to_string MetricId.o2_sensor2_voltage = "O2Sensor2Voltage"
metric_to_string MetricId.o2_sensor3_voltage = "O2Sensor3Voltage"
metric_to_string MetricId.o2_sensor4_voltage = "O2Sensor4Voltage"
metric_to_string MetricId.o2_sensor5_voltage = "O2Sensor5Voltage"
metric_to_string MetricId.o2_sensor6_voltage = "O2Sensor6Voltage"
metric_to_string MetricId.o2_sensor7_voltage = "O2Sensor7Voltage"
metric_to_string MetricId.o2_sensor8_voltage = "O2Sensor8Voltage"
metric_to_string MetricId.o2_sensor1_equivalence_ratio = "O2Sensor1EquivalenceRatio"
metric_to_string MetricId.o2_sensor2_equivalence_ratio = "O2Sensor2EquivalenceRatio"
metric_to_string MetricId.o2_sensor3_equivalence_ratio = "O2Sensor3EquivalenceRatio"
metric_to_string MetricId.o2_sensor4_equivalence_ratio = "O2Sensor4EquivalenceRatio"
metric_to_string MetricId.o2_sensor5_equivalence_ratio = "O2Sensor5EquivalenceRatio"
metric_to_string MetricId.o2_sensor6_equivalence_ratio = "O2Sensor6EquivalenceRatio"
metric_to_string MetricId.o2_sensor7_equivalence_ratio = "O2Sensor7EquivalenceRatio"
metric_to_string MetricId.o2_sensor8_equivalence_ratio = "O2Sensor8EquivalenceRatio"
metric_to_string MetricId.o2_sensor1_current = "O2Sensor1Current"
metric_to_string MetricId.o2_sensor2_current = "O2Sensor2Current"
metric_to_string MetricId.o2_sensor3_current = "O2Sensor3Current"
metric_to_string MetricId.o2_sensor4_current = "O2Sensor4Current"
metric_to_string MetricId.o2_sensor5_current = "O2Sensor5Current"
metric_to_string MetricId.o2_sensor6_current = "O2Sensor6Current"
metric_to_string MetricId.o2_sensor7_current = "O2Sensor7Current"
metric_to_string MetricId.o2_sensor8_current = "O2Sensor8Current"
metric_to_string MetricId.count = "Unknown"

-- `getCanonicalUnit`
unfoldable pub get_canonical_unit : MetricId → String
get_canonical_unit MetricId.rpm = "rpm"
get_canonical_unit MetricId.vehicle_speed = "km/h"
get_canonical_unit MetricId.throttle_position = "%"
get_canonical_unit MetricId.manifold_pressure = "kPa"
get_canonical_unit MetricId.maf = "g/s"
get_canonical_unit MetricId.engine_load = "%"
get_canonical_unit MetricId.timing_advance = "deg"
get_canonical_unit MetricId.coolant_temp = "degC"
get_canonical_unit MetricId.short_term_fuel_trim1 = "%"
get_canonical_unit MetricId.long_term_fuel_trim1 = "%"
get_canonical_unit MetricId.short_term_fuel_trim2 = "%"
get_canonical_unit MetricId.long_term_fuel_trim2 = "%"
get_canonical_unit MetricId.ambient_air_temp = "degC"
get_canonical_unit MetricId.fuel_level = "%"
get_canonical_unit MetricId.module_voltage = "V"
get_canonical_unit MetricId.o2_sensor1_voltage = "V"
get_canonical_unit MetricId.o2_sensor2_voltage = "V"
get_canonical_unit MetricId.o2_sensor3_voltage = "V"
get_canonical_unit MetricId.o2_sensor4_voltage = "V"
get_canonical_unit MetricId.o2_sensor5_voltage = "V"
get_canonical_unit MetricId.o2_sensor6_voltage = "V"
get_canonical_unit MetricId.o2_sensor7_voltage = "V"
get_canonical_unit MetricId.o2_sensor8_voltage = "V"
get_canonical_unit MetricId.o2_sensor1_equivalence_ratio = "ratio"
get_canonical_unit MetricId.o2_sensor2_equivalence_ratio = "ratio"
get_canonical_unit MetricId.o2_sensor3_equivalence_ratio = "ratio"
get_canonical_unit MetricId.o2_sensor4_equivalence_ratio = "ratio"
get_canonical_unit MetricId.o2_sensor5_equivalence_ratio = "ratio"
get_canonical_unit MetricId.o2_sensor6_equivalence_ratio = "ratio"
get_canonical_unit MetricId.o2_sensor7_equivalence_ratio = "ratio"
get_canonical_unit MetricId.o2_sensor8_equivalence_ratio = "ratio"
get_canonical_unit MetricId.o2_sensor1_current = "A"
get_canonical_unit MetricId.o2_sensor2_current = "A"
get_canonical_unit MetricId.o2_sensor3_current = "A"
get_canonical_unit MetricId.o2_sensor4_current = "A"
get_canonical_unit MetricId.o2_sensor5_current = "A"
get_canonical_unit MetricId.o2_sensor6_current = "A"
get_canonical_unit MetricId.o2_sensor7_current = "A"
get_canonical_unit MetricId.o2_sensor8_current = "A"
get_canonical_unit MetricId.count = ""

unfoldable pub quality_to_string : SampleQuality → String
quality_to_string SampleQuality.valid = "Valid"
quality_to_string SampleQuality.stale = "Stale"
quality_to_string SampleQuality.unsupported = "Unsupported"
quality_to_string SampleQuality.dropped = "Dropped"
quality_to_string SampleQuality.invalid = "Invalid"
