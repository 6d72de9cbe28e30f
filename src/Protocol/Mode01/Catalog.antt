-- ===== src/Protocol/Mode01/Catalog.antt =====
-- mode01.cpp: the decoders of the data bytes and the catalogue `kCatalog`.
use rev_dash.Prelude.{ℕ, ◌+◌, ◌*◌, String, Option, none, some, List, [], ◌∷◌, get_or}
use rev_dash.Core.Error.{Result, ok}
use rev_dash.Core.Types.{ObdMessage, Duration, milliseconds}
use rev_dash.Core.Telemetry.{MetricId, SampleQuality, TelemetrySample}
use rev_dash.Core.Float.{Float}

pub data Mode01SchedulerPriority : Type 0 where
  fast normal slow discovery : Mode01SchedulerPriority

abbrev pub o2_voltage_metrics : List MetricId
o2_voltage_metrics =
    MetricId.o2_sensor1_voltage ∷ MetricId.o2_sensor2_voltage ∷ MetricId.o2_sensor3_voltage
    ∷ MetricId.o2_sensor4_voltage ∷ MetricId.o2_sensor5_voltage ∷ MetricId.o2_sensor6_voltage
    ∷ MetricId.o2_sensor7_voltage ∷ MetricId.o2_sensor8_voltage ∷ []

abbrev pub o2_ratio_metrics : List MetricId
o2_ratio_metrics =
    MetricId.o2_sensor1_equivalence_ratio ∷ MetricId.o2_sensor2_equivalence_ratio
    ∷ MetricId.o2_sensor3_equivalence_ratio ∷ MetricId.o2_sensor4_equivalence_ratio
    ∷ MetricId.o2_sensor5_equivalence_ratio ∷ MetricId.o2_sensor6_equivalence_ratio
    ∷ MetricId.o2_sensor7_equivalence_ratio ∷ MetricId.o2_sensor8_equivalence_ratio ∷ []

abbrev pub o2_current_metrics : List MetricId
o2_current_metrics =
    MetricId.o2_sensor1_current ∷ MetricId.o2_sensor2_current ∷ MetricId.o2_sensor3_current
    ∷ MetricId.o2_sensor4_current ∷ MetricId.o2_sensor5_current ∷ MetricId.o2_sensor6_current
    ∷ MetricId.o2_sensor7_current ∷ MetricId.o2_sensor8_current ∷ []

-- `(static_cast<std::uint16_t>(data[i]) << 8) | data[i + 1]` of two bytes, which share no bit.
abbrev pub word_at : List ℕ → ℕ → ℕ
word_at bytes i = get_or bytes i 0 * 256 + get_or bytes (i + 1) 0

module _ {F : Type 0} (fl : Float F) where
  abbrev pub Mode01Decoder : Type 0
  Mode01Decoder = List ℕ → ObdMessage → Result (List (TelemetrySample F))

  -- A sample with the time and the origin of its message.
  unfoldable pub sample_of : MetricId → F → ObdMessage → TelemetrySample F
  sample_of metric value message = record {
    metric_id = metric;
    value = value;
    quality = SampleQuality.valid;
    monotonic_ts = message.monotonic_ts;
    utc_ts = message.utc_ts;
    sequence_number = message.sequence_number;
    ecu_address = message.ecu_address;
  }

  unfoldable pub single : MetricId → F → ObdMessage → Result (List (TelemetrySample F))
  single metric value message = ok (sample_of metric value message ∷ [])

  -- `data[i]` as a double. The callers have checked the length.
  byte_at : List ℕ → ℕ → F
  byte_at bytes i = fl.of_nat (get_or bytes i 0)

  word : List ℕ → ℕ → F
  word bytes i = fl.of_nat (word_at bytes i)

  -- `data[0] * 100.0 / 255.0`
  percent : List ℕ → F
  percent bytes = fl.div (fl.mul (byte_at bytes 0) (fl.literal 1000 1)) (fl.literal 2550 1)

  decode_rpm : Mode01Decoder
  decode_rpm bytes message = single MetricId.rpm (fl.div (word bytes 0) (fl.literal 40 1)) message

  decode_speed : Mode01Decoder
  decode_speed bytes message = single MetricId.vehicle_speed (byte_at bytes 0) message

  decode_coolant : Mode01Decoder
  decode_coolant bytes message =
      single MetricId.coolant_temp (fl.sub (byte_at bytes 0) (fl.literal 400 1)) message

  decode_load : Mode01Decoder
  decode_load bytes message = single MetricId.engine_load (percent bytes) message

  decode_throttle : Mode01Decoder
  decode_throttle bytes message = single MetricId.throttle_position (percent bytes) message

  -- `decodeStft1` to `decodeLtft2` are this at their metric.
  decode_fuel_trim : MetricId → Mode01Decoder
  decode_fuel_trim metric bytes message =
      single metric
        (fl.div (fl.mul (fl.sub (byte_at bytes 0) (fl.literal 1280 1)) (fl.literal 1000 1))
          (fl.literal 1280 1))
        message

  decode_map : Mode01Decoder
  decode_map bytes message = single MetricId.manifold_pressure (byte_at bytes 0) message

  decode_maf : Mode01Decoder
  decode_maf bytes message = single MetricId.maf (fl.div (word bytes 0) (fl.literal 1000 1)) message

  decode_timing : Mode01Decoder
  decode_timing bytes message =
      single MetricId.timing_advance
        (fl.sub (fl.div (byte_at bytes 0) (fl.literal 20 1)) (fl.literal 640 1)) message

  decode_ambient : Mode01Decoder
  decode_ambient bytes message =
      single MetricId.ambient_air_temp (fl.sub (byte_at bytes 0) (fl.literal 400 1)) message

  decode_fuel_level : Mode01Decoder
  decode_fuel_level bytes message = single MetricId.fuel_level (percent bytes) message

  decode_voltage : Mode01Decoder
  decode_voltage bytes message =
      single MetricId.module_voltage (fl.div (word bytes 0) (fl.literal 10000 1)) message

  decode_narrowband_o2 : ℕ → Mode01Decoder
  decode_narrowband_o2 index bytes message =
      single (get_or o2_voltage_metrics index MetricId.count)
        (fl.mul (byte_at bytes 0) (fl.literal 5 3)) message

  decode_wideband_o2 : ℕ → Mode01Decoder
  decode_wideband_o2 index bytes message = ok (
      sample_of (get_or o2_ratio_metrics index MetricId.count)
        (fl.div (fl.mul (word bytes 0) (fl.literal 20 1)) (fl.literal 655350 1)) message
      ∷ sample_of (get_or o2_current_metrics index MetricId.count)
          (fl.sub (fl.div (word bytes 2) (fl.literal 2560 1)) (fl.literal 1280 1)) message
      ∷ [])

  -- `decoder` is `none` where the source has a null pointer.
  pub record Mode01PidDescriptor : Type 0 where
    pub pid : ℕ
    pub expected_data_length : ℕ
    pub canonical_unit : String
    pub priority : Mode01SchedulerPriority
    pub decoder : Option Mode01Decoder
    pub minimum_value : F
    pub maximum_value : F
    pub stale_after : Duration

  entry :
      ℕ
      → ℕ
      → String
      → Mode01SchedulerPriority
      → Option Mode01Decoder
      → F
      → F
      → Duration
      → Mode01PidDescriptor
  entry pid size unit priority decoder low high stale = record {
    pid = pid;
    expected_data_length = size;
    canonical_unit = unit;
    priority = priority;
    decoder = decoder;
    minimum_value = low;
    maximum_value = high;
    stale_after = stale;
  }

  fast_stale : Duration
  fast_stale = milliseconds 1000

  normal_stale : Duration
  normal_stale = milliseconds 2000

  slow_stale : Duration
  slow_stale = milliseconds 5000

  discovery_stale : Duration
  discovery_stale = milliseconds 60000

  -- `kCatalog`
  unfoldable pub catalog : List Mode01PidDescriptor
  unfolding entry byte_at word percent fast_stale normal_stale slow_stale discovery_stale decode_rpm
      decode_speed decode_coolant decode_load decode_throttle decode_fuel_trim decode_map
      decode_timing decode_ambient decode_fuel_level decode_voltage decode_narrowband_o2
      decode_wideband_o2
  catalog =
      entry 0x00 4 "bitmap" Mode01SchedulerPriority.discovery none (fl.literal 00 1)
        (fl.literal 00 1) discovery_stale
      ∷ entry 0x04 1 "%" Mode01SchedulerPriority.normal (some decode_load) (fl.literal 00 1)
          (fl.literal 1000 1) normal_stale
      ∷ entry 0x05 1 "degC" Mode01SchedulerPriority.normal (some decode_coolant)
          (fl.neg (fl.literal 400 1)) (fl.literal 2150 1) normal_stale
      ∷ entry 0x06 1 "%" Mode01SchedulerPriority.normal
          (some (decode_fuel_trim MetricId.short_term_fuel_trim1)) (fl.neg (fl.literal 1000 1))
          (fl.literal 1000 1) normal_stale
      ∷ entry 0x07 1 "%" Mode01SchedulerPriority.normal
          (some (decode_fuel_trim MetricId.long_term_fuel_trim1)) (fl.neg (fl.literal 1000 1))
          (fl.literal 1000 1) normal_stale
      ∷ entry 0x08 1 "%" Mode01SchedulerPriority.normal
          (some (decode_fuel_trim MetricId.short_term_fuel_trim2)) (fl.neg (fl.literal 1000 1))
          (fl.literal 1000 1) normal_stale
      ∷ entry 0x09 1 "%" Mode01SchedulerPriority.normal
          (some (decode_fuel_trim MetricId.long_term_fuel_trim2)) (fl.neg (fl.literal 1000 1))
          (fl.literal 1000 1) normal_stale
      ∷ entry 0x0B 1 "kPa" Mode01SchedulerPriority.fast (some decode_map) (fl.literal 00 1)
          (fl.literal 2550 1) fast_stale
      ∷ entry 0x0C 2 "rpm" Mode01SchedulerPriority.fast (some decode_rpm) (fl.literal 00 1)
          (fl.literal 1638375 2) fast_stale
      ∷ entry 0x0D 1 "km/h" Mode01SchedulerPriority.fast (some decode_speed) (fl.literal 00 1)
          (fl.literal 2550 1) fast_stale
      ∷ entry 0x0E 1 "deg" Mode01SchedulerPriority.normal (some decode_timing)
          (fl.neg (fl.literal 640 1)) (fl.literal 635 1) normal_stale
      ∷ entry 0x11 1 "%" Mode01SchedulerPriority.fast (some decode_throttle) (fl.literal 00 1)
          (fl.literal 1000 1) fast_stale
      ∷ entry 0x14 2 "V" Mode01SchedulerPriority.normal (some (decode_narrowband_o2 0))
          (fl.literal 00 1) (fl.literal 1275 3) normal_stale
      ∷ entry 0x15 2 "V" Mode01SchedulerPriority.normal (some (decode_narrowband_o2 1))
          (fl.literal 00 1) (fl.literal 1275 3) normal_stale
      ∷ entry 0x16 2 "V" Mode01SchedulerPriority.normal (some (decode_narrowband_o2 2))
          (fl.literal 00 1) (fl.literal 1275 3) normal_stale
      ∷ entry 0x17 2 "V" Mode01SchedulerPriority.normal (some (decode_narrowband_o2 3))
          (fl.literal 00 1) (fl.literal 1275 3) normal_stale
      ∷ entry 0x18 2 "V" Mode01SchedulerPriority.normal (some (decode_narrowband_o2 4))
          (fl.literal 00 1) (fl.literal 1275 3) normal_stale
      ∷ entry 0x19 2 "V" Mode01SchedulerPriority.normal (some (decode_narrowband_o2 5))
          (fl.literal 00 1) (fl.literal 1275 3) normal_stale
      ∷ entry 0x1A 2 "V" Mode01SchedulerPriority.normal (some (decode_narrowband_o2 6))
          (fl.literal 00 1) (fl.literal 1275 3) normal_stale
      ∷ entry 0x1B 2 "V" Mode01SchedulerPriority.normal (some (decode_narrowband_o2 7))
          (fl.literal 00 1) (fl.literal 1275 3) normal_stale
      ∷ entry 0x20 4 "bitmap" Mode01SchedulerPriority.discovery none (fl.literal 00 1)
          (fl.literal 00 1) discovery_stale
      ∷ entry 0x24 4 "ratio/A" Mode01SchedulerPriority.normal (some (decode_wideband_o2 0))
          (fl.literal 00 1) (fl.literal 20 1) normal_stale
      ∷ entry 0x25 4 "ratio/A" Mode01SchedulerPriority.normal (some (decode_wideband_o2 1))
          (fl.literal 00 1) (fl.literal 20 1) normal_stale
      ∷ entry 0x26 4 "ratio/A" Mode01SchedulerPriority.normal (some (decode_wideband_o2 2))
          (fl.literal 00 1) (fl.literal 20 1) normal_stale
      ∷ entry 0x27 4 "ratio/A" Mode01SchedulerPriority.normal (some (decode_wideband_o2 3))
          (fl.literal 00 1) (fl.literal 20 1) normal_stale
      ∷ entry 0x28 4 "ratio/A" Mode01SchedulerPriority.normal (some (decode_wideband_o2 4))
          (fl.literal 00 1) (fl.literal 20 1) normal_stale
      ∷ entry 0x29 4 "ratio/A" Mode01SchedulerPriority.normal (some (decode_wideband_o2 5))
          (fl.literal 00 1) (fl.literal 20 1) normal_stale
      ∷ entry 0x2A 4 "ratio/A" Mode01SchedulerPriority.normal (some (decode_wideband_o2 6))
          (fl.literal 00 1) (fl.literal 20 1) normal_stale
      ∷ entry 0x2B 4 "ratio/A" Mode01SchedulerPriority.normal (some (decode_wideband_o2 7))
          (fl.literal 00 1) (fl.literal 20 1) normal_stale
      ∷ entry 0x2F 1 "%" Mode01SchedulerPriority.slow (some decode_fuel_level) (fl.literal 00 1)
          (fl.literal 1000 1) slow_stale
      ∷ entry 0x42 2 "V" Mode01SchedulerPriority.slow (some decode_voltage) (fl.literal 00 1)
          (fl.literal 65535 3) slow_stale
      ∷ entry 0x46 1 "degC" Mode01SchedulerPriority.slow (some decode_ambient)
          (fl.neg (fl.literal 400 1)) (fl.literal 2150 1) slow_stale
      ∷ []
