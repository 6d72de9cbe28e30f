-- ===== src/Core/Source.antt =====
-- headers/revdash/core/data_source.hpp: the configurations of data sources.
use text.Mathlib.Text.{◌==◌ as str_eq}
use rev_dash.Prelude.{ℕ, String, Bool, true, false, ◌&&◌, not, ◌==◌}
use rev_dash.Core.Types.{DataSourceType, Duration}
use rev_dash.Core.Float.{Float}

pub record SerialConfig : Type 0 where
  pub port_name : String
  pub baud_rate : ℕ
  pub response_timeout : Duration

abbrev pub serial_beq : SerialConfig → SerialConfig → Bool
serial_beq a b =
    str_eq a.port_name b.port_name
    && a.baud_rate == b.baud_rate
    && a.response_timeout == b.response_timeout

pub record SocketCanConfig : Type 0 where
  pub interface_name : String
  pub bitrate : ℕ

abbrev pub socket_can_beq : SocketCanConfig → SocketCanConfig → Bool
socket_can_beq a b = str_eq a.interface_name b.interface_name && a.bitrate == b.bitrate

-- `operator==` of `bool`
abbrev pub bool_beq : Bool → Bool → Bool
bool_beq true b = b
bool_beq false b = not b

module _ (F : Type 0) where
  pub record SyntheticConfig : Type 0 where
    pub deterministic_seed : ℕ
    pub displacement_liters : F
    pub cylinder_count : ℕ
    pub initial_rpm : F
    pub ambient_temp_c : F
    pub inject_misfire : Bool
    pub inject_vacuum_leak : Bool
    pub inject_thermostat_fault : Bool
    pub noise_std_dev : F
    pub packet_dropout_prob : F
    pub response_latency : Duration
    pub include_second_ecu : Bool

  pub record PlaybackConfig : Type 0 where
    pub session_file_path : String
    pub speed_multiplier : F
    pub repeats : Bool

  -- The alternatives of the variant.
  pub data DataSourceConfig : Type 0 where
    serial_config : SerialConfig → DataSourceConfig
    synthetic_config : SyntheticConfig → DataSourceConfig
    playback_config : PlaybackConfig → DataSourceConfig
    socket_can_config : SocketCanConfig → DataSourceConfig

module _ {F : Type 0} where
  -- `getDataSourceType`
  abbrev pub get_data_source_type : DataSourceConfig F → DataSourceType
  get_data_source_type (serial_config c) = DataSourceType.serial_elm327
  get_data_source_type (synthetic_config c) = DataSourceType.synthetic
  get_data_source_type (playback_config c) = DataSourceType.playback
  get_data_source_type (socket_can_config c) = DataSourceType.socket_can

abbrev pub type_beq : DataSourceType → DataSourceType → Bool
type_beq DataSourceType.serial_elm327 DataSourceType.serial_elm327 = true
type_beq DataSourceType.synthetic DataSourceType.synthetic = true
type_beq DataSourceType.playback DataSourceType.playback = true
type_beq DataSourceType.socket_can DataSourceType.socket_can = true
type_beq _ _ = false

module _ {F : Type 0} (fl : Float F) where
  abbrev pub synthetic_beq : SyntheticConfig F → SyntheticConfig F → Bool
  synthetic_beq a b =
      a.deterministic_seed == b.deterministic_seed
      && fl.eq a.displacement_liters b.displacement_liters
      && a.cylinder_count == b.cylinder_count
      && fl.eq a.initial_rpm b.initial_rpm
      && fl.eq a.ambient_temp_c b.ambient_temp_c
      && bool_beq a.inject_misfire b.inject_misfire
      && bool_beq a.inject_vacuum_leak b.inject_vacuum_leak
      && bool_beq a.inject_thermostat_fault b.inject_thermostat_fault
      && fl.eq a.noise_std_dev b.noise_std_dev
      && fl.eq a.packet_dropout_prob b.packet_dropout_prob
      && a.response_latency == b.response_latency
      && bool_beq a.include_second_ecu b.include_second_ecu

  abbrev pub playback_beq : PlaybackConfig F → PlaybackConfig F → Bool
  playback_beq a b =
      str_eq a.session_file_path b.session_file_path
      && fl.eq a.speed_multiplier b.speed_multiplier
      && bool_beq a.repeats b.repeats

  -- `operator==` of the variant
  unfoldable pub config_beq : DataSourceConfig F → DataSourceConfig F → Bool
  config_beq (serial_config a) (serial_config b) = serial_beq a b
  config_beq (synthetic_config a) (synthetic_config b) = synthetic_beq a b
  config_beq (playback_config a) (playback_config b) = playback_beq a b
  config_beq (socket_can_config a) (socket_can_config b) = socket_can_beq a b
  config_beq _ _ = false
