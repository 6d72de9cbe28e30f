-- ===== src/Engine/State.antt =====
-- engine_service.hpp and engine_service.cpp: the state of the engine worker, and what leaves it.
-- A completion is named by a number, `none` is an empty one. The rule evaluator is an interface with a
-- state of its own; of the source, the engine keeps its type, and reads its state through the `World`.
-- The counters are without their wrap, and the metric aggregator, which only takes samples, is left out.
use rev_dash.Prelude.{ℕ, Bool, Option, List, ◌++◌, String, false}
use rev_dash.Core.Error.{Error, Result, ErrorCode, make_error, core_invalid_state}
use rev_dash.Core.Types.{TimePoint, ConnectionState, DataSourceType, ObdRequest, ObdMessage}
use rev_dash.Core.Telemetry.{TelemetrySample, TelemetrySnapshot}
use rev_dash.Core.Diagnostics.{Text, DtcRecord, EcuMetadata}
use rev_dash.Core.Diagnostics.Records.{
  DiagnosticFinding, DtcDefinition, DiagnosticSnapshot, ClearDtcPreparation, Mode04AuditRecord,
}
use rev_dash.Core.Source.{DataSourceConfig}
use rev_dash.Drivers.Scheduler.{AdaptivePidScheduler}

abbrev pub Completion : Type 0
Completion = Option ℕ

pub data EngineEventType : Type 0 where
  connection_state_changed telemetry_updated diagnostic_findings_updated : EngineEventType
  diagnostic_data_updated mode04_audit_updated error_event : EngineEventType

pub record EngineEvent : Type 0 where
  pub type : EngineEventType
  pub connection_state : ConnectionState
  pub epoch : ℕ
  pub error : Option Error

-- `DiagnosticOperation::Kind`
pub data Kind : Type 0 where
  scan identify clear post_clear_scan : Kind

-- What a command reads: `clock_`, `MonotonicClock::now()` and the state that the source is in.
pub record World : Type 0 where
  pub now : TimePoint
  pub steady : TimePoint
  pub utc : Option TimePoint
  pub source_state : ConnectionState

-- The rule evaluator, as far as the engine calls it.
pub record Evaluator (F V : Type 0) : Type 0 where
  pub findings : V → List DiagnosticFinding
  pub set_epoch : ℕ → V → V
  pub ingest : TelemetrySample F → V → V
  pub evaluate : TimePoint → V → Bool × V

module _ (F : Type 0) where
  pub record DiagnosticOperation : Type 0 where
    pub kind : Kind
    pub epoch : ℕ
    pub outstanding_requests : ℕ
    pub dtcs : List (DtcRecord F)
    pub metadata : List EcuMetadata
    pub freeze_frame_dtc : Option Text
    pub freeze_frame_requested : Bool
    pub positive_clear_response : Bool
    pub error : Option Error
    pub scan_completion : Completion
    pub identification_completion : Completion
    pub clear_completion : Completion
    pub audit : Option (Mode04AuditRecord F)

  pub record ClearTokenState : Type 0 where
    pub preparation : ClearDtcPreparation F
    pub prepared_at : TimePoint
    pub source_type : DataSourceType
    pub source_config : DataSourceConfig F

  -- What leaves the worker: events, calls of completions, calls of the source, and messages for the
  -- recorder.
  pub data Effect : Type 0 where
    publishes : EngineEvent → Effect
    answers : ℕ → Result (Unit {0}) → Effect
    answers_scan : ℕ → Result (DiagnosticSnapshot F) → Effect
    answers_identify : ℕ → Result (List EcuMetadata) → Effect
    answers_prepare : ℕ → Result (ClearDtcPreparation F) → Effect
    answers_clear : ℕ → Result (Mode04AuditRecord F) → Effect
    asks_connect : DataSourceConfig F → Completion → Effect
    asks_disconnect : Completion → Effect
    asks_replace : Option DataSourceType → Completion → Effect
    asks_reconnect : Effect
    asks_transmit : ℕ → ObdRequest → Effect
    binds : ℕ → Effect
    records : ℕ → ObdMessage → Effect

  -- `EngineService`
  pub record EngineState (V : Type 0) : Type 0 where
    pub source : Option DataSourceType
    pub scheduler : AdaptivePidScheduler
    pub telemetry : TelemetrySnapshot F
    pub evaluator : V
    pub epoch : ℕ
    pub connection_state : ConnectionState
    pub active_config : Option (DataSourceConfig F)
    pub reconnect_at : Option TimePoint
    pub reconnect_attempt : ℕ
    pub reconnect_count : ℕ
    pub reconnecting : Bool
    pub operation : Option DiagnosticOperation
    pub clear_token : Option ClearTokenState
    pub clear_settle_at : Option TimePoint
    pub dtc_database : Option (Text → Result DtcDefinition)
    pub diagnostic_snapshot : DiagnosticSnapshot F
    pub ecu_metadata : List EcuMetadata
    pub mode04_audits : List (Mode04AuditRecord F)
    pub recent_diagnostic_lines : List Text
    pub playback_rebuilding : Bool

  abbrev pub Outcome : Type 0 → Type 0
  Outcome V = List Effect × EngineState V

-- One thing after another.
infixl 4 ◌▸◌
abbrev pub ◌▸◌ : {F V : Type 0} → Outcome F V → (EngineState F V → Outcome F V) → Outcome F V
out ▸ f = (out.0 ++ (f out.1).0, (f out.1).1)

-- `invalidState`
abbrev pub invalid_state : String → Error
invalid_state message = make_error core_invalid_state message false ""

-- `diagnosticError`
abbrev pub diagnostic_error : ErrorCode → String → Error
diagnostic_error code message = make_error code message false ""

abbrev pub cancelled : String → Error
cancelled message = make_error ErrorCode.core_cancelled message false ""
