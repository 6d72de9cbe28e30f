-- ===== src/Core/Diagnostics/Records.antt =====
-- headers/revdash/core/diagnostic_types.hpp: findings, snapshots and what a clear leaves on record; and
-- the definition of a code that headers/revdash/diagnostics/dtc_database.hpp gives.
use rev_dash.Prelude.{ℕ, Bool, Option, String, List}
use rev_dash.Core.Error.{Error}
use rev_dash.Core.Types.{TimePoint, DataSourceType}
use rev_dash.Core.Diagnostics.{Text, Severity, DtcRecord, EcuMetadata}

pub record DiagnosticFinding : Type 0 where
  pub rule_id : String
  pub rule_version : String
  pub severity : Severity
  pub title : String
  pub description : String
  pub evidence : List String
  pub first_detected : TimePoint
  pub last_seen : TimePoint
  pub last_evaluated : TimePoint
  pub resolved_at : Option TimePoint
  pub active : Bool

-- `kClearDiagnosticWarning`
abbrev pub clear_diagnostic_warning : String
clear_diagnostic_warning =
    "Clearing emissions-related diagnostic information may erase freeze-frame data and reset readiness-related state."

pub record DtcDefinition : Type 0 where
  pub code : Text
  pub description : Text
  pub severity : Severity
  pub likely_failure_points : List Text
  pub source_version : Text
  pub known : Bool

module _ (F : Type 0) where
  pub record DiagnosticSnapshot : Type 0 where
    pub dtcs : List (DtcRecord F)
    pub ecu_metadata : List EcuMetadata
    pub findings : List DiagnosticFinding
    pub captured_at : TimePoint
    pub engine_epoch : ℕ

  pub record ClearDtcPreparation : Type 0 where
    pub confirmation_token : Text
    pub expires_at : TimePoint
    pub snapshot : DiagnosticSnapshot
    pub vehicle_identity : Option Text
    pub warning : String

  pub record Mode04AuditRecord : Type 0 where
    pub prepared_at : TimePoint
    pub completed_at : TimePoint
    pub completed_utc : Option TimePoint
    pub source_type : DataSourceType
    pub engine_epoch : ℕ
    pub vehicle_identity : Option Text
    pub warning : String
    pub preparation_snapshot : DiagnosticSnapshot
    pub post_clear_dtcs : List (DtcRecord F)
    pub request_transmitted : Bool
    pub positive_response : Bool
    pub post_clear_rescan_completed : Bool
    pub error : Option Error
