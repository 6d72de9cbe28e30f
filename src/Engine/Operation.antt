-- ===== src/Engine/Operation.antt =====
-- engine_service.cpp: diagnostic operations, and how the two kinds that read begin.
use rev_dash.Prelude.{
  ℕ, ◌-◌, Bool, true, false, not, ◌&&◌, ◌||◌, Option, none, some, List, [], ◌∷◌, ◌==◌,
  if◌then◌else◌,
}
use rev_dash.Core.Error.{Error, Result, ok, err, diagnostics_operation_in_progress}
use rev_dash.Core.Types.{ObdRequest, obd_request}
use rev_dash.Core.Diagnostics.{Text, DtcRecord}
use rev_dash.Core.Diagnostics.Records.{DtcDefinition, Mode04AuditRecord}
use rev_dash.Core.AsyncSource.{is_ready}
use rev_dash.Drivers.Scheduler.{enqueue_diagnostic}
use rev_dash.Engine.State.{
  Completion, EngineEventType, Kind, World, DiagnosticOperation, Effect, EngineState, Outcome,
  invalid_state, diagnostic_error,
}

-- The modes of the requests that an operation waits for.
unfoldable pub belongs : Kind → ℕ → Bool
belongs Kind.scan mode = mode == 0x02 || mode == 0x03 || mode == 0x07
belongs Kind.post_clear_scan mode = mode == 0x02 || mode == 0x03 || mode == 0x07
belongs Kind.identify mode = mode == 0x09
belongs Kind.clear mode = mode == 0x04

abbrev pub is_some {ℓ} : {A : Type ℓ} → Option A → Bool
is_some none = false
is_some (some a) = true

-- `if (!error) error = e`
abbrev pub first_error : Option Error → Error → Option Error
first_error none e = some e
first_error (some old) e = some old

abbrev pub error_of {ℓ} : {A : Type ℓ} → Result A → Option Error → Option Error
error_of (ok a) old = old
error_of (err e) old = first_error old e

-- A result, unless there is an error.
abbrev pub unless_error {ℓ} : {A : Type ℓ} → Option Error → A → Result A
unless_error none a = ok a
unless_error (some e) a = err e

abbrev pub is_clearing : Kind → Bool
is_clearing Kind.clear = true
is_clearing Kind.post_clear_scan = true
is_clearing _ = false

module _ {F : Type 0} where
  -- A fresh operation.
  abbrev pub operation_of : Kind → ℕ → ℕ → DiagnosticOperation F
  operation_of kind epoch outstanding = record {
    kind = kind;
    epoch = epoch;
    outstanding_requests = outstanding;
    dtcs = [];
    metadata = [];
    freeze_frame_dtc = none;
    freeze_frame_requested = false;
    positive_clear_response = false;
    error = none;
    scan_completion = none;
    identification_completion = none;
    clear_completion = none;
    audit = none;
  }

  abbrev pub tell {ℓ} : {A : Type ℓ} → (ℕ → A → Effect F) → Completion → A → List (Effect F)
  tell answer none a = []
  tell answer (some t) a = answer t a ∷ []

  -- The loop of `finishScan` over the records; the error is that of the operation.
  unfoldable pub describe :
      (Text → Result DtcDefinition)
      → List (DtcRecord F)
      → Option Error
      → List (DtcRecord F) × Option Error
  describe lookup [] error = ([], error)
  describe lookup (r ∷ rs) error =
      let rest = describe lookup rs in
      elim (lookup r.code) [
        | err e ↦ (r ∷ (rest (first_error error e)).0, (rest (first_error error e)).1)
        | ok d ↦ (
          record r {
            description = d.description;
            severity = d.severity;
            likely_failure_points = d.likely_failure_points;
          }
              ∷ (rest error).0,
          (rest error).1,
        )
      ]

  unfoldable pub describe_by :
      Option (Text → Result DtcDefinition)
      → List (DtcRecord F)
      → Option Error
      → List (DtcRecord F) × Option Error
  unfolding describe
  describe_by none records error = (records, error)
  describe_by (some lookup) records error = describe lookup records error

  -- The audit record after a scan that follows a clear.
  abbrev pub rescanned :
      List (DtcRecord F) → Option (Mode04AuditRecord F) → Option (Mode04AuditRecord F)
  rescanned dtcs none = none
  rescanned dtcs (some a) =
      some (record a { post_clear_dtcs = dtcs; post_clear_rescan_completed = true })

  -- A request of the operation is done: its error, the audit of a clear, and the count.
  abbrev pub transmitted :
      Kind → Result (Unit {0}) → Option (Mode04AuditRecord F) → Option (Mode04AuditRecord F)
  transmitted Kind.clear (ok _) (some a) = some (record a { request_transmitted = true })
  transmitted _ _ audit = audit

  unfoldable pub count_request : Result (Unit {0}) → DiagnosticOperation F → DiagnosticOperation F
  count_request result op = record op {
    error = error_of result op.error;
    audit = transmitted op.kind result op.audit;
    outstanding_requests = op.outstanding_requests - 1;
  }

  abbrev pub answered_positively : Option (Mode04AuditRecord F) → Option (Mode04AuditRecord F)
  answered_positively none = none
  answered_positively (some a) = some (record a { positive_response = true })

module _ {F V : Type 0} where
  abbrev pub publish : EngineEventType → Option Error → EngineState F V → List (Effect F)
  publish type error s =
      Effect.publishes (record {
        type = type;
        connection_state = s.connection_state;
        epoch = s.epoch;
        error = error;
      })
      ∷ []

  -- `scheduler_.enqueueDiagnostic`, of requests with a mode and a PID
  unfoldable pub enqueue : List ObdRequest → EngineState F V → EngineState F V
  unfolding enqueue_diagnostic
  enqueue [] s = s
  enqueue (r ∷ rs) s = enqueue rs (record s { scheduler = enqueue_diagnostic r s.scheduler })

  -- `beginScan` for a caller
  unfoldable pub begin_scan : World → Completion → EngineState F V → Outcome F V
  unfolding enqueue
  begin_scan w completion s =
      let cleared = record s { clear_token = none } in
      if is_some s.operation
      then (
        tell Effect.answers_scan completion (
            err (
              diagnostic_error diagnostics_operation_in_progress
                "Another diagnostic operation is active")),
        cleared,
      )
      else if not (is_some s.source && is_ready w.source_state)
      then (
        tell Effect.answers_scan completion
            (err (invalid_state "A diagnostic scan requires a ready data source")),
        cleared,
      )
      else (
        [],
        enqueue (obd_request 0x03 0 ∷ obd_request 0x07 0 ∷ []) (record cleared {
          operation =
              some (record (operation_of Kind.scan s.epoch 2) { scan_completion = completion });
        }),
      )

  -- `identify`
  unfoldable pub identify : World → Completion → EngineState F V → Outcome F V
  unfolding enqueue
  identify w completion s =
      let cleared = record s { clear_token = none } in
      if is_some s.operation
      then (
        tell Effect.answers_identify completion (
            err (
              diagnostic_error diagnostics_operation_in_progress
                "Another diagnostic operation is active")),
        cleared,
      )
      else if not (is_some s.source && is_ready w.source_state)
      then (
        tell Effect.answers_identify completion
            (err (invalid_state "Identification requires a ready data source")),
        cleared,
      )
      else (
        [],
        enqueue (obd_request 0x09 2 ∷ obd_request 0x09 4 ∷ obd_request 0x09 6 ∷ [])
            (record cleared {
              operation = some (record (operation_of Kind.identify s.epoch 3) {
                identification_completion = completion;
              });
            }),
      )
