-- ===== src/Engine/Finish.antt =====
-- engine_service.cpp: how the requests of a diagnostic operation are counted, and how it ends.
use rev_dash.Prelude.{
  ◌+◌, Bool, true, false, not, ◌&&◌, Option, none, some, List, [], ◌∷◌, ◌++◌, ◌==◌, if◌then◌else◌,
}
use rev_dash.Core.Error.{Error, Result, ok, err, protocol_malformed_response}
use rev_dash.Core.Types.{TimePoint, ObdRequest, obd_request}
use rev_dash.Core.Diagnostics.{DtcRecord}
use rev_dash.Core.Diagnostics.Records.{DiagnosticSnapshot, Mode04AuditRecord}
use rev_dash.Protocol.Diagnostics.Dtc.{deduplicate_dtcs}
use rev_dash.Engine.State.{
  EngineEventType, Kind, World, Evaluator, DiagnosticOperation, Effect, EngineState, Outcome,
  diagnostic_error,
}
use rev_dash.Engine.Operation.{
  belongs, is_some, unless_error, is_clearing, rescanned, count_request, answered_positively, tell,
  describe_by, publish, enqueue,
}

module _ {F V : Type 0} where
  unfoldable pub finish_audit :
      World
      → Option Error
      → DiagnosticOperation F
      → Option (Mode04AuditRecord F)
      → EngineState F V
      → Outcome F V
  finish_audit w error op none s = ([], s)
  finish_audit w error op (some a) s =
      let audit = record a { completed_at = w.now; completed_utc = w.utc; error = error } in
      (
        publish EngineEventType.mode04_audit_updated error s
            ++ tell Effect.answers_clear op.clear_completion (unless_error error audit),
        record s {
          mode04_audits = s.mode04_audits ++ audit ∷ [];
          operation = none;
          clear_settle_at = none;
        },
      )

  -- `finishClear`, of the operation `op` that is under way
  unfoldable pub finish_clear :
      World → Option Error → DiagnosticOperation F → EngineState F V → Outcome F V
  unfolding finish_audit
  finish_clear w error op s = finish_audit w error op op.audit (record s { operation = some op })

  -- The end of `finishScan`, by the kind of the operation.
  unfoldable pub deliver_scan :
      World → Kind → DiagnosticOperation F → DiagnosticSnapshot F → EngineState F V → Outcome F V
  unfolding finish_clear
  deliver_scan w Kind.post_clear_scan op snapshot s =
      finish_clear w op.error (record op { audit = rescanned snapshot.dtcs op.audit }) s
  deliver_scan w _ op snapshot s = (
    tell Effect.answers_scan op.scan_completion (unless_error op.error snapshot),
    record s { operation = none },
  )

  -- `cancelDiagnosticOperation`
  unfoldable pub cancel :
      World → Error → Option (DiagnosticOperation F) → EngineState F V → Outcome F V
  unfolding finish_clear
  cancel w error none s = ([], s)
  cancel w error (some op) s =
      if is_clearing op.kind && is_some op.audit then finish_clear w (some error) op s else (
        tell Effect.answers_scan op.scan_completion (err error)
            ++ tell Effect.answers_identify op.identification_completion (err error),
        record s { operation = none },
      )

  abbrev pub cancel_operation : World → Error → EngineState F V → Outcome F V
  cancel_operation w error s = cancel w error s.operation s

  -- `finishIdentification`
  unfoldable pub finish_identification : DiagnosticOperation F → EngineState F V → Outcome F V
  finish_identification op s =
      let after = record s {
        ecu_metadata = op.metadata;
        diagnostic_snapshot = record s.diagnostic_snapshot { ecu_metadata = op.metadata };
        operation = none;
      } in
      (
        publish EngineEventType.diagnostic_data_updated op.error after
            ++ tell Effect.answers_identify op.identification_completion
                (elim op.metadata [ [] ↦ unless_error op.error [] | m ∷ ms ↦ ok (m ∷ ms) ]),
        after,
      )

  -- The last request of a clear is done.
  unfoldable pub clear_requested :
      World → TimePoint → Option Error → DiagnosticOperation F → EngineState F V → Outcome F V
  unfolding finish_clear
  clear_requested w delay (some e) op s = finish_clear w (some e) op s
  clear_requested w delay none op s =
      if not op.positive_clear_response
      then finish_clear w
          (some (
            diagnostic_error protocol_malformed_response
              "Mode 04 completed without a positive ECU response"))
          op s
      else (
        [],
        record s {
          operation = some (record op { audit = answered_positively op.audit });
          clear_settle_at = some (w.now + delay);
        },
      )

module _ {F V : Type 0} (ev : Evaluator F V) where
  -- `finishScan`, from the described records and the error on
  unfoldable pub finish_described :
      World
      → DiagnosticOperation F
      → List (DtcRecord F) × Option Error
      → EngineState F V
      → Outcome F V
  unfolding deliver_scan
  finish_described w op (records, error) s =
      let snapshot : DiagnosticSnapshot F = record {
        dtcs = records;
        ecu_metadata = s.ecu_metadata;
        findings = ev.findings s.evaluator;
        captured_at = w.now;
        engine_epoch = s.epoch;
      } in
      let told = publish EngineEventType.diagnostic_data_updated error s in
      let rest =
        deliver_scan w op.kind (record op { error = error }) snapshot
          (record s { diagnostic_snapshot = snapshot }) in
      (told ++ rest.0, rest.1)

  -- `finishScan`
  unfoldable pub finish_scan : World → DiagnosticOperation F → EngineState F V → Outcome F V
  unfolding finish_described describe_by
  finish_scan w op s =
      finish_described w op (describe_by s.dtc_database (deduplicate_dtcs op.dtcs) op.error) s

  -- The last request of a scan is done: the freeze frame of the first code is asked for, once.
  unfoldable pub scan_requested :
      World → Bool → List (DtcRecord F) → DiagnosticOperation F → EngineState F V → Outcome F V
  unfolding finish_scan enqueue
  scan_requested w false (d ∷ ds) op s = (
    [],
    enqueue (obd_request 0x02 0x0c ∷ []) (record s {
      operation = some (record op {
        freeze_frame_requested = true;
        freeze_frame_dtc = some d.code;
        outstanding_requests = 1;
      });
    }),
  )
  scan_requested w _ _ op s = finish_scan w op s

  unfoldable pub requested :
      World → TimePoint → Kind → DiagnosticOperation F → EngineState F V → Outcome F V
  unfolding clear_requested scan_requested finish_identification
  requested w delay Kind.clear op s = clear_requested w delay op.error op s
  requested w delay Kind.identify op s = finish_identification op s
  requested w delay _ op s = scan_requested w op.freeze_frame_requested op.dtcs op s

  -- `finishDiagnosticRequest`; `delay` is `post_clear_settling_delay_`
  unfoldable pub finish_request :
      World
      → TimePoint
      → ObdRequest
      → Result (Unit {0})
      → Option (DiagnosticOperation F)
      → EngineState F V
      → Outcome F V
  unfolding belongs count_request requested
  finish_request w delay request result none s = ([], s)
  finish_request w delay request result (some op) s =
      if not (op.epoch == s.epoch && belongs op.kind request.mode)
      then ([], s)
      else if not ((count_request result op).outstanding_requests == 0)
      then ([], record s { operation = some (count_request result op) })
      else requested w delay op.kind (count_request result op) s
