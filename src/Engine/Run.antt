-- ===== src/Engine/Run.antt =====
-- engine_service.cpp: the turns of the worker, and everything that it takes: commands, completions of
-- the source's operations, packets and changes of the source's state. Which comes next is up to the
-- environment, so a run is any list of calls, each with the `World` that it reads.
use rev_dash.Prelude.{
  ℕ, Bool, true, false, not, ◌&&◌, Option, none, some, List, [], ◌∷◌, ◌++◌, leb, ◌==◌,
  if◌then◌else◌, String,
}
use rev_dash.Prelude.Text.{◌<>◌}
use rev_dash.Core.Error.{Error, Result, ok, err, fail, diagnostics_unsupported}
use rev_dash.Core.Types.{
  TimePoint, ConnectionState, DataSourceType, ObdRequest, ObdMessage, obd_request,
}
use rev_dash.Core.Float.{Float}
use rev_dash.Core.Diagnostics.{Text}
use rev_dash.Core.Diagnostics.Records.{DtcDefinition}
use rev_dash.Core.Source.{DataSourceConfig}
use rev_dash.Core.AsyncSource.{is_ready}
use rev_dash.Drivers.Scheduler.{AdaptivePidScheduler, next, complete, set_supported_pids}
use rev_dash.Engine.State.{
  Completion, EngineEventType, Kind, World, Evaluator, DiagnosticOperation, Effect, EngineState,
  Outcome, ◌▸◌,
}
use rev_dash.Engine.Operation.{is_some, tell, publish, enqueue, begin_scan, identify}
use rev_dash.Engine.Finish.{finish_request}
use rev_dash.Engine.Messages.{is_clear, process_packet}
use rev_dash.Engine.Clear.{prepare_clear, confirm_clear}
use rev_dash.Engine.Link.{
  attempt_reconnect, reconnected, handle_source_state, connect, connected, disconnect, disconnected,
  set_source, replace_source, reset_simulation,
}

abbrev pub is_error : Result (Unit {0}) → Bool
is_error (ok _) = false
is_error (err e) = true

-- The time point has come.
abbrev pub is_due : Option TimePoint → TimePoint → Bool
is_due none now = false
is_due (some at) now = leb at now

module _ {F V : Type 0} where
  abbrev pub notice_error : Result (Unit {0}) → EngineState F V → List (Effect F)
  notice_error (ok _) s = []
  notice_error (err e) s = publish EngineEventType.error_event (some e) s

  -- `completeUnsupported`
  unfoldable pub complete_unsupported : Completion → String → EngineState F V → Outcome F V
  complete_unsupported completion operation s = (
    tell Effect.answers completion (
        fail diagnostics_unsupported
          (operation <> " is not available until its dedicated service stage")),
    s,
  )

  unfoldable pub dispatch_request :
      Option ObdRequest × AdaptivePidScheduler → EngineState F V → Outcome F V
  dispatch_request (none, scheduler) s = ([], record s { scheduler = scheduler })
  dispatch_request (some request, scheduler) s =
      (Effect.asks_transmit s.epoch request ∷ [], record s { scheduler = scheduler })

  -- `dispatchScheduler`
  unfoldable pub dispatch_scheduler : World → EngineState F V → Outcome F V
  unfolding dispatch_request next
  dispatch_scheduler w s =
      if is_some s.source && is_ready w.source_state
      then dispatch_request (next w.steady s.scheduler) s
      else ([], s)

  -- A clear goes over to the scan that follows it.
  unfoldable pub rescan : Option (DiagnosticOperation F) → EngineState F V → EngineState F V
  unfolding enqueue
  rescan none s = s
  rescan (some op) s =
      if is_clear op.kind
      then enqueue (obd_request 0x03 0 ∷ obd_request 0x07 0 ∷ []) (record s {
        operation =
            some (record op { kind = Kind.post_clear_scan; outstanding_requests = 2; dtcs = [] });
      })
      else s

  -- The branch of `run` on `clear_settle_at_`.
  unfoldable pub settle : World → EngineState F V → EngineState F V
  unfolding rescan
  settle w s =
      let settled = rescan s.operation (record s { clear_settle_at = none }) in
      if is_due s.clear_settle_at w.now then settled else s

  unfoldable pub retry : World → EngineState F V → Outcome F V
  unfolding attempt_reconnect
  retry w s = if is_due s.reconnect_at w.steady then attempt_reconnect s else ([], s)

  -- The body of the loop of `run`, after commands and packets.
  unfoldable pub turn : World → EngineState F V → Outcome F V
  unfolding dispatch_scheduler settle retry
  turn w s = dispatch_scheduler w s ▸ (λ t. ([], settle w t)) ▸ retry w

module _ (F : Type 0) where
  -- What the worker takes.
  pub data Call : Type 0 where
    sets_source : Option DataSourceType → Completion → Call
    source_replaced : Option DataSourceType → Completion → Call
    connects : DataSourceConfig F → Completion → Call
    connect_done : Completion → Result (Unit {0}) → Call
    disconnects : Completion → Call
    disconnect_done : Completion → Result (Unit {0}) → Call
    scans : Completion → Call
    identifies : Completion → Call
    prepares : Text → Completion → Call
    confirms : Text → Completion → Call
    unsupported : String → Completion → Call
    resets_simulation : Completion → Call
    sets_supported_pids : List ℕ → Call
    sets_dtc_database : Option (Text → Result DtcDefinition) → Call
    source_state : ConnectionState → Option Error → Call
    reconnect_done : Result (Unit {0}) → Call
    transmit_done : ℕ → ObdRequest → ℕ → Result (Unit {0}) → Call
    packet : ℕ → ObdMessage → Call
    turns : Call

module _ {F V : Type 0} (fl : Float F) (ev : Evaluator F V) (delay : TimePoint) where
  -- The completion of a request of `dispatchScheduler`; the packets of the queue come before it.
  unfoldable pub complete_transmit :
      World → ℕ → ObdRequest → ℕ → Result (Unit {0}) → EngineState F V → Outcome F V
  unfolding finish_request complete
  complete_transmit w epoch request round_trip result s =
      let after = record s { scheduler = complete round_trip (is_error result) s.scheduler } in
      let told = notice_error result after in
      let rest = finish_request ev w delay request result after.operation after in
      if not (epoch == s.epoch) then ([], s) else (told ++ rest.0, rest.1)

  unfoldable pub step : World → Call F → EngineState F V → Outcome F V
  step w (Call.sets_source source completion) s = set_source fl ev w source completion s
  step w (Call.source_replaced source completion) s = replace_source fl ev w source completion s
  step w (Call.connects config completion) s = connect config completion s.source s
  step w (Call.connect_done completion result) s = connected completion result s
  step w (Call.disconnects completion) s = disconnect w completion s
  step w (Call.disconnect_done completion result) s = disconnected completion result s
  step w (Call.scans completion) s = begin_scan w completion s
  step w (Call.identifies completion) s = identify w completion s
  step w (Call.prepares token completion) s = prepare_clear fl ev w token completion s
  step w (Call.confirms token completion) s = confirm_clear fl w token completion s
  step w (Call.unsupported operation completion) s = complete_unsupported completion operation s
  step w (Call.resets_simulation completion) s = reset_simulation fl ev w completion s.source s
  step w (Call.sets_supported_pids pids) s =
      ([], record s { scheduler = set_supported_pids pids s.scheduler })
  step w (Call.sets_dtc_database database) s = ([], record s { dtc_database = database })
  step w (Call.source_state state error) s = handle_source_state w state error s
  step w (Call.reconnect_done result) s = ([], reconnected w result s)
  step w (Call.transmit_done epoch request round_trip result) s =
      complete_transmit w epoch request round_trip result s
  step w (Call.packet epoch message) s = process_packet fl ev epoch message s
  step w Call.turns s = turn w s

  unfoldable pub run : List (World × Call F) → EngineState F V → Outcome F V
  unfolding step
  run [] s = ([], s)
  run ((w, c) ∷ cs) s =
      let (told, after) = step w c s in let (more, last) = run cs after in (told ++ more, last)
