-- ===== src/Engine/Link.antt =====
-- engine_service.cpp: the source of the engine: its replacement, its connection and its reconnection,
-- and the change of epoch.
use rev_dash.Prelude.{
  ℕ, suc, ◌+◌, Bool, true, false, not, ◌&&◌, ◌||◌, Option, none, some, List, [], ◌∷◌, ◌++◌, leb,
  if◌then◌else◌, get_or,
}
use rev_dash.Core.Error.{Error, Result, ok, err, success}
use rev_dash.Core.Types.{milliseconds, ConnectionState, DataSourceType}
use rev_dash.Core.Float.{Float}
use rev_dash.Core.Telemetry.{MetricId, TelemetrySample, SampleQuality}
use rev_dash.Core.Store.{set_epoch}
use rev_dash.Core.Source.{DataSourceConfig, get_data_source_type, type_beq}
use rev_dash.Core.AsyncSource.{is_ready, is_disconnected}
use rev_dash.Drivers.Scheduler.{reset}
use rev_dash.Engine.State.{
  Completion, EngineEventType, World, Evaluator, Effect, EngineState, Outcome, invalid_state,
  cancelled, ◌▸◌,
}
use rev_dash.Engine.Operation.{is_some, tell, publish}
use rev_dash.Engine.Finish.{cancel, cancel_operation}

-- `kReconnectDelays`
abbrev pub reconnect_delays : List ℕ
reconnect_delays = 500 ∷ 1000 ∷ 2000 ∷ 5000 ∷ 5000 ∷ []

abbrev pub is_faulted : ConnectionState → Bool
is_faulted ConnectionState.faulted = true
is_faulted _ = false

abbrev pub retryable_of : Option Error → Bool
retryable_of none = false
retryable_of (some e) = e.retryable

abbrev pub value_or : Option Error → Error → Error
value_or none e = e
value_or (some given) e = given

abbrev pub disconnected_state : Result (Unit {0}) → ConnectionState
disconnected_state (ok _) = ConnectionState.disconnected
disconnected_state (err e) = ConnectionState.faulted

-- The sample that the store is filled with.
abbrev pub blank_sample : {F : Type 0} → Float F → World → TelemetrySample F
blank_sample fl w = record {
  metric_id = MetricId.rpm;
  value = fl.of_nat 0;
  quality = SampleQuality.unsupported;
  monotonic_ts = w.steady;
  utc_ts = w.utc;
  sequence_number = 0;
  ecu_address = none;
}

module _ {F V : Type 0} where
  -- `scheduleReconnect`
  unfoldable pub schedule_reconnect : World → EngineState F V → EngineState F V
  schedule_reconnect w s = if leb 5 s.reconnect_attempt then s else record s {
    reconnect_at = some (w.steady + milliseconds (get_or reconnect_delays s.reconnect_attempt 0));
    reconnect_attempt = suc s.reconnect_attempt;
    reconnect_count = suc s.reconnect_count;
    reconnecting = true;
  }

  -- `attemptReconnect`
  unfoldable pub attempt_reconnect : EngineState F V → Outcome F V
  attempt_reconnect s = (
    (if is_some s.source && is_some s.active_config then Effect.asks_reconnect ∷ [] else []),
    record s { reconnect_at = none },
  )

  -- The completion of that reconnect.
  unfoldable pub reconnected : World → Result (Unit {0}) → EngineState F V → EngineState F V
  unfolding schedule_reconnect
  reconnected w (ok _) s = record s { reconnect_attempt = 0; reconnecting = false }
  reconnected w (err e) s = schedule_reconnect w s

  -- The last lines of `handleSourceState`.
  unfoldable pub note_state : World → ConnectionState → Option Error → EngineState F V → Outcome F V
  unfolding schedule_reconnect
  note_state w state error s =
      let noted = record s { connection_state = state } in
      let waiting = schedule_reconnect w noted in
      (
        publish EngineEventType.connection_state_changed error noted,
        (if is_faulted state && retryable_of error && is_some s.active_config
            then waiting
            else noted),
      )

  -- `handleSourceState`
  unfoldable pub handle_source_state :
      World → ConnectionState → Option Error → EngineState F V → Outcome F V
  unfolding cancel note_state
  handle_source_state w state error s =
      let cleared = record s { clear_token = none } in
      if is_ready state
      then note_state w state error s
      else if is_faulted state || is_disconnected state
      then cancel_operation w
          (value_or error
            (cancelled "Diagnostic operation was cancelled because the source became unavailable"))
          cleared
        ▸ note_state w state error
      else note_state w state error cleared

  -- `connect`
  unfoldable pub connect :
      DataSourceConfig F → Completion → Option DataSourceType → EngineState F V → Outcome F V
  connect config completion none s =
      (tell Effect.answers completion (err (invalid_state "No active data source")), s)
  connect config completion (some type) s =
      if not (type_beq type (get_data_source_type config))
      then (
        tell Effect.answers completion
            (err (invalid_state "Configuration does not match active data source")),
        s,
      )
      else (
        Effect.asks_connect config completion ∷ [],
        record s {
          clear_token = none;
          active_config = some config;
          reconnect_at = none;
          reconnect_attempt = 0;
          reconnecting = false;
        },
      )

  -- The completion of that connect. The historical findings of a playback source are left out.
  unfoldable pub connected : Completion → Result (Unit {0}) → EngineState F V → Outcome F V
  connected completion (err e) s = (tell Effect.answers completion (err e), s)
  connected completion (ok u) s =
      let ready = record s { connection_state = ConnectionState.ready } in
      (
        publish EngineEventType.connection_state_changed none ready
            ++ tell Effect.answers completion (ok u),
        ready,
      )

  -- The part of `disconnect` after the operation is cancelled.
  unfoldable pub hang_up : Completion → EngineState F V → Outcome F V
  unfolding reset
  hang_up completion s = (
    (if is_some s.source
        then Effect.asks_disconnect completion ∷ []
        else tell Effect.answers completion success),
    record s {
      scheduler = reset s.scheduler;
      reconnect_at = none;
      reconnect_attempt = 0;
      reconnecting = false;
    },
  )

  -- `disconnect`
  unfoldable pub disconnect : World → Completion → EngineState F V → Outcome F V
  unfolding cancel hang_up
  disconnect w completion s =
      cancel_operation w (cancelled "Diagnostic operation was cancelled by disconnect")
        (record s { clear_token = none })
      ▸ hang_up completion

  -- The completion of that disconnect.
  unfoldable pub disconnected : Completion → Result (Unit {0}) → EngineState F V → Outcome F V
  disconnected completion result s =
      let after = record s { connection_state = disconnected_state result } in
      (
        publish EngineEventType.connection_state_changed none after
            ++ tell Effect.answers completion result,
        after,
      )

  -- `completion(makeSuccess())`
  unfoldable pub acknowledge : Completion → EngineState F V → Outcome F V
  acknowledge completion s = (tell Effect.answers completion success, s)

  -- `bindSource`
  unfoldable pub bind_source : World → Option DataSourceType → EngineState F V → Outcome F V
  bind_source w none s = ([], s)
  bind_source w (some type) s =
      (Effect.binds s.epoch ∷ [], record s { connection_state = w.source_state })

module _ {F V : Type 0} (fl : Float F) (ev : Evaluator F V) where
  -- The part of `invalidateEpoch` after the operation is cancelled. Packets of the queue are gone, as
  -- `process_packet` takes none of an older epoch.
  unfoldable pub next_epoch : World → EngineState F V → Outcome F V
  unfolding bind_source set_epoch reset
  next_epoch w s = bind_source w s.source (record s {
    clear_settle_at = none;
    scheduler = reset s.scheduler;
    epoch = suc s.epoch;
    evaluator = ev.set_epoch (suc s.epoch) s.evaluator;
    telemetry = set_epoch (blank_sample fl w) w.steady w.utc (suc s.epoch);
  })

  -- `invalidateEpoch`
  unfoldable pub invalidate_epoch : World → EngineState F V → Outcome F V
  unfolding cancel next_epoch
  invalidate_epoch w s =
      cancel_operation w (cancelled "Diagnostic operation was cancelled by an engine epoch change")
        (record s { clear_token = none })
      ▸ next_epoch w

  -- The end of `setSource`, when the old source is disconnected.
  unfoldable pub replace_source :
      World → Option DataSourceType → Completion → EngineState F V → Outcome F V
  unfolding invalidate_epoch acknowledge
  replace_source w source completion s =
      invalidate_epoch w (record s {
        source = source;
        active_config = none;
        reconnect_at = none;
        reconnect_attempt = 0;
        reconnect_count = 0;
      })
      ▸ acknowledge completion

  -- `setSource`
  unfoldable pub set_source :
      World → Option DataSourceType → Completion → EngineState F V → Outcome F V
  unfolding replace_source
  set_source w source completion s =
      let cleared = record s { clear_token = none } in
      if is_some s.source && not (is_disconnected w.source_state)
      then (Effect.asks_replace source completion ∷ [], cleared)
      else replace_source w source completion cleared

  -- `resetSimulation`
  unfoldable pub reset_simulation :
      World → Completion → Option DataSourceType → EngineState F V → Outcome F V
  unfolding invalidate_epoch acknowledge
  reset_simulation w completion (some DataSourceType.synthetic) s =
      invalidate_epoch w s ▸ acknowledge completion
  reset_simulation w completion _ s = (
    tell Effect.answers completion
        (err (invalid_state "Simulation controls require the synthetic source")),
    s,
  )
