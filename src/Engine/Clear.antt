-- ===== src/Engine/Clear.antt =====
-- engine_service.cpp: the preparation and the confirmation of a clear (Mode 04).
use rev_dash.Prelude.{
  ◌+◌, Bool, true, false, not, ◌&&◌, ◌||◌, Option, none, some, String, [], ◌∷◌, ◌==◌, ltb, leb,
  if◌then◌else◌,
}
use rev_dash.Core.Error.{
  Result, ok, err, fail, success, ◌>>◌, diagnostics_operation_in_progress,
  diagnostics_safety_rejected, diagnostics_token_invalid, diagnostics_token_expired,
}
use rev_dash.Core.Types.{TimePoint, milliseconds, ConnectionState, DataSourceType, option_beq}
use rev_dash.Core.Float.{Float}
use rev_dash.Core.Telemetry.{MetricId, TelemetrySample, SampleQuality, is_valid_quality}
use rev_dash.Core.Diagnostics.{Text, text_beq}
use rev_dash.Core.Diagnostics.Records.{ClearDtcPreparation, clear_diagnostic_warning}
use rev_dash.Core.Store.{get}
use rev_dash.Core.Source.{DataSourceConfig, config_beq, type_beq}
use rev_dash.Core.AsyncSource.{is_ready}
use rev_dash.Protocol.Mode01.Catalog.{Mode01PidDescriptor}
use rev_dash.Protocol.Mode01.Decode.{find_mode01_pid_descriptor}
use rev_dash.Protocol.Diagnostics.Service.{make_clear_diagnostic_request}
use rev_dash.Engine.State.{
  Completion, Kind, World, Evaluator, ClearTokenState, Effect, EngineState, Outcome, invalid_state,
  diagnostic_error,
}
use rev_dash.Engine.Operation.{is_some, operation_of, tell, enqueue}
use rev_dash.Engine.Identity.{current_vehicle_identity}

abbrev pub is_physical : DataSourceType → Bool
is_physical DataSourceType.serial_elm327 = true
is_physical DataSourceType.socket_can = true
is_physical _ = false

abbrev pub unsafe : String → Result (Unit {0})
unsafe = fail diagnostics_safety_rejected

module _ {F : Type 0} where
  -- The tests of the source.
  unfoldable pub check_source :
      World
      → Option DataSourceType
      → Option (DataSourceConfig F)
      → ConnectionState
      → Result (Unit {0})
  check_source w (some type) (some config) state =
      if not (is_physical type)
      then unsafe "Clearing diagnostic information is available only for a physical vehicle source"
      else if not (is_ready w.source_state) || not (is_ready state)
      then unsafe "The physical source must be ready before clearing diagnostic information"
      else success
  check_source w _ _ state = err (invalid_state "Clear preparation requires an active source")

module _ {F : Type 0} (fl : Float F) where
  -- `kInvalidSample`, with the time at which it was made
  abbrev pub invalid_sample : TimePoint → TelemetrySample F
  invalid_sample made = record {
    metric_id = MetricId.rpm;
    value = fl.of_nat 0;
    quality = SampleQuality.invalid;
    monotonic_ts = made;
    utc_ts = none;
    sequence_number = 0;
    ecu_address = none;
  }

  -- The tests of the vehicle speed.
  unfoldable pub check_speed :
      TimePoint → Option (Mode01PidDescriptor fl) → TelemetrySample F → Result (Unit {0})
  check_speed now descriptor sample =
      if not (is_valid_quality sample.quality)
      then unsafe "A valid vehicle-speed sample is required before clearing diagnostic information"
      else elim descriptor [
        | none ↦ unsafe "The vehicle-speed sample is stale"
        | some d ↦
            if ltb now sample.monotonic_ts || ltb (sample.monotonic_ts + d.stale_after) now
            then unsafe "The vehicle-speed sample is stale"
            else if fl.lt (fl.literal 5 1) sample.value
            then unsafe "The vehicle must be stationary before clearing diagnostic information"
            else success
      ]

module _ {F V : Type 0} (fl : Float F) where
  -- `validateClearSafety`
  unfoldable pub validate_clear_safety : World → EngineState F V → Result (Unit {0})
  unfolding check_source check_speed get
  validate_clear_safety w s =
      check_source w s.source s.active_config s.connection_state
      >> (if is_some s.operation
          then fail diagnostics_operation_in_progress "Another diagnostic operation is active"
          else check_speed fl w.now (find_mode01_pid_descriptor fl 0x0d)
              (get (invalid_sample fl w.now) MetricId.vehicle_speed s.telemetry))

  -- The snapshot and the token of a clear that may go on.
  unfoldable pub preparation_of :
      Evaluator F V → World → Text → EngineState F V → ClearDtcPreparation F
  unfolding current_vehicle_identity
  preparation_of ev w token s = record {
    confirmation_token = token;
    expires_at = w.now + milliseconds 30_000;
    snapshot = record s.diagnostic_snapshot {
      findings = ev.findings s.evaluator;
      captured_at = w.now;
      engine_epoch = s.epoch;
    };
    vehicle_identity = current_vehicle_identity s.ecu_metadata;
    warning = clear_diagnostic_warning;
  }

  -- The end of `prepareClear`. The source and its configuration are there when the tests are passed.
  unfoldable pub prepare :
      Evaluator F V
      → World
      → Text
      → Completion
      → Result (Unit {0})
      → Option DataSourceType
      → Option (DataSourceConfig F)
      → EngineState F V
      → Outcome F V
  unfolding preparation_of
  prepare ev w token completion (err e) _ _ s = (tell Effect.answers_prepare completion (err e), s)
  prepare ev w token completion (ok _) (some type) (some config) s = (
    tell Effect.answers_prepare completion (ok (preparation_of ev w token s)),
    record s {
      clear_token = some (record {
        preparation = preparation_of ev w token s;
        prepared_at = w.now;
        source_type = type;
        source_config = config;
      });
    },
  )
  prepare ev w token completion (ok _) _ _ s = ([], s)

  -- `prepareClear`; `token` is what `makeConfirmationToken` makes.
  unfoldable pub prepare_clear :
      Evaluator F V → World → Text → Completion → EngineState F V → Outcome F V
  unfolding prepare validate_clear_safety
  prepare_clear ev w token completion s =
      let cleared = record s { clear_token = none } in
      prepare ev w token completion (validate_clear_safety w cleared) s.source s.active_config
        cleared

  -- The test that nothing has changed since the preparation.
  unfoldable pub unchanged :
      ClearTokenState F
      → Option DataSourceType
      → Option (DataSourceConfig F)
      → EngineState F V
      → Bool
  unfolding current_vehicle_identity
  unchanged token (some type) (some config) s =
      token.preparation.snapshot.engine_epoch == s.epoch
      && type_beq token.source_type type
      && config_beq fl token.source_config config
      && option_beq text_beq token.preparation.vehicle_identity
          (current_vehicle_identity s.ecu_metadata)
  unchanged token _ _ s = false

  -- The operation that sends the Mode 04 request.
  unfoldable pub clear_begun :
      World → Completion → ClearTokenState F → EngineState F V → EngineState F V
  clear_begun w completion token s = record s {
    operation = some (record (operation_of Kind.clear s.epoch 1) {
      clear_completion = completion;
      audit = some (record {
        prepared_at = token.prepared_at;
        completed_at = w.now;
        completed_utc = w.utc;
        source_type = token.source_type;
        engine_epoch = s.epoch;
        vehicle_identity = token.preparation.vehicle_identity;
        warning = token.preparation.warning;
        preparation_snapshot = token.preparation.snapshot;
        post_clear_dtcs = [];
        request_transmitted = false;
        positive_response = false;
        post_clear_rescan_completed = false;
        error = none;
      });
    });
  }

  unfoldable pub start_clear :
      World → Completion → ClearTokenState F → EngineState F V → Outcome F V
  unfolding enqueue clear_begun
  start_clear w completion token s =
      ([], enqueue (make_clear_diagnostic_request ∷ []) (clear_begun w completion token s))

  -- The end of the confirmation, by the tests of `validateClearSafety`.
  unfoldable pub confirm_safe :
      World → Completion → ClearTokenState F → Result (Unit {0}) → EngineState F V → Outcome F V
  unfolding start_clear
  confirm_safe w completion token (err e) s = (tell Effect.answers_clear completion (err e), s)
  confirm_safe w completion token (ok _) s = start_clear w completion token s

  -- The confirmation, once the token is used up.
  unfoldable pub confirm_used :
      World → Completion → ClearTokenState F → EngineState F V → Outcome F V
  unfolding confirm_safe unchanged validate_clear_safety
  confirm_used w completion token s =
      if not (unchanged token s.source s.active_config s)
      then (
        tell Effect.answers_clear completion (
            err (
              diagnostic_error diagnostics_token_invalid
                "The source, vehicle, or engine epoch changed after clear preparation")),
        s,
      )
      else confirm_safe w completion token (validate_clear_safety w s) s

  -- `confirmClear`, with the token that stands
  unfoldable pub confirm :
      World → Text → Completion → Option (ClearTokenState F) → EngineState F V → Outcome F V
  unfolding confirm_used
  confirm w text completion none s = (
    tell Effect.answers_clear completion
        (err (diagnostic_error diagnostics_token_invalid "No active clear confirmation exists")),
    s,
  )
  confirm w text completion (some token) s =
      let used = record s { clear_token = none } in
      if not (text_beq token.preparation.confirmation_token text)
      then (
        tell Effect.answers_clear completion (
            err (
              diagnostic_error diagnostics_token_invalid
                "The clear confirmation token does not match")),
        s,
      )
      else if leb token.preparation.expires_at w.now
      then (
        tell Effect.answers_clear completion (
            err (
              diagnostic_error diagnostics_token_expired
                "The clear confirmation token has expired")),
        used,
      )
      else confirm_used w completion token used

  abbrev pub confirm_clear : World → Text → Completion → EngineState F V → Outcome F V
  confirm_clear w text completion s = confirm w text completion s.clear_token s
