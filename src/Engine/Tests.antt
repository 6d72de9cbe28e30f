-- ===== src/Engine/Tests.antt =====
-- Runs of the engine worker. The values are natural numbers here, which stand in for `double`.
use rev_dash.Prelude.{
  ℕ, suc, ◌+◌, ◌-◌, ◌*◌, ◌/◌, ◌^◌, ◌≤◌, ◌<◌, ◌≡◌, refl, true, false, none, some, List, [], ◌∷◌,
  arith, ltb, ◌==◌,
}
use rev_dash.Core.Error.{Error, Result, err, make_error, ErrorCode}
use rev_dash.Core.Types.{ConnectionState, DataSourceType, ObdMessage, TimePoint, ObdRequest}
use rev_dash.Core.Telemetry.{MetricId, TelemetrySample, SampleQuality, metric_index}
use rev_dash.Core.Float.{Float}
use rev_dash.Core.Source.{DataSourceConfig, config_beq}
use rev_dash.Core.Store.{update, set_epoch, get}
use rev_dash.Core.Diagnostics.{Text, DtcRecord, DtcStatus, Severity, text_beq}
use rev_dash.Drivers.Scheduler.{initial, enqueue_diagnostic}
use rev_dash.Protocol.Mode01.Catalog.{catalog}
use rev_dash.Protocol.Mode01.Decode.{find_pid, find_mode01_pid_descriptor}
use rev_dash.Engine.State.{Completion, World, Evaluator, EngineState}
use rev_dash.Engine.Operation.{enqueue}
use rev_dash.Engine.Clear.{
  preparation_of, confirm, confirm_used, confirm_safe, start_clear, clear_begun, unchanged,
  validate_clear_safety, check_source, check_speed,
}
use rev_dash.Engine.Identity.{current_vehicle_identity, vins_of}
use rev_dash.Engine.Finish.{cancel}
use rev_dash.Engine.Link.{
  handle_source_state, note_state, schedule_reconnect, reconnected, blank_sample, invalidate_epoch,
}
use rev_dash.Engine.Messages.{process_packet}
use rev_dash.Engine.Run.{Call, step, run, complete_transmit}
use rev_dash.Engine.Accounts.{waiting, left}
use rev_dash.Engine.Answers.{run-answers_all, submitted}
use rev_dash.Engine.Tame.{clears, sent, load}
use rev_dash.Engine.Safety.{IsAuthorised}
use rev_dash.Engine.Authority.{step-IsAuthorised, run-preparations, preparations}
use rev_dash.Engine.Epochs.{invalidate_epoch_lem}
use rev_dash.Engine.Retries.{asks, attempts_left, IsTrouble, run-attempts_left}

abbrev whole : Float ℕ
whole = record {
  of_nat = λ n. n;
  literal = λ m d. m / 10 ^ d;
  neg = λ n. 0;
  add = λ a b. a + b;
  sub = λ a b. a - b;
  mul = λ a b. a * b;
  div = λ a b. a / b;
  lt = ltb;
  eq = ◌==◌;
  is_finite = λ n. true;
}

-- An evaluator without rules.
abbrev ruleless : Evaluator ℕ ℕ
ruleless = record {
  findings = λ v. [];
  set_epoch = λ e v. e;
  ingest = λ x v. v;
  evaluate = λ now v. (false, v);
}

abbrev world : World
world = record {
  now = 5_000;
  steady = 5_000;
  utc = some 9_000;
  source_state = ConnectionState.ready;
}

abbrev can0 : DataSourceConfig ℕ
can0 = DataSourceConfig.socket_can_config (record { interface_name = "can0"; bitrate = 500_000 })

abbrev standing : TelemetrySample ℕ
standing = record {
  metric_id = MetricId.vehicle_speed;
  value = 0;
  quality = SampleQuality.valid;
  monotonic_ts = 4_000;
  utc_ts = none;
  sequence_number = 1;
  ecu_address = none;
}

-- An engine with a ready CAN source, of a vehicle that stands.
abbrev parked : EngineState ℕ ℕ
unfolding update set_epoch
parked = record {
  source = some DataSourceType.socket_can;
  scheduler = initial;
  telemetry = update standing (set_epoch (blank_sample whole world) 0 none 1);
  evaluator = 1;
  epoch = 1;
  connection_state = ConnectionState.ready;
  active_config = some can0;
  reconnect_at = none;
  reconnect_attempt = 0;
  reconnect_count = 0;
  reconnecting = false;
  operation = none;
  clear_token = none;
  clear_settle_at = none;
  dtc_database = none;
  diagnostic_snapshot = record {
    dtcs = [];
    ecu_metadata = [];
    findings = [];
    captured_at = 0;
    engine_epoch = 1;
  };
  ecu_metadata = [];
  mode04_audits = [];
  recent_diagnostic_lines = [];
  playback_rebuilding = false;
}

abbrev failure : Error
failure = make_error ErrorCode.transport_timeout "No answer" true ""

-- A scan is cut short by a fault of the source, and another one is refused.
abbrev faulted : List (World × Call ℕ)
faulted =
    (world, Call.scans (some 5))
    ∷ (world, Call.scans (some 6))
    ∷ (world, Call.turns)
    ∷ (world, Call.source_state ConnectionState.faulted (some failure))
    ∷ []

run-answers_all_example :
    submitted 5 faulted + 0
    ≡ left 5 (run whole ruleless 0 faulted parked).0
      + waiting 5 (run whole ruleless 0 faulted parked).1.operation
unfolding parked
run-answers_all_example = run-answers_all 5 whole ruleless 0 faulted parked tt

abbrev token_text : Text
token_text = b'4' ∷ b'2' ∷ []

-- The engine after it has prepared a clear.
abbrev ready_to_clear : EngineState ℕ ℕ
unfolding preparation_of
ready_to_clear = record parked {
  clear_token = some (record {
    preparation = preparation_of whole ruleless world token_text parked;
    prepared_at = 5_000;
    source_type = DataSourceType.socket_can;
    source_config = can0;
  });
}

-- A fault of the source, the attempt that follows it, and its failure.
abbrev failing : List (World × Call ℕ)
failing =
    (world, Call.source_state ConnectionState.faulted (some failure))
    ∷ (record world { steady = 6_000_000_000 }, Call.turns)
    ∷ (world, Call.source_state ConnectionState.faulted (some failure))
    ∷ (world, Call.reconnect_done (err failure))
    ∷ []

run-attempts_left_example :
    asks (run whole ruleless 0 failing parked).0
      + attempts_left (run whole ruleless 0 failing parked).1
    ≤ attempts_left parked
run-attempts_left_example = run-attempts_left whole ruleless 0 failing parked (
  IsTrouble.state_changes ConnectionState.faulted (some failure),
  (
    IsTrouble.takes_turn,
    (
      IsTrouble.state_changes ConnectionState.faulted (some failure),
      (IsTrouble.reconnect_fails failure, tt),
    ),
  ),
)

-- A reconnection that fails uses up two attempts: the source reports the fault, and the completion
-- the error.
failure_counts_twice :
    (run whole ruleless 0
      ((world, Call.source_state ConnectionState.faulted (some failure))
        ∷ (world, Call.reconnect_done (err failure))
        ∷ [])
      parked).1.reconnect_attempt
    ≡ 2
unfolding run step handle_source_state note_state schedule_reconnect cancel reconnected parked
    make_error
failure_counts_twice = refl

abbrev clearing : List (World × Call ℕ)
clearing =
    (world, Call.prepares token_text (some 1))
    ∷ (world, Call.confirms token_text (some 2))
    ∷ (world, Call.turns)
    ∷ []

run-preparations_example :
    sent (run whole ruleless 0 clearing parked).0 + load (run whole ruleless 0 clearing parked).1
    ≤ preparations clearing + load parked
run-preparations_example = run-preparations whole ruleless 0 clearing parked

invalidate_epoch_lem_example :
    let after = (invalidate_epoch whole ruleless world ready_to_clear).1 in
    (after.operation ≡ none)
    × (after.clear_token ≡ none)
    × (after.scheduler ≡ initial)
    × (after.clear_settle_at ≡ none)
    × (after.epoch ≡ suc ready_to_clear.epoch)
    × ((m : ObdMessage) → process_packet whole ruleless ready_to_clear.epoch m after ≡ ([], after))
    × ((delay : TimePoint) (v : World) (request : ObdRequest) (round_trip : ℕ)
          (r : Result (Unit {0}))
        → complete_transmit whole ruleless delay v ready_to_clear.epoch request round_trip r after
          ≡ ([], after))
invalidate_epoch_lem_example = invalidate_epoch_lem whole ruleless world ready_to_clear

abbrev stored_codes : ObdMessage
stored_codes = record {
  source_type = DataSourceType.socket_can;
  ecu_address = none;
  monotonic_ts = 4_500;
  utc_ts = none;
  sequence_number = 2;
  length = 3;
  bytes = 0x43 ∷ 0x01 ∷ 0x33 ∷ [];
}

abbrev missing_fuel : DtcRecord ℕ
missing_fuel = record {
  code = b'P' ∷ b'0' ∷ b'1' ∷ b'3' ∷ b'3' ∷ [];
  status = DtcStatus.confirmed;
  severity = Severity.warning;
  description = [];
  likely_failure_points = [];
  ecu_address = none;
  freeze_frame = none;
}

abbrev one_report : List (ObdMessage × List (DtcRecord ℕ))
one_report = (stored_codes, missing_fuel ∷ []) ∷ []

abbrev confirmation : Call ℕ
confirmation = Call.confirms token_text (some 2)

one_request :
    clears (step whole ruleless 0 world confirmation ready_to_clear).1.scheduler.diagnostics ≡ 1
unfolding step confirm confirm_used confirm_safe start_clear clear_begun unchanged
    validate_clear_safety check_source check_speed current_vehicle_identity vins_of preparation_of
    parked ready_to_clear update set_epoch get metric_index text_beq enqueue enqueue_diagnostic
    find_mode01_pid_descriptor find_pid catalog config_beq
one_request = refl

confirmation_queues :
    clears ready_to_clear.scheduler.diagnostics
    < clears (step whole ruleless 0 world confirmation ready_to_clear).1.scheduler.diagnostics
unfolding parked ready_to_clear
confirmation_queues = omega (arith, one_request)

step-IsAuthorised_example :
    (text : Text) × (k : Completion) × (confirmation ≡ Call.confirms text k)
    × IsAuthorised whole world text ready_to_clear
    × ((step whole ruleless 0 world confirmation ready_to_clear).1.clear_token ≡ none)
    × (clears (step whole ruleless 0 world confirmation ready_to_clear).1.scheduler.diagnostics
        ≡ suc (clears ready_to_clear.scheduler.diagnostics))
step-IsAuthorised_example =
    step-IsAuthorised whole ruleless 0 world confirmation ready_to_clear confirmation_queues
