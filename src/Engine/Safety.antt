-- ===== src/Engine/Safety.antt =====
-- engine_service.cpp: what `validateClearSafety` and `confirmClear` have established when a clear
-- request is queued.
use rev_dash.Prelude.{
  ◌+◌, ◌≤◌, ◌<◌, ◌≡◌, refl, ap, sym, ◌∙◌, true, false, Option, none, some, arith, Bool-cases, inl,
  inr,
}
use rev_dash.Core.Error.{ok, Result-cases}
use rev_dash.Core.Types.{
  TimePoint, Duration, milliseconds, ConnectionState, DataSourceType, option_beq,
}
use rev_dash.Core.Float.{Float}
use rev_dash.Core.Telemetry.{MetricId, TelemetrySample, is_valid_quality}
use rev_dash.Core.Diagnostics.{Text, text_beq}
use rev_dash.Core.Source.{DataSourceConfig, config_beq, type_beq}
use rev_dash.Core.Store.{get}
use rev_dash.Core.AsyncSource.{is_ready}
use rev_dash.Protocol.Mode01.Catalog.{Mode01PidDescriptor, catalog}
use rev_dash.Protocol.Mode01.Decode.{find_mode01_pid_descriptor, find_pid}
use rev_dash.Engine.State.{World, ClearTokenState, EngineState}
use rev_dash.Engine.Operation.{is_some}
use rev_dash.Engine.Clear.{
  is_physical, invalid_sample, check_speed, check_source, validate_clear_safety,
}
use rev_dash.Engine.Identity.{current_vehicle_identity}

module _ {F : Type 0} where
  -- The source is physical and ready, by its own account and the engine's, and has a configuration.
  pub record IsLinked (w : World) (source : Option DataSourceType)
      (config : Option (DataSourceConfig F)) (state : ConnectionState) : Type 0 where
    pub physical : (type : DataSourceType) × (source ≡ some type) × (is_physical type ≡ true)
    pub configured : is_some config ≡ true
    pub source_ready : is_ready w.source_state ≡ true
    pub engine_ready : is_ready state ≡ true

  pub check_source-IsLinked :
      (w : World) (source : Option DataSourceType) (config : Option (DataSourceConfig F))
      (state : ConnectionState) (u : Unit {0})
      → check_source w source config state ≡ ok u
      → IsLinked w source config state
  unfolding check_source
  check_source-IsLinked w none config state u h = absurd cc
  check_source-IsLinked w (some type) none state u h = absurd cc
  check_source-IsLinked w (some type) (some config) state u h = record {
    physical = (type, refl, ground arith);
    configured = refl;
    source_ready = ground arith;
    engine_ready = ground arith;
  }

module _ {F : Type 0} (fl : Float F) where
  -- The sample is valid, not of the future, not stale, and not above 0.5.
  pub record IsStationary (now : TimePoint) (stale_after : Duration) (sample : TelemetrySample F)
      : Type 0 where
    pub valid : is_valid_quality sample.quality ≡ true
    pub past : sample.monotonic_ts ≤ now
    pub fresh : now ≤ sample.monotonic_ts + stale_after
    pub slow : fl.lt (fl.literal 5 1) sample.value ≡ false

  check_speed-IsStationary :
      (now : TimePoint) (d : Mode01PidDescriptor fl) (sample : TelemetrySample F) (u : Unit {0})
      → check_speed fl now (some d) sample ≡ ok u
      → IsStationary now d.stale_after sample
  unfolding check_speed
  check_speed-IsStationary now d sample u h = record {
    valid = ground arith;
    past = ground arith;
    fresh = ground arith;
    slow = ground arith;
  }

  -- The speed of a vehicle counts as known for a second.
  find-speed :
      (d : Mode01PidDescriptor fl) × (find_mode01_pid_descriptor fl 0x0d ≡ some d)
      × (d.stale_after ≡ milliseconds 1000)
  unfolding find_mode01_pid_descriptor find_pid catalog
  find-speed = (_, refl, refl)

  speed_lem :
      (now : TimePoint) (sample : TelemetrySample F) (u : Unit {0})
      → check_speed fl now (find_mode01_pid_descriptor fl 0x0d) sample ≡ ok u
      → IsStationary now (milliseconds 1000) sample
  speed_lem now sample u h =
      let (d, found, stale) = find-speed in
      rw stale at (
        check_speed-IsStationary now d sample u
          (ap (λ o. check_speed fl now o sample) (sym found) ∙ h))

  module _ {V : Type 0} where
    -- What `validateClearSafety` asks for.
    pub record IsSafe (w : World) (s : EngineState F V) : Type 0 where
      pub linked : IsLinked w s.source s.active_config s.connection_state
      pub idle : is_some s.operation ≡ false
      pub stationary :
          IsStationary w.now
            (milliseconds 1000)
            (get (invalid_sample fl w.now) MetricId.vehicle_speed s.telemetry)

    pub validate_clear_safety-IsSafe :
        (w : World) (s : EngineState F V) (u : Unit {0})
        → validate_clear_safety fl w s ≡ ok u
        → IsSafe w s
    unfolding validate_clear_safety
    validate_clear_safety-IsSafe w s u h =
        elim (Result-cases (check_source w s.source s.active_config s.connection_state)) [
          | inr (e, bad) ↦ absurd (ground (arith, bad))
          | inl (v, good) ↦ elim (Bool-cases (is_some s.operation)) [
            | inl y ↦ absurd (ground (arith, good, y))
            | inr n ↦ record {
              linked = check_source-IsLinked w _ _ _ v good;
              idle = n;
              stationary = speed_lem w.now _ u (ground (arith, good, n));
            }
          ]
        ]

    -- The token that stands is the one that is confirmed, has not expired, was made in this epoch for
    -- this source, this configuration and this vehicle, and the clear is safe.
    pub record IsAuthorised (w : World) (text : Text) (s : EngineState F V) : Type 0 where
      pub token : ClearTokenState F
      pub stands : s.clear_token ≡ some token
      pub matches : text_beq token.preparation.confirmation_token text ≡ true
      pub live : w.now < token.preparation.expires_at
      pub same_epoch : token.preparation.snapshot.engine_epoch ≡ s.epoch
      pub same_source :
          (type : DataSourceType) × (s.source ≡ some type)
          × (type_beq token.source_type type ≡ true)
      pub same_config :
          (config : DataSourceConfig F) × (s.active_config ≡ some config)
          × (config_beq fl token.source_config config ≡ true)
      pub same_vehicle :
          option_beq text_beq token.preparation.vehicle_identity
            (current_vehicle_identity s.ecu_metadata)
          ≡ true
      pub safe : IsSafe w s
