-- ===== src/Engine/Replies.antt =====
-- engine_service.cpp: changes of the source, clears and packets keep account of the completions.
use rev_dash.Prelude.{
  ℕ, ◌+◌, ◌≡◌, refl, ◌∙◌, Bool, true, false, not, ◌&&◌, Option, none, some, List, [], ◌∷◌, ◌++◌,
  ◌==◌, arith, if◌then◌else◌, ltb, leb, length, get_or,
}
use rev_dash.Core.Error.{Result, ok, err}
use rev_dash.Core.Types.{DataSourceType, ObdMessage, payload_of}
use rev_dash.Core.Float.{Float}
use rev_dash.Core.AsyncSource.{is_disconnected}
use rev_dash.Core.AsyncSource.Accounts.{held}
use rev_dash.Core.Diagnostics.{Text, text_beq}
use rev_dash.Core.Source.{DataSourceConfig}
use rev_dash.Core.Telemetry.{TelemetrySample}
use rev_dash.Engine.State.{
  Completion, EngineEventType, World, Evaluator, ClearTokenState, Effect, EngineState, Outcome,
}
use rev_dash.Engine.Operation.{is_some, enqueue, publish}
use rev_dash.Engine.Messages.{handle_message, ingest, take_samples, process_packet}
use rev_dash.Engine.Clear.{
  validate_clear_safety, prepare, prepare_clear, unchanged, start_clear, confirm_safe, confirm_used,
  confirm,
}
use rev_dash.Engine.Link.{
  acknowledge, next_epoch, invalidate_epoch, replace_source, set_source, reset_simulation,
}
use rev_dash.Engine.Accounts.{
  waiting, Fits, left, left-append, left-answers, left-answers_prepare, left-answers_clear, Sound,
  ▸-Sound, ▸-Sound_silent, if-Sound, told-Sound, silent-Sound,
}
use rev_dash.Engine.Ends.{cancel-Sound}
use rev_dash.Engine.Safety.{validate_clear_safety-IsSafe}
use rev_dash.Engine.Untouched.{waiting-handle_message, handle_message-Fits}
use rev_dash.Engine.Commands.{begun-Sound, acknowledge-Sound, bind_source-Sound}

module _ {F V : Type 0} (t : ℕ) (fl : Float F) (ev : Evaluator F V) where
  next_epoch-Sound :
      (w : World) (s : EngineState F V)
      → Fits s.operation
      → Sound t (waiting t s.operation) (next_epoch fl ev w s)
  unfolding next_epoch
  next_epoch-Sound w s f = bind_source-Sound t w s.source _ f

  invalidate_epoch-Sound :
      (w : World) (s : EngineState F V)
      → Fits s.operation
      → Sound t (waiting t s.operation) (invalidate_epoch fl ev w s)
  unfolding invalidate_epoch
  invalidate_epoch-Sound w s f =
      ▸-Sound_silent t _ _ (next_epoch fl ev w)
        (cancel-Sound t w _ s.operation (record s { clear_token = none }) refl f)
        (next_epoch-Sound w)

  pub replace_source-Sound :
      (w : World) (source : Option DataSourceType) (c : Completion) (s : EngineState F V)
      → Fits s.operation
      → Sound t (held t c + waiting t s.operation) (replace_source fl ev w source c s)
  unfolding replace_source
  replace_source-Sound w source c s f =
      ▸-Sound t (held t c) (waiting t s.operation) _ (acknowledge c)
        (invalidate_epoch-Sound w
          (record s {
            source = source;
            active_config = none;
            reconnect_at = none;
            reconnect_attempt = 0;
            reconnect_count = 0;
          })
          f)
        (acknowledge-Sound t c)

  pub set_source-Sound :
      (w : World) (source : Option DataSourceType) (c : Completion) (s : EngineState F V)
      → Fits s.operation
      → Sound t (held t c + waiting t s.operation) (set_source fl ev w source c s)
  unfolding set_source
  set_source-Sound w source c s f =
      if-Sound t (is_some s.source && not (is_disconnected w.source_state)) _ _ _
        (λ y.
          told-Sound t (held t c) (Effect.asks_replace source c ∷ [])
            (record s { clear_token = none }) f (omega arith))
        (λ n. replace_source-Sound w source c (record s { clear_token = none }) f)

  pub reset_simulation-Sound :
      (w : World) (c : Completion) (o : Option DataSourceType) (s : EngineState F V)
      → Fits s.operation
      → Sound t (held t c + waiting t s.operation) (reset_simulation fl ev w c o s)
  unfolding reset_simulation
  reset_simulation-Sound w c (some DataSourceType.synthetic) s f =
      ▸-Sound t (held t c) (waiting t s.operation) _ (acknowledge c) (invalidate_epoch-Sound w s f)
        (acknowledge-Sound t c)
  reset_simulation-Sound w c none s f = told-Sound t _ _ s f (left-answers F t c _)
  reset_simulation-Sound w c (some DataSourceType.serial_elm327) s f =
      told-Sound t _ _ s f (left-answers F t c _)
  reset_simulation-Sound w c (some DataSourceType.playback) s f =
      told-Sound t _ _ s f (left-answers F t c _)
  reset_simulation-Sound w c (some DataSourceType.socket_can) s f =
      told-Sound t _ _ s f (left-answers F t c _)

  prepare-Sound :
      (w : World) (token : Text) (c : Completion) (r : Result (Unit {0}))
      (o : Option DataSourceType) (config : Option (DataSourceConfig F)) (s : EngineState F V)
      → Fits s.operation
      → (r ≡ ok tt → (is_some o && is_some config) ≡ true)
      → Sound t (held t c + waiting t s.operation) (prepare fl ev w token c r o config s)
  unfolding prepare
  prepare-Sound w token c (err e) o config s f h =
      told-Sound t _ _ s f (left-answers_prepare F t c _)
  prepare-Sound w token c (ok u) (some type) (some config) s f h =
      told-Sound t _ _ (record s { clear_token = _ }) f (left-answers_prepare F t c _)
  prepare-Sound w token c (ok u) none config s f h = absurd (ground (arith, h refl))
  prepare-Sound w token c (ok u) (some type) none s f h = absurd (ground (arith, h refl))

  safe_sources :
      (w : World) (s : EngineState F V)
      → validate_clear_safety fl w s ≡ ok tt
      → (is_some s.source && is_some s.active_config) ≡ true
  safe_sources w s h =
      let linked = (validate_clear_safety-IsSafe fl w s tt h).linked in
      ground (arith, linked.configured, linked.physical.1)

  pub prepare_clear-Sound :
      (w : World) (token : Text) (c : Completion) (s : EngineState F V)
      → Fits s.operation
      → Sound t (held t c + waiting t s.operation) (prepare_clear fl ev w token c s)
  unfolding prepare_clear
  prepare_clear-Sound w token c s f =
      prepare-Sound w token c _ s.source s.active_config (record s { clear_token = none }) f
        (safe_sources w (record s { clear_token = none }))

  confirm_safe-Sound :
      (w : World) (c : Completion) (token : ClearTokenState F) (r : Result (Unit {0}))
      (s : EngineState F V)
      → Fits s.operation
      → (r ≡ ok tt → is_some s.operation ≡ false)
      → Sound t (held t c + waiting t s.operation) (confirm_safe fl w c token r s)
  unfolding confirm_safe start_clear enqueue
  confirm_safe-Sound w c token (err e) s f h = told-Sound t _ _ s f (left-answers_clear F t c _)
  confirm_safe-Sound w c token (ok u) s f h =
      begun-Sound t c s.operation _ _ (h refl) refl (refl, refl, refl) (omega arith)

  pub confirm-Sound :
      (w : World) (text : Text) (c : Completion) (o : Option (ClearTokenState F))
      (s : EngineState F V)
      → Fits s.operation
      → Sound t (held t c + waiting t s.operation) (confirm fl w text c o s)
  unfolding confirm confirm_used
  confirm-Sound w text c none s f = told-Sound t _ _ s f (left-answers_clear F t c _)
  confirm-Sound w text c (some token) s f =
      let used : EngineState F V = record s { clear_token = none } in
      if-Sound t (not (text_beq token.preparation.confirmation_token text)) _ _ _
        (λ y. told-Sound t _ _ s f (left-answers_clear F t c _))
        (λ n.
          if-Sound t (leb token.preparation.expires_at w.now) _ _ _
            (λ y. told-Sound t _ _ (record s { clear_token = none }) f (left-answers_clear F t c _))
            (λ m.
              if-Sound t (not (unchanged fl token s.source s.active_config used)) _ _ _
                (λ y.
                  told-Sound t _ _ (record s { clear_token = none }) f (left-answers_clear F t c _))
                (λ k.
                  confirm_safe-Sound w c token _ used f
                    (λ h. (validate_clear_safety-IsSafe fl w used tt h).idle))))

  ingest-operation :
      (xs : List (TelemetrySample F)) (s : EngineState F V)
      → (ingest fl ev xs s).operation ≡ s.operation
  unfolding ingest
  ingest-operation [] s = refl
  ingest-operation (x ∷ xs) s = ingest-operation xs _

  quiet :
      (a b : Bool) (x y z : List (Effect F))
      → left t x ≡ 0
      → left t y ≡ 0
      → left t z ≡ 0
      → left t ((if a then [] else x) ++ (if b then y else []) ++ z) ≡ 0
  quiet true true x y z h j k = left-append t y z ∙ omega (arith, j, k)
  quiet true false x y z h j k = k
  quiet false true x y z h j k =
      left-append t (x ++ y) z ∙ omega (arith, h, j, k, left-append t x y)
  quiet false false x y z h j k =
      left-append t (x ++ []) z ∙ omega (arith, h, k, left-append t x [])

  take_samples-Sound :
      (epoch : ℕ) (m : ObdMessage) (r : Option (Result (List (TelemetrySample F))))
      (s : EngineState F V)
      → Fits s.operation
      → Sound t (waiting t s.operation) (take_samples fl ev epoch m r s)
  unfolding take_samples
  take_samples-Sound epoch m none s f = silent-Sound t s.operation [] s refl f refl
  take_samples-Sound epoch m (some (err e)) s f = silent-Sound t s.operation _ s refl f refl
  take_samples-Sound epoch m (some (ok xs)) s f =
      silent-Sound t s.operation _ _ (ingest-operation xs s) f (
        quiet s.playback_rebuilding
          ((ev.evaluate m.monotonic_ts (ingest fl ev xs s).evaluator).0
            && not s.playback_rebuilding)
          (publish EngineEventType.telemetry_updated none (record (ingest fl ev xs s) {
            evaluator = (ev.evaluate m.monotonic_ts (ingest fl ev xs s).evaluator).1;
          }))
          (publish EngineEventType.diagnostic_findings_updated none (record (ingest fl ev xs s) {
            evaluator = (ev.evaluate m.monotonic_ts (ingest fl ev xs s).evaluator).1;
          }))
          (Effect.records epoch m ∷ []) refl refl refl)

  pub Sound-by : (n m : ℕ) (out : Outcome F V) → n ≡ m → Sound t n out → Sound t m out
  Sound-by n m out e h = record { balance = omega (arith, e, h.balance); fits = h.fits }

  pub process_packet-Sound :
      (epoch : ℕ) (m : ObdMessage) (s : EngineState F V)
      → Fits s.operation
      → Sound t (waiting t s.operation) (process_packet fl ev epoch m s)
  unfolding process_packet
  process_packet-Sound epoch m s f =
      let same = waiting-handle_message fl t m s.epoch s.operation in
      let fits = handle_message-Fits fl m s.epoch s.operation f in
      if-Sound t (not (epoch == s.epoch)) _ _ _ (λ y. silent-Sound t s.operation [] s refl f refl)
        (λ n. Sound-by _ _ _ same (
          if-Sound t (not (ltb (length (payload_of m)) 2) && get_or (payload_of m) 0 0 == 0x41) _ _
            _ (λ y. take_samples-Sound epoch m _ _ fits)
            (λ k. silent-Sound t (handle_message fl m s.epoch s.operation) _ _ refl fits refl)))
