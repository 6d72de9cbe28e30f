-- ===== src/Engine/Commands.antt =====
-- engine_service.cpp: commands and changes of the source keep account of the completions.
use rev_dash.Prelude.{
  ℕ, ◌+◌, ◌≡◌, refl, ap, Bool, true, false, not, ◌&&◌, ◌||◌, Option, none, some, [], ◌∷◌, arith,
  if◌then◌else◌,
}
use rev_dash.Core.Error.{Error, Result, ok, err, success}
use rev_dash.Core.Types.{ConnectionState, DataSourceType}
use rev_dash.Core.AsyncSource.{is_ready, is_disconnected}
use rev_dash.Core.AsyncSource.Accounts.{held}
use rev_dash.Core.Source.{DataSourceConfig, type_beq, get_data_source_type}
use rev_dash.Engine.State.{Completion, Kind, World, DiagnosticOperation, Effect, EngineState}
use rev_dash.Engine.Operation.{is_some, tell, enqueue, begin_scan, identify, operation_of}
use rev_dash.Engine.Link.{
  schedule_reconnect, attempt_reconnect, reconnected, note_state, handle_source_state, connect,
  connected, disconnect, disconnected, hang_up, acknowledge, bind_source, is_faulted,
}
use rev_dash.Engine.Accounts.{
  core, holds, waiting, Shape, Fits, left, left-answers, left-answers_scan, left-answers_identify,
  Sound, ▸-Sound, ▸-Sound_silent, if-Sound, told-Sound, silent-Sound,
}
use rev_dash.Engine.Ends.{cancel-Sound}

module _ {F V : Type 0} (t : ℕ) where
  -- An operation that begins when there is none.
  pub begun-Sound :
      (c : Completion) (before : Option (DiagnosticOperation F)) (op : DiagnosticOperation F)
      (s : EngineState F V)
      → is_some before ≡ false
      → s.operation ≡ some op
      → Shape op.kind (core op)
      → holds t (core op) ≡ held t c
      → Sound t (held t c + waiting t before) ([], s)
  begun-Sound c (some b) op s e h f k = absurd (ground arith)
  begun-Sound c none op s e h f k = record {
    balance = omega (arith, k, ap (waiting t) h);
    fits = rw h f;
  }

  pub begin_scan-Sound :
      (w : World) (c : Completion) (s : EngineState F V)
      → Fits s.operation
      → Sound t (held t c + waiting t s.operation) (begin_scan w c s)
  unfolding begin_scan enqueue
  begin_scan-Sound w c s f =
      if-Sound t (is_some s.operation) _ _ _
        (λ y. told-Sound t _ _ (record s { clear_token = none }) f (left-answers_scan F t c _))
        (λ n.
          if-Sound t (not (is_some s.source && is_ready w.source_state)) _ _ _
            (λ y. told-Sound t _ _ (record s { clear_token = none }) f (left-answers_scan F t c _))
            (λ m.
              begun-Sound c s.operation
                (record (operation_of Kind.scan s.epoch 2) { scan_completion = c }) _ n refl
                (refl, refl) (omega arith)))

  pub identify-Sound :
      (w : World) (c : Completion) (s : EngineState F V)
      → Fits s.operation
      → Sound t (held t c + waiting t s.operation) (identify w c s)
  unfolding identify enqueue
  identify-Sound w c s f =
      if-Sound t (is_some s.operation) _ _ _
        (λ y. told-Sound t _ _ (record s { clear_token = none }) f (left-answers_identify F t c _))
        (λ n.
          if-Sound t (not (is_some s.source && is_ready w.source_state)) _ _ _
            (λ y.
              told-Sound t _ _ (record s { clear_token = none }) f (left-answers_identify F t c _))
            (λ m.
              begun-Sound c s.operation
                (record (operation_of Kind.identify s.epoch 3) { identification_completion = c }) _
                n refl (refl, refl) (omega arith)))

  pub connect-Sound :
      (config : DataSourceConfig F) (c : Completion) (o : Option DataSourceType)
      (s : EngineState F V)
      → Fits s.operation
      → Sound t (held t c + waiting t s.operation) (connect config c o s)
  unfolding connect
  connect-Sound config c none s f = told-Sound t _ _ s f (left-answers F t c _)
  connect-Sound config c (some type) s f =
      if-Sound t (not (type_beq type (get_data_source_type config))) _ _ _
        (λ y. told-Sound t _ _ s f (left-answers F t c _))
        (λ n.
          told-Sound t (held t c) (Effect.asks_connect config c ∷ [])
            (record s {
              clear_token = none;
              active_config = some config;
              reconnect_at = none;
              reconnect_attempt = 0;
              reconnecting = false;
            })
            f (omega arith))

  pub connected-Sound :
      (c : Completion) (r : Result (Unit {0})) (s : EngineState F V)
      → Fits s.operation
      → Sound t (held t c + waiting t s.operation) (connected c r s)
  unfolding connected
  connected-Sound c (err e) s f = told-Sound t _ _ s f (left-answers F t c _)
  connected-Sound c (ok u) s f =
      told-Sound t _ _ (record s { connection_state = ConnectionState.ready }) f
        (left-answers F t c _)

  pub disconnected-Sound :
      (c : Completion) (r : Result (Unit {0})) (s : EngineState F V)
      → Fits s.operation
      → Sound t (held t c + waiting t s.operation) (disconnected c r s)
  unfolding disconnected
  disconnected-Sound c r s f =
      told-Sound t _ _ (record s { connection_state = _ }) f (left-answers F t c r)

  hang_up-Sound :
      (c : Completion) (s : EngineState F V)
      → Fits s.operation
      → Sound t (held t c + waiting t s.operation) (hang_up c s)
  unfolding hang_up
  hang_up-Sound c s f =
      told-Sound t (held t c) _
        (record s {
          scheduler = _;
          reconnect_at = none;
          reconnect_attempt = 0;
          reconnecting = false;
        })
        f (go (is_some s.source))
    where
      go :
          (b : Bool)
          → left {F = F} t
              (if b then Effect.asks_disconnect c ∷ [] else tell Effect.answers c success)
            ≡ held t c
      go true = omega arith
      go false = left-answers F t c success

  pub acknowledge-Sound :
      (c : Completion) (s : EngineState F V)
      → Fits s.operation
      → Sound t (held t c + waiting t s.operation) (acknowledge c s)
  unfolding acknowledge
  acknowledge-Sound c s f = told-Sound t _ _ s f (left-answers F t c _)

  pub disconnect-Sound :
      (w : World) (c : Completion) (s : EngineState F V)
      → Fits s.operation
      → Sound t (held t c + waiting t s.operation) (disconnect w c s)
  unfolding disconnect
  disconnect-Sound w c s f =
      ▸-Sound t (held t c) (waiting t s.operation) _ (hang_up c)
        (cancel-Sound t w _ s.operation (record s { clear_token = none }) refl f) (hang_up-Sound c)

  schedule_reconnect-operation :
      (w : World) (s : EngineState F V) → (schedule_reconnect w s).operation ≡ s.operation
  unfolding schedule_reconnect
  schedule_reconnect-operation w s = ground arith

  note_state-Sound :
      (w : World) (state : ConnectionState) (e : Option Error) (s : EngineState F V)
      → Fits s.operation
      → Sound t (waiting t s.operation) (note_state w state e s)
  unfolding note_state
  note_state-Sound w state e s f = silent-Sound t s.operation _ _ (noted _) f refl
    where
      noted :
          (b : Bool)
          → (if b
              then schedule_reconnect w (record s { connection_state = state })
              else record s { connection_state = state }).operation
            ≡ s.operation
      noted true = schedule_reconnect-operation w _
      noted false = refl

  pub handle_source_state-Sound :
      (w : World) (state : ConnectionState) (e : Option Error) (s : EngineState F V)
      → Fits s.operation
      → Sound t (waiting t s.operation) (handle_source_state w state e s)
  unfolding handle_source_state
  handle_source_state-Sound w state e s f =
      if-Sound t (is_ready state) _ _ _ (λ y. note_state-Sound w state e s f)
        (λ n.
          if-Sound t (is_faulted state || is_disconnected state) _ _ _
            (λ y.
              ▸-Sound_silent t (waiting t s.operation) _ (note_state w state e)
                (cancel-Sound t w _ s.operation (record s { clear_token = none }) refl f)
                (note_state-Sound w state e))
            (λ m. note_state-Sound w state e (record s { clear_token = none }) f))

  pub attempt_reconnect-Sound :
      (s : EngineState F V)
      → Fits s.operation
      → Sound t (waiting t s.operation) (attempt_reconnect s)
  unfolding attempt_reconnect
  attempt_reconnect-Sound s f =
      silent-Sound t s.operation _ (record s { reconnect_at = none }) refl f
        (go (is_some s.source && is_some s.active_config))
    where
      go : (b : Bool) → left {F = F} t (if b then Effect.asks_reconnect ∷ [] else []) ≡ 0
      go true = refl
      go false = refl

  pub reconnected-operation :
      (w : World) (r : Result (Unit {0})) (s : EngineState F V)
      → (reconnected w r s).operation ≡ s.operation
  unfolding reconnected
  reconnected-operation w (ok u) s = refl
  reconnected-operation w (err e) s = schedule_reconnect-operation w s

  pub bind_source-Sound :
      (w : World) (o : Option DataSourceType) (s : EngineState F V)
      → Fits s.operation
      → Sound t (waiting t s.operation) (bind_source w o s)
  unfolding bind_source
  bind_source-Sound w none s f = silent-Sound t s.operation [] s refl f refl
  bind_source-Sound w (some type) s f =
      silent-Sound t s.operation _ (record s { connection_state = w.source_state }) refl f refl
