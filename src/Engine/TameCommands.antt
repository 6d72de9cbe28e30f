-- ===== src/Engine/TameCommands.antt =====
-- engine_service.cpp: commands and turns, but the two of a clear, queue no clear request and make no
-- token.
use rev_dash.Prelude.{
  ◌≤◌, ◌≡◌, refl, ap, Bool, true, false, not, ◌&&◌, ◌||◌, Option, none, some, List, [], ◌∷◌, arith,
  if◌then◌else◌, leb,
}
use rev_dash.Core.Error.{Error, Result, ok, err, success}
use rev_dash.Core.Types.{TimePoint, ConnectionState, DataSourceType, ObdRequest, obd_request}
use rev_dash.Core.AsyncSource.{is_ready, is_disconnected}
use rev_dash.Core.Source.{DataSourceConfig, type_beq, get_data_source_type}
use rev_dash.Drivers.Scheduler.{next, next_of, Candidate, poll, reset}
use rev_dash.Engine.State.{
  Completion, World, DiagnosticOperation, ClearTokenState, Effect, EngineState, Outcome,
}
use rev_dash.Engine.Operation.{is_some, tell, begin_scan, identify}
use rev_dash.Engine.Messages.{is_clear}
use rev_dash.Engine.Link.{
  schedule_reconnect, attempt_reconnect, reconnected, note_state, handle_source_state, connect,
  connected, disconnect, disconnected, hang_up, acknowledge, bind_source, is_faulted, retryable_of,
}
use rev_dash.Engine.Run.{dispatch_request, dispatch_scheduler, rescan, settle, retry, turn, is_due}
use rev_dash.Engine.Tame.{
  clears, sent, sent-tell, tokens, Tame, ▸-Tame, if-Tame, mild-Tame, same-Tame, cancel-Tame,
  enqueue-Tame,
}

tokens-none : {F : Type 0} (o : Option (ClearTokenState F)) → tokens {F = F} none ≤ tokens o
tokens-none none = omega arith
tokens-none (some token) = omega arith

module _ {F V : Type 0} where
  -- The token is withdrawn.
  pub cleared-Tame :
      (s u : EngineState F V) (es : List (Effect F))
      → sent es ≡ 0
      → u.scheduler ≡ s.scheduler
      → u.clear_token ≡ none
      → Tame s (es, u)
  cleared-Tame s u es h j k = record {
    queue = omega (arith, h, ap (λ x. clears x.diagnostics) j);
    token = omega (arith, ap tokens k, tokens-none s.clear_token);
  }

  -- What is tame without the token is tame with it.
  pub uncleared-Tame :
      (s : EngineState F V) (out : Outcome F V)
      → Tame (record s { clear_token = none }) out
      → Tame s out
  uncleared-Tame s out h = record {
    queue = h.queue;
    token = omega (arith, h.token, tokens-none s.clear_token);
  }

  pub begin_scan-Tame :
      (w : World) (c : Completion) (s : EngineState F V) → Tame s (begin_scan w c s)
  unfolding begin_scan
  begin_scan-Tame w c s =
      if-Tame (is_some s.operation) s _ _
        (cleared-Tame s _ _ (sent-tell Effect.answers_scan (λ u r. refl) c _) refl refl)
        (if-Tame (not (is_some s.source && is_ready w.source_state)) s _ _
          (cleared-Tame s _ _ (sent-tell Effect.answers_scan (λ u r. refl) c _) refl refl)
          (enqueue-Tame (obd_request 0x03 0 ∷ obd_request 0x07 0 ∷ []) s
            (record s { clear_token = none; operation = _ }) refl refl (tokens-none s.clear_token)))

  pub identify-Tame : (w : World) (c : Completion) (s : EngineState F V) → Tame s (identify w c s)
  unfolding identify
  identify-Tame w c s =
      if-Tame (is_some s.operation) s _ _
        (cleared-Tame s _ _ (sent-tell Effect.answers_identify (λ u r. refl) c _) refl refl)
        (if-Tame (not (is_some s.source && is_ready w.source_state)) s _ _
          (cleared-Tame s _ _ (sent-tell Effect.answers_identify (λ u r. refl) c _) refl refl)
          (enqueue-Tame (obd_request 0x09 2 ∷ obd_request 0x09 4 ∷ obd_request 0x09 6 ∷ []) s
            (record s { clear_token = none; operation = _ }) refl refl (tokens-none s.clear_token)))

  pub connect-Tame :
      (config : DataSourceConfig F) (c : Completion) (o : Option DataSourceType)
      (s : EngineState F V)
      → Tame s (connect config c o s)
  unfolding connect
  connect-Tame config c none s =
      same-Tame s s _ (sent-tell Effect.answers (λ u r. refl) c _) refl refl
  connect-Tame config c (some type) s =
      if-Tame (not (type_beq type (get_data_source_type config))) s _ _
        (same-Tame s s _ (sent-tell Effect.answers (λ u r. refl) c _) refl refl)
        (cleared-Tame s _ _ refl refl refl)

  pub connected-Tame :
      (c : Completion) (r : Result (Unit {0})) (s : EngineState F V) → Tame s (connected c r s)
  unfolding connected
  connected-Tame c (err e) s =
      same-Tame s s _ (sent-tell Effect.answers (λ u r. refl) c _) refl refl
  connected-Tame c (ok v) s =
      same-Tame s (record s { connection_state = ConnectionState.ready }) _
        (sent-tell Effect.answers (λ u r. refl) c _) refl refl

  pub disconnected-Tame :
      (c : Completion) (r : Result (Unit {0})) (s : EngineState F V) → Tame s (disconnected c r s)
  unfolding disconnected
  disconnected-Tame c r s =
      same-Tame s (record s { connection_state = _ }) _ (sent-tell Effect.answers (λ u r. refl) c r)
        refl refl

  pub acknowledge-Tame : (c : Completion) (s : EngineState F V) → Tame s (acknowledge c s)
  unfolding acknowledge
  acknowledge-Tame c s = same-Tame s s _ (sent-tell Effect.answers (λ u r. refl) c _) refl refl

  hang_up-Tame : (c : Completion) (s : EngineState F V) → Tame s (hang_up c s)
  unfolding hang_up reset
  hang_up-Tame c s = mild-Tame s _ _ (go (is_some s.source)) (omega arith) (omega arith)
    where
      go :
          (b : Bool)
          → sent {F = F}
              (if b then Effect.asks_disconnect c ∷ [] else tell Effect.answers c success)
            ≡ 0
      go true = refl
      go false = sent-tell {F = F} Effect.answers (λ u r. refl) c success

  pub disconnect-Tame :
      (w : World) (c : Completion) (s : EngineState F V) → Tame s (disconnect w c s)
  unfolding disconnect
  disconnect-Tame w c s =
      ▸-Tame s _ (hang_up c)
        (uncleared-Tame s _ (cancel-Tame w _ s.operation (record s { clear_token = none })))
        (hang_up-Tame c)

  if-keeps :
      (b : Bool) (s u v : EngineState F V)
      → Tame s ([], u)
      → Tame s ([], v)
      → Tame s ([], (if b then u else v))
  if-keeps true s u v h k = h
  if-keeps false s u v h k = k

  schedule_reconnect-Tame : (w : World) (s : EngineState F V) → Tame s ([], schedule_reconnect w s)
  unfolding schedule_reconnect
  schedule_reconnect-Tame w s =
      if-keeps (leb 5 s.reconnect_attempt) s s _ (same-Tame s s [] refl refl refl)
        (same-Tame s _ [] refl refl refl)

  note_state-Tame :
      (w : World) (state : ConnectionState) (e : Option Error) (s : EngineState F V)
      → Tame s (note_state w state e s)
  unfolding note_state
  note_state-Tame w state e s =
      let noted : EngineState F V = record s { connection_state = state } in
      let h =
        if-keeps (is_faulted state && retryable_of e && is_some s.active_config) noted _ noted
          (schedule_reconnect-Tame w noted) (same-Tame noted noted [] refl refl refl) in
      record { queue = h.queue; token = h.token }

  pub handle_source_state-Tame :
      (w : World) (state : ConnectionState) (e : Option Error) (s : EngineState F V)
      → Tame s (handle_source_state w state e s)
  unfolding handle_source_state
  handle_source_state-Tame w state e s =
      let cleared : EngineState F V = record s { clear_token = none } in
      if-Tame (is_ready state) s _ _ (note_state-Tame w state e s) (
        if-Tame (is_faulted state || is_disconnected state) s _ _
          (▸-Tame s _ (note_state w state e)
            (uncleared-Tame s _ (cancel-Tame w _ s.operation cleared)) (note_state-Tame w state e))
          (uncleared-Tame s _ (note_state-Tame w state e cleared)))

  pub reconnected-Tame :
      (w : World) (r : Result (Unit {0})) (s : EngineState F V) → Tame s ([], reconnected w r s)
  unfolding reconnected
  reconnected-Tame w (ok u) s = same-Tame s _ [] refl refl refl
  reconnected-Tame w (err e) s = schedule_reconnect-Tame w s

  attempt_reconnect-Tame : (s : EngineState F V) → Tame s (attempt_reconnect s)
  unfolding attempt_reconnect
  attempt_reconnect-Tame s =
      same-Tame s _ _ (go (is_some s.source && is_some s.active_config)) refl refl
    where
      go : (b : Bool) → sent {F = F} (if b then Effect.asks_reconnect ∷ [] else []) ≡ 0
      go true = refl
      go false = refl

  pub bind_source-Tame :
      (w : World) (o : Option DataSourceType) (s : EngineState F V) → Tame s (bind_source w o s)
  unfolding bind_source
  bind_source-Tame w none s = same-Tame s s [] refl refl refl
  bind_source-Tame w (some type) s = same-Tame s _ _ refl refl refl

  poll-Tame :
      (now : TimePoint) (o : Option Candidate) (s : EngineState F V)
      → Tame s (dispatch_request (poll now o s.scheduler) s)
  unfolding dispatch_request poll
  poll-Tame now none s = same-Tame s s [] refl refl refl
  poll-Tame now (some c) s = mild-Tame s _ _ refl (omega arith) (omega arith)

  -- The request that is sent is the one that leaves the queue.
  next_of-Tame :
      (now : TimePoint) (rs : List ObdRequest) (s : EngineState F V)
      → s.scheduler.diagnostics ≡ rs
      → Tame s (dispatch_request (next_of now rs s.scheduler) s)
  unfolding dispatch_request next_of
  next_of-Tame now [] s h = poll-Tame now _ s
  next_of-Tame now (r ∷ rs) s h = record { queue = omega (arith, ap clears h); token = omega arith }

  next-Tame :
      (now : TimePoint) (s : EngineState F V) → Tame s (dispatch_request (next now s.scheduler) s)
  unfolding dispatch_request next
  next-Tame now s = go s.scheduler.in_flight
    where
      go :
          (b : Bool)
          → Tame s (
              dispatch_request
                (if b then (none, s.scheduler) else next_of now s.scheduler.diagnostics s.scheduler)
                s)
      go true = same-Tame s s [] refl refl refl
      go false = next_of-Tame now s.scheduler.diagnostics s refl

  dispatch_scheduler-Tame : (w : World) (s : EngineState F V) → Tame s (dispatch_scheduler w s)
  unfolding dispatch_scheduler
  dispatch_scheduler-Tame w s =
      if-Tame (is_some s.source && is_ready w.source_state) s _ _ (next-Tame w.steady s)
        (same-Tame s s [] refl refl refl)

  rescan-Tame : (o : Option (DiagnosticOperation F)) (s : EngineState F V) → Tame s ([], rescan o s)
  unfolding rescan
  rescan-Tame none s = same-Tame s s [] refl refl refl
  rescan-Tame (some op) s =
      if-keeps (is_clear op.kind) s _ s
        (enqueue-Tame (obd_request 0x03 0 ∷ obd_request 0x07 0 ∷ []) s (record s { operation = _ })
          refl refl (omega arith))
        (same-Tame s s [] refl refl refl)

  settle-Tame : (w : World) (s : EngineState F V) → Tame s ([], settle w s)
  unfolding settle
  settle-Tame w s =
      let h = rescan-Tame s.operation (record s { clear_settle_at = none }) in
      if-keeps (is_due s.clear_settle_at w.now) s _ s (record { queue = h.queue; token = h.token })
        (same-Tame s s [] refl refl refl)

  retry-Tame : (w : World) (s : EngineState F V) → Tame s (retry w s)
  unfolding retry
  retry-Tame w s =
      if-Tame (is_due s.reconnect_at w.steady) s _ _ (attempt_reconnect-Tame s)
        (same-Tame s s [] refl refl refl)

  pub turn-Tame : (w : World) (s : EngineState F V) → Tame s (turn w s)
  unfolding turn
  turn-Tame w s =
      ▸-Tame s _ (retry w)
        (▸-Tame s _ (λ u. ([], settle w u)) (dispatch_scheduler-Tame w s) (settle-Tame w))
        (retry-Tame w)
