-- ===== src/Engine/Retries.antt =====
-- engine_service.cpp: how often the engine asks a source that keeps failing to reconnect.
use rev_dash.Prelude.{
  ℕ, ◌+◌, ◌-◌, ◌≤◌, ◌≡◌, refl, ap, Bool, true, false, ◌&&◌, ◌||◌, Option, none, some, List, [], ◌∷◌,
  ◌++◌, arith, if◌then◌else◌, All,
}
use rev_dash.Core.Error.{Error, err}
use rev_dash.Core.Types.{TimePoint, ConnectionState, ObdRequest}
use rev_dash.Core.Float.{Float}
use rev_dash.Core.AsyncSource.{is_ready, is_disconnected}
use rev_dash.Drivers.Scheduler.{AdaptivePidScheduler, next}
use rev_dash.Engine.State.{
  Completion, World, Evaluator, DiagnosticOperation, Effect, EngineState, Outcome, ◌▸◌,
}
use rev_dash.Engine.Operation.{is_some, is_clearing, tell, enqueue}
use rev_dash.Engine.Finish.{finish_audit, finish_clear, cancel}
use rev_dash.Engine.Link.{
  schedule_reconnect, attempt_reconnect, reconnected, note_state, handle_source_state, is_faulted,
  retryable_of,
}
use rev_dash.Engine.Run.{
  Call, dispatch_request, dispatch_scheduler, rescan, settle, retry, turn, step, run, is_due,
}

abbrev pub waits : Option TimePoint → ℕ
waits none = 0
waits (some at) = 1

due-waits : (o : Option TimePoint) (now : TimePoint) → is_due o now ≡ true → waits o ≡ 1
due-waits none now h = absurd (ground arith)
due-waits (some at) now h = refl

module _ {F : Type 0} where
  -- How often a source is asked to reconnect.
  abbrev pub asks : List (Effect F) → ℕ
  asks [] = 0
  asks (Effect.asks_reconnect ∷ es) = 1 + asks es
  asks (_ ∷ es) = asks es

  asks-append : (es gs : List (Effect F)) → asks (es ++ gs) ≡ asks es + asks gs
  asks-append [] gs = omega arith
  asks-append (Effect.publishes e ∷ es) gs = asks-append es gs
  asks-append (Effect.answers u r ∷ es) gs = asks-append es gs
  asks-append (Effect.answers_scan u r ∷ es) gs = asks-append es gs
  asks-append (Effect.answers_identify u r ∷ es) gs = asks-append es gs
  asks-append (Effect.answers_prepare u r ∷ es) gs = asks-append es gs
  asks-append (Effect.answers_clear u r ∷ es) gs = asks-append es gs
  asks-append (Effect.asks_connect config c ∷ es) gs = asks-append es gs
  asks-append (Effect.asks_disconnect c ∷ es) gs = asks-append es gs
  asks-append (Effect.asks_replace source c ∷ es) gs = asks-append es gs
  asks-append (Effect.asks_reconnect ∷ es) gs = omega (arith, asks-append es gs)
  asks-append (Effect.asks_transmit e r ∷ es) gs = asks-append es gs
  asks-append (Effect.binds e ∷ es) gs = asks-append es gs
  asks-append (Effect.records e m ∷ es) gs = asks-append es gs

  asks-tell {ℓ} :
      {A : Type ℓ} (answer : ℕ → A → Effect F)
      → ((u : ℕ) (a : A) → asks (answer u a ∷ []) ≡ 0)
      → (c : Completion) (a : A) → asks (tell answer c a) ≡ 0
  asks-tell answer h none a = refl
  asks-tell answer h (some u) a = h u a

  -- A change of the source's state, a reconnection that failed, or a turn.
  pub data IsTrouble : Call F → Type 0 where
    state_changes :
        (state : ConnectionState) (e : Option Error) → IsTrouble (Call.source_state state e)
    reconnect_fails : (e : Error) → IsTrouble (Call.reconnect_done (err e))
    takes_turn : IsTrouble Call.turns

  -- The attempts that are left of five, and the one that is waited for.
  abbrev pub attempts_left : {V : Type 0} → EngineState F V → ℕ
  attempts_left s = (5 - s.reconnect_attempt) + waits s.reconnect_at

  -- Each request to reconnect uses up an attempt.
  record IsPaid {V : Type 0} (s : EngineState F V) (out : Outcome F V) : Type 0 where
    paid : asks out.0 + attempts_left out.1 ≤ attempts_left s

asks_one : (F : Type 0) (b : Bool) → asks {F = F} (if b then Effect.asks_reconnect ∷ [] else []) ≤ 1
asks_one F true = omega arith
asks_one F false = omega arith

module _ {F V : Type 0} where
  ▸-IsPaid :
      (s : EngineState F V) (out : Outcome F V) (f : EngineState F V → Outcome F V)
      → IsPaid s out
      → ((u : EngineState F V) → IsPaid u (f u))
      → IsPaid s (out ▸ f)
  ▸-IsPaid s out f a h = record {
    paid = omega (arith, a.paid, (h out.1).paid, asks-append out.0 (f out.1).0);
  }

  if-IsPaid :
      (b : Bool) (s : EngineState F V) (x y : Outcome F V)
      → (b ≡ true → IsPaid s x)
      → (b ≡ false → IsPaid s y)
      → IsPaid s (if b then x else y)
  if-IsPaid true s x y v w = v refl
  if-IsPaid false s x y v w = w refl

  uncleared-IsPaid :
      (s : EngineState F V) (out : Outcome F V)
      → IsPaid (record s { clear_token = none }) out
      → IsPaid s out
  uncleared-IsPaid s out h = record { paid = h.paid }

  -- Nothing is asked, and the attempts are those of before.
  same-IsPaid :
      (s u : EngineState F V) (es : List (Effect F))
      → asks es ≡ 0
      → u.reconnect_attempt ≡ s.reconnect_attempt
      → u.reconnect_at ≡ s.reconnect_at
      → IsPaid s (es, u)
  same-IsPaid s u es h j k = record { paid = omega (arith, h, j, ap waits k) }

  finish_audit-IsPaid :
      (w : World) (e : Option Error) (op : DiagnosticOperation F) (o : _) (s : EngineState F V)
      → IsPaid s (finish_audit w e op o s)
  unfolding finish_audit
  finish_audit-IsPaid w e op none s = same-IsPaid s s [] refl refl refl
  finish_audit-IsPaid w e op (some a) s =
      same-IsPaid s _ _ (asks-tell Effect.answers_clear (λ u r. refl) op.clear_completion _) refl
        refl

  cancel-IsPaid :
      (w : World) (e : Error) (o : Option (DiagnosticOperation F)) (s : EngineState F V)
      → IsPaid s (cancel w e o s)
  unfolding cancel finish_clear
  cancel-IsPaid w e none s = same-IsPaid s s [] refl refl refl
  cancel-IsPaid w e (some op) s =
      if-IsPaid (is_clearing op.kind && is_some op.audit) s _ _
        (λ y. record {
          paid =
              (finish_audit-IsPaid w (some e) op op.audit (record s { operation = some op })).paid;
        })
        (λ n.
          same-IsPaid s (record s { operation = none }) _
            (omega (
              arith,
              asks-append (tell Effect.answers_scan op.scan_completion (err e))
                  (tell Effect.answers_identify op.identification_completion (err e)),
              asks-tell Effect.answers_scan (λ u r. refl) op.scan_completion (err e),
              asks-tell Effect.answers_identify (λ u r. refl) op.identification_completion (err e),
            ))
            refl refl)

  -- A new attempt is one of those that are left.
  schedule_reconnect-left :
      (w : World) (s : EngineState F V) → attempts_left (schedule_reconnect w s) ≤ attempts_left s
  unfolding schedule_reconnect
  schedule_reconnect-left w s = ground arith

  note_state-IsPaid :
      (w : World) (state : ConnectionState) (e : Option Error) (s : EngineState F V)
      → IsPaid s (note_state w state e s)
  unfolding note_state
  note_state-IsPaid w state e s =
      let noted : EngineState F V = record s { connection_state = state } in
      record {
        paid = omega (
          arith,
          go (is_faulted state && retryable_of e && is_some s.active_config)
              (schedule_reconnect-left w noted),
        );
      }
    where
      go :
          (b : Bool)
          → attempts_left (schedule_reconnect w (record s { connection_state = state }))
            ≤ attempts_left s
          → attempts_left (
              if b
              then schedule_reconnect w (record s { connection_state = state })
              else record s { connection_state = state })
            ≤ attempts_left s
      go true h = h
      go false h = omega arith

  handle_source_state-IsPaid :
      (w : World) (state : ConnectionState) (e : Option Error) (s : EngineState F V)
      → IsPaid s (handle_source_state w state e s)
  unfolding handle_source_state
  handle_source_state-IsPaid w state e s =
      let cleared : EngineState F V = record s { clear_token = none } in
      let told = cancel-IsPaid w _ s.operation cleared in
      let noted = note_state-IsPaid w state e cleared in
      if-IsPaid (is_ready state) s _ _ (λ y. note_state-IsPaid w state e s)
        (λ n.
          if-IsPaid (is_faulted state || is_disconnected state) s _ _
            (λ y.
              ▸-IsPaid s _ (note_state w state e) (uncleared-IsPaid s _ told)
                (note_state-IsPaid w state e))
            (λ m. record { paid = noted.paid }))

  retry-IsPaid : (w : World) (s : EngineState F V) → IsPaid s (retry w s)
  unfolding retry attempt_reconnect
  retry-IsPaid w s =
      if-IsPaid (is_due s.reconnect_at w.steady) s _ _
        (λ y. record {
          paid = omega (
            arith,
            asks_one F (is_some s.source && is_some s.active_config),
            due-waits s.reconnect_at w.steady y,
          );
        })
        (λ n. same-IsPaid s s [] refl refl refl)

  dispatch_scheduler-IsPaid : (w : World) (s : EngineState F V) → IsPaid s (dispatch_scheduler w s)
  unfolding dispatch_scheduler dispatch_request
  dispatch_scheduler-IsPaid w s =
      if-IsPaid (is_some s.source && is_ready w.source_state) s _ _
        (λ y. dispatched (next w.steady s.scheduler)) (λ n. same-IsPaid s s [] refl refl refl)
    where
      dispatched : (p : Option ObdRequest × AdaptivePidScheduler) → IsPaid s (dispatch_request p s)
      dispatched (none, scheduler) = same-IsPaid s _ [] refl refl refl
      dispatched (some r, scheduler) = same-IsPaid s _ _ refl refl refl

  rescan-left :
      (o : Option (DiagnosticOperation F)) (s : EngineState F V) → IsPaid s ([], rescan o s)
  unfolding rescan enqueue
  rescan-left none s = same-IsPaid s s [] refl refl refl
  rescan-left (some op) s = record { paid = ground arith }

  settle-IsPaid : (w : World) (s : EngineState F V) → IsPaid s ([], settle w s)
  unfolding settle
  settle-IsPaid w s =
      go (is_due s.clear_settle_at w.now)
        (omega (arith, (rescan-left s.operation (record s { clear_settle_at = none })).paid))
    where
      go :
          (b : Bool)
          → attempts_left (rescan s.operation (record s { clear_settle_at = none }))
            ≤ attempts_left s
          → IsPaid s
              ([], (if b then rescan s.operation (record s { clear_settle_at = none }) else s))
      go true h = record { paid = omega (arith, h) }
      go false h = same-IsPaid s s [] refl refl refl

  turn-IsPaid : (w : World) (s : EngineState F V) → IsPaid s (turn w s)
  unfolding turn
  turn-IsPaid w s =
      ▸-IsPaid s _ (retry w)
        (▸-IsPaid s _ (λ u. ([], settle w u)) (dispatch_scheduler-IsPaid w s) (settle-IsPaid w))
        (retry-IsPaid w)

module _ {F V : Type 0} (fl : Float F) (ev : Evaluator F V) (delay : TimePoint) where
  step-IsPaid :
      (w : World) (c : Call F) (s : EngineState F V)
      → IsTrouble c
      → IsPaid s (step fl ev delay w c s)
  unfolding step reconnected
  step-IsPaid w _ s (IsTrouble.state_changes state e) = handle_source_state-IsPaid w state e s
  step-IsPaid w _ s (IsTrouble.reconnect_fails e) = record {
    paid = omega (arith, schedule_reconnect-left w s);
  }
  step-IsPaid w _ s IsTrouble.takes_turn = turn-IsPaid w s

  -- While the source only changes its state and reconnections only fail, in any order with the turns of
  -- the engine, the source is asked to reconnect at most as often as attempts are left of five, and
  -- once more if an attempt is waited for at the start; what is asked and what is left at the end are
  -- together no more than that.
  pub run-attempts_left :
      (cs : List (World × Call F)) (s : EngineState F V)
      → All (λ c. IsTrouble c.1) cs
      → asks (run fl ev delay cs s).0 + attempts_left (run fl ev delay cs s).1 ≤ attempts_left s
  unfolding run
  run-attempts_left [] s h = omega arith
  run-attempts_left ((w, c) ∷ cs) s h =
      let first = step-IsPaid w c s h.0 in
      let out = step fl ev delay w c s in
      omega (
        arith,
        first.paid,
        run-attempts_left cs out.1 h.1,
        asks-append out.0 (run fl ev delay cs out.1).0,
      )
