-- ===== src/Engine/Authority.antt =====
-- engine_service.cpp: only a confirmed clear queues a Mode 04 request, and each uses up a preparation.
use rev_dash.Prelude.{
  ℕ, suc, ◌+◌, ◌≤◌, ◌⊎◌, ◌<◌, ◌≡◌, refl, ap, Bool, true, false, not, Option, none, some, List, [],
  ◌∷◌, arith, if◌then◌else◌, inl, inr, leb,
}
use rev_dash.Core.Error.{Result, ok, err}
use rev_dash.Core.Types.{TimePoint, DataSourceType}
use rev_dash.Core.Float.{Float}
use rev_dash.Core.Diagnostics.{Text, text_beq}
use rev_dash.Core.Source.{DataSourceConfig}
use rev_dash.Drivers.Scheduler.{set_supported_pids}
use rev_dash.Protocol.Diagnostics.Service.{make_clear_diagnostic_request}
use rev_dash.Engine.State.{
  Completion, World, Evaluator, ClearTokenState, Effect, EngineState, Outcome,
}
use rev_dash.Engine.Clear.{
  prepare, prepare_clear, unchanged, start_clear, clear_begun, confirm_safe, confirm_used, confirm,
}
use rev_dash.Engine.Run.{complete_unsupported, Call, step, run}
use rev_dash.Engine.Tame.{
  clears, sent, sent-append, sent-tell, tokens, load, Tame, same-Tame, clears-enqueue,
  clear_token-enqueue,
}
use rev_dash.Engine.TameCommands.{
  cleared-Tame, begin_scan-Tame, identify-Tame, connect-Tame, connected-Tame, disconnected-Tame,
  disconnect-Tame, handle_source_state-Tame, reconnected-Tame, turn-Tame,
}
use rev_dash.Engine.TamePackets.{
  replace_source-Tame, set_source-Tame, reset_simulation-Tame, process_packet-Tame,
  complete_transmit-Tame,
}
use rev_dash.Engine.Safety.{IsSafe, IsAuthorised, validate_clear_safety-IsSafe}

module _ {F V : Type 0} (fl : Float F) where
  -- What a confirmation does: it queues nothing, or it is authorised, queues one request and leaves no
  -- token.
  pub data Verdict (w : World) (text : Text) (s : EngineState F V) (out : Outcome F V)
      : Type 0 where
    refused : Tame s out → Verdict w text s out
    granted :
        IsAuthorised fl w text s
        → sent out.0 ≡ 0
        → clears out.1.scheduler.diagnostics ≡ suc (clears s.scheduler.diagnostics)
        → out.1.clear_token ≡ none
        → Verdict w text s out

  if-Verdict :
      (b : Bool) (w : World) (text : Text) (s : EngineState F V) (x y : Outcome F V)
      → (b ≡ true → Verdict w text s x)
      → (b ≡ false → Verdict w text s y)
      → Verdict w text s (if b then x else y)
  if-Verdict true w text s x y v k = v refl
  if-Verdict false w text s x y v k = k refl

  -- A token is good when it matches, has not expired, and nothing has changed.
  unchanged-IsAuthorised :
      (w : World) (text : Text) (token : ClearTokenState F) (o : Option DataSourceType)
      (config : Option (DataSourceConfig F)) (s : EngineState F V)
      → s.clear_token ≡ some token
      → text_beq token.preparation.confirmation_token text ≡ true
      → leb token.preparation.expires_at w.now ≡ false
      → s.source ≡ o
      → s.active_config ≡ config
      → unchanged fl token o config (record s { clear_token = none }) ≡ true
      → IsSafe fl w s
      → IsAuthorised fl w text s
  unfolding unchanged
  unchanged-IsAuthorised w text token none config s h m l a b u safe = absurd (ground arith)
  unchanged-IsAuthorised w text token (some type) none s h m l a b u safe = absurd (ground arith)
  unchanged-IsAuthorised w text token (some type) (some config) s h m l a b u safe = record {
    token = token;
    stands = h;
    matches = m;
    live = ground arith;
    same_epoch = ground arith;
    same_source = (type, a, ground arith);
    same_config = (config, b, ground arith);
    same_vehicle = ground arith;
    safe = safe;
  }

  confirm_safe-Verdict :
      (w : World) (text : Text) (c : Completion) (token : ClearTokenState F) (r : Result (Unit {0}))
      (s : EngineState F V)
      → (r ≡ ok tt → IsAuthorised fl w text s)
      → Verdict w text s (confirm_safe fl w c token r (record s { clear_token = none }))
  unfolding confirm_safe start_clear clear_begun
  confirm_safe-Verdict w text c token (err e) s h =
      refused (cleared-Tame s _ _ (sent-tell Effect.answers_clear (λ u r. refl) c _) refl refl)
  confirm_safe-Verdict w text c token (ok u) s h =
      granted (h refl) refl
        (omega (
          arith,
          clears-enqueue (make_clear_diagnostic_request ∷ [])
              (clear_begun fl w c token (record s { clear_token = none })),
        ))
        (clear_token-enqueue (make_clear_diagnostic_request ∷ [])
          (clear_begun fl w c token (record s { clear_token = none })))

  confirm-Verdict :
      (w : World) (text : Text) (c : Completion) (o : Option (ClearTokenState F))
      (s : EngineState F V)
      → s.clear_token ≡ o
      → Verdict w text s (confirm fl w text c o s)
  unfolding confirm confirm_used
  confirm-Verdict w text c none s h =
      refused (same-Tame s s _ (sent-tell Effect.answers_clear (λ u r. refl) c _) refl refl)
  confirm-Verdict w text c (some token) s h =
      let used : EngineState F V = record s { clear_token = none } in
      if-Verdict (not (text_beq token.preparation.confirmation_token text)) w text s _ _
        (λ y.
          refused (same-Tame s s _ (sent-tell Effect.answers_clear (λ u r. refl) c _) refl refl))
        (λ m.
          if-Verdict (leb token.preparation.expires_at w.now) w text s _ _
            (λ y.
              refused
                (cleared-Tame s _ _ (sent-tell Effect.answers_clear (λ u r. refl) c _) refl refl))
            (λ l.
              if-Verdict (not (unchanged fl token s.source s.active_config used)) w text s _ _
                (λ y.
                  refused (
                    cleared-Tame s _ _ (sent-tell Effect.answers_clear (λ u r. refl) c _) refl
                      refl))
                (λ k. confirm_safe-Verdict w text c token _ s (λ v.
                  unchanged-IsAuthorised w text token s.source s.active_config s h (undo m) l refl
                    refl (undo k) (safe_before (validate_clear_safety-IsSafe fl w used tt v))))))
    where
      undo : {b : Bool} → not b ≡ false → b ≡ true
      undo e = ground arith

      safe_before : IsSafe fl w (record s { clear_token = none }) → IsSafe fl w s
      safe_before x = record { linked = x.linked; idle = x.idle; stationary = x.stationary }

-- The call prepares a clear.
abbrev pub prepared : {F : Type 0} → Call F → ℕ
prepared (Call.prepares token c) = 1
prepared _ = 0

abbrev pub preparations : {F : Type 0} → List (World × Call F) → ℕ
preparations [] = 0
preparations ((w, c) ∷ cs) = prepared c + preparations cs

supported-Tame :
    {F V : Type 0} (pids : List ℕ) (s : EngineState F V)
    → Tame s ([], record s { scheduler = set_supported_pids pids s.scheduler })
unfolding set_supported_pids
supported-Tame pids s = record { queue = omega arith; token = omega arith }

module _ {F V : Type 0} (fl : Float F) (ev : Evaluator F V) (delay : TimePoint) where
  prepare-load :
      (w : World) (token : Text) (c : Completion) (r : Result (Unit {0}))
      (o : Option DataSourceType) (config : Option (DataSourceConfig F)) (s : EngineState F V)
      → s.clear_token ≡ none
      → (sent (prepare fl ev w token c r o config s).0 ≡ 0)
        × (clears (prepare fl ev w token c r o config s).1.scheduler.diagnostics
            ≡ clears s.scheduler.diagnostics)
        × (tokens (prepare fl ev w token c r o config s).1.clear_token ≤ 1)
  unfolding prepare
  prepare-load w token c (err e) o config s h =
      (sent-tell Effect.answers_prepare (λ u r. refl) c _, refl, omega (arith, ap tokens h))
  prepare-load w token c (ok u) (some type) (some config) s h =
      (sent-tell Effect.answers_prepare (λ u r. refl) c _, refl, omega arith)
  prepare-load w token c (ok u) none config s h = (refl, refl, omega (arith, ap tokens h))
  prepare-load w token c (ok u) (some type) none s h = (refl, refl, omega (arith, ap tokens h))

  prepare_clear-load :
      (w : World) (token : Text) (c : Completion) (s : EngineState F V)
      → (sent (prepare_clear fl ev w token c s).0 ≡ 0)
        × (clears (prepare_clear fl ev w token c s).1.scheduler.diagnostics
            ≡ clears s.scheduler.diagnostics)
        × (tokens (prepare_clear fl ev w token c s).1.clear_token ≤ 1)
  unfolding prepare_clear
  prepare_clear-load w token c s =
      prepare-load w token c _ s.source s.active_config (record s { clear_token = none }) refl

  step-Verdict :
      (w : World) (c : Call F) (s : EngineState F V)
      → Tame s (step fl ev delay w c s)
        ⊎ (((prepared c ≡ 1)
              × (sent (step fl ev delay w c s).0 ≡ 0)
              × (clears (step fl ev delay w c s).1.scheduler.diagnostics
                  ≡ clears s.scheduler.diagnostics)
              × (tokens (step fl ev delay w c s).1.clear_token ≤ 1))
            ⊎ ((text : Text) × (k : Completion) × (c ≡ Call.confirms text k)
                × Verdict fl w text s (step fl ev delay w c s)))
  unfolding step complete_unsupported
  step-Verdict w (Call.sets_source source c) s = inl (set_source-Tame fl ev w source c s)
  step-Verdict w (Call.source_replaced source c) s = inl (replace_source-Tame fl ev w source c s)
  step-Verdict w (Call.connects config c) s = inl (connect-Tame config c s.source s)
  step-Verdict w (Call.connect_done c r) s = inl (connected-Tame c r s)
  step-Verdict w (Call.disconnects c) s = inl (disconnect-Tame w c s)
  step-Verdict w (Call.disconnect_done c r) s = inl (disconnected-Tame c r s)
  step-Verdict w (Call.scans c) s = inl (begin_scan-Tame w c s)
  step-Verdict w (Call.identifies c) s = inl (identify-Tame w c s)
  step-Verdict w (Call.prepares token c) s =
      let (n, e, k) = prepare_clear-load w token c s in inr (inl (refl, n, e, k))
  step-Verdict w (Call.confirms text c) s =
      inr (inr (text, c, refl, confirm-Verdict fl w text c s.clear_token s refl))
  step-Verdict w (Call.unsupported operation c) s =
      inl (same-Tame s s _ (sent-tell Effect.answers (λ u r. refl) c _) refl refl)
  step-Verdict w (Call.resets_simulation c) s = inl (reset_simulation-Tame fl ev w c s.source s)
  step-Verdict w (Call.sets_supported_pids pids) s = inl (supported-Tame pids s)
  step-Verdict w (Call.sets_dtc_database d) s = inl (same-Tame s _ [] refl refl refl)
  step-Verdict w (Call.source_state state e) s = inl (handle_source_state-Tame w state e s)
  step-Verdict w (Call.reconnect_done r) s = inl (reconnected-Tame w r s)
  step-Verdict w (Call.transmit_done epoch request round_trip r) s =
      inl (complete_transmit-Tame fl ev delay w epoch request round_trip r s)
  step-Verdict w (Call.packet epoch m) s = inl (process_packet-Tame fl ev epoch m s)
  step-Verdict w Call.turns s = inl (turn-Tame w s)

  -- When a step of the engine puts one more Mode 04 request into the queue, then it is a confirmation,
  -- it is authorised by the token that stands, which the step uses up, and it puts in just one.
  pub step-IsAuthorised :
      (w : World) (c : Call F) (s : EngineState F V)
      → clears s.scheduler.diagnostics < clears (step fl ev delay w c s).1.scheduler.diagnostics
      → (text : Text) × (k : Completion) × (c ≡ Call.confirms text k)
        × IsAuthorised fl w text s
        × ((step fl ev delay w c s).1.clear_token ≡ none)
        × (clears (step fl ev delay w c s).1.scheduler.diagnostics
            ≡ suc (clears s.scheduler.diagnostics))
  step-IsAuthorised w c s h = elim (step-Verdict w c s) [
    | inl tame ↦ absurd (omega (arith, h, tame.queue))
    | inr (inl (p, n, e, k)) ↦ absurd (omega (arith, h, e))
    | inr (inr (text, k, e, refused tame)) ↦ absurd (omega (arith, h, tame.queue))
    | inr (inr (text, k, e, granted a n m t)) ↦ (text, k, e, a, t, m)
  ]

  step-load :
      (w : World) (c : Call F) (s : EngineState F V)
      → sent (step fl ev delay w c s).0 + load (step fl ev delay w c s).1 ≤ prepared c + load s
  step-load w c s = elim (step-Verdict w c s) [
    | inl tame ↦ omega (arith, tame.queue, tame.token)
    | inr (inl (p, n, e, k)) ↦ omega (arith, p, n, e, k)
    | inr (inr (text, k, e, refused tame)) ↦ omega (arith, tame.queue, tame.token)
    | inr (inr (text, k, e, granted a n m t)) ↦
        omega (arith, n, m, ap (tokens {F = F}) t, ap (tokens {F = F}) a.stands)
  ]

  -- In every run the Mode 04 requests that are sent, with those that are queued and the token at the
  -- end, are no more than those that were queued, the token at the start and the calls of
  -- `prepareClear`: each request that is sent uses up a preparation of its own.
  pub run-preparations :
      (cs : List (World × Call F)) (s : EngineState F V)
      → sent (run fl ev delay cs s).0 + load (run fl ev delay cs s).1 ≤ preparations cs + load s
  unfolding run
  run-preparations [] s = omega arith
  run-preparations ((w, c) ∷ cs) s = omega (
    arith,
    step-load w c s,
    run-preparations cs (step fl ev delay w c s).1,
    sent-append (step fl ev delay w c s).0 (run fl ev delay cs (step fl ev delay w c s).1).0,
  )
