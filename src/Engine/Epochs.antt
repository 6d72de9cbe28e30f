-- ===== src/Engine/Epochs.antt =====
-- engine_service.cpp: a new epoch, and what it leaves without effect.
use rev_dash.Prelude.{
  ℕ, suc, ◌≡◌, refl, ap, ◌∙◌, Bool, true, false, ◌&&◌, Option, none, some, [], ◌++◌, ◌==◌, arith,
  if◌then◌else◌,
}
use rev_dash.Core.Error.{Error, Result, err}
use rev_dash.Core.Types.{TimePoint, DataSourceType, ObdRequest, ObdMessage}
use rev_dash.Core.Float.{Float}
use rev_dash.Drivers.Scheduler.{initial, reset}
use rev_dash.Engine.State.{World, Evaluator, DiagnosticOperation, Effect, EngineState}
use rev_dash.Engine.Operation.{is_some, is_clearing, tell}
use rev_dash.Engine.Finish.{cancel}
use rev_dash.Engine.Messages.{process_packet}
use rev_dash.Engine.Link.{bind_source, next_epoch, invalidate_epoch}
use rev_dash.Engine.Run.{complete_transmit}
use rev_dash.Engine.Finish.{finish_audit, finish_clear}

module _ {F V : Type 0} where
  finish_audit-ends :
      (w : World) (e : Option Error) (op : DiagnosticOperation F) (o : _) (s : EngineState F V)
      → ((finish_audit w e op o s).1.epoch ≡ s.epoch)
        × ((finish_audit w e op o s).1.clear_token ≡ s.clear_token)
        × (is_some o ≡ true → (finish_audit w e op o s).1.operation ≡ none)
  unfolding finish_audit
  finish_audit-ends w e op none s = (refl, refl, λ h. absurd (ground arith))
  finish_audit-ends w e op (some a) s = (refl, refl, λ h. refl)

  cancel-ends :
      (w : World) (e : Error) (o : Option (DiagnosticOperation F)) (s : EngineState F V)
      → s.operation ≡ o
      → ((cancel w e o s).1.epoch ≡ s.epoch)
        × ((cancel w e o s).1.clear_token ≡ s.clear_token)
        × ((cancel w e o s).1.operation ≡ none)
  unfolding cancel finish_clear
  cancel-ends w e none s h = (refl, refl, h)
  cancel-ends w e (some op) s h = go (is_clearing op.kind && is_some op.audit) refl
    where
      ended : EngineState F V → Type 0
      ended u = (u.epoch ≡ s.epoch) × (u.clear_token ≡ s.clear_token) × (u.operation ≡ none)

      go :
          (b : Bool)
          → (is_clearing op.kind && is_some op.audit) ≡ b
          → ended
              (if b then finish_clear w (some e) op s else (
                tell Effect.answers_scan op.scan_completion (err e)
                    ++ tell Effect.answers_identify op.identification_completion (err e),
                record s { operation = none },
              )).1
      go true y =
          let (a, b, c) =
            finish_audit-ends w (some e) op op.audit (record s { operation = some op }) in
          (a, b, c (ground arith))
      go false n = (refl, refl, refl)

  bind_source-keeps :
      (w : World) (o : Option DataSourceType) (s : EngineState F V)
      → ((bind_source w o s).1.epoch ≡ s.epoch)
        × ((bind_source w o s).1.clear_token ≡ s.clear_token)
        × ((bind_source w o s).1.operation ≡ s.operation)
        × ((bind_source w o s).1.scheduler ≡ s.scheduler)
        × ((bind_source w o s).1.clear_settle_at ≡ s.clear_settle_at)
  unfolding bind_source
  bind_source-keeps w none s = (refl, refl, refl, refl, refl)
  bind_source-keeps w (some type) s = (refl, refl, refl, refl, refl)

module _ {F V : Type 0} (fl : Float F) (ev : Evaluator F V) where
  -- A packet of another epoch changes nothing.
  process_packet_stale :
      (epoch : ℕ) (m : ObdMessage) (s : EngineState F V)
      → (epoch == s.epoch) ≡ false
      → process_packet fl ev epoch m s ≡ ([], s)
  unfolding process_packet
  process_packet_stale epoch m s h = rw h refl

  complete_transmit_stale :
      (delay : TimePoint) (w : World) (epoch : ℕ) (request : ObdRequest) (round_trip : ℕ)
      (r : Result (Unit {0})) (s : EngineState F V)
      → (epoch == s.epoch) ≡ false
      → complete_transmit fl ev delay w epoch request round_trip r s ≡ ([], s)
  unfolding complete_transmit
  complete_transmit_stale delay w epoch request round_trip r s h = rw h refl

  older : (n m : ℕ) → m ≡ suc n → (n == m) ≡ false
  older n m h = ground (arith, h)

  -- A change of epoch ends the operation, withdraws the token, empties the scheduler and counts the
  -- epoch up by one; after it, packets and completed requests of the old epoch change nothing.
  pub invalidate_epoch_lem :
      (w : World) (s : EngineState F V)
      → let after = (invalidate_epoch fl ev w s).1 in
        (after.operation ≡ none)
        × (after.clear_token ≡ none)
        × (after.scheduler ≡ initial)
        × (after.clear_settle_at ≡ none)
        × (after.epoch ≡ suc s.epoch)
        × ((m : ObdMessage) → process_packet fl ev s.epoch m after ≡ ([], after))
        × ((delay : TimePoint) (v : World) (request : ObdRequest) (round_trip : ℕ)
              (r : Result (Unit {0}))
            → complete_transmit fl ev delay v s.epoch request round_trip r after ≡ ([], after))
  unfolding invalidate_epoch next_epoch reset
  invalidate_epoch_lem w s =
      let (e, t, o) = cancel-ends w _ s.operation (record s { clear_token = none }) refl in
      let (f, u, p, q, x) = bind_source-keeps w _ _ in
      let counted = f ∙ ap suc e in
      (
        p ∙ o,
        u ∙ t,
        q,
        x,
        counted,
        (λ m. process_packet_stale s.epoch m _ (older s.epoch _ counted)),
        (λ delay v request round_trip r.
            complete_transmit_stale delay v s.epoch request round_trip r _
              (older s.epoch _ counted)),
      )
