-- ===== src/Engine/Turns.antt =====
-- engine_service.cpp: the turns of the worker keep account of the completions.
use rev_dash.Prelude.{
  ℕ, ◌≡◌, refl, Bool, true, false, ◌&&◌, Option, none, some, [], ◌∷◌, arith, if◌then◌else◌,
}
use rev_dash.Core.Types.{ObdRequest, obd_request}
use rev_dash.Core.AsyncSource.{is_ready}
use rev_dash.Drivers.Scheduler.{AdaptivePidScheduler, next}
use rev_dash.Engine.State.{Kind, World, DiagnosticOperation, EngineState}
use rev_dash.Engine.Operation.{is_some, enqueue}
use rev_dash.Engine.Messages.{is_clear}
use rev_dash.Engine.Run.{dispatch_request, dispatch_scheduler, rescan, settle, retry, turn, is_due}
use rev_dash.Engine.Accounts.{
  Core, core, holds, waiting, Shape, Fits, Sound, ▸-Sound_silent, if-Sound, silent-Sound,
}
use rev_dash.Engine.Commands.{attempt_reconnect-Sound}

module _ {F V : Type 0} (t : ℕ) where
  dispatch_scheduler-Sound :
      (w : World) (s : EngineState F V)
      → Fits s.operation
      → Sound t (waiting t s.operation) (dispatch_scheduler w s)
  unfolding dispatch_scheduler dispatch_request
  dispatch_scheduler-Sound w s f =
      if-Sound t (is_some s.source && is_ready w.source_state) _ _ _
        (λ y. dispatched (next w.steady s.scheduler))
        (λ n. silent-Sound t s.operation [] s refl f refl)
    where
      dispatched :
          (p : Option ObdRequest × AdaptivePidScheduler)
          → Sound t (waiting t s.operation) (dispatch_request p s)
      dispatched (none, scheduler) =
          silent-Sound t s.operation [] (record s { scheduler = scheduler }) refl f refl
      dispatched (some r, scheduler) =
          silent-Sound t s.operation _ (record s { scheduler = scheduler }) refl f refl

  rescan-Sound :
      (o : Option (DiagnosticOperation F)) (s : EngineState F V)
      → s.operation ≡ o
      → Fits o
      → Sound t (waiting t o) ([], rescan o s)
  unfolding rescan enqueue
  rescan-Sound none s h f = silent-Sound t none [] s h tt refl
  rescan-Sound (some op) s h f = go (is_clear op.kind) refl
    where
      cleared :
          (k : Kind) (c : Core F) → is_clear k ≡ true → Shape k c → Shape Kind.post_clear_scan c
      cleared Kind.clear c y g = g
      cleared Kind.scan c y g = absurd (ground arith)
      cleared Kind.identify c y g = absurd (ground arith)
      cleared Kind.post_clear_scan c y g = absurd (ground arith)

      go :
          (b : Bool)
          → is_clear op.kind ≡ b
          → Sound t (holds t (core op)) (
            [],
            (if b
                then enqueue (obd_request 0x03 0 ∷ obd_request 0x07 0 ∷ []) (record s {
                  operation = some (record op {
                    kind = Kind.post_clear_scan;
                    outstanding_requests = 2;
                    dtcs = [];
                  });
                })
                else s),
          )
      go true y =
          silent-Sound t
            (some (record op { kind = Kind.post_clear_scan; outstanding_requests = 2; dtcs = [] }))
            [] _ refl (cleared op.kind (core op) y f) refl
      go false n = silent-Sound t (some op) [] s h f refl

  settle-Sound :
      (w : World) (s : EngineState F V)
      → Fits s.operation
      → Sound t (waiting t s.operation) ([], settle w s)
  unfolding settle
  settle-Sound w s f = go (is_due s.clear_settle_at w.now)
    where
      go :
          (b : Bool)
          → Sound t
              (waiting t s.operation)
              ([], (if b then rescan s.operation (record s { clear_settle_at = none }) else s))
      go true = rescan-Sound s.operation (record s { clear_settle_at = none }) refl f
      go false = silent-Sound t s.operation [] s refl f refl

  retry-Sound :
      (w : World) (s : EngineState F V)
      → Fits s.operation
      → Sound t (waiting t s.operation) (retry w s)
  unfolding retry
  retry-Sound w s f =
      if-Sound t (is_due s.reconnect_at w.steady) _ _ _ (λ y. attempt_reconnect-Sound t s f)
        (λ n. silent-Sound t s.operation [] s refl f refl)

  pub turn-Sound :
      (w : World) (s : EngineState F V)
      → Fits s.operation
      → Sound t (waiting t s.operation) (turn w s)
  unfolding turn
  turn-Sound w s f =
      ▸-Sound_silent t _ _ (retry w)
        (▸-Sound_silent t _ _ (λ u. ([], settle w u)) (dispatch_scheduler-Sound w s f)
          (settle-Sound w))
        (retry-Sound w)
