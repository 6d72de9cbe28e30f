-- ===== src/Engine/Ends.antt =====
-- engine_service.cpp: the end of an operation calls what it holds.
use rev_dash.Prelude.{
  ℕ, ◌+◌, ◌-◌, ◌⊎◌, ◌≡◌, refl, ap, ◌∙◌, Bool, true, false, not, ◌&&◌, Option, none, some, List, [],
  ◌∷◌, ◌==◌, arith, Bool-cases, inl, inr,
}
use rev_dash.Core.Error.{Error, Result, ok, err}
use rev_dash.Core.Types.{TimePoint, ObdRequest}
use rev_dash.Core.AsyncSource.Accounts.{held}
use rev_dash.Core.Diagnostics.{DtcRecord}
use rev_dash.Core.Diagnostics.Records.{DiagnosticSnapshot, Mode04AuditRecord}
use rev_dash.Engine.State.{Kind, World, Evaluator, DiagnosticOperation, Effect, EngineState}
use rev_dash.Engine.Operation.{
  is_some, belongs, is_clearing, tell, enqueue, rescanned, transmitted, count_request,
  answered_positively,
}
use rev_dash.Engine.Finish.{
  finish_audit, finish_clear, deliver_scan, cancel, finish_identification, clear_requested,
  finish_scan, finish_described, scan_requested, requested, finish_request,
}
use rev_dash.Engine.Accounts.{
  Core, core, holds, waiting, Shape, Fits, left-append, left-answers_scan, left-answers_identify,
  left-answers_clear, Sound, if-Sound, silent-Sound,
}

-- Only a clear holds a `clear_completion`, and only it has an audit record.
abbrev Clearing : {F : Type 0} → Core F → Type 0
Clearing c =
    (c.scan_completion ≡ none) × (c.identification_completion ≡ none) × (is_some c.audit ≡ true)

module _ {F : Type 0} where
  while_erasing : (k : Kind) (c : Core F) → is_clearing k ≡ true → Shape k c → Clearing c
  while_erasing Kind.scan c y h = absurd (ground arith)
  while_erasing Kind.identify c y h = absurd (ground arith)
  while_erasing Kind.clear c y h = h
  while_erasing Kind.post_clear_scan c y h = h

  while_reading :
      (k : Kind) (c : Core F) → is_clearing k ≡ false → Shape k c → c.clear_completion ≡ none
  while_reading Kind.scan c y h = h.1
  while_reading Kind.identify c y h = h.1
  while_reading Kind.clear c y h = absurd (ground arith)
  while_reading Kind.post_clear_scan c y h = absurd (ground arith)

  is_some-rescanned :
      (ds : List (DtcRecord F)) (o : Option (Mode04AuditRecord F))
      → is_some (rescanned ds o) ≡ is_some o
  is_some-rescanned ds none = refl
  is_some-rescanned ds (some a) = refl

  is_some-answered_positively :
      (o : Option (Mode04AuditRecord F)) → is_some (answered_positively o) ≡ is_some o
  is_some-answered_positively none = refl
  is_some-answered_positively (some a) = refl

  is_some-transmitted :
      (k : Kind) (r : Result (Unit {0})) (o : Option (Mode04AuditRecord F))
      → is_some (transmitted k r o) ≡ is_some o
  is_some-transmitted Kind.scan r o = refl
  is_some-transmitted Kind.identify r o = refl
  is_some-transmitted Kind.post_clear_scan r o = refl
  is_some-transmitted Kind.clear (ok u) none = refl
  is_some-transmitted Kind.clear (ok u) (some a) = refl
  is_some-transmitted Kind.clear (err e) o = refl

  -- The shape does not depend on what an audit record says.
  Shape-audit :
      (k : Kind) (c : Core F) (o : Option (Mode04AuditRecord F)) (n : ℕ)
      → is_some o ≡ is_some c.audit
      → Shape k c
      → Shape k (record c { audit = o; outstanding_requests = n })
  Shape-audit Kind.scan c o n e h = h
  Shape-audit Kind.identify c o n e h = h
  Shape-audit Kind.clear c o n e h = (h.0, h.1, e ∙ h.2)
  Shape-audit Kind.post_clear_scan c o n e h = (h.0, h.1, e ∙ h.2)

module _ {F V : Type 0} (t : ℕ) where
  finish_audit-Sound :
      (w : World) (e : Option Error) (op : DiagnosticOperation F) (o : Option (Mode04AuditRecord F))
      (s : EngineState F V)
      → is_some o ≡ true
      → op.scan_completion ≡ none
      → op.identification_completion ≡ none
      → Sound t (holds t (core op)) (finish_audit w e op o s)
  unfolding finish_audit
  finish_audit-Sound w e op none s h a b = absurd (ground arith)
  finish_audit-Sound w e op (some audit) s h a b = record {
    balance =
        omega (arith, left-answers_clear F t op.clear_completion _, ap (held t) a, ap (held t) b);
    fits = tt;
  }

  finish_clear-Sound :
      (w : World) (e : Option Error) (op : DiagnosticOperation F) (s : EngineState F V)
      → Clearing (core op)
      → Sound t (holds t (core op)) (finish_clear w e op s)
  unfolding finish_clear
  finish_clear-Sound w e op s h = finish_audit-Sound w e op op.audit _ h.2 h.0 h.1

  pub cancel-Sound :
      (w : World) (e : Error) (o : Option (DiagnosticOperation F)) (s : EngineState F V)
      → s.operation ≡ o
      → Fits o
      → Sound t (waiting t o) (cancel w e o s)
  unfolding cancel
  cancel-Sound w e none s h f = silent-Sound t none [] s h tt refl
  cancel-Sound w e (some op) s h f =
      if-Sound t _ _ _ _
        (λ y. finish_clear-Sound w (some e) op s (while_erasing op.kind (core op) (audited y) f))
        (λ n. record {
          balance = omega (
            arith,
            left-append t (tell Effect.answers_scan op.scan_completion (err e))
                (tell Effect.answers_identify op.identification_completion (err e)),
            left-answers_scan F t op.scan_completion (err e),
            left-answers_identify F t op.identification_completion (err e),
            ap (held t) (unaudited n),
          );
          fits = tt;
        })
    where
      audited : (is_clearing op.kind && is_some op.audit) ≡ true → is_clearing op.kind ≡ true
      audited y = ground arith

      unaudited : (is_clearing op.kind && is_some op.audit) ≡ false → op.clear_completion ≡ none
      unaudited n = elim (Bool-cases (is_clearing op.kind)) [
        | inl y ↦ absurd (ground (arith, while_erasing op.kind (core op) y f))
        | inr m ↦ while_reading op.kind (core op) m f
      ]

  finish_identification-Sound :
      (op : DiagnosticOperation F) (s : EngineState F V)
      → Shape Kind.identify (core op)
      → Sound t (holds t (core op)) (finish_identification op s)
  unfolding finish_identification
  finish_identification-Sound op s h = record {
    balance = omega (
      arith,
      left-answers_identify F t op.identification_completion _,
      ap (held t) h.0,
      ap (held t) h.1,
    );
    fits = tt;
  }

  deliver_scan-Sound :
      (w : World) (k : Kind) (op : DiagnosticOperation F) (snapshot : DiagnosticSnapshot F)
      (s : EngineState F V)
      → (k ≡ Kind.scan) ⊎ (k ≡ Kind.post_clear_scan)
      → Shape k (core op)
      → Sound t (holds t (core op)) (deliver_scan w k op snapshot s)
  unfolding deliver_scan
  deliver_scan-Sound w Kind.scan op snapshot s k h = record {
    balance =
        omega (arith, left-answers_scan F t op.scan_completion _, ap (held t) h.0, ap (held t) h.1);
    fits = tt;
  }
  deliver_scan-Sound w Kind.post_clear_scan op snapshot s k h =
      finish_clear-Sound w op.error (record op { audit = rescanned snapshot.dtcs op.audit }) s
        (h.0, h.1, is_some-rescanned snapshot.dtcs op.audit ∙ h.2)
  deliver_scan-Sound w Kind.identify op snapshot s k h = absurd (ground arith)
  deliver_scan-Sound w Kind.clear op snapshot s k h = absurd (ground arith)

  clear_requested-Sound :
      (w : World) (delay : TimePoint) (e : Option Error) (op : DiagnosticOperation F)
      (s : EngineState F V)
      → Fits (some op)
      → Shape Kind.clear (core op)
      → Sound t (holds t (core op)) (clear_requested w delay e op s)
  unfolding clear_requested
  clear_requested-Sound w delay (some e) op s f h = finish_clear-Sound w (some e) op s h
  clear_requested-Sound w delay none op s f h =
      if-Sound t (not op.positive_clear_response) _ _ _ (λ y. finish_clear-Sound w _ op s h)
        (λ n.
          silent-Sound t (some (record op { audit = answered_positively op.audit })) []
            (record s {
              operation = some (record op { audit = answered_positively op.audit });
              clear_settle_at = some (w.now + delay);
            })
            refl
            (Shape-audit op.kind (core op) (answered_positively op.audit) op.outstanding_requests
              (is_some-answered_positively op.audit) f)
            refl)

module _ {F V : Type 0} (t : ℕ) (ev : Evaluator F V) where
  finish_scan-Sound :
      (w : World) (op : DiagnosticOperation F) (s : EngineState F V)
      → (op.kind ≡ Kind.scan) ⊎ (op.kind ≡ Kind.post_clear_scan)
      → Fits (some op)
      → Sound t (holds t (core op)) (finish_scan ev w op s)
  unfolding finish_scan finish_described
  finish_scan-Sound w op s k f =
      let rest = deliver_scan-Sound t w op.kind (record op { error = _ }) _ _ k f in
      record { balance = rest.balance; fits = rest.fits }

  scan_requested-Sound :
      (w : World) (asked : Bool) (ds : List (DtcRecord F)) (op : DiagnosticOperation F)
      (s : EngineState F V)
      → (op.kind ≡ Kind.scan) ⊎ (op.kind ≡ Kind.post_clear_scan)
      → Fits (some op)
      → Sound t (holds t (core op)) (scan_requested ev w asked ds op s)
  unfolding scan_requested enqueue
  scan_requested-Sound w true ds op s k f = finish_scan-Sound w op s k f
  scan_requested-Sound w false [] op s k f = finish_scan-Sound w op s k f
  scan_requested-Sound w false (d ∷ ds) op s k f = record {
    balance = omega arith;
    fits = Shape-audit op.kind (core op) op.audit 1 refl f;
  }

  requested-Sound :
      (w : World) (delay : TimePoint) (k : Kind) (op : DiagnosticOperation F) (s : EngineState F V)
      → op.kind ≡ k
      → Fits (some op)
      → Shape k (core op)
      → Sound t (holds t (core op)) (requested ev w delay k op s)
  unfolding requested
  requested-Sound w delay Kind.scan op s e f h = scan_requested-Sound w _ _ op s (inl e) f
  requested-Sound w delay Kind.post_clear_scan op s e f h =
      scan_requested-Sound w _ _ op s (inr e) f
  requested-Sound w delay Kind.identify op s e f h = finish_identification-Sound t op s h
  requested-Sound w delay Kind.clear op s e f h = clear_requested-Sound t w delay op.error op s f h

  pub finish_request-Sound :
      (w : World) (delay : TimePoint) (request : ObdRequest) (r : Result (Unit {0}))
      (o : Option (DiagnosticOperation F)) (s : EngineState F V)
      → s.operation ≡ o
      → Fits o
      → Sound t (waiting t o) (finish_request ev w delay request r o s)
  unfolding finish_request count_request
  finish_request-Sound w delay request r none s e f = silent-Sound t none [] s e tt refl
  finish_request-Sound w delay request r (some op) s e f =
      let counted =
        Shape-audit op.kind (core op) (transmitted op.kind r op.audit) (op.outstanding_requests - 1)
          (is_some-transmitted op.kind r op.audit) f in
      if-Sound t (not (op.epoch == s.epoch && belongs op.kind request.mode)) _ _ _
        (λ y. silent-Sound t (some op) [] s e f refl)
        (λ n.
          if-Sound t (not (op.outstanding_requests - 1 == 0)) _ _ _
            (λ y.
              silent-Sound t (some (count_request r op)) []
                (record s { operation = some (count_request r op) }) refl counted refl)
            (λ m. requested-Sound w delay op.kind (count_request r op) s refl counted counted))
