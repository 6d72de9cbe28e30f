-- ===== src/Engine/Tame.antt =====
-- engine_service.cpp: which operations of the engine queue or send no clear request, and make no token.
use rev_dash.Prelude.{
  ℕ, ◌+◌, ◌≤◌, ◌≡◌, refl, ap, ◌∙◌, Bool, true, false, not, ◌&&◌, Option, none, some, List, [], ◌∷◌,
  ◌++◌, ◌==◌, arith, if◌then◌else◌,
}
use rev_dash.Core.Error.{Error, Result, err}
use rev_dash.Core.Types.{TimePoint, ObdRequest, obd_request}
use rev_dash.Core.Diagnostics.{DtcRecord}
use rev_dash.Drivers.Scheduler.{enqueue_diagnostic}
use rev_dash.Engine.State.{
  Completion, Kind, World, Evaluator, DiagnosticOperation, ClearTokenState, Effect, EngineState,
  Outcome, ◌▸◌,
}
use rev_dash.Engine.Operation.{belongs, count_request, is_some, is_clearing, tell, enqueue}
use rev_dash.Engine.Finish.{cancel}
use rev_dash.Engine.Finish.{
  finish_audit, finish_clear, deliver_scan, finish_identification, clear_requested, finish_scan,
  finish_described, scan_requested, requested, finish_request,
}

-- The Mode 04 requests of a queue.
abbrev pub clears : List ObdRequest → ℕ
clears [] = 0
clears (r ∷ rs) = (if r.mode == 0x04 then 1 else 0) + clears rs

pub clears-append : (rs qs : List ObdRequest) → clears (rs ++ qs) ≡ clears rs + clears qs
clears-append [] qs = omega arith
clears-append (r ∷ rs) qs = omega (arith, clears-append rs qs)

module _ {F : Type 0} where
  -- The Mode 04 requests that are sent.
  abbrev pub sent : List (Effect F) → ℕ
  sent [] = 0
  sent (Effect.asks_transmit epoch r ∷ es) = (if r.mode == 0x04 then 1 else 0) + sent es
  sent (_ ∷ es) = sent es

  pub sent-append : (es gs : List (Effect F)) → sent (es ++ gs) ≡ sent es + sent gs
  sent-append [] gs = omega arith
  sent-append (Effect.publishes e ∷ es) gs = sent-append es gs
  sent-append (Effect.answers u r ∷ es) gs = sent-append es gs
  sent-append (Effect.answers_scan u r ∷ es) gs = sent-append es gs
  sent-append (Effect.answers_identify u r ∷ es) gs = sent-append es gs
  sent-append (Effect.answers_prepare u r ∷ es) gs = sent-append es gs
  sent-append (Effect.answers_clear u r ∷ es) gs = sent-append es gs
  sent-append (Effect.asks_connect config c ∷ es) gs = sent-append es gs
  sent-append (Effect.asks_disconnect c ∷ es) gs = sent-append es gs
  sent-append (Effect.asks_replace source c ∷ es) gs = sent-append es gs
  sent-append (Effect.asks_reconnect ∷ es) gs = sent-append es gs
  sent-append (Effect.asks_transmit e r ∷ es) gs = omega (arith, sent-append es gs)
  sent-append (Effect.binds e ∷ es) gs = sent-append es gs
  sent-append (Effect.records e m ∷ es) gs = sent-append es gs

  pub sent-tell {ℓ} :
      {A : Type ℓ} (answer : ℕ → A → Effect F)
      → ((u : ℕ) (a : A) → sent (answer u a ∷ []) ≡ 0)
      → (c : Completion) (a : A) → sent (tell answer c a) ≡ 0
  sent-tell answer h none a = refl
  sent-tell answer h (some u) a = h u a

  -- How many tokens stand.
  abbrev pub tokens : Option (ClearTokenState F) → ℕ
  tokens none = 0
  tokens (some token) = 1

  -- The Mode 04 requests that the queue holds, and the token that may bring in one more.
  abbrev pub load : {V : Type 0} → EngineState F V → ℕ
  load s = clears s.scheduler.diagnostics + tokens s.clear_token

  -- No request is sent that the queue does not lose, none comes into it, and no token is made.
  pub record Tame {V : Type 0} (s : EngineState F V) (out : Outcome F V) : Type 0 where
    pub queue : sent out.0 + clears out.1.scheduler.diagnostics ≤ clears s.scheduler.diagnostics
    pub token : tokens out.1.clear_token ≤ tokens s.clear_token

module _ {F V : Type 0} where
  pub ▸-Tame :
      (s : EngineState F V) (out : Outcome F V) (f : EngineState F V → Outcome F V)
      → Tame s out
      → ((u : EngineState F V) → Tame u (f u))
      → Tame s (out ▸ f)
  ▸-Tame s out f a h = record {
    queue = omega (arith, a.queue, (h out.1).queue, sent-append out.0 (f out.1).0);
    token = omega (arith, a.token, (h out.1).token);
  }

  pub if-Tame :
      (b : Bool) (s : EngineState F V) (x y : Outcome F V)
      → Tame s x
      → Tame s y
      → Tame s (if b then x else y)
  if-Tame true s x y v w = v
  if-Tame false s x y v w = w

  -- Effects that send nothing, and a state with a queue and a token of before.
  pub mild-Tame :
      (s u : EngineState F V) (es : List (Effect F))
      → sent es ≡ 0
      → clears u.scheduler.diagnostics ≤ clears s.scheduler.diagnostics
      → tokens u.clear_token ≤ tokens s.clear_token
      → Tame s (es, u)
  mild-Tame s u es h j k = record { queue = omega (arith, h, j); token = k }

  -- The same, where both are just those of before.
  pub same-Tame :
      (s u : EngineState F V) (es : List (Effect F))
      → sent es ≡ 0
      → u.scheduler ≡ s.scheduler
      → u.clear_token ≡ s.clear_token
      → Tame s (es, u)
  same-Tame s u es h j k = record {
    queue = omega (arith, h, ap (λ x. clears x.diagnostics) j);
    token = omega (arith, ap tokens k);
  }

  finish_audit-Tame :
      (w : World) (e : Option Error) (op : DiagnosticOperation F) (o : _) (s : EngineState F V)
      → Tame s (finish_audit w e op o s)
  unfolding finish_audit
  finish_audit-Tame w e op none s = same-Tame s s [] refl refl refl
  finish_audit-Tame w e op (some a) s =
      same-Tame s _ _ (sent-tell Effect.answers_clear (λ u r. refl) op.clear_completion _) refl refl

  -- What is true after a change of the operation is true before it.
  finish_clear-Tame :
      (w : World) (e : Option Error) (op : DiagnosticOperation F) (s : EngineState F V)
      → Tame s (finish_clear w e op s)
  unfolding finish_clear
  finish_clear-Tame w e op s =
      let h = finish_audit-Tame w e op op.audit (record s { operation = some op }) in
      record { queue = h.queue; token = h.token }

  pub cancel-Tame :
      (w : World) (e : Error) (o : Option (DiagnosticOperation F)) (s : EngineState F V)
      → Tame s (cancel w e o s)
  unfolding cancel
  cancel-Tame w e none s = same-Tame s s [] refl refl refl
  cancel-Tame w e (some op) s =
      if-Tame (is_clearing op.kind && is_some op.audit) s _ _ (finish_clear-Tame w (some e) op s) (
        same-Tame s (record s { operation = none }) _
          (sent-append (tell Effect.answers_scan op.scan_completion (err e))
              (tell Effect.answers_identify op.identification_completion (err e))
            ∙ omega (
              arith,
              sent-tell {F = F} Effect.answers_scan (λ u r. refl) op.scan_completion (err e),
              sent-tell {F = F} Effect.answers_identify (λ u r. refl) op.identification_completion
                  (err e),
            ))
          refl refl)

  deliver_scan-Tame :
      (w : World) (k : Kind) (op : DiagnosticOperation F) (x : _) (s : EngineState F V)
      → Tame s (deliver_scan w k op x s)
  unfolding deliver_scan
  deliver_scan-Tame w Kind.post_clear_scan op x s = finish_clear-Tame w _ _ s
  deliver_scan-Tame w Kind.scan op x s =
      same-Tame s _ _ (sent-tell Effect.answers_scan (λ u r. refl) op.scan_completion _) refl refl
  deliver_scan-Tame w Kind.identify op x s =
      same-Tame s _ _ (sent-tell Effect.answers_scan (λ u r. refl) op.scan_completion _) refl refl
  deliver_scan-Tame w Kind.clear op x s =
      same-Tame s _ _ (sent-tell Effect.answers_scan (λ u r. refl) op.scan_completion _) refl refl

  finish_identification-Tame :
      (op : DiagnosticOperation F) (s : EngineState F V) → Tame s (finish_identification op s)
  unfolding finish_identification
  finish_identification-Tame op s =
      same-Tame s _ _
        (sent-tell Effect.answers_identify (λ u r. refl) op.identification_completion _) refl refl

  clear_requested-Tame :
      (w : World) (delay : TimePoint) (e : Option Error) (op : DiagnosticOperation F)
      (s : EngineState F V)
      → Tame s (clear_requested w delay e op s)
  unfolding clear_requested
  clear_requested-Tame w delay (some e) op s = finish_clear-Tame w (some e) op s
  clear_requested-Tame w delay none op s =
      if-Tame (not op.positive_clear_response) s _ _ (finish_clear-Tame w _ op s)
        (same-Tame s _ [] refl refl refl)

  pub clears-enqueue :
      (rs : List ObdRequest) (s : EngineState F V)
      → clears (enqueue rs s).scheduler.diagnostics ≡ clears s.scheduler.diagnostics + clears rs
  unfolding enqueue enqueue_diagnostic
  clears-enqueue [] s = omega arith
  clears-enqueue (r ∷ rs) s = omega (
    arith,
    clears-enqueue rs (record s { scheduler = enqueue_diagnostic r s.scheduler }),
    clears-append s.scheduler.diagnostics (r ∷ []),
  )

  pub clear_token-enqueue :
      (rs : List ObdRequest) (s : EngineState F V) → (enqueue rs s).clear_token ≡ s.clear_token
  unfolding enqueue
  clear_token-enqueue [] s = refl
  clear_token-enqueue (r ∷ rs) s = clear_token-enqueue rs _

  -- Requests of other modes.
  pub enqueue-Tame :
      (rs : List ObdRequest) (s u : EngineState F V)
      → clears rs ≡ 0
      → u.scheduler ≡ s.scheduler
      → tokens u.clear_token ≤ tokens s.clear_token
      → Tame s ([], enqueue rs u)
  enqueue-Tame rs s u h j k =
      mild-Tame s (enqueue rs u) [] refl
        (omega (arith, clears-enqueue rs u, h, ap (λ x. clears x.diagnostics) j))
        (omega (arith, ap tokens (clear_token-enqueue rs u), k))

module _ {F V : Type 0} (ev : Evaluator F V) where
  finish_scan-Tame :
      (w : World) (op : DiagnosticOperation F) (s : EngineState F V)
      → Tame s (finish_scan ev w op s)
  unfolding finish_scan finish_described
  finish_scan-Tame w op s =
      let h =
        deliver_scan-Tame w op.kind (record op { error = _ }) _
          (record s { diagnostic_snapshot = _ }) in
      record { queue = h.queue; token = h.token }

  scan_requested-Tame :
      (w : World) (asked : Bool) (ds : List (DtcRecord F)) (op : DiagnosticOperation F)
      (s : EngineState F V)
      → Tame s (scan_requested ev w asked ds op s)
  unfolding scan_requested
  scan_requested-Tame w true ds op s = finish_scan-Tame w op s
  scan_requested-Tame w false [] op s = finish_scan-Tame w op s
  scan_requested-Tame w false (d ∷ ds) op s =
      enqueue-Tame (obd_request 0x02 0x0c ∷ []) s (record s { operation = _ }) refl refl
        (omega arith)

  requested-Tame :
      (w : World) (delay : TimePoint) (k : Kind) (op : DiagnosticOperation F) (s : EngineState F V)
      → Tame s (requested ev w delay k op s)
  unfolding requested
  requested-Tame w delay Kind.scan op s = scan_requested-Tame w _ _ op s
  requested-Tame w delay Kind.post_clear_scan op s = scan_requested-Tame w _ _ op s
  requested-Tame w delay Kind.identify op s = finish_identification-Tame op s
  requested-Tame w delay Kind.clear op s = clear_requested-Tame w delay op.error op s

  pub finish_request-Tame :
      (w : World) (delay : TimePoint) (request : ObdRequest) (r : Result (Unit {0}))
      (o : Option (DiagnosticOperation F)) (s : EngineState F V)
      → Tame s (finish_request ev w delay request r o s)
  unfolding finish_request
  finish_request-Tame w delay request r none s = same-Tame s s [] refl refl refl
  finish_request-Tame w delay request r (some op) s =
      if-Tame (not (op.epoch == s.epoch && belongs op.kind request.mode)) s _ _
        (same-Tame s s [] refl refl refl)
        (if-Tame (not ((count_request r op).outstanding_requests == 0)) s _ _
          (same-Tame s _ [] refl refl refl) (requested-Tame w delay op.kind (count_request r op) s))
