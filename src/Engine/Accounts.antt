-- ===== src/Engine/Accounts.antt =====
-- engine_service.cpp: the completions that a diagnostic operation holds, and what calls them.
use rev_dash.Prelude.{
  ℕ, ◌+◌, ◌≡◌, refl, ap, Bool, true, false, Option, none, some, List, [], ◌∷◌, ◌++◌, arith,
  if◌then◌else◌,
}
use rev_dash.Core.Error.{Result}
use rev_dash.Core.Types.{ObdRequest}
use rev_dash.Core.AsyncSource.Accounts.{held}
use rev_dash.Core.Diagnostics.{EcuMetadata}
use rev_dash.Core.Diagnostics.Records.{DiagnosticSnapshot, ClearDtcPreparation, Mode04AuditRecord}
use rev_dash.Engine.State.{Completion, Kind, DiagnosticOperation, Effect, EngineState, Outcome, ◌▸◌}
use rev_dash.Engine.Operation.{is_some, tell, enqueue}

module _ (F : Type 0) where
  -- What no message changes of an operation.
  pub record Core : Type 0 where
    pub kind : Kind
    pub epoch : ℕ
    pub outstanding_requests : ℕ
    pub scan_completion : Completion
    pub identification_completion : Completion
    pub clear_completion : Completion
    pub audit : Option (Mode04AuditRecord F)

module _ {F : Type 0} where
  abbrev pub core : DiagnosticOperation F → Core F
  core op = record {
    kind = op.kind;
    epoch = op.epoch;
    outstanding_requests = op.outstanding_requests;
    scan_completion = op.scan_completion;
    identification_completion = op.identification_completion;
    clear_completion = op.clear_completion;
    audit = op.audit;
  }

  -- How often a completion stands in an operation.
  abbrev pub holds : ℕ → Core F → ℕ
  holds t c =
      held t c.scan_completion + held t c.identification_completion + held t c.clear_completion

  abbrev pub waiting : ℕ → Option (DiagnosticOperation F) → ℕ
  waiting t none = 0
  waiting t (some op) = holds t (core op)

  -- An operation holds a completion of its own kind only, and an audit record when it clears.
  abbrev pub Shape : Kind → Core F → Type 0
  Shape Kind.scan c = (c.identification_completion ≡ none) × (c.clear_completion ≡ none)
  Shape Kind.identify c = (c.scan_completion ≡ none) × (c.clear_completion ≡ none)
  Shape _ c =
      (c.scan_completion ≡ none) × (c.identification_completion ≡ none) × (is_some c.audit ≡ true)

  abbrev pub Fits : Option (DiagnosticOperation F) → Type 0
  Fits none = Unit
  Fits (some op) = Shape op.kind (core op)

  -- How often a list of effects calls the completion, or gives it to the source.
  abbrev pub left : ℕ → List (Effect F) → ℕ
  left t [] = 0
  left t (Effect.answers u r ∷ es) = held t (some u) + left t es
  left t (Effect.answers_scan u r ∷ es) = held t (some u) + left t es
  left t (Effect.answers_identify u r ∷ es) = held t (some u) + left t es
  left t (Effect.answers_prepare u r ∷ es) = held t (some u) + left t es
  left t (Effect.answers_clear u r ∷ es) = held t (some u) + left t es
  left t (Effect.asks_connect config c ∷ es) = held t c + left t es
  left t (Effect.asks_disconnect c ∷ es) = held t c + left t es
  left t (Effect.asks_replace source c ∷ es) = held t c + left t es
  left t (_ ∷ es) = left t es

  pub left-append : (t : ℕ) (es gs : List (Effect F)) → left t (es ++ gs) ≡ left t es + left t gs
  left-append t [] gs = omega arith
  left-append t (Effect.publishes e ∷ es) gs = left-append t es gs
  left-append t (Effect.answers u r ∷ es) gs = omega (arith, left-append t es gs)
  left-append t (Effect.answers_scan u r ∷ es) gs = omega (arith, left-append t es gs)
  left-append t (Effect.answers_identify u r ∷ es) gs = omega (arith, left-append t es gs)
  left-append t (Effect.answers_prepare u r ∷ es) gs = omega (arith, left-append t es gs)
  left-append t (Effect.answers_clear u r ∷ es) gs = omega (arith, left-append t es gs)
  left-append t (Effect.asks_connect config c ∷ es) gs = omega (arith, left-append t es gs)
  left-append t (Effect.asks_disconnect c ∷ es) gs = omega (arith, left-append t es gs)
  left-append t (Effect.asks_replace source c ∷ es) gs = omega (arith, left-append t es gs)
  left-append t (Effect.asks_reconnect ∷ es) gs = left-append t es gs
  left-append t (Effect.asks_transmit e r ∷ es) gs = left-append t es gs
  left-append t (Effect.binds e ∷ es) gs = left-append t es gs
  left-append t (Effect.records e m ∷ es) gs = left-append t es gs

module _ (F : Type 0) (t : ℕ) where
  pub left-answers :
      (c : Completion) (r : Result (Unit {0})) → left {F = F} t (tell Effect.answers c r) ≡ held t c
  left-answers none r = refl
  left-answers (some u) r = omega arith

  pub left-answers_scan :
      (c : Completion) (r : Result (DiagnosticSnapshot F))
      → left t (tell Effect.answers_scan c r) ≡ held t c
  left-answers_scan none r = refl
  left-answers_scan (some u) r = omega arith

  pub left-answers_identify :
      (c : Completion) (r : Result (List EcuMetadata))
      → left {F = F} t (tell Effect.answers_identify c r) ≡ held t c
  left-answers_identify none r = refl
  left-answers_identify (some u) r = omega arith

  pub left-answers_prepare :
      (c : Completion) (r : Result (ClearDtcPreparation F))
      → left t (tell Effect.answers_prepare c r) ≡ held t c
  left-answers_prepare none r = refl
  left-answers_prepare (some u) r = omega arith

  pub left-answers_clear :
      (c : Completion) (r : Result (Mode04AuditRecord F))
      → left t (tell Effect.answers_clear c r) ≡ held t c
  left-answers_clear none r = refl
  left-answers_clear (some u) r = omega arith

module _ {F : Type 0} (t : ℕ) where
  -- The `n` completions that came in have left or are held, by an operation that fits.
  pub record Sound {V : Type 0} (n : ℕ) (out : Outcome F V) : Type 0 where
    pub balance : n ≡ left t out.0 + waiting t out.1.operation
    pub fits : Fits out.1.operation

  -- A second thing that takes `m` more.
  pub ▸-Sound :
      {V : Type 0} (m n : ℕ) (out : Outcome F V) (f : EngineState F V → Outcome F V)
      → Sound n out
      → ((s : EngineState F V) → Fits s.operation → Sound (m + waiting t s.operation) (f s))
      → Sound (m + n) (out ▸ f)
  ▸-Sound m n out f a h = record {
    balance = omega (arith, a.balance, (h out.1 a.fits).balance, left-append t out.0 (f out.1).0);
    fits = (h out.1 a.fits).fits;
  }

  pub ▸-Sound_silent :
      {V : Type 0} (n : ℕ) (out : Outcome F V) (f : EngineState F V → Outcome F V)
      → Sound n out
      → ((s : EngineState F V) → Fits s.operation → Sound (waiting t s.operation) (f s))
      → Sound n (out ▸ f)
  ▸-Sound_silent n out f a h = record {
    balance = omega (arith, a.balance, (h out.1 a.fits).balance, left-append t out.0 (f out.1).0);
    fits = (h out.1 a.fits).fits;
  }

  pub if-Sound :
      {V : Type 0} (b : Bool) (n : ℕ) (x y : Outcome F V)
      → (b ≡ true → Sound n x)
      → (b ≡ false → Sound n y)
      → Sound n (if b then x else y)
  if-Sound true n x y v w = v refl
  if-Sound false n x y v w = w refl

  -- Effects that let `n` completions go, and a state with the operation of before.
  pub told-Sound :
      {V : Type 0} (n : ℕ) (es : List (Effect F)) (s : EngineState F V)
      → Fits s.operation
      → left t es ≡ n
      → Sound (n + waiting t s.operation) (es, s)
  told-Sound n es s h e = record { balance = omega (arith, e); fits = h }

  -- Effects that let no completion go.
  pub silent-Sound :
      {V : Type 0} (o : Option (DiagnosticOperation F)) (es : List (Effect F)) (s : EngineState F V)
      → s.operation ≡ o
      → Fits o
      → left t es ≡ 0
      → Sound (waiting t o) (es, s)
  silent-Sound o es s h f e = record { balance = omega (arith, e, ap (waiting t) h); fits = rw h f }

pub enqueue-operation :
    {F V : Type 0} (rs : List ObdRequest) (s : EngineState F V)
    → (enqueue rs s).operation ≡ s.operation
unfolding enqueue
enqueue-operation [] s = refl
enqueue-operation (r ∷ rs) s = enqueue-operation rs _
