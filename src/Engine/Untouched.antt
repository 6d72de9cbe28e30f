-- ===== src/Engine/Untouched.antt =====
-- engine_service.cpp: a message leaves alone what an operation waits for, and whom it answers.
use rev_dash.Prelude.{
  ℕ, ◌≡◌, refl, ap, Bool, true, false, not, ◌&&◌, ◌||◌, Option, none, some, List, ◌==◌,
  if◌then◌else◌, ltb, length, get_or,
}
use rev_dash.Core.Error.{Result, ok, err}
use rev_dash.Core.Types.{ObdMessage, payload_of}
use rev_dash.Core.Float.{Float}
use rev_dash.Core.Diagnostics.{Text, DtcRecord, EcuMetadata, FreezeFrame}
use rev_dash.Engine.State.{DiagnosticOperation}
use rev_dash.Engine.Messages.{
  is_clear, take_refusal, add_dtcs, add_frame, take_frame, add_merged, add_metadata,
  take_clear_response, take_message, handle_message,
}
use rev_dash.Engine.Accounts.{Core, core, holds, waiting, Shape, Fits}

module _ {F : Type 0} where
  add_frame-core :
      (ecu : _) (r : Option (Result (FreezeFrame F))) (op : DiagnosticOperation F)
      → core (add_frame ecu r op) ≡ core op
  unfolding add_frame
  add_frame-core ecu none op = refl
  add_frame-core ecu (some (err e)) op = refl
  add_frame-core ecu (some (ok frame)) op = refl

  add_dtcs-core :
      (r : Result (List (DtcRecord F))) (op : DiagnosticOperation F)
      → core (add_dtcs r op) ≡ core op
  unfolding add_dtcs
  add_dtcs-core (err e) op = refl
  add_dtcs-core (ok ds) op = refl

  add_merged-core :
      (r : Result (Unit {0}) × List EcuMetadata) (op : DiagnosticOperation F)
      → core (add_merged r op) ≡ core op
  unfolding add_merged
  add_merged-core (ok u, ms) op = refl
  add_merged-core (err e, ms) op = refl

  add_metadata-core :
      (r : Result EcuMetadata) (op : DiagnosticOperation F) → core (add_metadata r op) ≡ core op
  unfolding add_metadata
  add_metadata-core (err e) op = refl
  add_metadata-core (ok m) op = add_merged-core _ op

  take_clear_response-core :
      (r : Result (Unit {0})) (op : DiagnosticOperation F)
      → core (take_clear_response r op) ≡ core op
  unfolding take_clear_response
  take_clear_response-core (err e) op = refl
  take_clear_response-core (ok u) op = refl

  if-core :
      (b : Bool) (x y op : DiagnosticOperation F)
      → core x ≡ core op
      → core y ≡ core op
      → core (if b then x else y) ≡ core op
  if-core true x y op v w = v
  if-core false x y op v w = w

  take_refusal-core :
      (payload : List ℕ) (op : DiagnosticOperation F) → core (take_refusal payload op) ≡ core op
  unfolding take_refusal
  take_refusal-core payload op =
      if-core (is_clear op.kind && not (ltb (length payload) 2) && get_or payload 1 0 == 0x04) _ _
        op refl refl

  Shape-same : (c d : Core F) → d ≡ c → Shape c.kind c → Shape d.kind d
  Shape-same c d e h = rw e h

module _ {F : Type 0} (fl : Float F) where
  take_frame-core :
      (m : ObdMessage) (code : Option Text) (op : DiagnosticOperation F)
      → core (take_frame fl m code op) ≡ core op
  unfolding take_frame
  take_frame-core m none op = refl
  take_frame-core m (some code) op = add_frame-core _ _ op

  -- A message changes no completion of an operation, nor what it waits for.
  take_message-core :
      (m : ObdMessage) (op : DiagnosticOperation F) → core (take_message fl m op) ≡ core op
  unfolding take_message
  take_message-core m op = if-core (first == 0x7f) _ _ op (take_refusal-core _ op) (
      if-core (first == 0x43) _ _ op (add_dtcs-core _ op) (
        if-core (first == 0x47) _ _ op (add_dtcs-core _ op) (
          if-core (first == 0x42) _ _ op (take_frame-core m op.freeze_frame_dtc op) (
            if-core (first == 0x49 && not (ltb (length (payload_of m)) 2)) _ _ op
              (add_metadata-core _ op)
              (if-core (first == 0x44 && is_clear op.kind) _ _ op (take_clear_response-core _ op)
                refl)))))
    where
      first : ℕ
      first = get_or (payload_of m) 0 0

  pub waiting-handle_message :
      (t : ℕ) (m : ObdMessage) (epoch : ℕ) (o : Option (DiagnosticOperation F))
      → waiting t (handle_message fl m epoch o) ≡ waiting t o
  unfolding handle_message
  waiting-handle_message t m epoch none = refl
  waiting-handle_message t m epoch (some op) =
      go (not (op.epoch == epoch) || length (payload_of m) == 0)
    where
      go :
          (b : Bool)
          → waiting t (if b then some op else some (take_message fl m op)) ≡ waiting t (some op)
      go true = refl
      go false = ap (holds t) (take_message-core m op)

  pub handle_message-Fits :
      (m : ObdMessage) (epoch : ℕ) (o : Option (DiagnosticOperation F))
      → Fits o
      → Fits (handle_message fl m epoch o)
  unfolding handle_message
  handle_message-Fits m epoch none h = tt
  handle_message-Fits m epoch (some op) h =
      go (not (op.epoch == epoch) || length (payload_of m) == 0)
    where
      go : (b : Bool) → Fits (if b then some op else some (take_message fl m op))
      go true = h
      go false = Shape-same (core op) (core (take_message fl m op)) (take_message-core m op) h
