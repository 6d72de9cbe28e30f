-- ===== src/Engine/Reported.antt =====
-- engine_service.cpp: the records that a scan collects from the messages of its ECUs.
use rev_dash.Prelude.{
  ℕ, suc, ◌≡◌, refl, ap, sym, ◌∙◌, Bool, true, false, not, ◌&&◌, ◌||◌, Option, some, List, [], ◌∷◌,
  ◌++◌, ◌==◌, arith, if◌then◌else◌, All, ltb, length, get_or,
}
use rev_dash.Core.Error.{ok}
use rev_dash.Core.Types.{ObdMessage, payload_of}
use rev_dash.Core.Float.{Float}
use rev_dash.Core.Diagnostics.{Text, DtcRecord}
use rev_dash.Engine.State.{Kind, Evaluator, DiagnosticOperation, EngineState, Outcome}
use rev_dash.Engine.Operation.{operation_of}
use rev_dash.Engine.Messages.{add_dtcs, take_message, handle_message, process_packet}
use rev_dash.Protocol.Diagnostics.Dtc.{decode_stored_dtcs, decode_pending_dtcs}

module _ {F : Type 0} where
  -- The message answers Mode 03 or Mode 07 with these codes.
  pub data Reports (m : ObdMessage) (ds : List (DtcRecord F)) : Type 0 where
    stored : get_or (payload_of m) 0 0 ≡ 0x43 → decode_stored_dtcs m ≡ ok ds → Reports m ds
    pending : get_or (payload_of m) 0 0 ≡ 0x47 → decode_pending_dtcs m ≡ ok ds → Reports m ds

  abbrev pub codes : List (ObdMessage × List (DtcRecord F)) → List (DtcRecord F)
  codes [] = []
  codes ((m, ds) ∷ rs) = ds ++ codes rs

  -- A scan that waits for `n` requests and has collected the records; `asked` says whether it has
  -- asked for the freeze frame of the code.
  abbrev pub scanning : ℕ → ℕ → ℕ → Bool → Option Text → List (DtcRecord F) → DiagnosticOperation F
  scanning epoch t n asked code ds = record (operation_of Kind.scan epoch n) {
    dtcs = ds;
    freeze_frame_dtc = code;
    freeze_frame_requested = asked;
    scan_completion = some t;
  }

-- The packets of a source, one after another.
unfoldable pub packets :
    {F V : Type 0}
    → Float F
    → Evaluator F V
    → List (ObdMessage × List (DtcRecord F))
    → EngineState F V
    → EngineState F V
unfolding process_packet
packets fl ev [] s = s
packets fl ev ((m, ds) ∷ rs) s = packets fl ev rs (process_packet fl ev s.epoch m s).1

module _ {F V : Type 0} (fl : Float F) (ev : Evaluator F V) where
  take_message-Reports :
      (m : ObdMessage) (ds : List (DtcRecord F)) (op : DiagnosticOperation F)
      → Reports m ds
      → take_message fl m op ≡ record op { dtcs = op.dtcs ++ ds }
  unfolding take_message add_dtcs
  take_message-Reports m ds op (stored h d) = rw (h, d) refl
  take_message-Reports m ds op (pending h d) = rw (h, d) refl

  -- What a report changes.
  pub record Notes (s after : EngineState F V) (o : Option (DiagnosticOperation F)) : Type 0 where
    pub operation : after.operation ≡ o
    pub epoch : after.epoch ≡ s.epoch
    pub database : after.dtc_database ≡ s.dtc_database

  not_empty :
      (m : ObdMessage) (b : ℕ)
      → get_or (payload_of m) 0 0 ≡ suc b
      → (length (payload_of m) == 0) ≡ false
  not_empty m b h = go (payload_of m) h
    where
      go : (xs : List ℕ) → get_or xs 0 0 ≡ suc b → (length xs == 0) ≡ false
      go [] k = absurd (omega (arith, k))
      go (x ∷ xs) k = ground arith

  handle_message-Reports :
      (m : ObdMessage) (ds : List (DtcRecord F)) (epoch t n : ℕ) (asked : Bool) (code : Option Text)
      (found : List (DtcRecord F))
      → Reports m ds
      → handle_message fl m epoch (some (scanning epoch t n asked code found))
        ≡ some (scanning epoch t n asked code (found ++ ds))
  unfolding handle_message
  handle_message-Reports m ds epoch t n asked code found r = go _ skipped
    where
      not_empty_of : Reports m ds → (length (payload_of m) == 0) ≡ false
      not_empty_of (stored h d) = not_empty m 0x42 h
      not_empty_of (pending h d) = not_empty m 0x46 h

      skipped : (not (epoch == epoch) || length (payload_of m) == 0) ≡ false
      skipped = ground (arith, not_empty_of r)

      go :
          (b : Bool)
          → b ≡ false
          → (if b
              then some (scanning epoch t n asked code found)
              else some (take_message fl m (scanning epoch t n asked code found)))
            ≡ some (scanning epoch t n asked code (found ++ ds))
      go true e = absurd (ground arith)
      go false e = ap some (take_message-Reports m ds (scanning epoch t n asked code found) r)

  pub if-Notes :
      (b : Bool) (s : EngineState F V) (o : Option (DiagnosticOperation F)) (x y : Outcome F V)
      → b ≡ false
      → Notes s y.1 o
      → Notes s (if b then x else y).1 o
  if-Notes true s o x y e n = absurd (ground arith)
  if-Notes false s o x y e n = n

  process_packet-Reports :
      (m : ObdMessage) (ds : List (DtcRecord F)) (s : EngineState F V) (t n : ℕ) (asked : Bool)
      (code : Option Text) (found : List (DtcRecord F))
      → Reports m ds
      → s.operation ≡ some (scanning s.epoch t n asked code found)
      → Notes s
          (process_packet fl ev s.epoch m s).1
          (some (scanning s.epoch t n asked code (found ++ ds)))
  unfolding process_packet
  process_packet-Reports m ds s t n asked code found r h =
      if-Notes (not (s.epoch == s.epoch)) s _ _ _ (ground arith) (
        if-Notes (not (ltb (length (payload_of m)) 2) && get_or (payload_of m) 0 0 == 0x41) s _ _ _
          (not_mode01 r)
          (record {
            operation =
                ap (handle_message fl m s.epoch) h
                ∙ handle_message-Reports m ds s.epoch t n asked code found r;
            epoch = refl;
            database = refl;
          }))
    where
      not_mode01 :
          Reports m ds
          → (not (ltb (length (payload_of m)) 2) && get_or (payload_of m) 0 0 == 0x41) ≡ false
      not_mode01 (stored k d) = ground (arith, k)
      not_mode01 (pending k d) = ground (arith, k)

  append_nil : (xs : List (DtcRecord F)) → xs ++ [] ≡ xs
  append_nil [] = refl
  append_nil (x ∷ xs) = ap (◌∷◌ x) (append_nil xs)

  pub append_assoc : (xs ys zs : List (DtcRecord F)) → (xs ++ ys) ++ zs ≡ xs ++ (ys ++ zs)
  append_assoc [] ys zs = refl
  append_assoc (x ∷ xs) ys zs = ap (◌∷◌ x) (append_assoc xs ys zs)

  pub packets-Reports :
      (rs : List (ObdMessage × List (DtcRecord F))) (s : EngineState F V) (t n : ℕ) (asked : Bool)
      (code : Option Text) (found : List (DtcRecord F))
      → All (λ r. Reports r.0 r.1) rs
      → s.operation ≡ some (scanning s.epoch t n asked code found)
      → Notes s (packets fl ev rs s) (some (scanning s.epoch t n asked code (found ++ codes rs)))
  unfolding packets
  packets-Reports [] s t n asked code found all h = record {
    operation = h ∙ ap (λ ds. some (scanning s.epoch t n asked code ds)) (sym (append_nil found));
    epoch = refl;
    database = refl;
  }
  packets-Reports ((m, ds) ∷ rs) s t n asked code found all h =
      let first = process_packet-Reports m ds s t n asked code found all.0 h in
      let after : EngineState F V = (process_packet fl ev s.epoch m s).1 in
      let rest = packets-Reports rs after t n asked code (found ++ ds) all.1 (
        first.operation
        ∙ ap (λ e. some (scanning e t n asked code (found ++ ds))) (sym first.epoch)) in
      record {
        operation =
            rest.operation
            ∙ ap (λ e. some (scanning e t n asked code ((found ++ ds) ++ codes rs))) first.epoch
            ∙ ap (λ x. some (scanning s.epoch t n asked code x)) (append_assoc found ds (codes rs));
        epoch = rest.epoch ∙ first.epoch;
        database = rest.database ∙ first.database;
      }
