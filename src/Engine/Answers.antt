-- ===== src/Engine/Answers.antt =====
-- engine_service.cpp: no completion of a command is lost, and none is called twice.
use rev_dash.Prelude.{ℕ, ◌+◌, ◌≡◌, refl, not, List, [], ◌∷◌, ◌++◌, ◌==◌, arith}
use rev_dash.Core.Error.{Result, ok, err}
use rev_dash.Core.Types.{TimePoint, ObdRequest}
use rev_dash.Core.Float.{Float}
use rev_dash.Core.AsyncSource.Accounts.{held}
use rev_dash.Drivers.Scheduler.{complete}
use rev_dash.Engine.State.{World, Evaluator, EngineState, Outcome}
use rev_dash.Engine.Run.{
  complete_unsupported, Call, complete_transmit, step, run, notice_error, is_error,
}
use rev_dash.Engine.Accounts.{
  waiting, Fits, left, left-append, left-answers, Sound, if-Sound, told-Sound, silent-Sound,
}
use rev_dash.Engine.Ends.{finish_request-Sound}
use rev_dash.Engine.Commands.{
  begin_scan-Sound, identify-Sound, connect-Sound, connected-Sound, disconnected-Sound,
  disconnect-Sound, handle_source_state-Sound, reconnected-operation,
}
use rev_dash.Engine.Turns.{turn-Sound}
use rev_dash.Engine.Replies.{
  Sound-by, confirm-Sound, prepare_clear-Sound, process_packet-Sound, replace_source-Sound,
  reset_simulation-Sound, set_source-Sound,
}

module _ {F : Type 0} (t : ℕ) where
  -- How often a call hands over the completion; the source hands back what it was given.
  abbrev pub handed : Call F → ℕ
  handed (Call.sets_source source c) = held t c
  handed (Call.source_replaced source c) = held t c
  handed (Call.connects config c) = held t c
  handed (Call.connect_done c r) = held t c
  handed (Call.disconnects c) = held t c
  handed (Call.disconnect_done c r) = held t c
  handed (Call.scans c) = held t c
  handed (Call.identifies c) = held t c
  handed (Call.prepares token c) = held t c
  handed (Call.confirms token c) = held t c
  handed (Call.unsupported operation c) = held t c
  handed (Call.resets_simulation c) = held t c
  handed _ = 0

  abbrev pub submitted : List (World × Call F) → ℕ
  submitted [] = 0
  submitted ((w, c) ∷ cs) = handed c + submitted cs

module _ {F V : Type 0} (t : ℕ) (fl : Float F) (ev : Evaluator F V) (delay : TimePoint) where
  complete_transmit-Sound :
      (w : World) (epoch : ℕ) (request : ObdRequest) (round_trip : ℕ) (r : Result (Unit {0}))
      (s : EngineState F V)
      → Fits s.operation
      → Sound t
          (waiting t s.operation)
          (complete_transmit fl ev delay w epoch request round_trip r s)
  unfolding complete_transmit
  complete_transmit-Sound w epoch request round_trip r s f =
      if-Sound t (not (epoch == s.epoch)) _ _ _ (λ y. silent-Sound t s.operation [] s refl f refl)
        (λ n. after r _ _ (
          finish_request-Sound t ev w delay request r s.operation
            (record s { scheduler = complete round_trip (is_error r) s.scheduler }) refl f))
    where
      after :
          (q : Result (Unit {0})) (u : EngineState F V) (out : Outcome F V)
          → Sound t (waiting t s.operation) out
          → Sound t (waiting t s.operation) (notice_error q u ++ out.0, out.1)
      after (ok v) u out h = record { balance = h.balance; fits = h.fits }
      after (err e) u out h = record { balance = h.balance; fits = h.fits }

  step-Sound :
      (w : World) (c : Call F) (s : EngineState F V)
      → Fits s.operation
      → Sound t (handed t c + waiting t s.operation) (step fl ev delay w c s)
  unfolding step complete_unsupported
  step-Sound w (Call.sets_source source c) s f = set_source-Sound t fl ev w source c s f
  step-Sound w (Call.source_replaced source c) s f = replace_source-Sound t fl ev w source c s f
  step-Sound w (Call.connects config c) s f = connect-Sound t config c s.source s f
  step-Sound w (Call.connect_done c r) s f = connected-Sound t c r s f
  step-Sound w (Call.disconnects c) s f = disconnect-Sound t w c s f
  step-Sound w (Call.disconnect_done c r) s f = disconnected-Sound t c r s f
  step-Sound w (Call.scans c) s f = begin_scan-Sound t w c s f
  step-Sound w (Call.identifies c) s f = identify-Sound t w c s f
  step-Sound w (Call.prepares token c) s f = prepare_clear-Sound t fl ev w token c s f
  step-Sound w (Call.confirms token c) s f = confirm-Sound t fl ev w token c s.clear_token s f
  step-Sound w (Call.unsupported operation c) s f = told-Sound t _ _ s f (left-answers F t c _)
  step-Sound w (Call.resets_simulation c) s f = reset_simulation-Sound t fl ev w c s.source s f
  step-Sound w (Call.sets_supported_pids pids) s f =
      told-Sound t 0 [] (record s { scheduler = _ }) f refl
  step-Sound w (Call.sets_dtc_database d) s f =
      told-Sound t 0 [] (record s { dtc_database = d }) f refl
  step-Sound w (Call.source_state state e) s f =
      Sound-by t fl ev _ _ _ (omega arith) (handle_source_state-Sound t w state e s f)
  step-Sound w (Call.reconnect_done r) s f =
      Sound-by t fl ev _ _ _ (omega arith)
        (silent-Sound t s.operation [] _ (reconnected-operation t w r s) f refl)
  step-Sound w (Call.transmit_done epoch request round_trip r) s f =
      Sound-by t fl ev _ _ _ (omega arith)
        (complete_transmit-Sound w epoch request round_trip r s f)
  step-Sound w (Call.packet epoch m) s f =
      Sound-by t fl ev _ _ _ (omega arith) (process_packet-Sound t fl ev epoch m s f)
  step-Sound w Call.turns s f = Sound-by t fl ev _ _ _ (omega arith) (turn-Sound t w s f)

  -- In every run from a state whose operation holds completions of its own kind only, a completion
  -- that came in, or that the operation held before, has been called, has been given to the source, or
  -- is held by the operation after, and as often: none is lost and none is called twice.
  pub run-answers_all :
      (cs : List (World × Call F)) (s : EngineState F V)
      → Fits s.operation
      → submitted t cs + waiting t s.operation
        ≡ left t (run fl ev delay cs s).0 + waiting t (run fl ev delay cs s).1.operation
  unfolding run
  run-answers_all [] s f = refl
  run-answers_all ((w, c) ∷ cs) s f =
      let first = step-Sound w c s f in
      omega (
        arith,
        first.balance,
        run-answers_all cs (step fl ev delay w c s).1 first.fits,
        left-append t (step fl ev delay w c s).0 (run fl ev delay cs (step fl ev delay w c s).1).0,
      )
