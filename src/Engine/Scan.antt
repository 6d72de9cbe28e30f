-- ===== src/Engine/Scan.antt =====
-- engine_service.cpp: a scan answers with the codes that the messages reported.
use rev_dash.Prelude.{ℕ, some, List}
use rev_dash.Core.Error.{success}
use rev_dash.Core.Types.{TimePoint, ObdMessage, obd_request}
use rev_dash.Core.Float.{Float}
use rev_dash.Core.Diagnostics.{DtcRecord}
use rev_dash.Engine.State.{World, Evaluator, EngineState}
use rev_dash.Engine.Operation.{begin_scan}
use rev_dash.Engine.Run.{complete_transmit}
use rev_dash.Engine.Reported.{packets}

module _ {F V : Type 0} (fl : Float F) (ev : Evaluator F V) (delay : TimePoint) (w : World) where
  -- The engine when a scan has begun and messages have come, Mode 03 is done, and more have come.
  abbrev pub asked_both :
      ℕ
      → ℕ
      → List (ObdMessage × List (DtcRecord F))
      → List (ObdMessage × List (DtcRecord F))
      → EngineState F V
      → EngineState F V
  asked_both round_trip t rs more s =
      let first = packets fl ev rs (begin_scan w (some t) s).1 in
      packets fl ev more
        (complete_transmit fl ev delay w first.epoch (obd_request 0x03 0) round_trip success
          first).1

  -- The same when Mode 07 is done as well, and further messages have come.
  abbrev pub asked_frame :
      ℕ → List (ObdMessage × List (DtcRecord F)) → EngineState F V → EngineState F V
  asked_frame round_trip rest u =
      packets fl ev rest
        (complete_transmit fl ev delay w u.epoch (obd_request 0x07 0) round_trip success u).1
