-- ===== src/Engine/Phases.antt =====
-- engine_service.cpp: what a request that is done makes of a scan.
use rev_dash.Prelude.{
  ℕ, ◌≡◌, refl, ap, sym, ◌∙◌, Bool, true, false, not, ◌&&◌, Option, none, some, List, [], ◌∷◌, ◌++◌,
  ◌==◌, arith, if◌then◌else◌, All,
}
use rev_dash.Core.Error.{ok, success}
use rev_dash.Core.Types.{TimePoint, ObdMessage, ObdRequest, obd_request}
use rev_dash.Core.Float.{Float}
use rev_dash.Core.AsyncSource.{is_ready}
use rev_dash.Core.Diagnostics.{Text, DtcRecord}
use rev_dash.Drivers.Scheduler.{complete}
use rev_dash.Engine.State.{
  EngineEventType, DiagnosticOperation, World, Evaluator, Effect, EngineState, Outcome,
}
use rev_dash.Engine.Operation.{
  belongs, count_request, publish, describe_by, is_some, begin_scan, enqueue,
}
use rev_dash.Engine.Run.{complete_transmit}
use rev_dash.Engine.Finish.{
  deliver_scan, finish_scan, finish_described, scan_requested, requested, finish_request,
}
use rev_dash.Protocol.Diagnostics.Dtc.{deduplicate_dtcs}
use rev_dash.Engine.Reported.{if-Notes, Notes, Reports, codes, packets, packets-Reports, scanning}

module _ {F V : Type 0} (fl : Float F) (ev : Evaluator F V) where
  -- The scan has ended, its codes are in the snapshot that the engine keeps, and the caller has it.
  pub record Scanned (t : ℕ) (ds : List (DtcRecord F)) (s : EngineState F V) (out : Outcome F V)
      : Type 0 where
    pub codes_found : out.1.diagnostic_snapshot.dtcs ≡ deduplicate_dtcs ds
    pub ended : out.1.operation ≡ none
    pub answered :
        out.0
        ≡ publish EngineEventType.diagnostic_data_updated none s
          ++ Effect.answers_scan t (ok out.1.diagnostic_snapshot) ∷ []

  if-Scanned :
      (b : Bool) (t : ℕ) (ds : List (DtcRecord F)) (s : EngineState F V) (x y : Outcome F V)
      → b ≡ false
      → Scanned t ds s y
      → Scanned t ds s (if b then x else y)
  if-Scanned true t ds s x y e n = absurd (ground arith)
  if-Scanned false t ds s x y e n = n

  like-Scanned :
      (t : ℕ) (ds : List (DtcRecord F)) (s : EngineState F V) (x y : Outcome F V)
      → x ≡ y
      → Scanned t ds s y
      → Scanned t ds s x
  like-Scanned t ds s x y e h = rw e h

  -- A scan whose last request is done ends with what it has collected.
  finish_scan-Scanned :
      (w : World) (t n : ℕ) (asked : Bool) (code : Option Text) (ds : List (DtcRecord F))
      (s : EngineState F V)
      → s.dtc_database ≡ none
      → Scanned t ds s
          (finish_scan ev w (count_request success (scanning s.epoch t n asked code ds)) s)
  unfolding finish_scan finish_described deliver_scan count_request describe_by
  finish_scan-Scanned w t n asked code ds s h =
      like-Scanned t ds s _ _
        (ap
          (λ o.
            finish_described ev w (count_request success (scanning s.epoch t n asked code ds))
              (describe_by o (deduplicate_dtcs ds) none) s)
          h)
        (record { codes_found = refl; ended = refl; answered = refl })

  -- The last request of a scan that has asked for a freeze frame is done.
  pub finish_request-asked :
      (delay : TimePoint) (w : World) (t : ℕ) (code : Option Text) (ds : List (DtcRecord F))
      (s : EngineState F V)
      → s.dtc_database ≡ none
      → Scanned t ds s (
          finish_request ev w delay
            (obd_request 0x02 0x0c)
            success
            (some (scanning s.epoch t 1 true code ds))
            s)
  unfolding finish_request count_request requested scan_requested belongs
  finish_request-asked delay w t code ds s h =
      if-Scanned (not (s.epoch == s.epoch && true)) t ds s _ _ (ground arith)
        (finish_scan-Scanned w t 1 true code ds s h)

  -- The last request of a scan that has found nothing is done.
  pub finish_request-none :
      (delay : TimePoint) (w : World) (t : ℕ) (s : EngineState F V)
      → s.dtc_database ≡ none
      → Scanned t [] s (
          finish_request ev w delay
            (obd_request 0x07 0)
            success
            (some (scanning s.epoch t 1 false none []))
            s)
  unfolding finish_request count_request requested scan_requested belongs
  finish_request-none delay w t s h =
      if-Scanned (not (s.epoch == s.epoch && true)) t [] s _ _ (ground arith)
        (finish_scan-Scanned w t 1 false none [] s h)

  like-Notes :
      (s : EngineState F V) (o : Option (DiagnosticOperation F)) (x y : Outcome F V)
      → x ≡ y
      → Notes fl ev s y.1 o
      → Notes fl ev s x.1 o
  like-Notes s o x y e h = rw e h

  begin_scan-Notes :
      (w : World) (t : ℕ) (s : EngineState F V)
      → s.operation ≡ none
      → (is_some s.source && is_ready w.source_state) ≡ true
      → Notes fl ev s (begin_scan w (some t) s).1 (some (scanning s.epoch t 2 false none []))
  unfolding begin_scan enqueue
  begin_scan-Notes w t s h r = if-Notes fl ev (is_some s.operation) s _ _ _ (ap is_some h) (
      if-Notes fl ev (not (is_some s.source && is_ready w.source_state)) s _ _ _ (ap not r)
        (record { operation = refl; epoch = refl; database = refl }))

  -- The first of the two requests of a scan is done.
  first-Notes :
      (delay : TimePoint) (w : World) (round_trip t : ℕ) (ds : List (DtcRecord F))
      (u : EngineState F V)
      → u.operation ≡ some (scanning u.epoch t 2 false none ds)
      → Notes fl ev u
          (complete_transmit fl ev delay w u.epoch (obd_request 0x03 0) round_trip success u).1
          (some (scanning u.epoch t 1 false none ds))
  unfolding complete_transmit complete finish_request count_request belongs
  first-Notes delay w round_trip t ds u h =
      if-Notes fl ev (not (u.epoch == u.epoch)) u _ _ _ (ground arith) (
        like-Notes u _ _ _
          (ap
            (λ o.
              finish_request ev w delay (obd_request 0x03 0) success o
                (record u { scheduler = complete round_trip false u.scheduler }))
            h)
          (if-Notes fl ev (not (u.epoch == u.epoch && true)) u _ _ _ (ground arith)
            (record { operation = refl; epoch = refl; database = refl })))

  -- The second one is done, and records have been found: the freeze frame is asked for.
  second-Notes :
      (delay : TimePoint) (w : World) (round_trip t : ℕ) (d : DtcRecord F) (ds : List (DtcRecord F))
      (u : EngineState F V)
      → u.operation ≡ some (scanning u.epoch t 1 false none (d ∷ ds))
      → Notes fl ev u
          (complete_transmit fl ev delay w u.epoch (obd_request 0x07 0) round_trip success u).1
          (some (scanning u.epoch t 1 true (some d.code) (d ∷ ds)))
  unfolding complete_transmit complete finish_request count_request belongs requested scan_requested
      enqueue
  second-Notes delay w round_trip t d ds u h =
      if-Notes fl ev (not (u.epoch == u.epoch)) u _ _ _ (ground arith) (
        like-Notes u _ _ _
          (ap
            (λ o.
              finish_request ev w delay (obd_request 0x07 0) success o
                (record u { scheduler = complete round_trip false u.scheduler }))
            h)
          (if-Notes fl ev (not (u.epoch == u.epoch && true)) u _ _ _ (ground arith)
            (record { operation = refl; epoch = refl; database = refl })))

  -- The scan waits for `n` requests and has collected the records, without a database.
  pub record IsPhase (t n : ℕ) (asked : Bool) (code : Option Text) (ds : List (DtcRecord F))
      (u : EngineState F V) : Type 0 where
    pub operation : u.operation ≡ some (scanning u.epoch t n asked code ds)
    pub database : u.dtc_database ≡ none

  Notes-IsPhase :
      (s u : EngineState F V) (t n : ℕ) (asked : Bool) (code : Option Text)
      (ds : List (DtcRecord F))
      → s.dtc_database ≡ none
      → Notes fl ev s u (some (scanning s.epoch t n asked code ds))
      → IsPhase t n asked code ds u
  Notes-IsPhase s u t n asked code ds d h = record {
    operation = h.operation ∙ ap (λ e. some (scanning e t n asked code ds)) (sym h.epoch);
    database = h.database ∙ d;
  }

  pub begin_scan-IsPhase :
      (w : World) (t : ℕ) (s : EngineState F V)
      → s.operation ≡ none
      → (is_some s.source && is_ready w.source_state) ≡ true
      → s.dtc_database ≡ none
      → IsPhase t 2 false none [] (begin_scan w (some t) s).1
  begin_scan-IsPhase w t s h r d =
      Notes-IsPhase s _ t 2 false none [] d (begin_scan-Notes w t s h r)

  pub packets-IsPhase :
      (t n : ℕ) (asked : Bool) (code : Option Text) (found : List (DtcRecord F))
      (rs : List (ObdMessage × List (DtcRecord F))) (u : EngineState F V)
      → All (λ r. Reports r.0 r.1) rs
      → IsPhase t n asked code found u
      → IsPhase t n asked code (found ++ codes rs) (packets fl ev rs u)
  packets-IsPhase t n asked code found rs u all h =
      Notes-IsPhase u _ t n asked code (found ++ codes rs) h.database
        (packets-Reports fl ev rs u t n asked code found all h.operation)

  pub first-IsPhase :
      (delay : TimePoint) (w : World) (round_trip t : ℕ) (ds : List (DtcRecord F))
      (u : EngineState F V)
      → IsPhase t 2 false none ds u
      → IsPhase t 1 false none ds
          (complete_transmit fl ev delay w u.epoch (obd_request 0x03 0) round_trip success u).1
  first-IsPhase delay w round_trip t ds u h =
      Notes-IsPhase u _ t 1 false none ds h.database
        (first-Notes delay w round_trip t ds u h.operation)

  pub second-IsPhase :
      (delay : TimePoint) (w : World) (round_trip t : ℕ) (d : DtcRecord F) (ds : List (DtcRecord F))
      (u : EngineState F V)
      → IsPhase t 1 false none (d ∷ ds) u
      → IsPhase t 1 true
          (some d.code)
          (d ∷ ds)
          (complete_transmit fl ev delay w u.epoch (obd_request 0x07 0) round_trip success u).1
  second-IsPhase delay w round_trip t d ds u h =
      Notes-IsPhase u _ t 1 true (some d.code) (d ∷ ds) h.database
        (second-Notes delay w round_trip t d ds u h.operation)

  -- The completion of the last request, by what `finishDiagnosticRequest` makes of it.
  pub complete_transmit-Scanned :
      (delay : TimePoint) (w : World) (request : ObdRequest) (round_trip t : ℕ) (asked : Bool)
      (code : Option Text) (ds : List (DtcRecord F)) (u : EngineState F V)
      → u.operation ≡ some (scanning u.epoch t 1 asked code ds)
      → Scanned t ds
          (record u { scheduler = complete round_trip false u.scheduler })
          (finish_request ev w delay request success
            (some (scanning u.epoch t 1 asked code ds))
            (record u { scheduler = complete round_trip false u.scheduler }))
      → Scanned t ds u (complete_transmit fl ev delay w u.epoch request round_trip success u)
  unfolding complete_transmit complete
  complete_transmit-Scanned delay w request round_trip t asked code ds u h f =
      if-Scanned (not (u.epoch == u.epoch)) t ds u _ _ (ground arith) (
        like-Scanned t ds u _ _
          (ap
            (λ o.
              finish_request ev w delay request success o
                (record u { scheduler = complete round_trip false u.scheduler }))
            h)
          (record { codes_found = f.codes_found; ended = f.ended; answered = f.answered }))
