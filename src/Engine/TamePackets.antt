-- ===== src/Engine/TamePackets.antt =====
-- engine_service.cpp: packets, answers and changes of the source queue no clear request and make no
-- token.
use rev_dash.Prelude.{
  ℕ, suc, ◌≡◌, refl, ap, ◌∙◌, Bool, true, false, not, ◌&&◌, Option, none, some, List, [], ◌∷◌, ◌++◌,
  ◌==◌, arith, if◌then◌else◌, ltb, length, get_or,
}
use rev_dash.Core.Error.{Result, ok, err}
use rev_dash.Core.Types.{TimePoint, DataSourceType, ObdRequest, ObdMessage, payload_of}
use rev_dash.Core.Float.{Float}
use rev_dash.Core.AsyncSource.{is_disconnected}
use rev_dash.Core.Store.{set_epoch}
use rev_dash.Core.Telemetry.{TelemetrySample}
use rev_dash.Drivers.Scheduler.{reset, complete}
use rev_dash.Engine.State.{
  Completion, EngineEventType, World, Evaluator, Effect, EngineState, Outcome,
}
use rev_dash.Engine.Operation.{is_some, publish}
use rev_dash.Engine.Messages.{ingest, take_samples, process_packet}
use rev_dash.Engine.Link.{
  acknowledge, next_epoch, invalidate_epoch, replace_source, set_source, reset_simulation,
  blank_sample,
}
use rev_dash.Engine.Run.{complete_transmit, notice_error, is_error}
use rev_dash.Engine.Tame.{
  clears, sent, sent-append, sent-tell, tokens, Tame, ▸-Tame, if-Tame, same-Tame, cancel-Tame,
  finish_request-Tame,
}
use rev_dash.Engine.TameCommands.{acknowledge-Tame, bind_source-Tame, cleared-Tame, uncleared-Tame}

module _ {F V : Type 0} (fl : Float F) (ev : Evaluator F V) where
  invalidate_epoch-Tame : (w : World) (s : EngineState F V) → Tame s (invalidate_epoch fl ev w s)
  unfolding invalidate_epoch next_epoch reset
  invalidate_epoch-Tame w s =
      ▸-Tame s _ (next_epoch fl ev w)
        (uncleared-Tame s _ (cancel-Tame w _ s.operation (record s { clear_token = none })))
        (λ u. rebound u (bind_source-Tame w u.source _))
    where
      rebound :
          (u : EngineState F V)
          → Tame
              (record u {
                clear_settle_at = none;
                scheduler = reset u.scheduler;
                epoch = suc u.epoch;
                evaluator = ev.set_epoch (suc u.epoch) u.evaluator;
                telemetry = set_epoch (blank_sample fl w) w.steady w.utc (suc u.epoch);
              })
              (next_epoch fl ev w u)
          → Tame u (next_epoch fl ev w u)
      rebound u h = record { queue = omega (arith, h.queue); token = h.token }

  pub replace_source-Tame :
      (w : World) (source : Option DataSourceType) (c : Completion) (s : EngineState F V)
      → Tame s (replace_source fl ev w source c s)
  unfolding replace_source
  replace_source-Tame w source c s =
      let h = invalidate_epoch-Tame w (record s {
        source = source;
        active_config = none;
        reconnect_at = none;
        reconnect_attempt = 0;
        reconnect_count = 0;
      }) in
      ▸-Tame s _ (acknowledge c) (record { queue = h.queue; token = h.token }) (acknowledge-Tame c)

  pub set_source-Tame :
      (w : World) (source : Option DataSourceType) (c : Completion) (s : EngineState F V)
      → Tame s (set_source fl ev w source c s)
  unfolding set_source
  set_source-Tame w source c s =
      if-Tame (is_some s.source && not (is_disconnected w.source_state)) s _ _
        (cleared-Tame s _ _ refl refl refl)
        (uncleared-Tame s _ (replace_source-Tame w source c (record s { clear_token = none })))

  pub reset_simulation-Tame :
      (w : World) (c : Completion) (o : Option DataSourceType) (s : EngineState F V)
      → Tame s (reset_simulation fl ev w c o s)
  unfolding reset_simulation
  reset_simulation-Tame w c (some DataSourceType.synthetic) s =
      ▸-Tame s _ (acknowledge c) (invalidate_epoch-Tame w s) (acknowledge-Tame c)
  reset_simulation-Tame w c none s =
      same-Tame s s _ (sent-tell Effect.answers (λ u r. refl) c _) refl refl
  reset_simulation-Tame w c (some DataSourceType.serial_elm327) s =
      same-Tame s s _ (sent-tell Effect.answers (λ u r. refl) c _) refl refl
  reset_simulation-Tame w c (some DataSourceType.playback) s =
      same-Tame s s _ (sent-tell Effect.answers (λ u r. refl) c _) refl refl
  reset_simulation-Tame w c (some DataSourceType.socket_can) s =
      same-Tame s s _ (sent-tell Effect.answers (λ u r. refl) c _) refl refl

  ingest-keeps :
      (xs : List (TelemetrySample F)) (s : EngineState F V)
      → ((ingest fl ev xs s).scheduler ≡ s.scheduler)
        × ((ingest fl ev xs s).clear_token ≡ s.clear_token)
  unfolding ingest
  ingest-keeps [] s = (refl, refl)
  ingest-keeps (x ∷ xs) s = ingest-keeps xs _

  quiet :
      (a b : Bool) (x y : List (Effect F)) (epoch : ℕ) (m : ObdMessage)
      → sent x ≡ 0
      → sent y ≡ 0
      → sent ((if a then [] else x) ++ (if b then y else []) ++ Effect.records epoch m ∷ []) ≡ 0
  quiet true true x y epoch m h j = sent-append y (Effect.records epoch m ∷ []) ∙ omega (arith, j)
  quiet true false x y epoch m h j = refl
  quiet false true x y epoch m h j =
      sent-append (x ++ y) (Effect.records epoch m ∷ []) ∙ omega (arith, h, j, sent-append x y)
  quiet false false x y epoch m h j =
      sent-append (x ++ []) (Effect.records epoch m ∷ []) ∙ omega (arith, h, sent-append x [])

  -- What is tame after a change of neither is tame before it.
  like-Tame :
      (s u : EngineState F V) (out : Outcome F V)
      → u.scheduler ≡ s.scheduler
      → u.clear_token ≡ s.clear_token
      → Tame u out
      → Tame s out
  like-Tame s u out h k a = record {
    queue = omega (arith, a.queue, ap (λ x. clears x.diagnostics) h);
    token = omega (arith, a.token, ap tokens k);
  }

  take_samples-Tame :
      (epoch : ℕ) (m : ObdMessage) (r : Option (Result (List (TelemetrySample F))))
      (s : EngineState F V)
      → Tame s (take_samples fl ev epoch m r s)
  unfolding take_samples
  take_samples-Tame epoch m none s = same-Tame s s [] refl refl refl
  take_samples-Tame epoch m (some (err e)) s = same-Tame s s _ refl refl refl
  take_samples-Tame epoch m (some (ok xs)) s =
      let after : EngineState F V = record (ingest fl ev xs s) {
        evaluator = (ev.evaluate m.monotonic_ts (ingest fl ev xs s).evaluator).1;
      } in
      same-Tame s after _
        (quiet s.playback_rebuilding
          ((ev.evaluate m.monotonic_ts (ingest fl ev xs s).evaluator).0
            && not s.playback_rebuilding)
          (publish EngineEventType.telemetry_updated none after)
          (publish EngineEventType.diagnostic_findings_updated none after) epoch m refl refl)
        (ingest-keeps xs s).0 (ingest-keeps xs s).1

  pub process_packet-Tame :
      (epoch : ℕ) (m : ObdMessage) (s : EngineState F V) → Tame s (process_packet fl ev epoch m s)
  unfolding process_packet
  process_packet-Tame epoch m s =
      let payload = payload_of m in
      if-Tame (not (epoch == s.epoch)) s _ _ (same-Tame s s [] refl refl refl) (
        if-Tame (not (ltb (length payload) 2) && get_or payload 0 0 == 0x41) s _ _
          (like-Tame s _ _ refl refl (take_samples-Tame epoch m _ _))
          (same-Tame s _ _ refl refl refl))

  pub complete_transmit-Tame :
      (delay : TimePoint) (w : World) (epoch : ℕ) (request : ObdRequest) (round_trip : ℕ)
      (r : Result (Unit {0})) (s : EngineState F V)
      → Tame s (complete_transmit fl ev delay w epoch request round_trip r s)
  unfolding complete_transmit complete
  complete_transmit-Tame delay w epoch request round_trip r s =
      if-Tame (not (epoch == s.epoch)) s _ _ (same-Tame s s [] refl refl refl) (
        after r _ _ (
          finish_request-Tame ev w delay request r s.operation
            (record s { scheduler = complete round_trip (is_error r) s.scheduler })))
    where
      after :
          (q : Result (Unit {0})) (u : EngineState F V) (out : Outcome F V)
          → Tame (record s { scheduler = complete round_trip (is_error r) s.scheduler }) out
          → Tame s (notice_error q u ++ out.0, out.1)
      after (ok v) u out h = record { queue = h.queue; token = h.token }
      after (err e) u out h = record { queue = h.queue; token = h.token }
