-- ===== src/Core/AsyncSource/Ready.antt =====
-- async_data_source.cpp: which calls make a source ready.
use rev_dash.Prelude.{ℕ, ◌≡◌, refl, nat_eq, Bool, true, false, ◌||◌, Option, none, some, arith}
use rev_dash.Prelude.Dict.{find}
use rev_dash.Core.Error.{ok, err}
use rev_dash.Core.Types.{ConnectionState}
use rev_dash.Core.Source.{DataSourceConfig}
use rev_dash.Core.AsyncSource.{
  AsyncState, Call, Callback, Done, Outcome, is_ready, register, refuse, connect, disconnect,
  reconnect_with, reconnect, transmit, release, transition, settle, complete_connect,
  complete_disconnect, hand_back, complete_transmit, subscribe, unsubscribe, shut_down, step,
}

abbrev pub is_some : Option Callback → Bool
is_some none = false
is_some (some callback) = true

-- The call reports that a pending operation is done, and without an error.
abbrev pub connected : {F : Type 0} → Call F → AsyncState F → Bool
connected (Call.connect_done id (ok _)) s = is_some (find id s.pending_operations)
connected _ s = false

module _ {F : Type 0} where
  -- If the source is ready, then it was so before, or `b`.
  abbrev Explains : Bool → AsyncState F → Outcome F → Type 0
  Explains b s out =
      is_ready out.1.connection_state ≡ true → (is_ready s.connection_state || b) ≡ true

  same-Explains :
      (b : Bool) (s : AsyncState F)
      → is_ready s.connection_state ≡ true
      → (is_ready s.connection_state || b) ≡ true
  same-Explains b s h = ground arith

  reconnect_with-Explains :
      (o : Option (DataSourceConfig F)) (callback : Callback) (s : AsyncState F)
      → Explains false s (reconnect_with o callback s)
  unfolding reconnect_with refuse register
  reconnect_with-Explains none callback s = same-Explains false s
  reconnect_with-Explains (some config) callback s = λ h. absurd (ground arith)

  settle-ready :
      (id : ℕ) (r : Done) (o : Option Callback) (s : AsyncState F)
      → find id s.pending_operations ≡ o
      → Explains
          (connected {F = F} (Call.connect_done id r) s)
          s
          (settle ConnectionState.ready id r o s)
  unfolding settle transition release
  settle-ready id (ok u) none s h = λ k. ground arith
  settle-ready id (err e) none s h = λ k. ground arith
  settle-ready id (ok u) (some callback) s h = λ k. ground (arith, h)
  settle-ready id (err e) (some callback) s h = λ k. absurd (ground arith)

  settle-disconnected :
      (id : ℕ) (r : Done) (o : Option Callback) (s : AsyncState F)
      → Explains false s (settle ConnectionState.disconnected id r o s)
  unfolding settle transition release
  settle-disconnected id r none s = same-Explains false s
  settle-disconnected id (ok u) (some callback) s = λ h. absurd (ground arith)
  settle-disconnected id (err e) (some callback) s = λ h. absurd (ground arith)

  hand_back-Explains :
      (id : ℕ) (r : Done) (o : Option Callback) (s : AsyncState F)
      → Explains false s (hand_back id r o s)
  unfolding hand_back release
  hand_back-Explains id r none s = same-Explains false s
  hand_back-Explains id r (some callback) s = same-Explains false s

  -- A source that is ready after a call was ready before it, or the call is the report that a pending
  -- operation connected without an error.
  pub step-ready :
      (c : Call F) (s : AsyncState F)
      → is_ready (step c s).1.connection_state ≡ true
      → (is_ready s.connection_state || connected c s) ≡ true
  unfolding step connect disconnect reconnect transmit refuse register complete_connect
      complete_disconnect complete_transmit subscribe unsubscribe shut_down
  step-ready (Call.connects config callback) s h = ground arith
  step-ready (Call.disconnects callback) s h = ground arith
  step-ready (Call.reconnects callback) s h =
      ground (arith, reconnect_with-Explains s.config callback s)
  step-ready (Call.transmits request callback) s h = ground arith
  step-ready (Call.connect_done id r) s h = settle-ready id r _ s refl h
  step-ready (Call.disconnect_done id r) s h = settle-disconnected id r _ s h
  step-ready (Call.transmit_done id r) s h = hand_back-Explains id r _ s h
  step-ready Call.subscribes s h = same-Explains false s h
  step-ready (Call.unsubscribes id) s h = same-Explains false s h
  step-ready (Call.publishes message) s h = same-Explains false s h
  step-ready Call.stops s h = same-Explains false s h
  step-ready Call.shuts_down s h = absurd (ground arith)
