-- ===== src/Core/AsyncSource.antt =====
-- async_data_source.cpp: what the worker of a data source does, one posted operation at a time.
-- A completion callback is named by a number, `none` is an empty one; what a call does outside of the
-- state is a list of effects. Which operation runs next, and when a started one is done, is up to the
-- environment, so a run is any list of calls. Identifiers are counted without the wrap at 2 ^ 64.
pub mod Numbers
pub mod Accounts
pub mod Changes
pub mod Ready
mod Tests
use rev_dash.Prelude.{
  ℕ, suc, Bool, true, false, not, Option, none, some, List, [], ◌∷◌, ◌++◌, map, if◌then◌else◌,
  nat_eq, ◌==◌,
}
use rev_dash.Prelude.Dict.{Dict, find, erase}
use rev_dash.Core.Error.{
  Error, Result, ok, err, make_error, success, core_cancelled, core_invalid_state,
  transport_not_connected,
}
use rev_dash.Core.Types.{ConnectionState, DataSourceType, ObdRequest, ObdMessage}
use rev_dash.Core.Source.{DataSourceConfig, get_data_source_type, type_beq}

abbrev pub Done : Type 0
Done = Result (Unit {0})

abbrev pub Callback : Type 0
Callback = Option ℕ

abbrev pub cancelled_error : Error
cancelled_error =
    make_error core_cancelled "Operation cancelled during source shutdown or replacement" false ""

abbrev pub not_connected_error : Error
not_connected_error =
    make_error transport_not_connected "Cannot transmit while the source is not ready" true ""

abbrev pub is_ready : ConnectionState → Bool
is_ready ConnectionState.ready = true
is_ready _ = false

abbrev pub is_disconnected : ConnectionState → Bool
is_disconnected ConnectionState.disconnected = true
is_disconnected _ = false

-- `pending_operations.emplace`, which keeps an entry that is there.
unfoldable pub emplace : ℕ → Callback → Dict ℕ Callback → Dict ℕ Callback
emplace id callback d = elim (find id d) [ none ↦ (id, callback) ∷ d | some old ↦ d ]

-- The state and the error that `completeConnect` and `completeDisconnect` go to.
abbrev pub settled : ConnectionState → Done → ConnectionState
settled state (ok _) = state
settled state (err e) = ConnectionState.faulted

abbrev pub error_of : Done → Option Error
error_of (ok _) = none
error_of (err e) = some e

abbrev pub without : ℕ → List ℕ → List ℕ
without id [] = []
without id (j ∷ js) = if j == id then without id js else j ∷ without id js

module _ (F : Type 0) where
  -- What leaves the worker: a call of a completion, of a subscriber's handlers, or of the derived
  -- class's `startConnect`, `startDisconnect` and `startTransmit`, which report back under the number.
  pub data Effect : Type 0 where
    completes : ℕ → Done → Effect
    reports : ℕ → ConnectionState → Option Error → Effect
    delivers : ℕ → ObdMessage → Effect
    starts_connect : ℕ → DataSourceConfig F → Effect
    starts_disconnect : ℕ → Effect
    starts_transmit : ℕ → ObdRequest → Effect

  -- `AsyncDataSource::State`
  pub record AsyncState : Type 0 where
    pub source_type : DataSourceType
    pub connection_state : ConnectionState
    pub stopping : Bool
    pub config : Option (DataSourceConfig F)
    pub next_operation_id : ℕ
    pub pending_operations : Dict ℕ Callback
    pub next_subscriber_id : ℕ
    pub subscribers : List ℕ

  -- The calls that reach the worker.
  pub data Call : Type 0 where
    connects : DataSourceConfig F → Callback → Call
    disconnects : Callback → Call
    reconnects : Callback → Call
    transmits : ObdRequest → Callback → Call
    connect_done : ℕ → Done → Call
    disconnect_done : ℕ → Done → Call
    transmit_done : ℕ → Done → Call
    subscribes : Call
    unsubscribes : ℕ → Call
    publishes : ObdMessage → Call
    stops : Call
    shuts_down : Call

  abbrev pub Outcome : Type 0
  Outcome = List Effect × AsyncState

module _ {F : Type 0} where
  -- `if (callback) callback(result)`
  abbrev pub call_back : Callback → Done → List (Effect F)
  call_back none r = []
  call_back (some t) r = completes t r ∷ []

  -- Every pending callback, with `cancelledError`.
  unfoldable pub cancel_all : Dict ℕ Callback → List (Effect F)
  cancel_all [] = []
  cancel_all ((id, callback) ∷ rest) = call_back callback (err cancelled_error) ++ cancel_all rest

  -- The notices of `transition`.
  abbrev pub notices : ConnectionState → Option Error → List ℕ → List (Effect F)
  notices state error [] = []
  notices state error (id ∷ ids) = reports id state error ∷ notices state error ids

  -- A new operation under the next number.
  unfoldable pub register : Callback → AsyncState F → AsyncState F
  unfolding emplace
  register callback s = record s {
    next_operation_id = suc s.next_operation_id;
    pending_operations = emplace (suc s.next_operation_id) callback s.pending_operations;
  }

  refuse : Callback → Error → AsyncState F → Outcome F
  refuse callback e s = (call_back callback (err e), s)

  -- `connect`
  unfoldable pub connect : DataSourceConfig F → Callback → AsyncState F → Outcome F
  unfolding refuse register
  connect config callback s =
      if s.stopping
      then refuse callback cancelled_error s
      else if not (type_beq (get_data_source_type config) s.source_type)
      then refuse callback
          (make_error core_invalid_state "Configuration does not match this data source type" false
            "")
          s
      else (
        notices ConnectionState.connecting none s.subscribers
            ++ starts_connect (suc s.next_operation_id) config ∷ [],
        register callback
            (record s { connection_state = ConnectionState.connecting; config = some config }),
      )

  -- `disconnect`
  unfoldable pub disconnect : Callback → AsyncState F → Outcome F
  unfolding refuse register cancel_all
  disconnect callback s =
      if s.stopping
      then refuse callback cancelled_error s
      else if is_disconnected s.connection_state
      then (call_back callback success, s)
      else (
        notices ConnectionState.disconnecting none s.subscribers
            ++ (cancel_all s.pending_operations
                ++ starts_disconnect (suc s.next_operation_id) ∷ []),
        register callback (record s {
          connection_state = ConnectionState.disconnecting;
          pending_operations = [];
        }),
      )

  -- `reconnect`, with the configuration of the last connect
  unfoldable pub reconnect_with : Option (DataSourceConfig F) → Callback → AsyncState F → Outcome F
  unfolding refuse register
  reconnect_with none callback s =
      refuse callback
        (make_error core_invalid_state "No previous configuration is available for reconnect" false
          "")
        s
  reconnect_with (some config) callback s = (
    notices ConnectionState.reconnecting none s.subscribers
        ++ starts_connect (suc s.next_operation_id) config ∷ [],
    register callback (record s { connection_state = ConnectionState.reconnecting }),
  )

  unfoldable pub reconnect : Callback → AsyncState F → Outcome F
  unfolding refuse reconnect_with
  reconnect callback s =
      if s.stopping then refuse callback cancelled_error s else reconnect_with s.config callback s

  -- `transmit`
  unfoldable pub transmit : ObdRequest → Callback → AsyncState F → Outcome F
  unfolding refuse register
  transmit request callback s =
      if s.stopping
      then refuse callback cancelled_error s
      else if not (is_ready s.connection_state)
      then refuse callback not_connected_error s
      else (starts_transmit (suc s.next_operation_id) request ∷ [], register callback s)

  -- The operation is no longer pending.
  unfoldable pub release : ℕ → AsyncState F → AsyncState F
  release id s = record s { pending_operations = erase id s.pending_operations }

  -- `transition`
  unfoldable pub transition : ConnectionState → Option Error → AsyncState F → Outcome F
  transition state error s =
      (notices state error s.subscribers, record s { connection_state = state })

  -- `completeConnect` and `completeDisconnect`, once the callback is found.
  unfoldable pub settle : ConnectionState → ℕ → Done → Option Callback → AsyncState F → Outcome F
  unfolding release transition
  settle state id r none s = ([], s)
  settle state id r (some callback) s =
      let (told, after) = transition (settled state r) (error_of r) (release id s) in
      (told ++ call_back callback r, after)

  unfoldable pub complete_connect : ℕ → Done → AsyncState F → Outcome F
  unfolding settle
  complete_connect id r s = settle ConnectionState.ready id r (find id s.pending_operations) s

  unfoldable pub complete_disconnect : ℕ → Done → AsyncState F → Outcome F
  unfolding settle
  complete_disconnect id r s =
      settle ConnectionState.disconnected id r (find id s.pending_operations) s

  unfoldable pub hand_back : ℕ → Done → Option Callback → AsyncState F → Outcome F
  unfolding release
  hand_back id r none s = ([], s)
  hand_back id r (some callback) s = (call_back callback r, release id s)

  -- `completeTransmit`
  unfoldable pub complete_transmit : ℕ → Done → AsyncState F → Outcome F
  unfolding hand_back
  complete_transmit id r s = hand_back id r (find id s.pending_operations) s

  -- `subscribe`
  unfoldable pub subscribe : AsyncState F → AsyncState F
  subscribe s = record s {
    next_subscriber_id = suc s.next_subscriber_id;
    subscribers = s.subscribers ++ suc s.next_subscriber_id ∷ [];
  }

  -- The function that a subscription's token calls.
  unfoldable pub unsubscribe : ℕ → AsyncState F → AsyncState F
  unsubscribe id s = record s { subscribers = without id s.subscribers }

  -- `publishMessage`
  unfoldable pub publish_message : ObdMessage → List ℕ → List (Effect F)
  publish_message message [] = []
  publish_message message (id ∷ ids) = delivers id message ∷ publish_message message ids

  -- The operation that the destructor posts.
  unfoldable pub shut_down : AsyncState F → Outcome F
  unfolding cancel_all
  shut_down s = (
    cancel_all s.pending_operations,
    record s {
      pending_operations = [];
      subscribers = [];
      connection_state = ConnectionState.disconnected;
    },
  )

  unfoldable pub step : Call F → AsyncState F → Outcome F
  step (connects config callback) s = connect config callback s
  step (disconnects callback) s = disconnect callback s
  step (reconnects callback) s = reconnect callback s
  step (transmits request callback) s = transmit request callback s
  step (connect_done id r) s = complete_connect id r s
  step (disconnect_done id r) s = complete_disconnect id r s
  step (transmit_done id r) s = complete_transmit id r s
  step subscribes s = ([], subscribe s)
  step (unsubscribes id) s = ([], unsubscribe id s)
  step (publishes message) s = (publish_message message s.subscribers, s)
  step stops s = ([], record s { stopping = true })
  step shuts_down s = shut_down s

  unfoldable pub run : List (Call F) → AsyncState F → Outcome F
  unfolding step
  run [] s = ([], s)
  run (c ∷ cs) s =
      let (told, after) = step c s in let (more, last) = run cs after in (told ++ more, last)
