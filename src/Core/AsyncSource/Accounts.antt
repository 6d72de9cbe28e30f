-- ===== src/Core/AsyncSource/Accounts.antt =====
-- async_data_source.cpp: what becomes of the completion callbacks that the callers hand over.
use rev_dash.Prelude.{
  ℕ, suc, ◌+◌, ◌≡◌, refl, ap, Option, none, some, List, [], ◌∷◌, ◌++◌, arith, if◌then◌else◌, nat_eq,
  ◌==◌,
}
use rev_dash.Prelude.Dict.{Dict, find, erase, IsUnique}
use rev_dash.Core.Error.{Error}
use rev_dash.Core.Types.{ConnectionState, ObdRequest, ObdMessage}
use rev_dash.Core.Source.{DataSourceConfig}
use rev_dash.Core.AsyncSource.Numbers.{emplace_fresh, IsValid, step-IsValid}
use rev_dash.Core.AsyncSource.{
  AsyncState, Call, Callback, Done, Effect, call_back, cancel_all, emplace, notices, register,
  refuse, connect, disconnect, reconnect_with, reconnect, transmit, release, transition, settle,
  complete_connect, complete_disconnect, hand_back, complete_transmit, subscribe, unsubscribe,
  publish_message, shut_down, step, run, settled, error_of,
}

-- One, if the callback is the number `t`.
abbrev pub held : ℕ → Callback → ℕ
held t none = 0
held t (some u) = if u == t then 1 else 0

-- How many pending operations will call `t`.
abbrev pub awaited : ℕ → Dict ℕ Callback → ℕ
awaited t [] = 0
awaited t ((id, callback) ∷ rest) = held t callback + awaited t rest

awaited-erase_absent :
    (t id : ℕ) (d : Dict ℕ Callback) → find id d ≡ none → awaited t (erase id d) ≡ awaited t d
unfolding erase find
awaited-erase_absent t id [] h = refl
awaited-erase_absent t id ((j, callback) ∷ d) h = ground (arith, awaited-erase_absent t id d)

awaited-erase :
    (t id : ℕ) (callback : Callback) (d : Dict ℕ Callback)
    → IsUnique d
    → find id d ≡ some callback
    → held t callback + awaited t (erase id d) ≡ awaited t d
unfolding erase find
awaited-erase t id callback [] u h = ground arith
awaited-erase t id callback ((j, other) ∷ d) u h =
    ground (arith, awaited-erase t id callback d u.1, awaited-erase_absent t j d u.0)

module _ {F : Type 0} where
  -- How often a list of effects calls `t`.
  abbrev pub completed : ℕ → List (Effect F) → ℕ
  completed t [] = 0
  completed t (Effect.completes u r ∷ es) = (if u == t then 1 else 0) + completed t es
  completed t (_ ∷ es) = completed t es

  -- How often a call hands over `t`.
  abbrev pub handed : ℕ → Call F → ℕ
  handed t (Call.connects config callback) = held t callback
  handed t (Call.disconnects callback) = held t callback
  handed t (Call.reconnects callback) = held t callback
  handed t (Call.transmits request callback) = held t callback
  handed t _ = 0

  abbrev pub submitted : ℕ → List (Call F) → ℕ
  submitted t [] = 0
  submitted t (c ∷ cs) = handed t c + submitted t cs

  completed-append :
      (t : ℕ) (es gs : List (Effect F)) → completed t (es ++ gs) ≡ completed t es + completed t gs
  completed-append t [] gs = omega arith
  completed-append t (Effect.completes u r ∷ es) gs = omega (arith, completed-append t es gs)
  completed-append t (Effect.reports id state error ∷ es) gs = completed-append t es gs
  completed-append t (Effect.delivers id message ∷ es) gs = completed-append t es gs
  completed-append t (Effect.starts_connect id config ∷ es) gs = completed-append t es gs
  completed-append t (Effect.starts_disconnect id ∷ es) gs = completed-append t es gs
  completed-append t (Effect.starts_transmit id request ∷ es) gs = completed-append t es gs

module _ (F : Type 0) where
  completed-call_back :
      (t : ℕ) (callback : Callback) (r : Done)
      → completed {F = F} t (call_back callback r) ≡ held t callback
  completed-call_back t none r = refl
  completed-call_back t (some u) r = omega arith

  completed-cancel_all :
      (t : ℕ) (d : Dict ℕ Callback) → completed {F = F} t (cancel_all d) ≡ awaited t d
  unfolding cancel_all
  completed-cancel_all t [] = refl
  completed-cancel_all t ((id, callback) ∷ d) =
      rw
        (
          completed-append t (call_back callback _) (cancel_all d),
          completed-call_back t callback _,
          completed-cancel_all t d,
        )
        refl

  completed-notices :
      (t : ℕ) (state : ConnectionState) (error : Option Error) (ids : List ℕ)
      → completed {F = F} t (notices state error ids) ≡ 0
  completed-notices t state error [] = refl
  completed-notices t state error (id ∷ ids) = completed-notices t state error ids

  completed-publish_message :
      (t : ℕ) (message : ObdMessage) (ids : List ℕ)
      → completed {F = F} t (publish_message message ids) ≡ 0
  unfolding publish_message
  completed-publish_message t message [] = refl
  completed-publish_message t message (id ∷ ids) = completed-publish_message t message ids

-- What an outcome leaves waiting or has called adds up to what was waiting before and `n`.
abbrev pub Balances :
    {F : Type 0} → ℕ → ℕ → Dict ℕ Callback → List (Effect F) × AsyncState F → Type 0
Balances t n before out =
    n + awaited t before ≡ completed t out.0 + awaited t out.1.pending_operations

module _ {F : Type 0} (t : ℕ) where
  connect-balance :
      (config : DataSourceConfig F) (callback : Callback) (s : AsyncState F)
      → IsValid s
      → Balances t (held t callback) s.pending_operations (connect config callback s)
  unfolding connect refuse register
  connect-balance config callback s v = ground (
    arith,
    completed-call_back F t callback _,
    completed-append t (notices {F = F} ConnectionState.connecting none s.subscribers)
        (Effect.starts_connect (suc s.next_operation_id) config ∷ []),
    completed-notices F t ConnectionState.connecting none s.subscribers,
    emplace_fresh s.next_operation_id callback s.pending_operations v.numbered,
  )

  disconnect-balance :
      (callback : Callback) (s : AsyncState F)
      → Balances t (held t callback) s.pending_operations (disconnect callback s)
  unfolding disconnect refuse register emplace find
  disconnect-balance callback s = ground (
    arith,
    completed-call_back F t callback _,
    completed-append t (notices {F = F} ConnectionState.disconnecting none s.subscribers) (
        cancel_all s.pending_operations ++ Effect.starts_disconnect (suc s.next_operation_id) ∷ []),
    completed-append t (cancel_all {F = F} s.pending_operations)
        (Effect.starts_disconnect (suc s.next_operation_id) ∷ []),
    completed-notices F t ConnectionState.disconnecting none s.subscribers,
    completed-cancel_all F t s.pending_operations,
  )

  reconnect_with-balance :
      (o : Option (DataSourceConfig F)) (callback : Callback) (s : AsyncState F)
      → IsValid s
      → Balances t (held t callback) s.pending_operations (reconnect_with o callback s)
  unfolding reconnect_with refuse register
  reconnect_with-balance none callback s v = ground (arith, completed-call_back F t callback _)
  reconnect_with-balance (some config) callback s v = ground (
    arith,
    completed-append t (notices {F = F} ConnectionState.reconnecting none s.subscribers)
        (Effect.starts_connect (suc s.next_operation_id) config ∷ []),
    completed-notices F t ConnectionState.reconnecting none s.subscribers,
    emplace_fresh s.next_operation_id callback s.pending_operations v.numbered,
  )

  reconnect-balance :
      (callback : Callback) (s : AsyncState F)
      → IsValid s
      → Balances t (held t callback) s.pending_operations (reconnect callback s)
  unfolding reconnect refuse
  reconnect-balance callback s v =
      ground
        (arith, completed-call_back F t callback _, reconnect_with-balance s.config callback s v)

  transmit-balance :
      (request : ObdRequest) (callback : Callback) (s : AsyncState F)
      → IsValid s
      → Balances t (held t callback) s.pending_operations (transmit request callback s)
  unfolding transmit refuse register
  transmit-balance request callback s v = ground (
    arith,
    completed-call_back F t callback _,
    emplace_fresh s.next_operation_id callback s.pending_operations v.numbered,
  )

  settle-balance :
      (state : ConnectionState) (id : ℕ) (r : Done) (o : Option Callback) (s : AsyncState F)
      → IsValid s
      → find id s.pending_operations ≡ o
      → Balances t 0 s.pending_operations (settle state id r o s)
  unfolding settle release transition
  settle-balance state id r none s v h = ground arith
  settle-balance state id r (some callback) s v h = ground (
    arith,
    completed-call_back F t callback r,
    completed-append t (notices {F = F} (settled state r) (error_of r) s.subscribers)
        (call_back callback r),
    completed-notices F t (settled state r) (error_of r) s.subscribers,
    awaited-erase t id callback s.pending_operations v.unique h,
  )

  hand_back-balance :
      (id : ℕ) (r : Done) (o : Option Callback) (s : AsyncState F)
      → IsValid s
      → find id s.pending_operations ≡ o
      → Balances t 0 s.pending_operations (hand_back id r o s)
  unfolding hand_back release
  hand_back-balance id r none s v h = ground arith
  hand_back-balance id r (some callback) s v h = ground (
    arith,
    completed-call_back F t callback r,
    awaited-erase t id callback s.pending_operations v.unique h,
  )

  step-balance :
      (c : Call F) (s : AsyncState F)
      → IsValid s
      → Balances t (handed t c) s.pending_operations (step c s)
  unfolding step complete_connect complete_disconnect complete_transmit subscribe unsubscribe
      shut_down
  step-balance (Call.connects config callback) s v = connect-balance config callback s v
  step-balance (Call.disconnects callback) s v = disconnect-balance callback s
  step-balance (Call.reconnects callback) s v = reconnect-balance callback s v
  step-balance (Call.transmits request callback) s v = transmit-balance request callback s v
  step-balance (Call.connect_done id r) s v = settle-balance _ id r _ s v refl
  step-balance (Call.disconnect_done id r) s v = settle-balance _ id r _ s v refl
  step-balance (Call.transmit_done id r) s v = hand_back-balance id r _ s v refl
  step-balance Call.subscribes s v = ground arith
  step-balance (Call.unsubscribes id) s v = ground arith
  step-balance (Call.publishes message) s v =
      ground (arith, completed-publish_message F t message s.subscribers)
  step-balance Call.stops s v = ground arith
  step-balance Call.shuts_down s v = ground (arith, completed-cancel_all F t s.pending_operations)

module _ {F : Type 0} where
  -- In every run from a valid state, a completion callback that was handed over, or that was pending
  -- before, has been called or is pending after, and as often: none is lost and none is called twice.
  pub run-accounts :
      (t : ℕ) (cs : List (Call F)) (s : AsyncState F)
      → IsValid s
      → submitted t cs + awaited t s.pending_operations
        ≡ completed t (run cs s).0 + awaited t (run cs s).1.pending_operations
  unfolding run
  run-accounts t [] s v = refl
  run-accounts t (c ∷ cs) s v = omega (
    arith,
    step-balance t c s v,
    run-accounts t cs (step c s).1 (step-IsValid c s v),
    completed-append t (step c s).0 (run cs (step c s).1).0,
  )

  -- The pending callbacks of the start included.
  run-shut_down :
      (t : ℕ) (cs : List (Call F)) (s : AsyncState F)
      → IsValid s
      → completed t (run (cs ++ Call.shuts_down ∷ []) s).0
        ≡ submitted t cs + awaited t s.pending_operations
  unfolding run step shut_down
  run-shut_down t [] s v = omega (
    arith,
    completed-append t (cancel_all {F = F} s.pending_operations) [],
    completed-cancel_all F t s.pending_operations,
  )
  run-shut_down t (c ∷ cs) s v = omega (
    arith,
    step-balance t c s v,
    run-shut_down t cs (step c s).1 (step-IsValid c s v),
    completed-append t (step c s).0 (run (cs ++ Call.shuts_down ∷ []) (step c s).1).0,
  )

  -- When a run from a valid state in which nothing is pending ends with the destruction of the source,
  -- every completion callback has been called exactly as often as it was handed over.
  pub run-answers :
      (t : ℕ) (cs : List (Call F)) (s : AsyncState F)
      → IsValid s
      → s.pending_operations ≡ []
      → completed t (run (cs ++ Call.shuts_down ∷ []) s).0 ≡ submitted t cs
  run-answers t cs s v h = omega (arith, run-shut_down t cs s v, ap (awaited t) h)
