-- ===== src/Core/AsyncSource/Changes.antt =====
-- async_data_source.cpp: how the state of a source changes, and what its subscribers are told.
use rev_dash.Prelude.{
  ℕ, suc, ◌≡◌, refl, inl, inr, Bool, true, false, Option, none, some, List, [], ◌∷◌, ◌++◌, arith,
  if◌then◌else◌, nat_eq, ◌==◌, All, Bool-cases,
}
use rev_dash.Prelude.Dict.{Dict}
use rev_dash.Core.Error.{Error}
use rev_dash.Core.Types.{ConnectionState, ObdRequest, ObdMessage}
use rev_dash.Core.Source.{DataSourceConfig}
use rev_dash.Core.AsyncSource.{
  AsyncState, Call, Callback, Done, Effect, call_back, cancel_all, notices, register, refuse,
  connect, disconnect, reconnect_with, reconnect, transmit, release, transition, settle, without,
  complete_connect, complete_disconnect, hand_back, complete_transmit, subscribe, unsubscribe,
  publish_message, step, run, settled, error_of, Outcome,
}

-- The number is in the list.
abbrev pub has : ℕ → List ℕ → Bool
has id [] = false
has id (j ∷ js) = if j == id then true else has id js

has-append : (id : ℕ) (is js : List ℕ) → has id is ≡ true → has id (is ++ js) ≡ true
has-append id [] js h = absurd (ground arith)
has-append id (i ∷ is) js h = ground (arith, has-append id is js)

has-without :
    (id j : ℕ) (is : List ℕ) → (j == id) ≡ false → has id is ≡ true → has id (without j is) ≡ true
has-without id j [] n h = h
has-without id j (i ∷ is) n h = ground (arith, has-without id j is n)

-- The call does not end the subscription `id`.
abbrev pub keeps : {F : Type 0} → ℕ → Call F → Bool
keeps id (Call.unsubscribes j) = if j == id then false else true
keeps id Call.shuts_down = false
keeps id _ = true

module _ {F : Type 0} where
  -- What a subscriber that starts from `state` believes after the reports to it.
  abbrev pub believed : ℕ → ConnectionState → List (Effect F) → ConnectionState
  believed id state [] = state
  believed id state (Effect.reports j told error ∷ es) =
      believed id (if j == id then told else state) es
  believed id state (_ ∷ es) = believed id state es

  believed-append :
      (id : ℕ) (es gs : List (Effect F)) (state : ConnectionState)
      → believed id state (es ++ gs) ≡ believed id (believed id state es) gs
  believed-append id [] gs state = refl
  believed-append id (Effect.completes u r ∷ es) gs state = believed-append id es gs state
  believed-append id (Effect.reports j told error ∷ es) gs state = believed-append id es gs _
  believed-append id (Effect.delivers j message ∷ es) gs state = believed-append id es gs state
  believed-append id (Effect.starts_connect j config ∷ es) gs state = believed-append id es gs state
  believed-append id (Effect.starts_disconnect j ∷ es) gs state = believed-append id es gs state
  believed-append id (Effect.starts_transmit j request ∷ es) gs state =
      believed-append id es gs state

module _ (F : Type 0) where
  believed-call_back :
      (id : ℕ) (state : ConnectionState) (callback : Callback) (r : Done)
      → believed {F = F} id state (call_back callback r) ≡ state
  believed-call_back id state none r = refl
  believed-call_back id state (some t) r = refl

  believed-cancel_all :
      (id : ℕ) (state : ConnectionState) (d : Dict ℕ Callback)
      → believed {F = F} id state (cancel_all d) ≡ state
  unfolding cancel_all
  believed-cancel_all id state [] = refl
  believed-cancel_all id state ((j, none) ∷ d) = believed-cancel_all id state d
  believed-cancel_all id state ((j, some t) ∷ d) = believed-cancel_all id state d

  believed-publish_message :
      (id : ℕ) (state : ConnectionState) (message : ObdMessage) (ids : List ℕ)
      → believed {F = F} id state (publish_message message ids) ≡ state
  unfolding publish_message
  believed-publish_message id state message [] = refl
  believed-publish_message id state message (j ∷ ids) =
      believed-publish_message id state message ids

  believed-told :
      (id : ℕ) (state : ConnectionState) (error : Option Error) (ids : List ℕ)
      → believed {F = F} id state (notices state error ids) ≡ state
  believed-told id state error [] = refl
  believed-told id state error (j ∷ ids) = elim (Bool-cases (j == id)) [
    | inl y ↦ rw (y, believed) (believed-told id state error ids)
    | inr n ↦ rw (n, believed) (believed-told id state error ids)
  ]

  believed-notices :
      (id : ℕ) (old state : ConnectionState) (error : Option Error) (ids : List ℕ)
      → has id ids ≡ true
      → believed {F = F} id old (notices state error ids) ≡ state
  believed-notices id old state error [] h = absurd (ground arith)
  believed-notices id old state error (j ∷ ids) h = elim (Bool-cases (j == id)) [
    | inl y ↦ rw (y, believed) (believed-told id state error ids)
    | inr n ↦ rw (n, believed) (believed-notices id old state error ids (ground arith))
  ]

-- What the subscriber `id` believes after an outcome is the state of the source.
abbrev Informs : {F : Type 0} → ℕ → ConnectionState → Outcome F → Type 0
Informs id old out = believed id old out.0 ≡ out.1.connection_state

module _ {F : Type 0} (id : ℕ) where
  -- Notices of a state, and then effects that report nothing.
  notices-Informs :
      (old state : ConnectionState) (error : Option Error) (ids : List ℕ) (es : List (Effect F))
      → has id ids ≡ true
      → believed id state es ≡ state
      → believed id old (notices state error ids ++ es) ≡ state
  notices-Informs old state error ids es h k =
      rw
        (
          believed-append id (notices {F = F} state error ids) es old,
          believed-notices F id old state error ids h,
        )
        k

  reconnect_with-Informs :
      (o : Option (DataSourceConfig F)) (callback : Callback) (s : AsyncState F)
      → has id s.subscribers ≡ true
      → Informs id s.connection_state (reconnect_with o callback s)
  unfolding reconnect_with refuse register
  reconnect_with-Informs none callback s h = believed-call_back F id s.connection_state callback _
  reconnect_with-Informs (some config) callback s h =
      notices-Informs s.connection_state _ none s.subscribers _ h refl

  settle-Informs :
      (state : ConnectionState) (j : ℕ) (r : Done) (o : Option Callback) (s : AsyncState F)
      → has id s.subscribers ≡ true
      → Informs id s.connection_state (settle state j r o s)
  unfolding settle transition release
  settle-Informs state j r none s h = refl
  settle-Informs state j r (some callback) s h =
      notices-Informs s.connection_state _ (error_of r) s.subscribers _ h
        (believed-call_back F id (settled state r) callback r)

  hand_back-Informs :
      (j : ℕ) (r : Done) (o : Option Callback) (s : AsyncState F)
      → Informs id s.connection_state (hand_back j r o s)
  unfolding hand_back release
  hand_back-Informs j r none s = refl
  hand_back-Informs j r (some callback) s = believed-call_back F id s.connection_state callback r

  connect-Informs :
      (config : DataSourceConfig F) (callback : Callback) (s : AsyncState F)
      → has id s.subscribers ≡ true
      → Informs id s.connection_state (connect config callback s)
  unfolding connect refuse register
  connect-Informs config callback s h = ground (
    arith,
    believed-call_back F id s.connection_state callback,
    notices-Informs s.connection_state ConnectionState.connecting none s.subscribers
        (Effect.starts_connect (suc s.next_operation_id) config ∷ []) h refl,
  )

  disconnect-Informs :
      (callback : Callback) (s : AsyncState F)
      → has id s.subscribers ≡ true
      → Informs id s.connection_state (disconnect callback s)
  unfolding disconnect refuse register
  disconnect-Informs callback s h = ground (
    arith,
    believed-call_back F id s.connection_state callback,
    notices-Informs s.connection_state ConnectionState.disconnecting none s.subscribers
        (cancel_all s.pending_operations ++ Effect.starts_disconnect (suc s.next_operation_id) ∷ [])
        h
        (rw
          (believed-append id (cancel_all {F = F} s.pending_operations)
            (Effect.starts_disconnect (suc s.next_operation_id) ∷ []) ConnectionState.disconnecting)
          (believed-cancel_all F id ConnectionState.disconnecting s.pending_operations)),
  )

  reconnect-Informs :
      (callback : Callback) (s : AsyncState F)
      → has id s.subscribers ≡ true
      → Informs id s.connection_state (reconnect callback s)
  unfolding reconnect refuse
  reconnect-Informs callback s h = ground (
    arith,
    believed-call_back F id s.connection_state callback,
    reconnect_with-Informs s.config callback s h,
  )

  transmit-Informs :
      (request : ObdRequest) (callback : Callback) (s : AsyncState F)
      → Informs id s.connection_state (transmit request callback s)
  unfolding transmit refuse register
  transmit-Informs request callback s =
      ground (arith, believed-call_back F id s.connection_state callback)

  step-Informs :
      (c : Call F) (s : AsyncState F)
      → has id s.subscribers ≡ true
      → keeps id c ≡ true
      → Informs id s.connection_state (step c s)
  unfolding step complete_connect complete_disconnect complete_transmit subscribe unsubscribe
  step-Informs (Call.connects config callback) s h k = connect-Informs config callback s h
  step-Informs (Call.disconnects callback) s h k = disconnect-Informs callback s h
  step-Informs (Call.reconnects callback) s h k = reconnect-Informs callback s h
  step-Informs (Call.transmits request callback) s h k = transmit-Informs request callback s
  step-Informs (Call.connect_done j r) s h k = settle-Informs _ j r _ s h
  step-Informs (Call.disconnect_done j r) s h k = settle-Informs _ j r _ s h
  step-Informs (Call.transmit_done j r) s h k = hand_back-Informs j r _ s
  step-Informs Call.subscribes s h k = refl
  step-Informs (Call.unsubscribes j) s h k = refl
  step-Informs (Call.publishes message) s h k =
      believed-publish_message F id s.connection_state message s.subscribers
  step-Informs Call.stops s h k = refl
  step-Informs Call.shuts_down s h k = absurd (ground arith)

  -- The subscription goes on.
  abbrev Listed : Outcome F → Type 0
  Listed out = has id out.1.subscribers ≡ true

  if-Listed : (b : Bool) (x y : Outcome F) → Listed x → Listed y → Listed (if b then x else y)
  if-Listed true x y v w = v
  if-Listed false x y v w = w

  reconnect_with-Listed :
      (o : Option (DataSourceConfig F)) (callback : Callback) (s : AsyncState F)
      → has id s.subscribers ≡ true
      → Listed (reconnect_with o callback s)
  unfolding reconnect_with refuse register
  reconnect_with-Listed none callback s h = h
  reconnect_with-Listed (some config) callback s h = h

  settle-Listed :
      (state : ConnectionState) (j : ℕ) (r : Done) (o : Option Callback) (s : AsyncState F)
      → has id s.subscribers ≡ true
      → Listed (settle state j r o s)
  unfolding settle transition release
  settle-Listed state j r none s h = h
  settle-Listed state j r (some callback) s h = h

  hand_back-Listed :
      (j : ℕ) (r : Done) (o : Option Callback) (s : AsyncState F)
      → has id s.subscribers ≡ true
      → Listed (hand_back j r o s)
  unfolding hand_back release
  hand_back-Listed j r none s h = h
  hand_back-Listed j r (some callback) s h = h

  step-Listed :
      (c : Call F) (s : AsyncState F)
      → has id s.subscribers ≡ true
      → keeps id c ≡ true
      → Listed (step c s)
  unfolding step connect disconnect reconnect transmit refuse register complete_connect
      complete_disconnect complete_transmit subscribe unsubscribe
  step-Listed (Call.connects config callback) s h k =
      if-Listed s.stopping _ _ h (if-Listed _ _ _ h h)
  step-Listed (Call.disconnects callback) s h k = if-Listed s.stopping _ _ h (if-Listed _ _ _ h h)
  step-Listed (Call.reconnects callback) s h k =
      if-Listed s.stopping _ _ h (reconnect_with-Listed s.config callback s h)
  step-Listed (Call.transmits request callback) s h k =
      if-Listed s.stopping _ _ h (if-Listed _ _ _ h h)
  step-Listed (Call.connect_done j r) s h k = settle-Listed _ j r _ s h
  step-Listed (Call.disconnect_done j r) s h k = settle-Listed _ j r _ s h
  step-Listed (Call.transmit_done j r) s h k = hand_back-Listed j r _ s h
  step-Listed Call.subscribes s h k = has-append id s.subscribers _ h
  step-Listed (Call.unsubscribes j) s h k = has-without id j s.subscribers (ground arith) h
  step-Listed (Call.publishes message) s h k = h
  step-Listed Call.stops s h k = h
  step-Listed Call.shuts_down s h k = absurd (ground arith)

  -- A subscriber that knows the state of the source when a run starts, and whose subscription no call
  -- of the run ends, knows it from the reports when the run is over.
  pub run-informs :
      (cs : List (Call F)) (s : AsyncState F)
      → has id s.subscribers ≡ true
      → All (λ c. keeps id c ≡ true) cs
      → believed id s.connection_state (run cs s).0 ≡ (run cs s).1.connection_state
  unfolding run
  run-informs [] s h k = refl
  run-informs (c ∷ cs) s h k =
      rw
        (
          believed-append id (step c s).0 (run cs (step c s).1).0 s.connection_state,
          step-Informs c s h k.0,
        )
        (run-informs cs (step c s).1 (step-Listed c s h k.0) k.1)
