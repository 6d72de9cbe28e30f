-- ===== src/Core/AsyncSource/Numbers.antt =====
-- async_data_source.cpp: the numbers of the operations that are pending.
use rev_dash.Prelude.{
  ℕ, suc, ◌≤◌, ◌≡◌, refl, Bool, true, false, Option, none, some, List, [], ◌∷◌, arith,
  if◌then◌else◌, nat_eq,
}
use rev_dash.Prelude.Dict.{Dict, find, erase, IsUnique, erase-IsUnique}
use rev_dash.Core.Types.{ConnectionState}
use rev_dash.Core.Source.{DataSourceConfig}
use rev_dash.Core.AsyncSource.{
  AsyncState, Call, Callback, Done, Effect, emplace, register, refuse, connect, disconnect,
  reconnect_with, reconnect, transmit, release, transition, settle, complete_connect,
  complete_disconnect, hand_back, complete_transmit, subscribe, unsubscribe, shut_down, step,
}

-- The keys are at most `n`.
abbrev pub UpTo : ℕ → Dict ℕ Callback → Type 0
UpTo n [] = Unit
UpTo n ((id, callback) ∷ rest) = (id ≤ n) × UpTo n rest

UpTo-suc : (n : ℕ) (d : Dict ℕ Callback) → UpTo n d → UpTo (suc n) d
UpTo-suc n [] h = tt
UpTo-suc n ((id, callback) ∷ d) h = (omega (arith, h.0), UpTo-suc n d h.1)

erase-UpTo : (n id : ℕ) (d : Dict ℕ Callback) → UpTo n d → UpTo n (erase id d)
unfolding erase
erase-UpTo n id [] h = tt
erase-UpTo n id ((j, callback) ∷ d) h = ground (arith, erase-UpTo n id d h.1, h.0)

pub find-suc : (n : ℕ) (d : Dict ℕ Callback) → UpTo n d → find (suc n) d ≡ none
unfolding find
find-suc n [] h = refl
find-suc n ((j, callback) ∷ d) h = ground (arith, find-suc n d h.1, h.0)

pub emplace_fresh :
    (n : ℕ) (callback : Callback) (d : Dict ℕ Callback)
    → UpTo n d
    → emplace (suc n) callback d ≡ (suc n, callback) ∷ d
unfolding emplace
emplace_fresh n callback d h = ground (arith, find-suc n d h)

-- Every pending operation has a number of its own, which has been given out.
pub record IsValid {F : Type 0} (s : AsyncState F) : Type 0 where
  pub unique : IsUnique s.pending_operations
  pub numbered : UpTo s.next_operation_id s.pending_operations

module _ {F : Type 0} where
  IsValid-of :
      (s : AsyncState F)
      → IsUnique s.pending_operations
      → UpTo s.next_operation_id s.pending_operations
      → IsValid s
  IsValid-of s u n = record { unique = u; numbered = n }

  register-IsValid :
      (callback : Callback) (s : AsyncState F) → IsValid s → IsValid (register callback s)
  unfolding register
  register-IsValid callback s v = record {
    unique =
        rw (emplace_fresh s.next_operation_id callback s.pending_operations v.numbered)
          (find-suc s.next_operation_id s.pending_operations v.numbered, v.unique);
    numbered =
        rw (emplace_fresh s.next_operation_id callback s.pending_operations v.numbered)
          (omega arith, UpTo-suc s.next_operation_id s.pending_operations v.numbered);
  }

  reconnect_with-IsValid :
      (o : Option (DataSourceConfig F)) (callback : Callback) (s : AsyncState F)
      → IsValid s
      → IsValid (reconnect_with o callback s).1
  unfolding reconnect_with refuse
  reconnect_with-IsValid none callback s v = v
  reconnect_with-IsValid (some config) callback s v =
      register-IsValid callback (record s { connection_state = ConnectionState.reconnecting })
        (IsValid-of _ v.unique v.numbered)

  release-IsValid : (id : ℕ) (s : AsyncState F) → IsValid s → IsValid (release id s)
  unfolding release
  release-IsValid id s v = record {
    unique = erase-IsUnique id s.pending_operations v.unique;
    numbered = erase-UpTo s.next_operation_id id s.pending_operations v.numbered;
  }

  settle-IsValid :
      (state : ConnectionState) (id : ℕ) (r : Done) (o : Option Callback) (s : AsyncState F)
      → IsValid s
      → IsValid (settle state id r o s).1
  unfolding settle transition
  settle-IsValid state id r none s v = v
  settle-IsValid state id r (some callback) s v =
      let w = release-IsValid id s v in IsValid-of _ w.unique w.numbered

  hand_back-IsValid :
      (id : ℕ) (r : Done) (o : Option Callback) (s : AsyncState F)
      → IsValid s
      → IsValid (hand_back id r o s).1
  unfolding hand_back
  hand_back-IsValid id r none s v = v
  hand_back-IsValid id r (some callback) s v = release-IsValid id s v

  -- A branch of an outcome.
  if-IsValid :
      (b : Bool) (x y : List (Effect F) × AsyncState F)
      → IsValid x.1
      → IsValid y.1
      → IsValid (if b then x else y).1
  if-IsValid true x y v w = v
  if-IsValid false x y v w = w

  pub step-IsValid : (c : Call F) (s : AsyncState F) → IsValid s → IsValid (step c s).1
  unfolding step connect disconnect reconnect transmit refuse complete_connect complete_disconnect
      complete_transmit subscribe unsubscribe shut_down
  step-IsValid (Call.connects config callback) s v = if-IsValid s.stopping _ _ v (
      if-IsValid _ _ _ v (
        register-IsValid callback
          (record s { connection_state = ConnectionState.connecting; config = some config })
          (IsValid-of _ v.unique v.numbered)))
  step-IsValid (Call.disconnects callback) s v = if-IsValid s.stopping _ _ v (
      if-IsValid _ _ _ v (
        register-IsValid callback
          (record s { connection_state = ConnectionState.disconnecting; pending_operations = [] })
          (IsValid-of _ tt tt)))
  step-IsValid (Call.reconnects callback) s v =
      if-IsValid s.stopping _ _ v (reconnect_with-IsValid s.config callback s v)
  step-IsValid (Call.transmits request callback) s v =
      if-IsValid s.stopping _ _ v (if-IsValid _ _ _ v (register-IsValid callback s v))
  step-IsValid (Call.connect_done id r) s v = settle-IsValid _ id r _ s v
  step-IsValid (Call.disconnect_done id r) s v = settle-IsValid _ id r _ s v
  step-IsValid (Call.transmit_done id r) s v = hand_back-IsValid id r _ s v
  step-IsValid Call.subscribes s v = IsValid-of _ v.unique v.numbered
  step-IsValid (Call.unsubscribes id) s v = IsValid-of _ v.unique v.numbered
  step-IsValid (Call.publishes message) s v = v
  step-IsValid Call.stops s v = IsValid-of _ v.unique v.numbered
  step-IsValid Call.shuts_down s v = IsValid-of _ tt tt
