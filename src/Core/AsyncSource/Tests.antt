-- ===== src/Core/AsyncSource/Tests.antt =====
-- Runs of a data source.
use rev_dash.Prelude.{ℕ, nat_eq, ◌≡◌, refl, true, false, none, some, [], ◌∷◌, ◌++◌, List, ◌+◌, ◌||◌}
use rev_dash.Prelude.Dict.{find, erase}
use rev_dash.Core.Error.{success}
use rev_dash.Core.Types.{ConnectionState, DataSourceType, obd_request}
use rev_dash.Core.Source.{DataSourceConfig}
use rev_dash.Core.AsyncSource.{
  AsyncState, Call, step, run, connect, disconnect, reconnect, reconnect_with, register, emplace,
  cancel_all, complete_connect, complete_disconnect, settle, release, transition, is_ready,
}
use rev_dash.Core.AsyncSource.Accounts.{run-accounts, run-answers, completed, submitted, awaited}
use rev_dash.Core.AsyncSource.Changes.{run-informs, believed}
use rev_dash.Core.AsyncSource.Ready.{step-ready, connected}

-- `AsyncDataSource::AsyncDataSource`, of a SocketCAN source.
abbrev unconnected : AsyncState ℕ
unconnected = record {
  source_type = DataSourceType.socket_can;
  connection_state = ConnectionState.disconnected;
  stopping = false;
  config = none;
  next_operation_id = 0;
  pending_operations = [];
  next_subscriber_id = 0;
  subscribers = [];
}

abbrev can0 : DataSourceConfig ℕ
can0 = DataSourceConfig.socket_can_config (record { interface_name = "can0"; bitrate = 500_000 })

-- A connection, a request that is cancelled by a disconnect, and a late answer to it.
abbrev session : List (Call ℕ)
session =
    Call.connects can0 (some 1)
    ∷ Call.connect_done 1 success
    ∷ Call.transmits (obd_request 1 12) (some 2)
    ∷ Call.disconnects (some 3)
    ∷ Call.transmit_done 2 success
    ∷ Call.reconnects (some 4)
    ∷ []

run-accounts_example :
    submitted 2 session + 0
    ≡ completed 2 (run session unconnected).0
      + awaited 2 (run session unconnected).1.pending_operations
run-accounts_example = run-accounts 2 session unconnected (record { unique = tt; numbered = tt })

run-answers_example :
    completed 4 (run (session ++ Call.shuts_down ∷ []) unconnected).0 ≡ submitted 4 session
run-answers_example = run-answers 4 session unconnected (record { unique = tt; numbered = tt }) refl

abbrev watched : AsyncState ℕ
watched = record unconnected { subscribers = 1 ∷ []; next_subscriber_id = 1 }

run-informs_example :
    believed 1 ConnectionState.disconnected (run session watched).0
    ≡ (run session watched).1.connection_state
run-informs_example =
    run-informs 1 session watched refl (refl, (refl, (refl, (refl, (refl, (refl, tt))))))

abbrev waiting : AsyncState ℕ
waiting = record unconnected {
  connection_state = ConnectionState.connecting;
  next_operation_id = 1;
  pending_operations = (1, some 7) ∷ [];
}

connects_waiting : is_ready (step (Call.connect_done 1 success) waiting).1.connection_state ≡ true
unfolding step complete_connect settle transition release find
connects_waiting = refl

step-ready_example :
    (is_ready waiting.connection_state || connected (Call.connect_done 1 success) waiting) ≡ true
step-ready_example = step-ready (Call.connect_done 1 success) waiting connects_waiting

-- A reconnect that is asked for while the source disconnects outlives the disconnect: the second
-- disconnect finds the source disconnected and cancels nothing, and then the source gets ready.
reconnect_outlives_disconnect :
    (run
      (Call.connects can0 none
        ∷ Call.connect_done 1 success
        ∷ Call.disconnects none
        ∷ Call.reconnects none
        ∷ Call.disconnect_done 2 success
        ∷ Call.disconnects (some 9)
        ∷ Call.connect_done 3 success
        ∷ [])
      unconnected).1.connection_state
    ≡ ConnectionState.ready
unfolding run step connect disconnect reconnect reconnect_with register emplace cancel_all
    complete_connect complete_disconnect settle release transition find erase
reconnect_outlives_disconnect = refl
