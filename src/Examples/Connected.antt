-- ===== src/Examples/Connected.antt =====
-- Transactions of the asset contract on a connection that others share, with the concrete peer.
use fabric_chaincode_rs.Prelude.{
  ◌≡◌, ◌≢◌, refl, true, none, some, List, [], ◌∷◌, str, All, list_Eq, pair_Eq, nat_Eq, inl,
}
use fabric_chaincode_rs.Prelude.Map
use fabric_chaincode_rs.Protos.MsgType.{MsgType, try_from-to_i32}
use fabric_chaincode_rs.Protos.Messages.{type_of}
use fabric_chaincode_rs.Handler.Link.{
  new_link, new_message, start_request, poll_request, send, key_of, TxKey,
}
use fabric_chaincode_rs.Handler.Link.Invariant.{IsLink, IsLink-new, IsLink-start_request}
use fabric_chaincode_rs.Handler.Connection.{ConnState, Action, run}
use fabric_chaincode_rs.Session.{Session}
use fabric_chaincode_rs.Session.Connected.{IsReplying, IsAttached, IsOwn}
use fabric_chaincode_rs.Transaction.{run_transaction}
use fabric_chaincode_rs.Transaction.Connected.{core_of}
use fabric_chaincode_rs.Contract.{chaincode}
use fabric_chaincode_rs.AssetTransfer.Contract.{transactions, into_payload}
use fabric_chaincode_rs.AssetTransfer.Connected.Transactions.{
  transactions-Leads, transactions-waits,
}
use fabric_chaincode_rs.Examples.Peer.{peer, World, serve, midnight}
use fabric_chaincode_rs.Examples.Packing.{unpack}
use fabric_chaincode_rs.Examples.Assets.{to_json, from_json}
use fabric_chaincode_rs.Examples.Serving.{
  no_text, show, metadata_json, results_json, described, call, create_args, no_world,
}

peer-IsReplying : IsReplying peer
unfolding peer new_message type_of
peer-IsReplying = record {
  replies = λ m w w' reply h.
      let answered : new_message midnight MsgType.response
            (serve (type_of m) (unpack m.payload) w).0 m.channel_id m.txid
          ≡ reply =
        cc h in
      rw (← answered) (inl (rw (try_from-to_i32 MsgType.response) refl), refl);
}

abbrev other : TxKey
other = (str "mychannel", str "tx")

-- another transaction's GET_STATE is in flight
abbrev shared : Session World
shared = record {
  link = (start_request midnight MsgType.get_state [] (str "mychannel") (str "tx") new_link).1;
  event = none;
  world = no_world;
}

shared-IsLink : IsLink shared.link
shared-IsLink =
    IsLink-start_request midnight MsgType.get_state [] (str "mychannel") (str "tx") new_link
      IsLink-new

transactions-Leads_example :
    (as' : List Action) × All (IsOwn (core_of (call create_args))) as'
    × IsAttached
        (run_transaction peer metadata_json
          (chaincode show
            (into_payload to_json results_json)
            described
            (transactions peer to_json from_json no_text 0))
          (call create_args)
          shared).1
        (run as' (record {
          state = ConnState.ready;
          link = shared.link;
          spawned = call create_args ∷ [];
          running = true;
        }))
transactions-Leads_example =
    transactions-Leads peer to_json from_json no_text 0 peer-IsReplying metadata_json described show
      results_json (call create_args) shared
      (record {
        state = ConnState.ready;
        link = shared.link;
        spawned = call create_args ∷ [];
        running = true;
      })
      (record { link = refl; state = refl; running = refl })

different : key_of (call create_args) ≢ other
unfolding new_message str
different = λ e. cc e

transactions-waits_example :
    let s' =
      (run_transaction peer metadata_json
        (chaincode show
          (into_payload to_json results_json)
          described
          (transactions peer to_json from_json no_text 0))
        (call create_args)
        shared).1 in
    IsLink s'.link × (Map.get other s'.link.pending ≡ some 0) × (poll_request 0 s'.link ≡ none)
unfolding start_request new_link new_message Map.contains_key Map.get Map.insert str send pair_Eq
    list_Eq nat_Eq
transactions-waits_example =
    transactions-waits peer to_json from_json no_text 0 peer-IsReplying metadata_json described show
      results_json (call create_args) shared other 0 shared-IsLink different refl
