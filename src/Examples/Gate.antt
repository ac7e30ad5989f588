-- ===== src/Examples/Gate.antt =====
-- Two ledger calls that a transaction makes at the same time.
use fabric_chaincode_rs.Prelude.{
  ◌≡◌, ◌≢◌, refl, true, List, [], ◌∷◌, ◌++◌, map, str, list_Eq, pair_Eq, nat_Eq, inl, inr,
}
use fabric_chaincode_rs.Prelude.Map
use fabric_chaincode_rs.Protos.MsgType.{MsgType, try_from, to_i32}
use fabric_chaincode_rs.Protos.Messages.{ChaincodeMessage, type_of}
use fabric_chaincode_rs.Handler.Link.{new_link, new_message, start_request, send, interpret_reply}
use fabric_chaincode_rs.Handler.Link.Invariant.{IsLink-new, IsLink-start_request}
use fabric_chaincode_rs.Handler.Connection.{ready, Conn, message, inbound, request}
use fabric_chaincode_rs.Session.{StubCore}
use fabric_chaincode_rs.Session.Requests.{core_key}
use fabric_chaincode_rs.Session.Gate.{
  Call, nobody, awaiting, Calls, Event, make, grant, start, poll, cancel, outside, run_calls,
}
use fabric_chaincode_rs.Session.Gate.Exclusion.{IsExclusive, run_calls-IsExclusive}
use fabric_chaincode_rs.Session.Gate.Rounds.{rounds, IsOpen, run_calls-rounds}
use fabric_chaincode_rs.Session.Gate.Cancellation.{IsBlocked, run_calls-cancelled}
use fabric_chaincode_rs.Examples.Peer.{midnight}

abbrev core : StubCore
core = record { channel_id = str "mychannel"; tx_id = str "tx1" }

abbrev get_call : Call
get_call = record { msg_type = MsgType.get_state; payload = [] }

abbrev put_call : Call
put_call = record { msg_type = MsgType.put_state; payload = [] }

abbrev free_link : Conn
free_link = record { state = ready; link = new_link; spawned = []; running = true }

abbrev unused : Calls
unused = record { conn = free_link; holder = nobody; waiting = []; returned = [] }

abbrev msg : MsgType → ChaincodeMessage
msg t = new_message midnight t [] (str "mychannel") (str "tx1")

-- both calls are made, and another transaction asks while the first is in flight
abbrev interleaved : List Event
interleaved =
    make get_call
    ∷ make put_call
    ∷ grant 1
    ∷ start midnight
    ∷ outside (request midnight MsgType.get_state [] (str "mychannel") (str "tx"))
    ∷ grant 0
    ∷ outside (inbound midnight (message (msg MsgType.response)))
    ∷ poll
    ∷ grant 0
    ∷ start midnight
    ∷ []

other_key : (str "mychannel", str "tx") ≢ core_key core
unfolding str
other_key = λ e. cc e

run_calls-IsExclusive_example : IsExclusive core (run_calls core interleaved unused)
unfolding new_link Map.get
run_calls-IsExclusive_example =
    run_calls-IsExclusive core interleaved unused IsLink-new refl refl
      (_, (_, (_, (_, (other_key, (_, (_, (_, (_, (_, _))))))))))

abbrev both_waiting : Calls
both_waiting = record unused { waiting = get_call ∷ put_call ∷ [] }

-- the first call is answered, the second refused
abbrev answers : List (Call × ChaincodeMessage)
answers = (get_call, msg MsgType.response) ∷ (put_call, msg MsgType.error) ∷ []

run_calls-rounds_example :
    let s' = run_calls core (rounds midnight answers) both_waiting in
    (s'.returned ≡ [] ++ map (λ r. (r.0, interpret_reply r.1)) answers)
    × (s'.waiting ≡ [])
    × IsOpen core s'
unfolding new_link new_message Map.contains_key Map.get type_of try_from to_i32 str
run_calls-rounds_example =
    run_calls-rounds core midnight answers both_waiting
      (record { free = refl; up = refl; state = refl; running = refl; gate = refl }) refl
      ((inl refl, refl), ((inr refl, refl), _))

-- the first call's request is in flight
abbrev away : Calls
away = record both_waiting {
  conn = record free_link {
    link = (start_request midnight MsgType.get_state [] (str "mychannel") (str "tx1") new_link).1;
  };
  holder = awaiting get_call 0;
  waiting = put_call ∷ [];
}

-- the waiting call starts, another call is made and another transaction asks, and both calls are refused
abbrev afterwards : List Event
afterwards =
    grant 0
    ∷ start midnight
    ∷ make get_call
    ∷ outside (request midnight MsgType.get_state [] (str "mychannel") (str "tx"))
    ∷ grant 0
    ∷ start midnight
    ∷ []

run_calls-cancelled_example :
    IsBlocked core 0 away.returned (run_calls core (cancel ∷ afterwards) away)
unfolding start_request new_link new_message Map.contains_key Map.get Map.insert str send pair_Eq
    list_Eq
run_calls-cancelled_example =
    run_calls-cancelled core afterwards get_call 0 away refl
      (record {
        ready = refl;
        link =
            IsLink-start_request midnight MsgType.get_state [] (str "mychannel") (str "tx1")
              new_link IsLink-new;
        waits = refl;
      })
      (_, (_, (_, (_, (_, (_, _))))))
