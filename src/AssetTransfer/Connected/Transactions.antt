-- ===== src/AssetTransfer/Connected/Transactions.antt =====
-- The asset contract's transactions, from their messages on, on the connection that spawned them.
use fabric_chaincode_rs.Prelude.{
  ℕ, ◌≡◌, ◌≢◌, refl, true, none, some, List, [], ◌∷◌, Text, Bytes, All, All-map, ◌∷∀◌, list_Eq,
  pair_Eq, nat_Eq,
}
use fabric_chaincode_rs.Prelude.Map
use fabric_chaincode_rs.Error.{Result}
use fabric_chaincode_rs.Metadata.{Metadata}
use fabric_chaincode_rs.Protos.MsgType.{MsgType}
use fabric_chaincode_rs.Protos.Messages.{ChaincodeMessage, type_of}
use fabric_chaincode_rs.Handler.Link.{TxKey, key_of, poll_request}
use fabric_chaincode_rs.Handler.Link.Invariant.{IsLink, poll-pending}
use fabric_chaincode_rs.Handler.Connection.{ConnState, Conn, Action, run}
use fabric_chaincode_rs.Handler.Connection.Delivery.{run-IsWaiting}
use fabric_chaincode_rs.Session.{Env, Session, Exec, pure, ◌>>=◌}
use fabric_chaincode_rs.Session.Connected.{
  IsReplying, IsAttached, IsOwn, IsOwn-IsUnrelated, Follows, Leads-stay, Follows-bind, Follows-pure,
}
use fabric_chaincode_rs.Stub.{ChaincodeStub}
use fabric_chaincode_rs.Transaction.{Chaincode, default_init, handler_for, run_transaction}
use fabric_chaincode_rs.Transaction.Connected.{core_of, run_transaction-Leads}
use fabric_chaincode_rs.Contract.{executed, chaincode}
use fabric_chaincode_rs.Contract.Connected.{MethodFollows, executed-Follows, invoke-Follows}
use fabric_chaincode_rs.AssetTransfer.{
  Asset, QueryResult, init_ledger, create_asset, read_asset, update_asset, delete_asset,
  asset_exists, transfer_asset, get_all_assets, read_transient,
}
use fabric_chaincode_rs.AssetTransfer.Contract.{
  Value, int, Payload, unit, bool, asset, results, transactions, with_nothing, with_id, with_owner,
  with_asset, natural, into_payload,
}
use fabric_chaincode_rs.AssetTransfer.Connected.{
  init_ledger-Follows, create_asset-Follows, read_asset-Follows, update_asset-Follows,
  delete_asset-Follows, asset_exists-Follows, transfer_asset-Follows, get_all_assets-Follows,
  read_transient-Follows,
}

module _ {W B : Type 0} (stub : ChaincodeStub) where
  giving-Follows :
      (m : Exec W B) (wrap : B → Payload)
      → Follows stub.core m
      → Follows stub.core (executed (m >>= λ v. pure (wrap v)))
  giving-Follows m wrap h =
      executed-Follows stub.core _
        (Follows-bind stub.core m _ h (λ v. Follows-pure stub.core (wrap v)))

  with_nothing-Follows :
      (m : ChaincodeStub → Exec W B) (wrap : B → Payload)
      → Follows stub.core (m stub)
      → (args : List Value)
      → Follows stub.core (with_nothing (λ ctx. m ctx >>= λ v. pure (wrap v)) stub args)
  unfolding with_nothing
  with_nothing-Follows m wrap h [] = giving-Follows (m stub) wrap h
  with_nothing-Follows m wrap h _ = λ s. Leads-stay stub.core s s refl

  with_id-Follows :
      (m : ChaincodeStub → Text → Exec W B) (wrap : B → Payload)
      → ((id : Text) → Follows stub.core (m stub id))
      → (args : List Value)
      → Follows stub.core (with_id (λ ctx id. m ctx id >>= λ v. pure (wrap v)) stub args)
  unfolding with_id
  with_id-Follows m wrap h (Value.string id ∷ []) = giving-Follows (m stub id) wrap (h id)
  with_id-Follows m wrap h _ = λ s. Leads-stay stub.core s s refl

  with_owner-Follows :
      (m : ChaincodeStub → Text → Text → Exec W B) (wrap : B → Payload)
      → ((id owner : Text) → Follows stub.core (m stub id owner))
      → (args : List Value)
      → Follows stub.core
          (with_owner (λ ctx id owner. m ctx id owner >>= λ v. pure (wrap v)) stub args)
  unfolding with_owner
  with_owner-Follows m wrap h (Value.string id ∷ Value.string owner ∷ []) =
      giving-Follows (m stub id owner) wrap (h id owner)
  with_owner-Follows m wrap h _ = λ s. Leads-stay stub.core s s refl

  with_asset-Follows :
      (m : ChaincodeStub → Asset → Exec W B) (wrap : B → Payload)
      → ((a : Asset) → Follows stub.core (m stub a))
      → (args : List Value)
      → Follows stub.core (with_asset (λ ctx a. m ctx a >>= λ v. pure (wrap v)) stub args)
  unfolding with_asset
  with_asset-Follows m wrap h
        (Value.string id ∷ Value.string color ∷ int size ∷ Value.string owner ∷ int value ∷ []) =
      let a : Asset = record {
        id = id;
        color = color;
        size = natural size;
        owner = owner;
        appraised_value = natural value;
      } in
      giving-Follows (m stub a) wrap (h a)
  with_asset-Follows m wrap h _ = λ s. Leads-stay stub.core s s refl

module _ {W : Type 0} (env : Env W) (to_json : Asset → Result Bytes Text)
    (from_json : Bytes → Result Asset Text) (utf8_error : Bytes → Text) (fuel : ℕ)
    (peer : IsReplying env) where
  methods-Follow :
      (stub : ChaincodeStub)
      → All (MethodFollows stub.core stub) (transactions env to_json from_json utf8_error fuel)
  unfolding transactions
  methods-Follow stub =
      with_nothing-Follows stub (init_ledger env to_json from_json) (λ _. unit)
        (init_ledger-Follows env to_json from_json stub peer)
      ∷∀ with_asset-Follows stub (create_asset env to_json from_json) (λ _. unit)
          (create_asset-Follows env to_json from_json stub peer)
      ∷∀ with_id-Follows stub (read_asset env to_json from_json) asset
          (read_asset-Follows env to_json from_json stub peer)
      ∷∀ with_asset-Follows stub (update_asset env to_json from_json) (λ _. unit)
          (update_asset-Follows env to_json from_json stub peer)
      ∷∀ with_id-Follows stub (delete_asset env to_json from_json) (λ _. unit)
          (delete_asset-Follows env to_json from_json stub peer)
      ∷∀ with_id-Follows stub (asset_exists env to_json from_json) bool
          (asset_exists-Follows env to_json from_json stub peer)
      ∷∀ with_owner-Follows stub (transfer_asset env to_json from_json) Payload.string
          (transfer_asset-Follows env to_json from_json stub peer)
      ∷∀ with_nothing-Follows stub (λ ctx. get_all_assets env to_json from_json ctx fuel) results
          (get_all_assets-Follows env to_json from_json stub peer fuel)
      ∷∀ with_nothing-Follows stub (λ ctx. read_transient env to_json from_json ctx utf8_error)
          Payload.string (read_transient-Follows env to_json from_json stub peer utf8_error)
      ∷∀ tt

  module _ {V : Type 0} (metadata_json : Metadata V → Result Bytes Text) (md : Metadata V)
      (show : ℕ → Text) (results_json : List QueryResult → Result Bytes Text)
      (msg : ChaincodeMessage) where
    abbrev contract : Chaincode W V
    contract =
        chaincode show (into_payload to_json results_json) md
          (transactions env to_json from_json utf8_error fuel)

    -- its `init` is its `invoke`
    handler-Follows :
        (t : MsgType) (stub : ChaincodeStub)
        → stub.core ≡ core_of msg
        → Follows (core_of msg) (handler_for contract t stub)
    unfolding handler_for chaincode default_init
    handler-Follows MsgType.init stub same = rw (← same) (
        invoke-Follows stub.core stub show (into_payload to_json results_json)
          (transactions env to_json from_json utf8_error fuel) (methods-Follow stub))
    handler-Follows _ stub same = rw (← same) (
        invoke-Follows stub.core stub show (into_payload to_json results_json)
          (transactions env to_json from_json utf8_error fuel) (methods-Follow stub))

    -- If the peer answers a request by a RESPONSE or an ERROR for the request's transaction or not at all,
    -- the task of a transaction of the asset contract that starts on the link of a ready connection
    -- whose loop runs does to the link what some actions do on that connection: each is the start of a
    -- request of the transaction, the loop's round on a reply to the transaction, or the transaction's
    -- end. The session's link is the connection's after them, and the connection is ready and its loop
    -- runs.
    pub transactions-Leads :
        (s : Session W) (c : Conn)
        → IsAttached s c
        → let s' = (run_transaction env metadata_json contract msg s).1 in
          (as' : List Action) × All (IsOwn (core_of msg)) as' × IsAttached s' (run as' c)
    transactions-Leads s c a =
        (run_transaction-Leads env metadata_json contract msg (handler-Follows (type_of msg)) s).at
          c a

    -- the session on a connection of its own
    attached : Session W → Conn
    attached s = record { state = ConnState.ready; link = s.link; spawned = []; running = true }

    -- If the peer answers a request by a RESPONSE or an ERROR for the request's transaction or not at all,
    -- the task of a transaction of the asset contract, whatever its call and its outcome, from a link that
    -- keeps its invariant leaves one that keeps it, and a request of another transaction that was in flight
    -- before is still in flight and has no reply.
    pub transactions-waits :
        (s : Session W) (k : TxKey) (slot : ℕ)
        → IsLink s.link
        → key_of msg ≢ k
        → Map.get k s.link.pending ≡ some slot
        → let s' = (run_transaction env metadata_json contract msg s).1 in
          IsLink s'.link
          × (Map.get k s'.link.pending ≡ some slot)
          × (poll_request slot s'.link ≡ none)
    unfolding attached
    transactions-waits s k slot inv other waits =
        let (as', own, a) =
          transactions-Leads s (attached s)
            (record { link = refl; state = refl; running = refl }) in
        let w =
          run-IsWaiting k slot as' (attached s)
            (All-map (IsOwn-IsUnrelated (core_of msg) k other) as' own)
            (record { ready = refl; link = inv; waits = waits }) in
        rw (← a.link) (w.link, w.waits, poll-pending k slot _ w.link w.waits)
