-- ===== src/Contract/Connected.antt =====
-- A contract's calls on the connection.
use fabric_chaincode_rs.Prelude.{
  ℕ, refl, Bool, true, false, Option, some, List, [], ◌∷◌, Text, Bytes, length, nat_eq, ◌==◌,
  if◌then◌else◌, All, list_Eq, nat_Eq,
}
use fabric_chaincode_rs.Utf8.{from_utf8_lossy}
use fabric_chaincode_rs.Error.{Result, ok, err}
use fabric_chaincode_rs.Session.{Session, StubCore, Exec}
use fabric_chaincode_rs.Session.Connected.{Leads, Follows, Leads-stay}
use fabric_chaincode_rs.Transaction.{Completion}
use fabric_chaincode_rs.Stub.{ChaincodeStub, get_args}
use fabric_chaincode_rs.Contract.{
  TxMethod, Called, gave, panicked, stuck, executed, called, find_method, call_method, run_method,
  route_to, invoke_args, invoke, function_name, parse_args,
}

module _ {W : Type 0} (core : StubCore) where
  pub executed-Follows : {R : Type 0} (m : Exec W R) → Follows core m → Follows core (executed m)
  unfolding executed
  executed-Follows m h = h

  guarded-Leads :
      (s : Session W) (b : Bool) (run other : Completion × Session W)
      → Leads core s run.1
      → Leads core s other.1
      → Leads core s (if b then run else other).1
  guarded-Leads s true run other h k = h
  guarded-Leads s false run other h k = k

  called-Leads :
      {R : Type 0} (into_payload : R → Result Bytes Text) (s : Session W) (r : Called R × Session W)
      → Leads core s r.1
      → Leads core s (called into_payload r).1
  unfolding called
  called-Leads into_payload s (gave (ok v), s') h = h
  called-Leads into_payload s (gave (err e), s') h = h
  called-Leads into_payload s (panicked e, s') h = h
  called-Leads into_payload s (stuck, s') h = h

module _ {W A R : Type 0} (core : StubCore) (stub : ChaincodeStub) where
  -- Whatever arguments the method is called with, its call's actions are the connection's.
  abbrev pub MethodFollows : TxMethod W A R → Type 0
  MethodFollows tx = (args : List A) → Follows core (tx.method stub args)

  module _ (show : ℕ → Text) (into_payload : R → Result Bytes Text) where
    call_method-Follows :
        (tx : TxMethod W A R) (parsed : Result (List A) Text)
        → MethodFollows tx
        → Follows core (call_method show into_payload tx stub parsed)
    unfolding call_method
    call_method-Follows tx (ok args) h s =
        called-Leads core into_payload s (tx.method stub args s) (h args s)
    call_method-Follows tx (err e) h s = Leads-stay core s s refl

    run_method-Follows :
        (tx : TxMethod W A R) (args : List Bytes)
        → MethodFollows tx
        → Follows core (run_method show into_payload tx stub args)
    unfolding run_method
    run_method-Follows tx args h s =
        guarded-Leads core s (nat_eq (length args) (length tx.params)) _ _
          (call_method-Follows tx (parse_args tx.params args) h s) (Leads-stay core s s refl)

    chosen-Follows :
        (tx : TxMethod W A R) (name : Text) (args : List Bytes) (rest : Option (TxMethod W A R))
        (b : Bool)
        → MethodFollows tx
        → Follows core (route_to show into_payload rest name stub args)
        → Follows core (route_to show into_payload (if b then some tx else rest) name stub args)
    unfolding route_to
    chosen-Follows tx name args rest true h k = run_method-Follows tx args h
    chosen-Follows tx name args rest false h k = k

    -- The method of a name is one of the contract's.
    found-Follows :
        (name : Text) (args : List Bytes) (txs : List (TxMethod W A R))
        → All MethodFollows txs
        → Follows core (route_to show into_payload (find_method name txs) name stub args)
    unfolding find_method route_to
    found-Follows name args [] h = λ s. Leads-stay core s s refl
    found-Follows name args (tx ∷ txs) h =
        chosen-Follows tx name args (find_method name txs) (name == tx.wire_name) h.0
          (found-Follows name args txs h.1)

    invoke_args-Follows :
        (args : List Bytes) (txs : List (TxMethod W A R))
        → All MethodFollows txs
        → Follows core (invoke_args show into_payload txs stub args)
    unfolding invoke_args
    invoke_args-Follows [] txs h = λ s. Leads-stay core s s refl
    invoke_args-Follows (f ∷ args) txs h =
        found-Follows (function_name (from_utf8_lossy f)) args txs h

    pub invoke-Follows :
        (txs : List (TxMethod W A R))
        → All MethodFollows txs
        → Follows core (invoke show into_payload txs stub)
    unfolding invoke
    invoke-Follows txs h = invoke_args-Follows (get_args stub) txs h
