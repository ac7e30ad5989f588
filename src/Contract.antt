-- ===== src/Contract.antt =====
-- The code that `#[contract]` generates, fabric-shim-macros/src/lib.rs, lines 72-79 and 238-349: the
-- routing of a call by name, the parsing of its arguments, and the metadata.
--
-- `A` is the sum of the parameter types, with `ContractArg::from_arg` in each parameter, and `R` that
-- of the return types, with `ContractReturn::into_payload`. The names are those that the macro has
-- computed; `show` is the standard library's `Display` for `usize`.
pub mod Routing
pub mod Describe
pub mod DataType
pub mod Trim
pub mod Conversions
pub mod Numbers
pub mod Serving
pub mod Syntax
pub mod Parsing
pub mod Expansion
pub mod Deriving
pub mod Schemas
pub mod Connected
use fabric_chaincode_rs.Prelude.{
  ℕ, suc, ◌+◌, ◌-◌, ◌≡◌, refl, Bool, true, false, Option, none, some, List, [], ◌∷◌, ◌++◌, Text,
  Bytes, str, length, is_empty, nat_eq, ◌==◌, list_Eq, nat_Eq, if◌then◌else◌, not,
}
use fabric_chaincode_rs.Utf8.{from_utf8_lossy}
use fabric_chaincode_rs.Error.{Error, Result, ok, err, to_string}
use fabric_chaincode_rs.Response.{Response, success, error}
use fabric_chaincode_rs.Session.{Session, Outcome, done, hung, Exec}
use fabric_chaincode_rs.Stub.{ChaincodeStub, get_args}
use fabric_chaincode_rs.Metadata.{Metadata}
use fabric_chaincode_rs.Transaction.{Completion, returned, Chaincode, default_init}

pub record Param (A : Type 0) : Type 0 where
  pub name : Text
  pub from_arg : Bytes → Result A Text

-- What a method's call comes to: its `Result`, the error displayed, a panic, or nothing.
pub data Called (R : Type 0) : Type 0 where
  gave : Result R Text → Called R
  panicked : Text → Called R
  stuck : Called R

pub record TxMethod (W A R : Type 0) : Type 0 where
  pub wire_name : Text
  pub params : List (Param A)
  pub method : ChaincodeStub → List A → Session W → Called R × Session W

module _ {R : Type 0} where
  outcome_of : Outcome R → Called R
  outcome_of (done (ok v)) = gave (ok v)
  outcome_of (done (err e)) = gave (err (to_string e))
  outcome_of hung = stuck

  -- the awaited call of an asynchronous method
  unfoldable pub executed : {W : Type 0} → Exec W R → Session W → Called R × Session W
  unfolding outcome_of
  executed m s = let (o, s') = m s in (outcome_of o, s')

-- str::rsplit(':').next(): what stands behind the last colon
after_colon : Text → Text → Text
after_colon kept [] = kept
after_colon kept (c ∷ s) = after_colon (if nat_eq c b':' then s else kept) s

unfoldable pub function_name : Text → Text
unfolding after_colon
function_name full = after_colon full full

module _ {A : Type 0} where
  -- lines 250-261: the arguments in order; the first that does not parse is reported
  cons_arg : Text → Result A Text → Result (List A) Text → Result (List A) Text
  cons_arg name (err e) rest = err (str "invalid argument `" ++ name ++ str "`: " ++ e)
  cons_arg name (ok a) (err e) = err e
  cons_arg name (ok a) (ok as') = ok (a ∷ as')

  unfoldable pub parse_args : List (Param A) → List Bytes → Result (List A) Text
  unfolding cons_arg
  parse_args [] args = ok []
  parse_args (p ∷ ps) [] = ok []
  parse_args (p ∷ ps) (raw ∷ args) = cons_arg p.name (p.from_arg raw) (parse_args ps args)

-- lines 273-276
payload_response : Result Bytes Text → Response
payload_response (ok payload) = success payload
payload_response (err e) = error e

module _ {W R : Type 0} (into_payload : R → Result Bytes Text) where
  -- lines 272-278
  unfoldable pub called : Called R × Session W → Completion × Session W
  unfolding payload_response
  called (gave (ok v), s) = (returned (payload_response (into_payload v)), s)
  called (gave (err e), s) = (returned (error e), s)
  called (panicked e, s) = (Completion.panicked e, s)
  called (stuck, s) = (Completion.stuck, s)

module _ {W A R : Type 0} where
  -- lines 343-346: the first arm whose name matches
  unfoldable pub find_method : Text → List (TxMethod W A R) → Option (TxMethod W A R)
  find_method name [] = none
  find_method name (tx ∷ txs) = if name == tx.wire_name then some tx else find_method name txs

module _ {W A R : Type 0} (show : ℕ → Text) (into_payload : R → Result Bytes Text) where
  -- the arity test has passed, so no argument is missing
  call_method :
      TxMethod W A R → ChaincodeStub → Result (List A) Text → Session W → Completion × Session W
  unfolding called
  call_method tx stub (ok args) s = called into_payload (tx.method stub args s)
  call_method tx stub (err e) s = (returned (error e), s)

  -- one arm of the match, lines 264-280; `args` are those behind the function's name
  unfoldable pub run_method :
      TxMethod W A R → ChaincodeStub → List Bytes → Session W → Completion × Session W
  unfolding call_method
  run_method tx stub args s =
      if nat_eq (length args) (length tx.params)
      then call_method tx stub (parse_args tx.params args) s
      else (
        returned (
            error (
              tx.wire_name
              ++ str " expects "
              ++ show (length tx.params)
              ++ str " argument(s), got "
              ++ show (length args))),
        s,
      )

  route_to :
      Option (TxMethod W A R)
      → Text
      → ChaincodeStub
      → List Bytes
      → Session W
      → Completion × Session W
  unfolding run_method
  route_to none name stub args s = (returned (error (str "unknown function " ++ name)), s)
  route_to (some tx) name stub args s = run_method tx stub args s

  unfoldable pub invoke_args :
      List (TxMethod W A R) → ChaincodeStub → List Bytes → Session W → Completion × Session W
  unfolding route_to
  invoke_args txs stub [] s = (returned (error (str "no function specified")), s)
  invoke_args txs stub (function ∷ args) s =
      let name = function_name (from_utf8_lossy function) in
      route_to (find_method name txs) name stub args s

  -- the generated `invoke`
  unfoldable pub invoke : List (TxMethod W A R) → ChaincodeStub → Session W → Completion × Session W
  unfolding invoke_args
  invoke txs stub s = invoke_args txs stub (get_args stub) s

  -- lines 313-346: the trait's implementation, with its default `init`
  unfoldable pub chaincode : {V : Type 0} → Metadata V → List (TxMethod W A R) → Chaincode W V
  chaincode md txs = record {
    metadata = some md;
    init = default_init (invoke txs);
    invoke = invoke txs;
  }
