-- ===== src/Contract/Routing.antt =====
-- Which method a call reaches, and with which arguments.
use fabric_chaincode_rs.Prelude.{
  ℕ, ◌≡◌, ◌∙◌, refl, ap, Bool, leb, ◌&&◌, true, false, none, some, List, [], ◌∷◌, ◌++◌, Text, Bytes,
  str, length, length-append, nat_eq, list_Eq, nat_Eq, if◌then◌else◌, arith, IsText, All,
}
use fabric_chaincode_rs.Utf8.{into_bytes}
use fabric_chaincode_rs.Utf8.RoundTrip.{from_utf8_lossy-into_bytes}
use fabric_chaincode_rs.Error.{Result, ok, err}
use fabric_chaincode_rs.Response.{success, error}
use fabric_chaincode_rs.Session.{Session}
use fabric_chaincode_rs.Stub.{ChaincodeStub, get_args}
use fabric_chaincode_rs.Transaction.{returned}
use fabric_chaincode_rs.Contract.{
  gave, Param, cons_arg, TxMethod, after_colon, function_name, parse_args, run_method, find_method,
  route_to, invoke_args, invoke, call_method, called, payload_response,
}

-- An argument that parses, before others that do.
pub parse_args-cons :
    {A : Type 0} (p : Param A) (ps : List (Param A)) (raw : Bytes) (args : List Bytes) (a : A)
    (as' : List A)
    → p.from_arg raw ≡ ok a
    → parse_args ps args ≡ ok as'
    → parse_args (p ∷ ps) (raw ∷ args) ≡ ok (a ∷ as')
unfolding parse_args
parse_args-cons p ps raw args a as' h k = rw (h, k) (unfold cons_arg in refl)

-- No colon in it.
abbrev pub IsSimple : Text → Type 0
IsSimple = All (λ c. nat_eq c b':' ≡ false)

-- ASCII letters only, and what lies between the two cases.
unfoldable pub letters : Text → Bool
letters [] = true
letters (c ∷ s) = leb 65 c && leb c 122 && letters s

pub letters-IsText : (s : Text) → letters s ≡ true → IsText s
unfolding letters
letters-IsText [] h = tt
letters-IsText (c ∷ s) h = ground (arith, letters-IsText s)

pub letters-IsSimple : (s : Text) → letters s ≡ true → IsSimple s
unfolding letters
letters-IsSimple [] h = tt
letters-IsSimple (c ∷ s) h = ground (arith, letters-IsSimple s)

after_colon-simple : (kept s : Text) → IsSimple s → after_colon kept s ≡ kept
unfolding after_colon
after_colon-simple kept [] h = refl
after_colon-simple kept (c ∷ s) h = rw h.0 (after_colon-simple kept s h.1)

after_colon-qualified :
    (kept contract name : Text) → IsSimple name → after_colon kept (contract ++ b':' ∷ name) ≡ name
unfolding after_colon
after_colon-qualified kept [] name h = after_colon-simple name name h
after_colon-qualified kept (c ∷ contract) name h =
    after_colon-qualified (if nat_eq c b':' then contract ++ b':' ∷ name else kept) contract name h

-- A name without a colon is the function's, with whatever qualification stands before it.
pub function_name-qualified :
    (contract name : Text)
    → IsSimple name
    → (function_name name ≡ name) × (function_name (contract ++ b':' ∷ name) ≡ name)
unfolding function_name
function_name-qualified contract name h = (
  after_colon-simple name name h,
  after_colon-qualified (contract ++ b':' ∷ name) contract name h,
)

eq_true : (a b : ℕ) → a ≡ b → nat_eq a b ≡ true
eq_true a b h = ground arith

same_length :
    {A : Type 0} (before after : List A) (p : A) (parsed rest : List Bytes) (raw : Bytes)
    → length parsed ≡ length before
    → length rest ≡ length after
    → length (parsed ++ raw ∷ rest) ≡ length (before ++ p ∷ after)
same_length before after p parsed rest raw m n =
    omega (arith, length-append parsed (raw ∷ rest), length-append before (p ∷ after), m, n)

module _ {W A R : Type 0} (show : ℕ → Text) (into_payload : R → Result Bytes Text)
    (txs : List (TxMethod W A R)) where
  -- A call by a qualified name, `Contract:Function`, does what the call by the plain name does, if the
  -- plain name has no colon and both are valid texts.
  pub invoke-qualified :
      (contract name : Text) (args : List Bytes) (stub : ChaincodeStub) (s : Session W)
      → IsText (contract ++ b':' ∷ name)
      → IsText name
      → IsSimple name
      → invoke_args show into_payload txs stub (into_bytes (contract ++ b':' ∷ name) ∷ args) s
        ≡ invoke_args show into_payload txs stub (into_bytes name ∷ args) s
  unfolding invoke_args
  invoke-qualified contract name args stub s t t' h =
      let (plain, qualified) = function_name-qualified contract name h in
      rw
        (
          from_utf8_lossy-into_bytes (contract ++ b':' ∷ name) t,
          qualified,
          from_utf8_lossy-into_bytes name t',
          plain,
        )
        refl

  -- Each argument is read by its parameter.
  pub data Parsed : List (Param A) → List Bytes → Type 0 where
    none_left : Parsed [] []
    next :
        {p : Param A} {ps : List (Param A)} {raw : Bytes} {raws : List Bytes} (a : A)
        → p.from_arg raw ≡ ok a
        → Parsed ps raws
        → Parsed (p ∷ ps) (raw ∷ raws)

  -- The first argument that is not read is the one that is reported.
  parse_args-err :
      (before after : List (Param A)) (p : Param A) (parsed rest : List Bytes) (raw : Bytes)
      (e : Text)
      → Parsed before parsed
      → p.from_arg raw ≡ err e
      → parse_args (before ++ p ∷ after) (parsed ++ raw ∷ rest)
        ≡ err (str "invalid argument `" ++ p.name ++ str "`: " ++ e)
  unfolding parse_args
  parse_args-err _ after p _ rest raw e none_left h = rw h (unfold cons_arg in refl)
  parse_args-err _ after p _ rest raw e (next a k ks) h =
      rw (k, parse_args-err _ after p _ rest raw e ks h) (unfold cons_arg in refl)

  -- Why a call reaches no method: no method of that name, the wrong number of arguments, or an
  -- argument that does not parse.
  pub data IsRefused (name : Text) (args : List Bytes) : Text → Type 0 where
    unknown : find_method name txs ≡ none → IsRefused name args (str "unknown function " ++ name)
    arity :
        (tx : TxMethod W A R)
        → find_method name txs ≡ some tx
        → nat_eq (length args) (length tx.params) ≡ false
        → IsRefused name args (
            tx.wire_name
            ++ str " expects "
            ++ show (length tx.params)
            ++ str " argument(s), got "
            ++ show (length args))
    argument :
        (tx : TxMethod W A R) (before after : List (Param A)) (p : Param A)
        (parsed rest : List Bytes) (raw : Bytes) (e : Text)
        → find_method name txs ≡ some tx
        → tx.params ≡ before ++ p ∷ after
        → args ≡ parsed ++ raw ∷ rest
        → length parsed ≡ length before
        → length rest ≡ length after
        → Parsed before parsed
        → p.from_arg raw ≡ err e
        → IsRefused name args (str "invalid argument `" ++ p.name ++ str "`: " ++ e)

  module _ (name : Text) (args : List Bytes) (stub : ChaincodeStub) (s : Session W)
      (text : IsText name) (simple : IsSimple name)
      (called_by : stub.args ≡ into_bytes name ∷ args) where
    invoke-route :
        invoke show into_payload txs stub s
        ≡ route_to show into_payload (find_method name txs) name stub args s
    unfolding invoke get_args
    invoke-route =
        ap (λ as'. invoke_args show into_payload txs stub as' s) called_by
        ∙ unfold invoke_args in
          rw (from_utf8_lossy-into_bytes name text, (function_name-qualified [] name simple).0) refl

    -- The call of a method by its name, with arguments that parse, is the method's call on them.
    pub invoke-called :
        (tx : TxMethod W A R) (values : List A)
        → find_method name txs ≡ some tx
        → length args ≡ length tx.params
        → parse_args tx.params args ≡ ok values
        → invoke show into_payload txs stub s ≡ called into_payload (tx.method stub values s)
    unfolding route_to run_method
    invoke-called tx values found count parsed =
        invoke-route
        ∙ rw found (rw (eq_true (length args) (length tx.params) count, parsed, call_method) refl)

    -- A call of a method by its name, with arguments that parse, runs the method on the parsed
    -- arguments and returns its payload in a success response.
    pub invoke-method :
        (tx : TxMethod W A R) (values : List A) (v : R) (payload : Bytes) (s' : Session W)
        → find_method name txs ≡ some tx
        → length args ≡ length tx.params
        → parse_args tx.params args ≡ ok values
        → tx.method stub values s ≡ (gave (ok v), s')
        → into_payload v ≡ ok payload
        → invoke show into_payload txs stub s ≡ (returned (success payload), s')
    unfolding called
    invoke-method tx values v payload s' found count parsed ran encoded =
        invoke-called tx values found count parsed
        ∙ rw (ran, called, encoded, payload_response) refl

    -- A call that reaches no method is answered by a 500 response that says so, and the session is unchanged: the
    -- method did not run.
    pub invoke-IsRefused :
        (m : Text)
        → IsRefused name args m
        → invoke show into_payload txs stub s ≡ (returned (error m), s)
    unfolding route_to run_method
    invoke-IsRefused _ (unknown h) = invoke-route ∙ rw h refl
    invoke-IsRefused _ (arity tx h n) = invoke-route ∙ rw h (rw n refl)
    invoke-IsRefused _ (argument tx before after p parsed rest raw e h ps as' m n ks bad) =
        invoke-route
        ∙ rw h (
            rw
              (
                eq_true (length args) (length tx.params)
                    (rw (ps, as') (same_length before after p parsed rest raw m n)),
                ps,
                as',
                parse_args-err before after p parsed rest raw e ks bad,
                call_method,
              )
              refl)
