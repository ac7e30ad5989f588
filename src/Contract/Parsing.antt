-- ===== src/Contract/Parsing.antt =====
-- fabric-shim-macros/src/lib.rs, lines 18-229 and 353-367: what `#[contract]` reads of its arguments
-- and of an impl block. An error is known by its message.
pub mod Accepts
pub mod Options
pub mod Signatures
pub mod Methods
use fabric_chaincode_rs.Prelude.{
  ◌≡◌, Bool, true, false, Option, none, some, List, [], ◌∷◌, ◌++◌, Text, str, ◌==◌, list_Eq, nat_Eq,
  if◌then◌else◌, is_empty, or_else,
}
use fabric_chaincode_rs.Error.{Result, ok, err, ◌>>=◌}
use fabric_chaincode_rs.Contract.Syntax.{
  SynType, SynTypes, PathArguments, angle_bracketed, GenericArguments, type_argument,
  other_argument, Meta, Attribute, FnArg, receiver, typed, Method, ImplItem, fn, other_item,
  ItemImpl,
}
use fabric_chaincode_rs.Contract.Syntax

pub record ContractArgs : Type 0 where
  pub name : Option Text
  pub version : Option Text
  pub title : Option Text

abbrev pub no_args : ContractArgs
no_args = record { name = none; version = none; title = none }

-- lines 53-65
set_option : Text → Text → ContractArgs → Result ContractArgs Text
set_option key lit out =
    if key == str "name"
    then ok (record out { name = some lit })
    else if key == str "version"
    then ok (record out { version = some lit })
    else if key == str "title"
    then ok (record out { title = some lit })
    else err (str "unknown contract option `" ++ key ++ str "` (expected name, version, title)")

-- lines 35-67
read_options : List Meta → ContractArgs → Result ContractArgs Text
unfolding set_option
read_options [] out = ok out
read_options (Meta.name_value key (some lit) ∷ metas) out = do
  next ← set_option (or_else key []) lit out
  read_options metas next
read_options (Meta.name_value key none ∷ metas) out = err (str "expected string literal")
read_options (_ ∷ metas) out = err (str "expected key = \"value\" (name, version, title)")

-- `attr`, if it is not empty, as syn parses it
unfoldable pub parse_contract_args : Option (Result (List Meta) Text) → Result ContractArgs Text
unfolding read_options
parse_contract_args none = ok no_args
parse_contract_args (some attr) = do metas ← attr; read_options metas no_args

-- the macro's `TxMethod`
pub record ParsedTx : Type 0 where
  pub wire_name : Text
  pub tag : Text
  pub method_ident : Text
  pub is_async : Bool
  pub params : List (Text × SynType)
  pub ok_ty : Option SynType

abbrev pub is_ident : Text → Option Text → Bool
is_ident name none = false
is_ident name (some i) = i == name

abbrev pub bad_option : Text
bad_option = str "expected `submit`, `evaluate`, or `name = \"...\"`"

-- lines 133-154: one option, the tag and the name after it, and its error
unfoldable pub tag_step : Meta → Text × Option Text → (Text × Option Text) × List Text
tag_step (Meta.path p) (tag, name) =
    if is_ident (str "evaluate") p
    then ((str "evaluate", name), [])
    else if is_ident (str "submit") p
    then ((str "submit", name), [])
    else ((tag, name), bad_option ∷ [])
tag_step (Meta.name_value p none) (tag, name) = (
  (tag, name),
  (if is_ident (str "name") p then str "expected string literal" else bad_option) ∷ [],
)
tag_step (Meta.name_value p (some lit)) (tag, name) =
    if is_ident (str "name") p then ((tag, some lit), []) else ((tag, name), bad_option ∷ [])
tag_step (Meta.list p) (tag, name) = ((tag, name), bad_option ∷ [])

unfoldable pub read_tag : List Meta → Text × Option Text → (Text × Option Text) × List Text
unfolding tag_step
read_tag [] before = (before, [])
read_tag (meta ∷ metas) before =
    let (next, errors) = tag_step meta before in
    let (after, more) = read_tag metas next in (after, errors ++ more)

-- lines 176-190: the parameters, and the errors
unfoldable pub read_params : List FnArg → List (Text × SynType) × List Text
read_params [] = ([], [])
read_params (receiver ∷ inputs) = read_params inputs
read_params (typed (some ident) ty ∷ inputs) =
    let (params, errors) = read_params inputs in ((ident, ty) ∷ params, errors)
read_params (typed none ty ∷ inputs) =
    let (params, errors) = read_params inputs in
    (params, str "#[transaction] parameters must be simple identifiers" ∷ errors)

first_type : GenericArguments → Option SynType
first_type GenericArguments.no_more = none
first_type (type_argument t args) = some t
first_type (other_argument args) = first_type args

unfoldable pub extract_result_ok : SynType → Option SynType
unfolding first_type
extract_result_ok (SynType.path ident (angle_bracketed args)) =
    if ident == str "Result" then first_type args else none
extract_result_ok _ = none

-- lines 215-218: no type for the unit
unfoldable pub ok_type : SynType → Option SynType
ok_type (SynType.tuple SynTypes.no_types) = none
ok_type t = some t

abbrev pub must_return : Text
must_return = str "#[transaction] methods must return Result<T, E> (E: Display)"

abbrev pub result_type : Option SynType → Option SynType
result_type none = none
result_type (some ty) = extract_result_ok ty

module _ (upper_camel : Text → Text) where
  -- lines 220-228; `tag` and `name` are what the attribute says
  parsed_tx : Method → Text × Option Text → List (Text × SynType) → SynType → ParsedTx
  unfolding ok_type
  parsed_tx m (tag, name) params t = record {
    wire_name = or_else name (upper_camel m.ident);
    tag = tag;
    method_ident = m.ident;
    is_async = m.asyncness;
    params = params;
    ok_ty = ok_type t;
  }

  -- lines 195-214
  read_output :
      Method
      → Text × Option Text
      → List (Text × SynType)
      → Option SynType
      → Option ParsedTx × List Text
  unfolding parsed_tx
  read_output m tagged params none = (none, must_return ∷ [])
  read_output m tagged params (some t) = (some (parsed_tx m tagged params t), [])

  read_typed :
      Method → Text × Option Text → List (Text × SynType) × List Text → Option ParsedTx × List Text
  unfolding read_output extract_result_ok
  read_typed m tagged (params, []) = read_output m tagged params (result_type m.output)
  read_typed m tagged (params, e ∷ errors) = (none, e ∷ errors)

  -- lines 158-175
  pub read_inputs : Method → Text × Option Text → List FnArg → Option ParsedTx × List Text
  unfolding read_typed read_params
  read_inputs m tagged (receiver ∷ context ∷ inputs) = read_typed m tagged (read_params inputs)
  read_inputs m tagged (receiver ∷ []) = (
    none,
    str
          "#[transaction] methods must take a context as their first argument, e.g. `ctx: &ChaincodeStub`"
        ∷ [],
  )
  read_inputs m tagged _ = (none, str "#[transaction] methods must take &self" ∷ [])

  pub read_signature : Method → (Text × Option Text) × List Text → Option ParsedTx × List Text
  unfolding read_inputs
  read_signature m (tagged, errors) =
      let (tx, more) = read_inputs m tagged m.inputs in (tx, errors ++ more)

  -- lines 121-156; the errors of the options do not stop the reading
  pub parse_marked : Method → Option (Result (List Meta) Text) → Option ParsedTx × List Text
  unfolding read_signature read_tag
  parse_marked m none = read_signature m ((str "submit", none), [])
  parse_marked m (some (ok metas)) = read_signature m (read_tag metas (str "submit", none))
  parse_marked m (some (err e)) = (none, e ∷ [])

  -- lines 118-228: one method with its attribute `transaction`, and the errors
  unfoldable pub parse_method : Method → Attribute → Option ParsedTx × List Text
  unfolding parse_marked
  parse_method m attr = parse_marked m attr.arguments

  -- lines 111-114
  unfoldable pub transaction_attr : List Attribute → Option Attribute
  transaction_attr [] = none
  transaction_attr (a ∷ attrs) =
      if is_ident (str "transaction") a.ident then some a else transaction_attr attrs

  cons_tx : Option ParsedTx × List Text → List ParsedTx × List Text → List ParsedTx × List Text
  cons_tx (none, errors) (txs, more) = (txs, errors ++ more)
  cons_tx (some tx, errors) (txs, more) = (tx ∷ txs, errors ++ more)

  -- lines 111-117: only a method with the attribute is read
  collect_method : Method → Option Attribute → List ParsedTx × List Text → List ParsedTx × List Text
  unfolding cons_tx parse_method
  collect_method m none rest = rest
  collect_method m (some attr) rest = cons_tx (parse_method m attr) rest

  -- lines 106-229
  unfoldable pub collect_methods : List ImplItem → List ParsedTx × List Text
  unfolding collect_method transaction_attr
  collect_methods [] = ([], [])
  collect_methods (other_item ∷ items) = collect_methods items
  collect_methods (fn m ∷ items) =
      collect_method m (transaction_attr m.attrs) (collect_methods items)
