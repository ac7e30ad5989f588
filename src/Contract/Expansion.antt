-- ===== src/Contract/Expansion.antt =====
-- fabric-shim-macros/src/lib.rs, lines 81-104 and 231-303: what `#[contract]` makes of its arguments
-- and of an impl block, and when it refuses them.
pub mod Documented
use fabric_chaincode_rs.Prelude.{
  ◌≡◌, false, Option, none, some, List, [], ◌∷◌, map, Text, Bytes, str, list_Eq, nat_Eq,
  if◌then◌else◌, or_else,
}
use fabric_chaincode_rs.Error.{Result, ok, err, map_err, ◌>>=◌}
use fabric_chaincode_rs.Session.{Session}
use fabric_chaincode_rs.Stub.{ChaincodeStub}
use fabric_chaincode_rs.Contract.{TxMethod, Called}
use fabric_chaincode_rs.Metadata.{Metadata}
use fabric_chaincode_rs.Contract.Describe.{TypeSchema, TxDecl, describe}
use fabric_chaincode_rs.Contract.Syntax.{SynType, Meta, ItemImpl}
use fabric_chaincode_rs.Contract.Parsing.{
  ContractArgs, ParsedTx, parse_contract_args, collect_methods,
}
use fabric_chaincode_rs.Contract.Parsing.Methods.{IsContract}

-- What the generated code is made from; without a version it is the crate's.
pub record Expansion : Type 0 where
  pub contract_name : Text
  pub title : Text
  pub version : Option Text
  pub txs : List ParsedTx

module _ (upper_camel : Text → Text) where
  -- lines 238-239
  named_expansion : ContractArgs → Text → List ParsedTx → Expansion
  named_expansion args type_name txs = record {
    contract_name = or_else args.name type_name;
    title = or_else args.title (or_else args.name type_name);
    version = args.version;
    txs = txs;
  }

  -- lines 231-236: all errors are reported together
  without_errors : ContractArgs → Text → List ParsedTx × List Text → Result Expansion (List Text)
  unfolding named_expansion
  without_errors args type_name (txs, []) = ok (named_expansion args type_name txs)
  without_errors args type_name (txs, e ∷ errors) = err (e ∷ errors)

  of_type : ContractArgs → Option Text → List ParsedTx × List Text → Result Expansion (List Text)
  unfolding without_errors
  of_type args none read = err (str "#[contract] requires a named type" ∷ [])
  of_type args (some type_name) read = without_errors args type_name read

  -- `attr` is the macro's arguments, if there are any, as syn parses them
  unfoldable pub contract :
      Option (Result (List Meta) Text) → ItemImpl → Result Expansion (List Text)
  unfolding of_type
  contract attr input = do
    args ← map_err (λ e. e ∷ []) (parse_contract_args attr)
    if input.is_generic
        then err (str "#[contract] impls cannot be generic" ∷ [])
        else of_type args input.self_ty (collect_methods upper_camel input.items)

  -- An impl block of a named type, not generic, whose methods make a contract; the names are those of
  -- the arguments, or else the type's.
  pub record IsExpanded (args : ContractArgs) (input : ItemImpl) (e : Expansion) : Type 0 where
    pub plain : input.is_generic ≡ false
    pub type_name : Text
    pub self_ty : input.self_ty ≡ some type_name
    pub methods : IsContract upper_camel input.items e.txs
    pub contract_name : e.contract_name ≡ or_else args.name type_name
    pub title : e.title ≡ or_else args.title e.contract_name
    pub version : e.version ≡ args.version

-- lines 246-249, 293-303: a transaction as the generated metadata shows it; `lower_camel` is heck's, and
-- `schema_of` a type's implementation of the trait `ContractSchema`
module _ {V : Type 0} (lower_camel : Text → Text) (schema_of : SynType → TypeSchema V) where
  abbrev declared : ParsedTx → TxDecl V
  declared tx = record {
    wire_name = tx.wire_name;
    tag = tx.tag;
    params = map (λ p. (lower_camel p.0, schema_of p.1)) tx.params;
    ok_ty = elim tx.ok_ty [ none ↦ none | some ty ↦ some (schema_of ty) ];
  }

  -- `crate_version` is `env!("CARGO_PKG_VERSION")`
  unfoldable pub expanded_metadata : Text → Expansion → Metadata V
  expanded_metadata crate_version e =
      describe e.contract_name e.title (or_else e.version crate_version) (map declared e.txs)

-- lines 246-263: a transaction as the generated `invoke` calls it; `arg_of` is a type's implementation of
-- the trait `ContractArg`, and `method_of` the method that the macro has parsed
module _ {W A R : Type 0} (lower_camel : Text → Text) (arg_of : SynType → Bytes → Result A Text)
    (method_of : ParsedTx → ChaincodeStub → List A → Session W → Called R × Session W) where
  unfoldable pub routed : ParsedTx → TxMethod W A R
  routed tx = record {
    wire_name = tx.wire_name;
    params = map (λ p. record { name = lower_camel p.0; from_arg = arg_of p.1 }) tx.params;
    method = method_of tx;
  }
