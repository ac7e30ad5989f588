-- ===== src/Contract/Describe.antt =====
-- fabric-shim-macros/src/lib.rs, lines 283-328: the metadata that `#[contract]` generates.
-- `V` is serde_json's `Value`.
use fabric_chaincode_rs.Prelude.{
  ◌≡◌, refl, ap, ◌∙◌, sym, true, Option, none, some, List, [], ◌∷◌, ◌++◌, map, Text, str,
  append_assoc, append-nil, list_Eq, nat_Eq, ◌==◌, if◌then◌else◌, Bool-cases, inl, inr,
}
use fabric_chaincode_rs.Prelude.Map
use fabric_chaincode_rs.Prelude.Map.{Map}
use fabric_chaincode_rs.Metadata.{
  Metadata, Contract, Transaction, new_metadata, add_contract, add_component, new_contract,
  add_transaction, submit, evaluate, add_parameter, set_returns,
}

-- The trait `ContractSchema` in one type: its schema, and what it registers.
pub record TypeSchema (V : Type 0) : Type 0 where
  pub schema : V
  pub components : Map Text V → Map Text V

-- A method as the macro has parsed it: the names are the wire's.
pub record TxDecl (V : Type 0) : Type 0 where
  pub wire_name : Text
  pub tag : Text
  pub params : List (Text × TypeSchema V)
  pub ok_ty : Option (TypeSchema V)

module _ {V : Type 0} where
  register_params : List (Text × TypeSchema V) → Map Text V → Map Text V
  register_params [] out = out
  register_params ((_, ty) ∷ params) out = register_params params (ty.components out)

  register_result : Option (TypeSchema V) → Map Text V → Map Text V
  register_result none out = out
  register_result (some ty) out = ty.components out

  -- lines 284-292
  register_all : List (TxDecl V) → Map Text V → Map Text V
  unfolding register_params register_result
  register_all [] out = out
  register_all (tx ∷ txs) out =
      register_all txs (register_result tx.ok_ty (register_params tx.params out))

  parameter_calls : List (Text × TypeSchema V) → Transaction V → Transaction V
  parameter_calls [] t = t
  parameter_calls ((name, ty) ∷ params) t = parameter_calls params (add_parameter name ty.schema t)

  returns_call : Option (TypeSchema V) → Transaction V → Transaction V
  returns_call none t = t
  returns_call (some ty) t = set_returns ty.schema t

  -- lines 293-308
  build_transaction : TxDecl V → Transaction V
  unfolding parameter_calls returns_call
  build_transaction tx = returns_call tx.ok_ty (
      parameter_calls tx.params
        (if tx.tag == str "evaluate" then evaluate tx.wire_name else submit tx.wire_name))

  build_contract : List (TxDecl V) → Contract V → Contract V
  unfolding build_transaction
  build_contract [] c = c
  build_contract (tx ∷ txs) c = build_contract txs (add_transaction (build_transaction tx) c)

  add_components : Map Text V → Metadata V → Metadata V
  add_components [] md = md
  add_components ((name, schema) ∷ schemas) md =
      add_components schemas (add_component name schema md)

  -- the generated `metadata`
  unfoldable pub describe : Text → Text → Text → List (TxDecl V) → Metadata V
  unfolding register_all build_contract add_components
  describe contract_name title version txs =
      add_contract (build_contract txs (new_contract contract_name))
        (add_components (register_all txs []) (new_metadata title version))

  -- What a client should read of a method.
  unfoldable pub described : TxDecl V → Transaction V
  described tx = record {
    name = tx.wire_name;
    tag = (if tx.tag == str "evaluate" then str "evaluate" else str "submit") ∷ [];
    parameters =
        map (λ p. record { name = p.0; schema = p.1.schema; description = none }) tx.params;
    returns = elim tx.ok_ty [ none ↦ none | some ty ↦ some ty.schema ];
  }

  parameter_calls_eq :
      (params : List (Text × TypeSchema V)) (t : Transaction V)
      → parameter_calls params t ≡ record t {
        parameters =
            t.parameters
            ++ map (λ p. record { name = p.0; schema = p.1.schema; description = none }) params;
      }
  unfolding parameter_calls add_parameter
  parameter_calls_eq [] t = ap (λ ps. record t { parameters = ps }) (sym (append-nil _))
  parameter_calls_eq ((name, ty) ∷ params) t =
      parameter_calls_eq params (add_parameter name ty.schema t)
      ∙ ap (λ ps. record t { parameters = ps })
          (append_assoc t.parameters
            (record { name = name; schema = ty.schema; description = none } ∷ []) (map _ params))

  returned :
      (o : Option (TypeSchema V)) (t : Transaction V)
      → t.returns ≡ none
      → returns_call o t ≡ record t { returns = elim o [ none ↦ none | some ty ↦ some ty.schema ] }
  unfolding returns_call set_returns
  returned none t h = ap (λ r. record t { returns = r }) h
  returned (some ty) t h = refl

  build_transaction_eq : (tx : TxDecl V) → build_transaction tx ≡ described tx
  unfolding build_transaction described returns_call set_returns evaluate submit
  build_transaction_eq tx = elim (Bool-cases (tx.tag == str "evaluate")) [
    | inl evaluates ↦
        rw evaluates
          (rw (parameter_calls_eq tx.params (evaluate tx.wire_name)) (returned tx.ok_ty _ refl))
    | inr submits ↦
        rw submits
          (rw (parameter_calls_eq tx.params (submit tx.wire_name)) (returned tx.ok_ty _ refl))
  ]

  build_contract_eq :
      (txs : List (TxDecl V)) (c : Contract V)
      → build_contract txs c ≡ record c { transactions = c.transactions ++ map described txs }
  unfolding build_contract add_transaction
  build_contract_eq [] c = ap (λ ts. record c { transactions = ts }) (sym (append-nil _))
  build_contract_eq (tx ∷ txs) c =
      build_contract_eq txs (add_transaction (build_transaction tx) c)
      ∙ ap (λ ts. record c { transactions = ts })
          (append_assoc c.transactions (build_transaction tx ∷ []) (map described txs))
      ∙ ap (λ t. record c { transactions = c.transactions ++ t ∷ map described txs })
          (build_transaction_eq tx)

  -- The generated metadata has the contract under its name, as the default contract, with one
  -- transaction for each method, in order, under its wire name: tagged `evaluate` if the method is,
  -- `submit` otherwise, with the parameters in order and the result's schema, if there is a result.
  pub describe-described :
      (contract_name title version : Text) (txs : List (TxDecl V))
      → Map.get contract_name (describe contract_name title version txs).contracts
        ≡ some (record {
          name = contract_name;
          info = record { title = contract_name; version = str "latest"; description = none };
          transactions = map described txs;
          default = true;
        })
  unfolding describe add_contract new_contract
  describe-described contract_name title version txs =
      rw (build_contract_eq txs (new_contract contract_name))
        (Map.get-insert_self contract_name _ _)
