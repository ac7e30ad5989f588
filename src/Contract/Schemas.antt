-- ===== src/Contract/Schemas.antt =====
-- fabric-shim/src/contract.rs, lines 76-80, 94-98, 117-122, 145-150 and 158-166: the schemas of the
-- types that the standard library has. `V` is serde_json's `Value`.
use fabric_chaincode_rs.Prelude.{List, [], ◌∷◌, Text, str}
use fabric_chaincode_rs.Contract.Describe.{TypeSchema}

-- what `json!` makes of a literal
pub record Json (V : Type 0) : Type 0 where
  pub null : V
  pub text : Text → V
  pub object : List (Text × V) → V

module _ {V : Type 0} (json : Json V) where
  -- `{"type": name}`, and no components
  unfoldable pub plain_schema : Text → TypeSchema V
  plain_schema name = record {
    schema = json.object ((str "type", json.text name) ∷ []);
    components = λ out. out;
  }

  unfoldable pub string_schema : TypeSchema V
  unfolding plain_schema
  string_schema = plain_schema (str "string")

  unfoldable pub bool_schema : TypeSchema V
  unfolding plain_schema
  bool_schema = plain_schema (str "boolean")

  unfoldable pub integer_schema : TypeSchema V
  unfolding plain_schema
  integer_schema = plain_schema (str "integer")

  unfoldable pub number_schema : TypeSchema V
  unfolding plain_schema
  number_schema = plain_schema (str "number")

  unfoldable pub unit_schema : TypeSchema V
  unit_schema = record { schema = json.null; components = λ out. out }

  unfoldable pub vec_schema : TypeSchema V → TypeSchema V
  vec_schema ty = record {
    schema = json.object ((str "type", json.text (str "array")) ∷ (str "items", ty.schema) ∷ []);
    components = ty.components;
  }
