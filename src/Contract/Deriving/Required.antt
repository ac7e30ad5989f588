-- ===== src/Contract/Deriving/Required.antt =====
-- Which names the schema of a derived struct requires.
use mathlib.Core.List.{Memᴰ}
use mathlib.Core.List.Memᴰ
use fabric_chaincode_rs.Prelude.{◌≡◌, Option, str, List, map, Text}
use fabric_chaincode_rs.Prelude.Map.{Map}
use fabric_chaincode_rs.Contract.Describe.{TypeSchema}
use fabric_chaincode_rs.Contract.DataType.{Heck, json_name, required}
use fabric_chaincode_rs.Contract.Deriving.{read_field}
use fabric_chaincode_rs.Contract.Syntax.{
  SynType, GenericArguments, angle_bracketed, type_argument, DataField,
}

-- `Option<T>`
pub data IsOption : SynType → Type 0 where
  option :
      {ident : Text} {inner : SynType} {args : GenericArguments}
      → ident ≡ str "Option"
      → IsOption (SynType.path ident (angle_bracketed (type_argument inner args)))

module _ {V : Type 0} (heck : Heck) (object : List Text → Map Text V → V)
    (schema_of : SynType → TypeSchema V) (rule : Option Text) where
  abbrev name_of : DataField → Text
  name_of f = json_name heck object rule (read_field schema_of f)

  abbrev names : List DataField → List Text
  names fs = required heck object rule (map (read_field schema_of) fs)

  -- A field of the struct that is no `Option` has the name.
  pub data IsMandatory (name : Text) (fs : List DataField) : Type 0 where
    field : (f : DataField) → Memᴰ f fs → ¬ IsOption f.ty → name_of f ≡ name → IsMandatory name fs
