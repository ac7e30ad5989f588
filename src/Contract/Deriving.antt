-- ===== src/Contract/Deriving.antt =====
-- fabric-shim-macros/src/lib.rs, lines 379-408 and 470-514: what `derive(DataType)` reads of a struct.
pub mod Required
use fabric_chaincode_rs.Prelude.{
  ◌≡◌, ◌≢◌, ◌↔◌, refl, ap, sym, ◌∙◌, Bool, true, false, Option, none, some, List, [], ◌∷◌, map,
  Text, str, ◌==◌, list_Eq, nat_Eq, if◌then◌else◌, Bool-cases, Option-cases, inl, inr,
}
use fabric_chaincode_rs.Error.{Result, ok, err}
use fabric_chaincode_rs.Contract.Describe.{TypeSchema}
use fabric_chaincode_rs.Contract.DataType.{Field, Struct}
use fabric_chaincode_rs.Contract.Parsing.{is_ident}
use fabric_chaincode_rs.Contract.Syntax.{
  SynType, PathArguments, angle_bracketed, type_argument, SerdeValue, literal, expression, bare,
  unreadable, SerdeItem, DataAttribute, DataField, Data, named, unnamed, no_struct, DeriveInput,
}

-- lines 501-503: the key's own value
own_value : SerdeValue → Option Text → Option Text × Bool
own_value (literal lit) found = (some lit, true)
own_value _ found = (found, false)

-- lines 504-506: what stands behind another key
other_value : SerdeValue → Option Text → Option Text × Bool
other_value unreadable found = (found, false)
other_value _ found = (found, true)

-- one item: the value found, and whether the reading goes on
read_item : Text → SerdeItem → Option Text → Option Text × Bool
unfolding own_value other_value
read_item key item found =
    if is_ident key item.key then own_value item.value found else other_value item.value found

-- lines 500-508: the value of the key in one attribute
unfoldable pub read_items : Text → List SerdeItem → Option Text → Option Text
unfolding read_item
read_items key [] found = found
read_items key (item ∷ items) found =
    let (next, goes_on) = read_item key item found in
    let rest = read_items key items next in if goes_on then rest else next

or_next : Option Text → Option Text → Option Text
or_next none next = next
or_next (some v) next = some v

-- the first `serde` attribute with a value
unfoldable pub serde_string_value : List DataAttribute → Text → Option Text
unfolding read_items or_next
serde_string_value [] key = none
serde_string_value (attr ∷ attrs) key =
    let others = serde_string_value attrs key in
    if is_ident (str "serde") attr.ident
    then or_next (read_items key attr.items none) others
    else others

unfoldable pub serde_rename : List DataAttribute → Option Text
serde_rename attrs = serde_string_value attrs (str "rename")

unfoldable pub serde_rename_all : List DataAttribute → Option Text
serde_rename_all attrs = serde_string_value attrs (str "rename_all")

unfoldable pub unwrap_option : SynType → SynType × Bool
unwrap_option (SynType.path ident (angle_bracketed (type_argument inner args))) =
    if ident == str "Option"
    then (inner, true)
    else (SynType.path ident (angle_bracketed (type_argument inner args)), false)
unwrap_option ty = (ty, false)

module _ {V : Type 0} (schema_of : SynType → TypeSchema V) where
  -- lines 404-408
  unfoldable pub read_field : DataField → Field V
  read_field f = record {
    ident = f.ident;
    rename = serde_rename f.attrs;
    type = schema_of (unwrap_option f.ty).0;
    optional = (unwrap_option f.ty).1;
  }

  read_data : DeriveInput → Data → Result (Struct V) Text
  unfolding read_field serde_rename_all
  read_data input no_struct = err (str "DataType supports only structs")
  read_data input unnamed = err (str "DataType requires named fields")
  read_data input (named fields) =
      if input.is_generic
      then err (str "DataType structs cannot be generic")
      else ok (record {
        name = input.ident;
        rename_all = serde_rename_all input.attrs;
        fields = map read_field fields;
      })

  unfoldable pub derive_data_type : DeriveInput → Result (Struct V) Text
  unfolding read_data
  derive_data_type input = read_data input input.body
