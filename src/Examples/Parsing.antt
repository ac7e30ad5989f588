-- ===== src/Examples/Parsing.antt =====
-- What the macro reads of an impl block.
use fabric_chaincode_rs.Prelude.{true, false, none, some, [], ◌∷◌, Text, str}
use fabric_chaincode_rs.Error.{ok}
use fabric_chaincode_rs.Contract.Syntax.{
  SynType, no_arguments, angle_bracketed, type_argument, no_more, Meta, receiver, typed, Method, fn,
  other_item, ItemImpl,
}
use fabric_chaincode_rs.Contract.Expansion.{Expansion}

abbrev plain_type : Text → SynType
plain_type name = SynType.path name no_arguments

-- `async fn read_asset(&self, ctx: &ChaincodeStub, id: String) -> Result<Asset, Error>`
abbrev read_asset : Method
read_asset = record {
  attrs =
      record {
        ident = some (str "transaction");
        arguments = some (ok (Meta.path (some (str "evaluate")) ∷ []));
      }
      ∷ [];
  ident = str "read_asset";
  asyncness = true;
  inputs =
      receiver
      ∷ typed (some (str "ctx")) (SynType.verbatim (str "&ChaincodeStub"))
      ∷ typed (some (str "id")) (plain_type (str "String"))
      ∷ [];
  output = some (
      SynType.path (str "Result") (
        angle_bracketed (
          type_argument (plain_type (str "Asset"))
            (type_argument (plain_type (str "Error")) no_more))));
}

abbrev impl_block : ItemImpl
impl_block = record {
  is_generic = false;
  self_ty = some (str "AssetTransfer");
  items = other_item ∷ fn read_asset ∷ [];
}

abbrev pub expansion : Expansion
expansion = record {
  contract_name = str "Assets";
  title = str "Assets";
  version = none;
  txs =
      record {
        wire_name = str "read_asset";
        tag = str "evaluate";
        method_ident = str "read_asset";
        is_async = true;
        params = (str "id", plain_type (str "String")) ∷ [];
        ok_ty = some (plain_type (str "Asset"));
      }
      ∷ [];
}
