-- ===== src/Examples/Keys.antt =====
-- Composite keys and texts at concrete inputs.
use fabric_chaincode_rs.Prelude.{
  ◌≡◌, refl, Bool, true, none, List, [], ◌∷◌, ◌++◌, ◌&&◌, Text, Bytes, str, IsText, ltb, arith,
  nat_Eq, list_Eq,
}
use fabric_chaincode_rs.Error.{ok}
use fabric_chaincode_rs.CompositeKey.{
  create_composite_key, validate_composite_component, split_composite_key,
}
use fabric_chaincode_rs.CompositeKey.RoundTrip.{split-create}
use fabric_chaincode_rs.CompositeKey.Range.{
  partial_range, partial_range-create, in_range, starts_with,
}
use fabric_chaincode_rs.Stub.{ChaincodeStub}
use fabric_chaincode_rs.Examples.Peer.{core}

unfoldable pub is_ascii : Text → Bool
is_ascii [] = true
is_ascii (c ∷ s) = ltb c 128 && is_ascii s

pub is_ascii-IsText : (s : Text) → is_ascii s ≡ true → IsText s
unfolding is_ascii
is_ascii-IsText [] h = _
is_ascii-IsText (c ∷ s) h = (ground arith, is_ascii-IsText s (ground arith))

-- owner~asset
abbrev owned_key : Text
owned_key = 0 ∷ str "owner" ++ 0 ∷ str "Max" ++ 0 ∷ str "asset4" ++ 0 ∷ []

split-create_example :
    split_composite_key owned_key ≡ ok (str "owner", str "Max" ∷ str "asset4" ∷ [])
unfolding create_composite_key str validate_composite_component
split-create_example = split-create (λ t. t) (str "owner") (str "Max" ∷ str "asset4" ∷ []) refl

partial_range-create_example :
    in_range
      (0 ∷ str "owner" ++ 0 ∷ str "Max" ++ 0 ∷ [])
      (0 ∷ str "owner" ++ 0 ∷ str "Max" ++ 0 ∷ 0x10FFFF ∷ [])
      owned_key
    ≡ true
unfolding create_composite_key str validate_composite_component is_ascii partial_range list_Eq
    starts_with
partial_range-create_example =
    partial_range-create (λ t. t) (str "owner") (str "owner") (str "Max" ∷ [])
      (str "Max" ∷ str "asset4" ∷ [])
      (
        is_ascii-IsText (str "owner") refl,
        (is_ascii-IsText (str "Max") refl, (is_ascii-IsText (str "asset4") refl, _)),
      )
      refl refl

abbrev pub stub_of : List Bytes → ChaincodeStub
stub_of args = record {
  core = core;
  args = args;
  decorations = [];
  signed_proposal = none;
  creator = [];
  transient = [];
  tx_timestamp = none;
}
