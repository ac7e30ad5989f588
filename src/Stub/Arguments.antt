-- ===== src/Stub/Arguments.antt =====
-- The text arguments of a transaction.
use fabric_chaincode_rs.Prelude.{◌≡◌, refl, ap, ◌∙◌, List, [], ◌∷◌, map, Text, IsText, All}
use fabric_chaincode_rs.Utf8.{into_bytes, from_utf8_lossy}
use fabric_chaincode_rs.Utf8.RoundTrip.{from_utf8_lossy-into_bytes}
use fabric_chaincode_rs.Stub.{ChaincodeStub, get_string_args, get_function_and_args, function_of}

map-lossy : (ts : List Text) → All IsText ts → map from_utf8_lossy (map into_bytes ts) ≡ ts
map-lossy [] h = refl
map-lossy (t ∷ ts) h = cc (from_utf8_lossy-into_bytes t h.0, map-lossy ts h.1)

-- Arguments that a client encoded as UTF-8 are read back unchanged: the first is the function, the
-- others its parameters.
pub get_function_and_args-into_bytes :
    (stub : ChaincodeStub) (function : Text) (params : List Text)
    → All IsText (function ∷ params)
    → stub.args ≡ map into_bytes (function ∷ params)
    → get_function_and_args stub ≡ (function, params)
unfolding get_function_and_args get_string_args
get_function_and_args-into_bytes stub function params h e =
    ap (λ as'. function_of (map from_utf8_lossy as')) e
    ∙ ap function_of (map-lossy (function ∷ params) h)
