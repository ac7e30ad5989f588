-- ===== src/Prelude/Strings.antt =====
-- Texts. A Rust `String` is the list of its Unicode scalar values; a byte string is a list of
-- numbers, which in Rust are below 256. `str` reads a literal.
use Prim.Native.Nat.{ℕ, ◌≤◌, ◌<◌}
use Prim.Native.Char.{code}
use Prim.Native.String.{String}
use mathlib.Core.List.{List, [], ◌∷◌}
use mathlib.Core.Logic.{◌⊎◌}
use fabric_chaincode_rs.Prelude.Lists.{All}

abbrev pub Text : Type 0
Text = List ℕ

abbrev pub Bytes : Type 0
Bytes = List ℕ

-- A `char` is a code point that is no surrogate.
abbrev pub IsScalar : ℕ → Type 0
IsScalar c = (c < 55296) ⊎ ((57344 ≤ c) × (c < 1114112))

abbrev pub IsText : Text → Type 0
IsText = All IsScalar

unfoldable pub str : String → Text
str String.[] = []
str (String.◌∷◌ c s) = code c ∷ str s
