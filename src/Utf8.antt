-- ===== src/Utf8.antt =====
-- The standard library's UTF-8: `String::into_bytes`, `String::from_utf8`, `str::from_utf8` and
-- `String::from_utf8_lossy`, which stub.rs, handler.rs and contract.rs call.
pub mod RoundTrip
use mathlib.Core.Option
use fabric_chaincode_rs.Prelude.{
  zero, suc, length, ℕ, ◌+◌, ◌-◌, ◌*◌, ◌/◌, ◌%◌, ◌≤◌, ◌<◌, ◌⊎◌, Bool, ◌&&◌, ◌||◌, Option, none,
  some, List, [], ◌∷◌, ◌++◌, Text, Bytes, leb, ltb, if◌then◌else◌,
}

unfoldable pub encode_char : ℕ → Bytes
encode_char c =
    if ltb c 128
    then c ∷ []
    else if ltb c 2048
    then (192 + c / 64) ∷ (128 + c % 64) ∷ []
    else if ltb c 65536
    then (224 + c / 4096) ∷ (128 + c / 64 % 64) ∷ (128 + c % 64) ∷ []
    else (240 + c / 262144) ∷ (128 + c / 4096 % 64) ∷ (128 + c / 64 % 64) ∷ (128 + c % 64) ∷ []

unfoldable pub into_bytes : Text → Bytes
into_bytes [] = []
into_bytes (c ∷ t) = encode_char c ++ into_bytes t

abbrev within : ℕ → ℕ → ℕ → Bool
within lo hi b = leb lo b && leb b hi

-- The second bytes that a lead byte of three or four bytes admits.
unfoldable pub second3 : ℕ → ℕ → Bool
second3 a b =
    within 224 224 a && within 160 191 b
    || within 225 236 a && within 128 191 b
    || within 237 237 a && within 128 159 b
    || within 238 239 a && within 128 191 b

unfoldable pub second4 : ℕ → ℕ → Bool
second4 a b =
    within 240 240 a && within 144 191 b
    || within 241 243 a && within 128 191 b
    || within 244 244 a && within 128 143 b

-- One character of the input, the rest behind it, or the number of bytes of the maximal
-- ill-formed prefix that is replaced at once.
pub data Scan : Type 0 where
  char : ℕ → Bytes → Scan
  invalid : Bytes → Scan

scan2 : ℕ → Bytes → Scan
scan2 a [] = invalid []
scan2 a (b ∷ r) = if within 128 191 b then char ((a - 192) * 64 + (b - 128)) r else invalid (b ∷ r)

scan3_last : ℕ → ℕ → Bytes → Scan
scan3_last a b [] = invalid []
scan3_last a b (c ∷ r) =
    if within 128 191 c
    then char ((a - 224) * 4096 + (b - 128) * 64 + (c - 128)) r
    else invalid (c ∷ r)

scan3 : ℕ → Bytes → Scan
unfolding scan3_last second3
scan3 a [] = invalid []
scan3 a (b ∷ r) = if second3 a b then scan3_last a b r else invalid (b ∷ r)

scan4_last : ℕ → ℕ → ℕ → Bytes → Scan
scan4_last a b c [] = invalid []
scan4_last a b c (d ∷ r) =
    if within 128 191 d
    then char ((a - 240) * 262144 + (b - 128) * 4096 + (c - 128) * 64 + (d - 128)) r
    else invalid (d ∷ r)

scan4_third : ℕ → ℕ → Bytes → Scan
unfolding scan4_last
scan4_third a b [] = invalid []
scan4_third a b (c ∷ r) = if within 128 191 c then scan4_last a b c r else invalid (c ∷ r)

scan4 : ℕ → Bytes → Scan
unfolding scan4_third second4
scan4 a [] = invalid []
scan4 a (b ∷ r) = if second4 a b then scan4_third a b r else invalid (b ∷ r)

unfoldable pub scan : ℕ → Bytes → Scan
unfolding scan2 scan3 scan4
scan a r =
    if ltb a 128
    then char a r
    else if within 194 223 a
    then scan2 a r
    else if within 224 239 a
    then scan3 a r
    else if within 240 244 a
    then scan4 a r
    else invalid r

-- The loop that collects characters; every round takes at least one byte, so the input's length
-- is fuel enough.
decode : ℕ → Bytes → Option Text
decode fuel [] = some []
decode zero (a ∷ r) = none
decode (suc fuel) (a ∷ r) = elim (scan a r) [
  | char c rest ↦ Option.map (λ t. c ∷ t) (decode fuel rest)
  | invalid rest ↦ none
]

-- String::from_utf8, with the error dropped
unfoldable pub from_utf8 : Bytes → Option Text
unfolding decode
from_utf8 b = decode (length b) b

decode_lossy : ℕ → Bytes → Text
decode_lossy fuel [] = []
decode_lossy zero (a ∷ r) = []
decode_lossy (suc fuel) (a ∷ r) = elim (scan a r) [
  | char c rest ↦ c ∷ decode_lossy fuel rest
  | invalid rest ↦ 65533 ∷ decode_lossy fuel rest
]

-- String::from_utf8_lossy: an ill-formed part becomes U+FFFD
unfoldable pub from_utf8_lossy : Bytes → Text
unfolding decode_lossy
from_utf8_lossy b = decode_lossy (length b) b
