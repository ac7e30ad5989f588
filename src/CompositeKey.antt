-- ===== src/CompositeKey.antt =====
-- fabric-shim/src/stub.rs, lines 15-18 and 457-508: composite keys.
-- `debug_str` is the standard library's `Debug` for `str`, which one error message shows.
pub mod RoundTrip
pub mod Range
use fabric_chaincode_rs.Prelude.{
  ℕ, ◌||◌, Option, none, some, List, [], ◌∷◌, ◌++◌, Bool, true, false, not, Text, str, is_empty,
  filter_by, ◌==◌, nat_Eq, if◌then◌else◌,
}
use fabric_chaincode_rs.Error.{Error, invalid_argument, Result, ok, err, ◌>>=◌, ◌>>◌, ok_or}

abbrev pub composite_key_namespace : ℕ
composite_key_namespace = 0

abbrev pub max_unicode_rune : ℕ
max_unicode_rune = 0x10FFFF

-- str::contains at a character
unfoldable pub contains : ℕ → Text → Bool
contains c [] = false
contains c (x ∷ s) = x == c || contains c s

-- str::split at a character: one part more than there are separators
prepend : ℕ → List Text → List Text
prepend x [] = []
prepend x (p ∷ ps) = (x ∷ p) ∷ ps

unfoldable pub split : ℕ → Text → List Text
unfolding prepend
split c [] = [] ∷ []
split c (x ∷ s) = let rest = split c s in if x == c then [] ∷ rest else prepend x rest

-- str::strip_prefix at a character
strip_prefix : ℕ → Text → Option Text
strip_prefix c [] = none
strip_prefix c (x ∷ s) = if x == c then some s else none

module _ (debug_str : Text → Text) where
  unfoldable pub validate_composite_component : Text → Result (Unit {0}) Error
  unfolding contains
  validate_composite_component s =
      if is_empty s
      then err (invalid_argument (str "composite key component must not be empty"))
      else if contains composite_key_namespace s || contains max_unicode_rune s
      then err (
          invalid_argument
            (str "composite key component " ++ debug_str s ++ str " contains U+0000 or U+10FFFF"))
      else ok tt

  -- the `for` loop over the attributes; `?` leaves it at the first one refused
  push_attributes : Text → List Text → Result Text Error
  push_attributes key [] = ok key
  push_attributes key (attr ∷ attrs) = do
    validate_composite_component attr
    push_attributes (key ++ attr ++ composite_key_namespace ∷ []) attrs

  unfoldable pub create_composite_key : Text → List Text → Result Text Error
  unfolding push_attributes
  create_composite_key object_type attributes = do
    validate_composite_component object_type
    push_attributes (composite_key_namespace ∷ (object_type ++ composite_key_namespace ∷ []))
        attributes

-- `parts.next()` and the parts that remain
take_object_type : List Text → Result (Text × List Text) Error
take_object_type [] = err (invalid_argument (str "composite key has no object type"))
take_object_type (object_type ∷ parts) = ok (object_type, parts)

unfoldable pub split_composite_key : Text → Result (Text × List Text) Error
unfolding take_object_type strip_prefix
split_composite_key composite_key = do
  stripped ←
      ok_or (strip_prefix composite_key_namespace composite_key)
        (invalid_argument (str "not a composite key"))
  let parts = filter_by (λ p. not (is_empty p)) (split composite_key_namespace stripped)
  take_object_type parts
