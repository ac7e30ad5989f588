-- ===== src/Contract/Trim.antt =====
-- The standard library's `str::trim`, which fabric-shim/src/contract.rs calls on an argument's text.
use fabric_chaincode_rs.Prelude.{
  ℕ, ◌≡◌, refl, ap, ◌∙◌, Bool, true, false, some, [], ◌∷◌, ◌++◌, ◌&&◌, ◌||◌, Text, IsText, IsScalar,
  leb, nat_eq, if◌then◌else◌, All, All-append, arith,
}
use fabric_chaincode_rs.Utf8.{into_bytes, from_utf8}
use fabric_chaincode_rs.Utf8.RoundTrip.{from_utf8-into_bytes}

-- char::is_whitespace
unfoldable pub is_whitespace : ℕ → Bool
is_whitespace c =
    (leb 9 c && leb c 13)
    || nat_eq c 32
    || nat_eq c 133
    || nat_eq c 160
    || nat_eq c 5760
    || (leb 8192 c && leb c 8202)
    || nat_eq c 8232
    || nat_eq c 8233
    || nat_eq c 8239
    || nat_eq c 8287
    || nat_eq c 12288

-- White space only.
abbrev pub IsBlank : Text → Type 0
IsBlank = All (λ c. is_whitespace c ≡ true)

-- No white space, and not empty.
abbrev pub IsWord : Text → Type 0
IsWord [] = ⊥
IsWord (c ∷ s) = All (λ c. is_whitespace c ≡ false) (c ∷ s)

trim_start : Text → Text
unfolding is_whitespace
trim_start [] = []
trim_start (c ∷ s) = let rest = trim_start s in if is_whitespace c then rest else c ∷ s

-- a trailing white space is dropped where nothing is left behind it
keep_end : ℕ → Text → Text
unfolding is_whitespace
keep_end c [] = if is_whitespace c then [] else c ∷ []
keep_end c (d ∷ s) = c ∷ d ∷ s

trim_end : Text → Text
unfolding keep_end
trim_end [] = []
trim_end (c ∷ s) = keep_end c (trim_end s)

-- str::trim
unfoldable pub trim : Text → Text
unfolding trim_start trim_end
trim s = trim_end (trim_start s)

trim_start-blank :
    (before : Text) (c : ℕ) (s : Text)
    → IsBlank before
    → is_whitespace c ≡ false
    → trim_start (before ++ c ∷ s) ≡ c ∷ s
unfolding trim_start
trim_start-blank [] c s h n = rw n refl
trim_start-blank (d ∷ before) c s h n = rw h.0 (trim_start-blank before c s h.1 n)

trim_end-blank : (after : Text) → IsBlank after → trim_end after ≡ []
unfolding trim_end keep_end
trim_end-blank [] h = refl
trim_end-blank (c ∷ after) h = rw (trim_end-blank after h.1, h.0) refl

IsScalar-blank : (c : ℕ) → is_whitespace c ≡ true → IsScalar c
unfolding is_whitespace
IsScalar-blank c h = ground arith

IsBlank-IsText : (s : Text) → IsBlank s → IsText s
IsBlank-IsText [] h = tt
IsBlank-IsText (c ∷ s) h = (IsScalar-blank c h.0, IsBlank-IsText s h.1)

trim_end-word :
    (word after : Text)
    → All (λ c. is_whitespace c ≡ false) word
    → IsBlank after
    → trim_end (word ++ after) ≡ word
unfolding trim_end
trim_end-word [] after h k = trim_end-blank after k
trim_end-word (c ∷ []) after h k = rw (trim_end-blank after k) (unfold keep_end in rw h.0 refl)
trim_end-word (c ∷ d ∷ word) after h k = rw (trim_end-word (d ∷ word) after h.1 k) refl

pub trim-padded :
    (before word after : Text)
    → IsBlank before
    → IsWord word
    → IsBlank after
    → trim (before ++ (word ++ after)) ≡ word
unfolding trim
trim-padded before [] after h w k = absurd w
trim-padded before (c ∷ word) after h w k =
    ap trim_end (trim_start-blank before c (word ++ after) h w.0)
    ∙ trim_end-word (c ∷ word) after w k

pub from_utf8-padded :
    (before word after : Text)
    → IsBlank before
    → IsText word
    → IsBlank after
    → from_utf8 (into_bytes (before ++ (word ++ after))) ≡ some (before ++ (word ++ after))
from_utf8-padded before word after h w k = from_utf8-into_bytes _ (
    All-append IsScalar before (word ++ after) (IsBlank-IsText before h)
      (All-append IsScalar word after w (IsBlank-IsText after k)))
