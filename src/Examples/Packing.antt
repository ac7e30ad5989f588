-- ===== src/Examples/Packing.antt =====
-- A concrete wire format for the examples: a message is its fields, each ended by a zero.
use fabric_chaincode_rs.Prelude.{
  ℕ, zero, suc, ◌≡◌, refl, ap, ◌∙◌, List, [], ◌∷◌, Bytes, str, ℤ, pos, negsuc,
}
use fabric_chaincode_rs.Error.{DecodeError, Result, ok, err}
use fabric_chaincode_rs.Protos.Codec.{Codec, IsLossless}

field : Bytes → Bytes → Bytes
field [] rest = 0 ∷ rest
field (c ∷ b) rest = suc c ∷ field b rest

unfoldable pub pack : List Bytes → Bytes
unfolding field
pack [] = []
pack (b ∷ bs) = field b (pack bs)

push_head : ℕ → List Bytes → List Bytes
push_head c [] = (c ∷ []) ∷ []
push_head c (b ∷ bs) = (c ∷ b) ∷ bs

unfoldable pub unpack : Bytes → List Bytes
unfolding push_head
unpack [] = []
unpack (zero ∷ s) = [] ∷ unpack s
unpack (suc c ∷ s) = push_head c (unpack s)

unpack-field : (b rest : Bytes) → unpack (field b rest) ≡ b ∷ unpack rest
unfolding unpack field
unpack-field [] rest = refl
unpack-field (c ∷ b) rest = rw (unpack-field b rest) refl

pub unpack-pack : (bs : List Bytes) → unpack (pack bs) ≡ bs
unfolding pack unpack
unpack-pack [] = refl
unpack-pack (b ∷ bs) = unpack-field b (pack bs) ∙ ap (λ r. b ∷ r) (unpack-pack bs)

abbrev pub malformed : {A : Type 0} → Result A DecodeError
malformed = err (record { description = str "malformed message" })

-- A message as the list of its fields.
pub record Format (A : Type 0) : Type 0 where
  pub fields : A → List Bytes
  pub parse : List Bytes → Result A DecodeError

abbrev pub codec : {A : Type 0} → Format A → Codec A
codec f = record { encode = λ a. pack (f.fields a); decode = λ b. f.parse (unpack b) }

pub codec-IsLossless :
    {A : Type 0} (f : Format A) → ((a : A) → f.parse (f.fields a) ≡ ok a) → IsLossless (codec f)
codec-IsLossless f h a = rw unpack-pack (h a)

-- a codec of messages that no example sends
abbrev pub unused : {A : Type 0} → Codec A
unused = record { encode = λ _. []; decode = λ _. malformed }

unfoldable pub int_field : ℤ → Bytes
int_field (pos n) = 0 ∷ n ∷ []
int_field (negsuc n) = 1 ∷ n ∷ []

unfoldable pub int_of : Bytes → ℤ
int_of (zero ∷ n ∷ _) = pos n
int_of (suc _ ∷ n ∷ _) = negsuc n
int_of _ = pos 0

pub int_of-int_field : (z : ℤ) → int_of (int_field z) ≡ z
unfolding int_of int_field
int_of-int_field (pos n) = refl
int_of-int_field (negsuc n) = refl
