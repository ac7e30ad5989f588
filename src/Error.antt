-- ===== src/Error.antt =====
-- fabric-shim/src/error.rs: the error type, its `Display`, and `Result`.
use fabric_chaincode_rs.Prelude.{◌++◌, ◌⊎◌, inl, inr, ◌≡◌, refl, Option, none, some, Text, str}

-- prost's error, known to the program by the text that it displays.
pub record DecodeError : Type 0 where
  pub description : Text

pub data Error : Type 0 where
  peer protocol : Text → Error
  decode : DecodeError → Error
  connection_closed : Error
  config invalid_argument transport : Text → Error

-- the `#[error("...")]` attributes
unfoldable pub to_string : Error → Text
to_string (peer m) = str "peer error: " ++ m
to_string (protocol m) = str "protocol error: " ++ m
to_string (decode e) = str "decode error: " ++ e.description
to_string connection_closed = str "connection to peer closed"
to_string (config m) = str "configuration error: " ++ m
to_string (invalid_argument m) = str "invalid argument: " ++ m
to_string (transport m) = str "transport error: " ++ m

pub data Result {ℓ κ} (A : Type ℓ) (E : Type κ) : Type (ℓ ⊔ κ) where
  ok : A → Result A E
  err : E → Result A E

-- the `?` operator
infixl 5 ◌>>=◌ ◌>>◌
abbrev pub ◌>>=◌ {ℓ κ ι} :
    {A : Type ℓ} {B : Type κ} {E : Type ι} → Result A E → (A → Result B E) → Result B E
ok a >>= f = f a
err e >>= f = err e

abbrev pub ◌>>◌ {κ ι} : {B : Type κ} {E : Type ι} → Result (Unit {0}) E → Result B E → Result B E
m >> k = m >>= λ _. k

-- Result::map_err
abbrev pub map_err {ℓ κ ι} :
    {A : Type ℓ} {E : Type κ} {F : Type ι} → (E → F) → Result A E → Result A F
map_err f (ok a) = ok a
map_err f (err e) = err (f e)

-- Result::map
abbrev pub map_ok {ℓ κ ι} :
    {A : Type ℓ} {B : Type κ} {E : Type ι} → (A → B) → Result A E → Result B E
map_ok f (ok a) = ok (f a)
map_ok f (err e) = err e

-- `?` at a decoding, by `From<DecodeError>`
abbrev pub decoded {ℓ} : {A : Type ℓ} → Result A DecodeError → Result A Error
decoded r = map_err decode r

-- Option::ok_or_else
abbrev pub ok_or {ℓ κ} : {A : Type ℓ} {E : Type κ} → Option A → E → Result A E
ok_or none e = err e
ok_or (some a) e = ok a

module _ {ℓ κ ι} {A : Type ℓ} {B : Type κ} {E : Type ι} (k : A → Result B E) where
  -- A chain that returned went through an intermediate result.
  pub >>=-eq-ok :
      (r : Result A E) {out : B} → (r >>= k) ≡ ok out → (mid : A) × (r ≡ ok mid) × (k mid ≡ ok out)
  >>=-eq-ok (err e) chain = cc
  >>=-eq-ok (ok mid) chain = (mid, refl, chain)

pub result_cases {ℓ κ} :
    {A : Type ℓ} {E : Type κ} (r : Result A E) → ((a : A) × (r ≡ ok a)) ⊎ ((e : E) × (r ≡ err e))
result_cases (ok a) = inl (a, refl)
result_cases (err e) = inr (e, refl)

pub map_err-eq-ok {ℓ κ ι} :
    {A : Type ℓ} {E : Type κ} {F : Type ι} (f : E → F) (r : Result A E) {a : A}
    → map_err f r ≡ ok a
    → r ≡ ok a
map_err-eq-ok f (ok b) h = cc
map_err-eq-ok f (err e) h = cc
