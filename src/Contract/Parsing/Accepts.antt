-- ===== src/Contract/Parsing/Accepts.antt =====
-- Which methods `#[contract]` accepts, and what it reads of them.
use mathlib.Core.Path.{subst}
use fabric_chaincode_rs.Prelude.{
  ◌≡◌, ◌↔◌, refl, ap, true, Option, none, some, List, [], ==-refl, ◌∷◌, ◌++◌, Text, str, ◌==◌,
  list_Eq, nat_Eq, Bool-cases, inl, inr,
}
use fabric_chaincode_rs.Contract.Syntax.{
  SynType, angle_bracketed, no_arguments, parenthesized, GenericArguments, no_more, type_argument,
  other_argument, Meta, FnArg, receiver, typed,
}
use fabric_chaincode_rs.Contract.Parsing.{
  is_ident, tag_step, read_tag, read_params, first_type, extract_result_ok,
}

-- The options `evaluate`, `submit` and `name = "..."`, from the tag and the name before them to those
-- after them.
pub data IsTagged : List Meta → Text × Option Text → Text × Option Text → Type 0 where
  end : {st : Text × Option Text} → IsTagged [] st st
  evaluate :
      {p : Option Text} {metas : List Meta} {tag : Text} {name : Option Text}
      {out : Text × Option Text}
      → p ≡ some (str "evaluate")
      → IsTagged metas (str "evaluate", name) out
      → IsTagged (Meta.path p ∷ metas) (tag, name) out
  submit :
      {p : Option Text} {metas : List Meta} {tag : Text} {name : Option Text}
      {out : Text × Option Text}
      → p ≡ some (str "submit")
      → IsTagged metas (str "submit", name) out
      → IsTagged (Meta.path p ∷ metas) (tag, name) out
  named :
      {p : Option Text} {lit : Text} {metas : List Meta} {tag : Text} {name : Option Text}
      {out : Text × Option Text}
      → p ≡ some (str "name")
      → IsTagged metas (tag, some lit) out
      → IsTagged (Meta.name_value p (some lit) ∷ metas) (tag, name) out

is_ident_iff : (name : Text) (p : Option Text) → (is_ident name p ≡ true) ↔ (p ≡ some name)
is_ident_iff name none = ((λ h. cc), λ h. cc)
is_ident_iff name (some i) = (
  (λ h. ap some (((list_Eq ⦃e = nat_Eq⦄).same_iff i name).0 h)),
  λ h. ((list_Eq ⦃e = nat_Eq⦄).same_iff i name).1 (cc h),
)

pub read_tag-IsTagged :
    (metas : List Meta) (st out : Text × Option Text)
    → IsTagged metas st out
    → read_tag metas st ≡ (out, [])
unfolding read_tag tag_step str list_Eq
read_tag-IsTagged _ _ _ end = refl
read_tag-IsTagged _ _ out (evaluate e h) = rw e (rw (read_tag-IsTagged _ _ out h) refl)
read_tag-IsTagged _ _ out (submit e h) = rw e (rw (read_tag-IsTagged _ _ out h) refl)
read_tag-IsTagged _ _ out (named e h) = rw e (rw (read_tag-IsTagged _ _ out h) refl)

some_eq : {a b : SynType} → some a ≡ some b → a ≡ b
some_eq h = cc

pub no_errors : (xs ys : List Text) → xs ++ ys ≡ [] → (xs ≡ []) × (ys ≡ [])
no_errors [] ys h = (refl, h)
no_errors (x ∷ xs) ys h = cc

tag_step-IsTagged :
    (meta : Meta) (metas : List Meta) (st out : Text × Option Text)
    → (tag_step meta st).1 ≡ []
    → IsTagged metas (tag_step meta st).0 out
    → IsTagged (meta ∷ metas) st out
unfolding tag_step
tag_step-IsTagged (Meta.path p) metas (tag, name) out =
    elim (Bool-cases (is_ident (str "evaluate") p)) [
      | inl y ↦ rw y (λ e k. evaluate ((is_ident_iff (str "evaluate") p).0 y) k)
      | inr n ↦ elim (Bool-cases (is_ident (str "submit") p)) [
        | inl y ↦ rw (n, y) (λ e k. submit ((is_ident_iff (str "submit") p).0 y) k)
        | inr n' ↦ rw (n, n') (λ e k. cc)
      ]
    ]
tag_step-IsTagged (Meta.name_value p none) metas (tag, name) out = λ e k. cc
tag_step-IsTagged (Meta.name_value p (some lit)) metas (tag, name) out =
    elim (Bool-cases (is_ident (str "name") p)) [
      | inl y ↦ rw y (λ e k. named ((is_ident_iff (str "name") p).0 y) k)
      | inr n ↦ rw n (λ e k. cc)
    ]
tag_step-IsTagged (Meta.list p) metas (tag, name) out = λ e k. cc

pub IsTagged-read_tag :
    (metas : List Meta) (st : Text × Option Text)
    → (read_tag metas st).1 ≡ []
    → IsTagged metas st (read_tag metas st).0
unfolding read_tag
IsTagged-read_tag [] st h = end
IsTagged-read_tag (meta ∷ metas) st h =
    let (e, more) = no_errors (tag_step meta st).1 (read_tag metas (tag_step meta st).0).1 h in
    tag_step-IsTagged meta metas st _ e (IsTagged-read_tag metas (tag_step meta st).0 more)

-- Parameters that are identifiers, with their types.
pub data IsParams : List FnArg → List (Text × SynType) → Type 0 where
  end : IsParams [] []
  skipped :
      {inputs : List FnArg} {params : List (Text × SynType)}
      → IsParams inputs params
      → IsParams (receiver ∷ inputs) params
  param :
      {ident : Text} {ty : SynType} {inputs : List FnArg} {params : List (Text × SynType)}
      → IsParams inputs params
      → IsParams (typed (some ident) ty ∷ inputs) ((ident, ty) ∷ params)

pub read_params-IsParams :
    (inputs : List FnArg) (params : List (Text × SynType))
    → IsParams inputs params
    → read_params inputs ≡ (params, [])
unfolding read_params
read_params-IsParams _ _ end = refl
read_params-IsParams _ _ (skipped h) = read_params-IsParams _ _ h
read_params-IsParams _ _ (param h) = rw (read_params-IsParams _ _ h) refl

pub IsParams-read_params :
    (inputs : List FnArg) → (read_params inputs).1 ≡ [] → IsParams inputs (read_params inputs).0
unfolding read_params
IsParams-read_params [] h = end
IsParams-read_params (receiver ∷ inputs) h = skipped (IsParams-read_params inputs h)
IsParams-read_params (typed (some ident) ty ∷ inputs) h = param (IsParams-read_params inputs h)
IsParams-read_params (typed none ty ∷ inputs) h = cc

-- `Result<T, ..>`, with `T` the first type among the arguments.
pub data IsFirst : GenericArguments → SynType → Type 0 where
  here : {t : SynType} {args : GenericArguments} → IsFirst (type_argument t args) t
  there : {t : SynType} {args : GenericArguments} → IsFirst args t → IsFirst (other_argument args) t

pub data IsResult : SynType → SynType → Type 0 where
  result :
      {ident : Text} {args : GenericArguments} {t : SynType}
      → ident ≡ str "Result"
      → IsFirst args t
      → IsResult (SynType.path ident (angle_bracketed args)) t

first_type-IsFirst :
    (args : GenericArguments) (t : SynType) → IsFirst args t → first_type args ≡ some t
unfolding first_type
first_type-IsFirst _ _ here = refl
first_type-IsFirst _ _ (there h) = first_type-IsFirst _ _ h

IsFirst-first_type :
    (args : GenericArguments) (t : SynType) → first_type args ≡ some t → IsFirst args t
unfolding first_type
IsFirst-first_type no_more t h = cc
IsFirst-first_type (type_argument s args) t h =
    subst (IsFirst (type_argument s args)) (some_eq h) here
IsFirst-first_type (other_argument args) t h = there (IsFirst-first_type args t h)

IsResult-extract : (ty t : SynType) → extract_result_ok ty ≡ some t → IsResult ty t
unfolding extract_result_ok
IsResult-extract (SynType.path ident (angle_bracketed args)) t =
    elim (Bool-cases (ident == str "Result")) [
      | inl y ↦ rw y (λ h.
          result (((list_Eq ⦃e = nat_Eq⦄).same_iff ident (str "Result")).0 y)
            (IsFirst-first_type args t h))
      | inr n ↦ rw n (λ h. cc)
    ]
IsResult-extract (SynType.path ident no_arguments) t = λ h. cc
IsResult-extract (SynType.path ident parenthesized) t = λ h. cc
IsResult-extract (SynType.tuple ts) t = λ h. cc
IsResult-extract (SynType.verbatim s) t = λ h. cc

extract-IsResult : (ty t : SynType) → IsResult ty t → extract_result_ok ty ≡ some t
unfolding extract_result_ok
extract-IsResult _ t (result e h) =
    rw e (rw (==-refl (str "Result"), first_type-IsFirst _ t h) refl)

-- What is read as a result type is `Result<T, ..>`, and the other way round.
pub extract_result_ok_iff : (ty t : SynType) → (extract_result_ok ty ≡ some t) ↔ IsResult ty t
extract_result_ok_iff ty t = (IsResult-extract ty t, extract-IsResult ty t)
