-- ===== src/Contract/Parsing/Options.antt =====
-- Which arguments `#[contract]` accepts, and what it reads of them.
use fabric_chaincode_rs.Prelude.{
  ◌≡◌, ◌↔◌, refl, ap, true, false, is_empty, Option, none, some, List, [], ◌∷◌, Text, str, ◌==◌,
  or_else, list_Eq, nat_Eq, Bool-cases, inl, inr,
}
use fabric_chaincode_rs.Error.{Result, ok, err, >>=-eq-ok}
use fabric_chaincode_rs.Contract.Syntax.{Meta}
use fabric_chaincode_rs.Contract.Parsing.{
  ContractArgs, no_args, set_option, read_options, parse_contract_args,
}

-- `name = "..."`, `version = "..."` and `title = "..."`, from the arguments read before them to those
-- after them; the last of a kind counts.
pub data IsOptions : List Meta → ContractArgs → ContractArgs → Type 0 where
  end : {out : ContractArgs} → IsOptions [] out out
  name :
      {key : Option Text} {lit : Text} {metas : List Meta} {before after : ContractArgs}
      → key ≡ some (str "name")
      → IsOptions metas (record before { name = some lit }) after
      → IsOptions (Meta.name_value key (some lit) ∷ metas) before after
  version :
      {key : Option Text} {lit : Text} {metas : List Meta} {before after : ContractArgs}
      → key ≡ some (str "version")
      → IsOptions metas (record before { version = some lit }) after
      → IsOptions (Meta.name_value key (some lit) ∷ metas) before after
  title :
      {key : Option Text} {lit : Text} {metas : List Meta} {before after : ContractArgs}
      → key ≡ some (str "title")
      → IsOptions metas (record before { title = some lit }) after
      → IsOptions (Meta.name_value key (some lit) ∷ metas) before after

-- No arguments, or options between the parentheses.
pub data IsArguments : Option (Result (List Meta) Text) → ContractArgs → Type 0 where
  absent : IsArguments none (record { name = none; version = none; title = none })
  listed :
      {metas : List Meta} {args : ContractArgs}
      → IsOptions metas (record { name = none; version = none; title = none }) args
      → IsArguments (some (ok metas)) args

options-read :
    (metas : List Meta) (before after : ContractArgs)
    → IsOptions metas before after
    → read_options metas before ≡ ok after
unfolding read_options set_option str list_Eq
options-read _ _ _ end = refl
options-read _ _ after (name e h) = rw e (options-read _ _ after h)
options-read _ _ after (version e h) = rw e (options-read _ _ after h)
options-read _ _ after (title e h) = rw e (options-read _ _ after h)

key_is :
    (key : Option Text) (s : Text) → is_empty s ≡ false → or_else key [] == s ≡ true → key ≡ some s
key_is none s full h = cc (full, ap is_empty (((list_Eq ⦃e = nat_Eq⦄).same_iff [] s).0 h))
key_is (some k) s full h = ap some (((list_Eq ⦃e = nat_Eq⦄).same_iff k s).0 h)

abbrev ok_args : ContractArgs → Result ContractArgs Text
ok_args a = ok a

ok_eq : {a b : ContractArgs} → ok_args a ≡ ok_args b → a ≡ b
ok_eq h = cc

moved :
    {metas : List Meta} {a b after : ContractArgs}
    → a ≡ b
    → IsOptions metas b after
    → IsOptions metas a after
moved e k = rw e k

set-option :
    (key : Option Text) (lit : Text) (metas : List Meta) (before next after : ContractArgs)
    → set_option (or_else key []) lit before ≡ ok next
    → IsOptions metas next after
    → IsOptions (Meta.name_value key (some lit) ∷ metas) before after
unfolding set_option
set-option key lit metas before next after = elim (Bool-cases (or_else key [] == str "name")) [
  | inl y ↦ rw y (λ h k. name (key_is key (str "name") (unfold str in refl) y) (moved (ok_eq h) k))
  | inr n ↦ elim (Bool-cases (or_else key [] == str "version")) [
    | inl y ↦
        rw (n, y)
          (λ h k. version (key_is key (str "version") (unfold str in refl) y) (moved (ok_eq h) k))
    | inr n' ↦ elim (Bool-cases (or_else key [] == str "title")) [
      | inl y ↦
          rw (n, n', y)
            (λ h k. title (key_is key (str "title") (unfold str in refl) y) (moved (ok_eq h) k))
      | inr m ↦ rw (n, n', m) (λ h k. cc)
    ]
  ]
]

read-IsOptions :
    (metas : List Meta) (before after : ContractArgs)
    → read_options metas before ≡ ok after
    → IsOptions metas before after
unfolding read_options
read-IsOptions [] before after h = rw (ok_eq h) end
read-IsOptions (Meta.path p ∷ metas) before after h = cc
read-IsOptions (Meta.list p ∷ metas) before after h = cc
read-IsOptions (Meta.name_value key none ∷ metas) before after h = cc
read-IsOptions (Meta.name_value key (some lit) ∷ metas) before after h =
    let (next, set, rest) = >>=-eq-ok _ (set_option (or_else key []) lit before) h in
    set-option key lit metas before next after set (read-IsOptions metas next after rest)

arguments-parse :
    (attr : Option (Result (List Meta) Text)) (args : ContractArgs)
    → IsArguments attr args
    → parse_contract_args attr ≡ ok args
unfolding parse_contract_args
arguments-parse _ _ absent = refl
arguments-parse _ args (listed h) = options-read _ _ args h

parse-IsArguments :
    (attr : Option (Result (List Meta) Text)) (args : ContractArgs)
    → parse_contract_args attr ≡ ok args
    → IsArguments attr args
unfolding parse_contract_args
parse-IsArguments none args h = rw (← ok_eq h) absent
parse-IsArguments (some (err e)) args h = cc
parse-IsArguments (some (ok metas)) args h = listed (read-IsOptions metas no_args args h)

-- The arguments are read exactly as these options.
pub parse_contract_args_iff :
    (attr : Option (Result (List Meta) Text)) (args : ContractArgs)
    → (parse_contract_args attr ≡ ok args) ↔ IsArguments attr args
parse_contract_args_iff attr args = (parse-IsArguments attr args, arguments-parse attr args)
