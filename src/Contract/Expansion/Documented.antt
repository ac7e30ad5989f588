-- ===== src/Contract/Expansion/Documented.antt =====
-- The generated metadata against the generated `invoke`.
use mathlib.Core.List.{Memᴰ}
use mathlib.Core.List.Memᴰ
use mathlib.Core.Option.{some-injective}
use fabric_chaincode_rs.Prelude.{
  ◌≡◌, ◌≢◌, Option-cases, refl, sym, ap, ◌∙◌, false, true, none, some, List, [], ◌∷◌, map, Text,
  Bytes, list_Eq, nat_Eq, or_else, ◌==◌, ==-refl, Bool-cases, inl, inr,
}
use fabric_chaincode_rs.Prelude.Map
use fabric_chaincode_rs.Error.{Result}
use fabric_chaincode_rs.Session.{Session}
use fabric_chaincode_rs.Stub.{ChaincodeStub}
use fabric_chaincode_rs.Metadata.{Contract, Transaction}
use fabric_chaincode_rs.Contract.{TxMethod, Called, find_method, function_name}
use fabric_chaincode_rs.Contract.Routing.{IsSimple, function_name-qualified}
use fabric_chaincode_rs.Contract.Describe.{TypeSchema, described, describe-described}
use fabric_chaincode_rs.Contract.Syntax.{SynType}
use fabric_chaincode_rs.Contract.Parsing.{ParsedTx}
use fabric_chaincode_rs.Contract.Expansion.{Expansion, declared, expanded_metadata, routed}

module _ {V W A R : Type 0} (lower_camel : Text → Text) (schema_of : SynType → TypeSchema V)
    (arg_of : SynType → Bytes → Result A Text)
    (method_of : ParsedTx → ChaincodeStub → List A → Session W → Called R × Session W) where
  abbrev arms : List ParsedTx → List (TxMethod W A R)
  arms txs = map (routed lower_camel arg_of method_of) txs

  abbrev shown : List ParsedTx → List (Transaction V)
  shown txs = map described (map (declared lower_camel schema_of) txs)

  abbrev show_tx : ParsedTx → Transaction V
  show_tx tx = described (declared lower_camel schema_of tx)

  -- An entry of the metadata has the name and the parameters' names of the method that is called.
  pub record IsDocumented (name : Text) (m : TxMethod W A R) (t : Transaction V) : Type 0 where
    pub name_eq : t.name ≡ name
    pub params_eq : map (λ p. p.name) t.parameters ≡ map (λ p. p.name) m.params

  show_tx-names :
      (tx : ParsedTx) (ps : List (Text × SynType))
      → map (λ p. p.name) (show_tx (record tx { params = ps })).parameters
        ≡ map (λ p. lower_camel p.0) ps
  unfolding described
  show_tx-names tx [] = refl
  show_tx-names tx (p ∷ ps) = ap (λ ns. lower_camel p.0 ∷ ns) (show_tx-names tx ps)

  routed-names :
      (tx : ParsedTx) (ps : List (Text × SynType))
      → map (λ p. p.name) (routed lower_camel arg_of method_of (record tx { params = ps })).params
        ≡ map (λ p. lower_camel p.0) ps
  unfolding routed
  routed-names tx [] = refl
  routed-names tx (p ∷ ps) = ap (λ ns. lower_camel p.0 ∷ ns) (routed-names tx ps)

  abbrev arm : ParsedTx → TxMethod W A R
  arm tx = routed lower_camel arg_of method_of tx

  find-here :
      (name : Text) (tx : ParsedTx) (txs : List ParsedTx)
      → name == tx.wire_name ≡ true
      → find_method name (arms (tx ∷ txs)) ≡ some (arm tx)
  unfolding find_method routed
  find-here name tx txs same = rw same refl

  find-there :
      (name : Text) (tx : ParsedTx) (txs : List ParsedTx)
      → name == tx.wire_name ≡ false
      → find_method name (arms (tx ∷ txs)) ≡ find_method name (arms txs)
  unfolding find_method routed
  find-there name tx txs other = rw other refl

  show_tx-IsDocumented :
      (name : Text) (tx : ParsedTx)
      → name ≡ tx.wire_name
      → IsDocumented name (routed lower_camel arg_of method_of tx) (show_tx tx)
  unfolding described
  show_tx-IsDocumented name tx same = record {
    name_eq = sym same;
    params_eq = show_tx-names tx tx.params ∙ sym (routed-names tx tx.params);
  }

  is_name : (name wire_name : Text) → name == wire_name ≡ true → name ≡ wire_name
  is_name name wire_name = ((list_Eq ⦃e = nat_Eq⦄).same_iff name wire_name).0

  found-shown :
      (name : Text) (txs : List ParsedTx) (m : TxMethod W A R)
      → find_method name (arms txs) ≡ some m
      → (t : Transaction V) × Memᴰ t (shown txs) × IsDocumented name m t
  found-shown name [] m = λ found. unfold find_method in cc
  found-shown name (tx ∷ txs) m = elim (Bool-cases (name == tx.wire_name)) [
    | inl same ↦ λ found.
        let e = some-injective _ _ (sym (find-here name tx txs same) ∙ found) in
        (
          show_tx tx,
          Memᴰ.head refl,
          rw (sym e) (show_tx-IsDocumented name tx (is_name name tx.wire_name same)),
        )
    | inr other ↦ λ found.
        let (t, i, d) = found-shown name txs m (sym (find-there name tx txs other) ∙ found) in
        (t, Memᴰ.tail i, d)
  ]

  shown-found :
      (txs : List ParsedTx) (t : Transaction V)
      → Memᴰ t (shown txs)
      → (m : TxMethod W A R) × (find_method t.name (arms txs) ≡ some m)
  shown-found [] t = λ i. absurd (Memᴰ.not-nil i)
  shown-found (tx ∷ txs) t = elim (Bool-cases (t.name == tx.wire_name)) [
    | inl same ↦ λ i. (routed lower_camel arg_of method_of tx, find-here t.name tx txs same)
    | inr other ↦ λ i. elim (Memᴰ.cases_cons i) [
      | inl e ↦
          let same = ap (λ u. u.name == tx.wire_name) e in
          (arm tx, find-here t.name tx txs (same ∙ unfold described in ==-refl tx.wire_name))
      | inr i' ↦
          let (m, found) = shown-found txs t i' in (m, find-there t.name tx txs other ∙ found)
    ]
  ]

  -- A call by a name reaches a method with its entry in the metadata, or there is neither.
  pub data Agree (name : Text) (ms : List (TxMethod W A R)) (ts : List (Transaction V))
      : Type 0 where
    both :
        (m : TxMethod W A R) (t : Transaction V)
        → find_method (function_name name) ms ≡ some m
        → Memᴰ t ts
        → IsDocumented name m t
        → Agree name ms ts
    neither :
        find_method (function_name name) ms ≡ none
        → ((t : Transaction V) → Memᴰ t ts → t.name ≢ name)
        → Agree name ms ts

  arms-shown :
      (name : Text) (txs : List ParsedTx)
      → function_name name ≡ name
      → Agree name (arms txs) (shown txs)
  arms-shown name txs plain = elim (Option-cases (find_method name (arms txs))) [
    | inl missing ↦ neither (rw plain missing) (λ t i e.
        let (m, found) = shown-found txs t i in
        let clash : find_method name (arms txs) ≡ some m =
          ap (λ n. find_method n (arms txs)) (sym e) ∙ found in
        cc)
    | inr (m, found) ↦ let (t, i, d) = found-shown name txs m found in both m t (rw plain found) i d
  ]

  -- Under every name without a colon, either the generated `invoke`, called by it, finds a method and
  -- the generated metadata lists a transaction of that name with the names of the method's parameters,
  -- in order, or there is neither.
  pub metadata-Agree :
      (crate_version : Text) (e : Expansion) (name : Text)
      → IsSimple name
      → (c : Contract V) × (Map.get e.contract_name
            (expanded_metadata lower_camel schema_of crate_version e).contracts
          ≡ some c)
        × Agree name (map (routed lower_camel arg_of method_of) e.txs) c.transactions
  unfolding expanded_metadata
  metadata-Agree crate_version e name simple = (
    _,
    describe-described e.contract_name e.title (or_else e.version crate_version)
        (map (declared lower_camel schema_of) e.txs),
    arms-shown name e.txs (function_name-qualified [] name simple).0,
  )
