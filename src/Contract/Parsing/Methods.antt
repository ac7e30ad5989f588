-- ===== src/Contract/Parsing/Methods.antt =====
-- Which impl blocks `#[contract]` accepts, and the transactions that it makes of their methods.
use mathlib.Core.Path.{subst}
use fabric_chaincode_rs.Prelude.{
  ◌≡◌, ◌↔◌, refl, ap, Option, none, some, List, [], ◌∷◌, ◌++◌, Text, str, Option-cases, inl, inr,
}
use fabric_chaincode_rs.Error.{Result, ok, err}
use fabric_chaincode_rs.Contract.Syntax.{Meta, Attribute, Method, ImplItem, fn, other_item}
use fabric_chaincode_rs.Contract.Parsing.{
  ParsedTx, read_tag, read_inputs, read_signature, parse_marked, parse_method, transaction_attr,
  cons_tx, collect_method, collect_methods,
}
use fabric_chaincode_rs.Contract.Parsing.Accepts.{IsTagged-read_tag, no_errors}
use fabric_chaincode_rs.Contract.Parsing.Signatures.{
  plain, listed, IsTransaction, read_inputs-IsTransaction, parse_marked-IsMarked,
  signature-IsTransaction,
}

module _ (upper_camel : Text → Text) where
  no_error_read :
      (r : Option ParsedTx × List Text) (errors : List Text) (tx : ParsedTx)
      → errors ≡ []
      → r ≡ (some tx, [])
      → ◌≡◌ {A = Option ParsedTx × List Text} (r.0, errors ++ r.1) (some tx, [])
  no_error_read r errors tx e h = rw (e, h) refl

  marked-IsTransaction :
      (m : Method) (attr : Attribute) (arguments : Option (Result (List Meta) Text))
      → attr.arguments ≡ arguments
      → (parse_marked upper_camel m arguments).1 ≡ []
      → (tx : ParsedTx) × (parse_marked upper_camel m arguments ≡ (some tx, []))
        × IsTransaction upper_camel m attr tx
  unfolding parse_marked read_signature
  marked-IsTransaction m attr none e h =
      signature-IsTransaction upper_camel m attr (str "submit", none) (rw e plain) h
  marked-IsTransaction m attr (some (err x)) e h = cc
  marked-IsTransaction m attr (some (ok metas)) e h =
      let (clean, signed) =
        no_errors (read_tag metas (str "submit", none)).1
          (read_inputs upper_camel m (read_tag metas (str "submit", none)).0 m.inputs).1 h in
      let (tx, read, transaction) =
        signature-IsTransaction upper_camel m attr (read_tag metas (str "submit", none)).0
          (rw e (listed (IsTagged-read_tag metas (str "submit", none) clean))) signed in
      (tx, no_error_read _ _ tx clean read, transaction)

  -- The items that are accepted, with the transactions of the methods marked by the attribute, in
  -- order; the other items do not matter.
  pub data IsContract : List ImplItem → List ParsedTx → Type 0 where
    end : IsContract [] []
    other :
        {items : List ImplItem} {txs : List ParsedTx}
        → IsContract items txs
        → IsContract (other_item ∷ items) txs
    unmarked :
        {m : Method} {items : List ImplItem} {txs : List ParsedTx}
        → transaction_attr upper_camel m.attrs ≡ none
        → IsContract items txs
        → IsContract (fn m ∷ items) txs
    transaction :
        {m : Method} {attr : Attribute} {tx : ParsedTx} {items : List ImplItem}
        {txs : List ParsedTx}
        → transaction_attr upper_camel m.attrs ≡ some attr
        → IsTransaction upper_camel m attr tx
        → IsContract items txs
        → IsContract (fn m ∷ items) (tx ∷ txs)

  parse_method-IsTransaction :
      (m : Method) (attr : Attribute) (tx : ParsedTx)
      → IsTransaction upper_camel m attr tx
      → parse_method upper_camel m attr ≡ (some tx, [])
  unfolding parse_method
  parse_method-IsTransaction m attr tx t =
      parse_marked-IsMarked upper_camel m tx attr.arguments t.tagged t.marked
        (read_inputs-IsTransaction upper_camel m attr tx t)

  collect_methods-IsContract :
      (items : List ImplItem) (txs : List ParsedTx)
      → IsContract items txs
      → collect_methods upper_camel items ≡ (txs, [])
  unfolding collect_methods
  collect_methods-IsContract _ _ end = refl
  collect_methods-IsContract _ _ (other h) = collect_methods-IsContract _ _ h
  collect_methods-IsContract _ _ (unmarked e h) =
      rw (e, collect_method) (collect_methods-IsContract _ _ h)
  collect_methods-IsContract _ _ (transaction e t h) =
      rw
        (
          e,
          collect_method,
          parse_method-IsTransaction _ _ _ t,
          collect_methods-IsContract _ _ h,
          cons_tx,
        )
        refl

  cons_tx-clean :
      (read : Option ParsedTx × List Text) (rest : List ParsedTx × List Text)
      → (cons_tx upper_camel read rest).1 ≡ []
      → (read.1 ≡ []) × (rest.1 ≡ [])
  unfolding cons_tx
  cons_tx-clean (none, errors) (txs, more) h = no_errors errors more h
  cons_tx-clean (some tx, errors) (txs, more) h = no_errors errors more h

  method-IsContract :
      (m : Method) (attr : Attribute) (items : List ImplItem)
      → transaction_attr upper_camel m.attrs ≡ some attr
      → ((collect_methods upper_camel items).1 ≡ []
          → IsContract items (collect_methods upper_camel items).0)
      → (cons_tx upper_camel
          (parse_method upper_camel m attr)
          (collect_methods upper_camel items)).1
        ≡ []
      → IsContract
          (fn m ∷ items)
          (cons_tx upper_camel
            (parse_method upper_camel m attr)
            (collect_methods upper_camel items)).0
  unfolding parse_method cons_tx
  method-IsContract m attr items there rest h =
      let (clean, others) =
        cons_tx-clean (parse_method upper_camel m attr) (collect_methods upper_camel items) h in
      let (tx, read, marked) = marked-IsTransaction m attr attr.arguments refl clean in
      rw read (transaction there marked (rest others))

  collected-IsContract :
      (items : List ImplItem)
      → (collect_methods upper_camel items).1 ≡ []
      → IsContract items (collect_methods upper_camel items).0
  unfolding collect_methods
  collected-IsContract [] = λ h. end
  collected-IsContract (other_item ∷ items) = λ h. other (collected-IsContract items h)
  collected-IsContract (fn m ∷ items) = elim (Option-cases (transaction_attr upper_camel m.attrs)) [
    | inl absent ↦ rw (absent, collect_method) (λ h. unmarked absent (collected-IsContract items h))
    | inr (attr, there) ↦
        rw (there, collect_method)
          (method-IsContract m attr items there (collected-IsContract items))
  ]

  -- The methods of an impl block are read without an error exactly when it is a contract, and then they
  -- give the contract's transactions.
  pub collect_methods_iff :
      (items : List ImplItem) (txs : List ParsedTx)
      → (collect_methods upper_camel items ≡ (txs, [])) ↔ IsContract items txs
  collect_methods_iff items txs = (
    (λ h.
        subst (IsContract items) (ap (λ r. r.0) h) (collected-IsContract items (ap (λ r. r.1) h))),
    collect_methods-IsContract items txs,
  )
