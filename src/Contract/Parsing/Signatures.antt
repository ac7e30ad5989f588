-- ===== src/Contract/Parsing/Signatures.antt =====
-- Which signatures make a transaction of a method that is marked as one.
use fabric_chaincode_rs.Prelude.{
  ◌≡◌, refl, Option, none, some, List, [], ◌∷◌, Text, str, or_else, Option-cases, inl, inr,
}
use fabric_chaincode_rs.Error.{Result, ok}
use fabric_chaincode_rs.Contract.Syntax.{SynType, Meta, Attribute, FnArg, receiver, typed, Method}
use fabric_chaincode_rs.Contract.Parsing.{
  ParsedTx, read_params, extract_result_ok, result_type, ok_type, parsed_tx, read_output,
  read_typed, read_inputs, read_signature, parse_marked,
}
use fabric_chaincode_rs.Contract.Parsing.Accepts.{
  IsTagged, IsParams, IsResult, read_tag-IsTagged, read_params-IsParams, IsParams-read_params,
  extract_result_ok_iff,
}

-- The attribute's options: none, or a list of them.
pub data IsMarked : Option (Result (List Meta) Text) → Text × Option Text → Type 0 where
  plain : IsMarked none (str "submit", none)
  listed :
      {metas : List Meta} {tagged : Text × Option Text}
      → IsTagged metas (str "submit", none) tagged
      → IsMarked (some (ok metas)) tagged

module _ (upper_camel : Text → Text) where
  -- A transaction: `&self`, a context, parameters that are identifiers, and a `Result`. The name is the
  -- attribute's, or else the method's in upper camel case.
  pub record IsTransaction (m : Method) (attr : Attribute) (tx : ParsedTx) : Type 0 where
    pub tagged : Text × Option Text
    pub marked : IsMarked attr.arguments tagged
    pub context : FnArg
    pub inputs : List FnArg
    pub signature : m.inputs ≡ receiver ∷ context ∷ inputs
    pub params : List (Text × SynType)
    pub identifiers : IsParams inputs params
    pub ty : SynType
    pub output : m.output ≡ some ty
    pub value : SynType
    pub result : IsResult ty value
    pub same : tx ≡ record {
      wire_name = or_else tagged.1 (upper_camel m.ident);
      tag = tagged.0;
      method_ident = m.ident;
      is_async = m.asyncness;
      params = params;
      ok_ty = ok_type value;
    }

  pub read_inputs-IsTransaction :
      (m : Method) (attr : Attribute) (tx : ParsedTx) (h : IsTransaction m attr tx)
      → read_signature upper_camel m (h.tagged, []) ≡ (some tx, [])
  unfolding read_signature read_inputs read_typed read_output parsed_tx
  read_inputs-IsTransaction m attr tx h =
      rw
        (
          h.signature,
          read_params-IsParams h.inputs h.params h.identifiers,
          h.output,
          (extract_result_ok_iff h.ty h.value).1 h.result,
          h.same,
        )
        refl

  pub parse_marked-IsMarked :
      (m : Method) (tx : ParsedTx) (arguments : Option (Result (List Meta) Text))
      (tagged : Text × Option Text)
      → IsMarked arguments tagged
      → read_signature upper_camel m (tagged, []) ≡ (some tx, [])
      → parse_marked upper_camel m arguments ≡ (some tx, [])
  unfolding parse_marked
  parse_marked-IsMarked m tx _ _ plain h = h
  parse_marked-IsMarked m tx _ tagged (listed t) h = rw (read_tag-IsTagged _ _ tagged t) h

  output-IsResult :
      (m : Method) (tagged : Text × Option Text) (params : List (Text × SynType))
      (o : Option SynType)
      → (read_output upper_camel m tagged params (result_type o)).1 ≡ []
      → (ty : SynType) × (t : SynType) × (o ≡ some ty)
        × IsResult ty t
        × (read_output upper_camel m tagged params (result_type o)
            ≡ (some (parsed_tx upper_camel m tagged params t), []))
  unfolding read_output
  output-IsResult m tagged params none = λ h. cc
  output-IsResult m tagged params (some ty) = elim (Option-cases (extract_result_ok ty)) [
    | inl failed ↦ rw failed (λ h. cc)
    | inr (t, read) ↦ rw read (λ h. (ty, t, refl, (extract_result_ok_iff ty t).0 read, refl))
  ]

  typed-IsResult :
      (m : Method) (tagged : Text × Option Text) (read : List (Text × SynType) × List Text)
      → (read_typed upper_camel m tagged read).1 ≡ []
      → (read.1 ≡ [])
        × ((ty : SynType) × (t : SynType) × (m.output ≡ some ty)
            × IsResult ty t
            × (read_typed upper_camel m tagged read
                ≡ (some (parsed_tx upper_camel m tagged read.0 t), [])))
  unfolding read_typed
  typed-IsResult m tagged (params, []) h = (refl, output-IsResult m tagged params m.output h)
  typed-IsResult m tagged (params, e ∷ errors) h = cc

  -- A method that is read without an error gives a transaction.
  read_inputs-ok :
      (m : Method) (tagged : Text × Option Text) (inputs : List FnArg)
      → (read_inputs upper_camel m tagged inputs).1 ≡ []
      → (context : FnArg) × (rest : List FnArg) × (params : List (Text × SynType)) × (ty : SynType)
        × (t : SynType) × (inputs ≡ receiver ∷ context ∷ rest)
        × IsParams rest params
        × (m.output ≡ some ty)
        × IsResult ty t
        × (read_inputs upper_camel m tagged inputs
            ≡ (some (parsed_tx upper_camel m tagged params t), []))
  unfolding read_inputs
  read_inputs-ok m tagged [] h = cc
  read_inputs-ok m tagged (typed i ty ∷ inputs) h = cc
  read_inputs-ok m tagged (receiver ∷ []) h = cc
  read_inputs-ok m tagged (receiver ∷ context ∷ inputs) h =
      let (clean, (ty, t, output, outcome, read)) =
        typed-IsResult m tagged (read_params inputs) h in
      (
        context,
        inputs,
        (read_params inputs).0,
        ty,
        t,
        refl,
        IsParams-read_params inputs clean,
        output,
        outcome,
        read,
      )

  -- A method whose attribute and signature give no error is a transaction.
  pub signature-IsTransaction :
      (m : Method) (attr : Attribute) (tagged : Text × Option Text)
      → IsMarked attr.arguments tagged
      → (read_inputs upper_camel m tagged m.inputs).1 ≡ []
      → (tx : ParsedTx) × (read_inputs upper_camel m tagged m.inputs ≡ (some tx, []))
        × IsTransaction m attr tx
  unfolding parsed_tx
  signature-IsTransaction m attr tagged marked h =
      let (context, inputs, params, ty, t, signature, identifiers, output, outcome, read) =
        read_inputs-ok m tagged m.inputs h in
      (
        parsed_tx upper_camel m tagged params t,
        read,
        record {
          tagged = tagged;
          marked = marked;
          context = context;
          inputs = inputs;
          signature = signature;
          params = params;
          identifiers = identifiers;
          ty = ty;
          output = output;
          value = t;
          result = outcome;
          same = refl;
        },
      )
