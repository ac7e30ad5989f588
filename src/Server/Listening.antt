-- ===== src/Server/Listening.antt =====
-- fabric-shim/src/server.rs, lines 69-118, and examples/asset-transfer/src/main.rs, lines 200-208: a
-- server that is configured from the environment, binds its address and serves until it is shut down.
--
-- `bind` is tokio's, with its error displayed, and `run` tonic's server with its error displayed, a
-- function of the settings and of the listener; `display` is the address's `Display`.
use fabric_chaincode_rs.Prelude.{
  ℕ, ◌*◌, ◌≡◌, ◌≢◌, ◌↔◌, refl, sym, ap, ◌∙◌, Bool, true, false, Option, none, some, List, [], ◌∷◌,
  ◌++◌, Text, str, is_empty, or_else, Option-cases, inl, inr, list_Eq, nat_Eq,
}
use fabric_chaincode_rs.Error.{
  Error, Result, ok, transport, map_err, ◌>>=◌, >>=-eq-ok, map_err-eq-ok,
}
use fabric_chaincode_rs.Server.{
  Server, from_env, either_var, IsConfigured, from_env_iff_IsConfigured,
}

-- what tonic's server is built with
pub record Settings : Type 0 where
  pub chaincode_id : Text
  pub max_decoding_message_size : ℕ
  pub max_encoding_message_size : ℕ
  pub http2_adaptive_window : Bool
  pub nodelay : Bool

unfoldable pub settings : {Addr : Type 0} → Server Addr → Settings
settings s = record {
  chaincode_id = s.chaincode_id;
  max_decoding_message_size = s.limit;
  max_encoding_message_size = s.limit;
  http2_adaptive_window = true;
  nodelay = true;
}

-- The value that is looked for: of the first variable, or, where that is not set, of the second.
pub data IsVarSet (var : Text → Option Text) (a b v : Text) : Type 0 where
  first : var a ≡ some v → IsVarSet var a b v
  second : var a ≡ none → var b ≡ some v → IsVarSet var a b v

-- The address that is listened on.
pub data IsAddress (var : Text → Option Text) (v : Text) : Type 0 where
  set :
      IsVarSet var (str "CHAINCODE_SERVER_ADDRESS") (str "CORE_CHAINCODE_ADDRESS") v
      → IsAddress var v
  unset :
      var (str "CHAINCODE_SERVER_ADDRESS") ≡ none
      → var (str "CORE_CHAINCODE_ADDRESS") ≡ none
      → v ≡ str "0.0.0.0:7052"
      → IsAddress var v

module _ (var : Text → Option Text) where
  IsVarSet-either_var : (a b v : Text) → IsVarSet var a b v → either_var var a b ≡ some v
  unfolding either_var
  IsVarSet-either_var a b v (first h) = rw (either_var, h) refl
  IsVarSet-either_var a b v (second h k) = rw (either_var, h, k) refl

  either_var-IsVarSet : (a b v : Text) → either_var var a b ≡ some v → IsVarSet var a b v
  unfolding either_var
  either_var-IsVarSet a b v = elim (Option-cases (var a)) [
    | inl absent ↦ rw (either_var, absent) (λ h. second absent h)
    | inr (u, there) ↦ rw (either_var, there) (λ h. first (there ∙ h))
  ]

  either_var-none : (a b : Text) → either_var var a b ≡ none → (var a ≡ none) × (var b ≡ none)
  unfolding either_var
  either_var-none a b = elim (Option-cases (var a)) [
    | inl absent ↦ rw (either_var, absent) (λ h. (refl, h))
    | inr (u, there) ↦ rw (either_var, there) (λ h. cc)
  ]

  abbrev chosen : Option Text
  chosen = either_var var (str "CHAINCODE_SERVER_ADDRESS") (str "CORE_CHAINCODE_ADDRESS")

  chosen-IsAddress : (o : Option Text) → chosen ≡ o → IsAddress var (or_else o (str "0.0.0.0:7052"))
  chosen-IsAddress none h = let (a, b) = either_var-none _ _ h in unset a b refl
  chosen-IsAddress (some v) h = set (either_var-IsVarSet _ _ v h)

  IsAddress-chosen : (v : Text) → IsAddress var v → or_else chosen (str "0.0.0.0:7052") ≡ v
  unfolding either_var
  IsAddress-chosen v (set h) =
      ap (λ o. or_else o (str "0.0.0.0:7052")) (IsVarSet-either_var _ _ v h)
  IsAddress-chosen v (unset h k e) =
      let nothing : chosen ≡ none = rw (either_var, h) k in
      ap (λ o. or_else o (str "0.0.0.0:7052")) nothing ∙ sym e

ne-nil-is_empty : (s : Text) → s ≢ [] → is_empty s ≡ false
ne-nil-is_empty [] h = absurd (h refl)
ne-nil-is_empty (c ∷ s) h = refl

module _ {Addr Listener : Type 0} (bind : Addr → Result Listener Text)
    (run : Settings → Listener → Result (Unit {0}) Text) (display : Addr → Text) where
  unfoldable pub serve_with_listener : Server Addr → Listener → Result (Unit {0}) Error
  unfolding settings
  serve_with_listener s listener = map_err transport (run (settings s) listener)

  unfoldable pub start : Server Addr → Result (Unit {0}) Error
  unfolding serve_with_listener
  start s = do
    listener ←
        map_err (λ e. transport (str "bind " ++ display s.address ++ str ": " ++ e))
          (bind s.address)
    serve_with_listener s listener

  module _ (resolve : Text → Result (List Addr) Text) (debug_str : Text → Text) where
    -- `Server::from_env()?.start(...)`
    unfoldable pub start_from_env : (Text → Option Text) → Result (Unit {0}) Error
    unfolding start
    start_from_env var = do s ← from_env resolve debug_str var; start s

    -- The program ends well: the id, which is set and not empty, and the address, set or the default one,
    -- configure the server, whose address is bound; and tonic's server, with that id and 100 MiB for the
    -- messages both ways, runs there until it is shut down.
    pub record EndsWell (var : Text → Option Text) : Type 0 where
      pub id : Text
      pub id_set : IsVarSet var (str "CHAINCODE_ID") (str "CORE_CHAINCODE_ID") id
      pub id_full : id ≢ []
      pub address : Text
      pub address_set : IsAddress var address
      pub first : Addr
      pub others : List Addr
      pub resolved : resolve address ≡ ok (first ∷ others)
      pub listener : Listener
      pub bound : bind first ≡ ok listener
      pub served :
          run
            (record {
              chaincode_id = id;
              max_decoding_message_size = 100 * 1024 * 1024;
              max_encoding_message_size = 100 * 1024 * 1024;
              http2_adaptive_window = true;
              nodelay = true;
            })
            listener
          ≡ ok tt

    serves :
        (var : Text → Option Text) (s : Server Addr) (l : Listener)
        → IsConfigured resolve debug_str var s
        → bind s.address ≡ ok l
        → run (settings s) l ≡ ok tt
        → EndsWell var
    unfolding settings
    serves var s l c bound served = record {
      id = s.chaincode_id;
      id_set = either_var-IsVarSet var _ _ _ c.id_set;
      id_full = λ e. cc (c.id_full, ap is_empty e);
      address = _;
      address_set = chosen-IsAddress var (chosen var) refl;
      first = s.address;
      others = c.addresses;
      resolved = c.resolved;
      listener = l;
      bound = bound;
      served = rw c.limit_eq at served;
    }

    -- Started from the environment, the program ends without an error exactly when CHAINCODE_ID, or
    -- CORE_CHAINCODE_ID where that is not set, has a value that is not empty; CHAINCODE_SERVER_ADDRESS, or
    -- CORE_CHAINCODE_ADDRESS where that is not set, or 0.0.0.0:7052 where neither is, resolves to an
    -- address; the first one can be bound; and tonic's server, with that id and 100 MiB for the messages
    -- both ways, runs there without an error.
    pub start_from_env_iff :
        (var : Text → Option Text) → (start_from_env var ≡ ok tt) ↔ EndsWell var
    unfolding start_from_env settings
    start_from_env_iff var = (
      (λ h.
          let (s, made, started) = >>=-eq-ok _ (from_env resolve debug_str var) h in
          let (l, bound, served) =
            >>=-eq-ok _
              (map_err (λ e. transport (str "bind " ++ display s.address ++ str ": " ++ e))
                (bind s.address))
              started in
          serves var s l ((from_env_iff_IsConfigured resolve debug_str var s).0 made)
            (map_err-eq-ok _ (bind s.address) bound)
            (map_err-eq-ok transport (run (settings s) l) served)),
      λ e.
          let s : Server Addr = record {
            chaincode_id = e.id;
            address = e.first;
            limit = 104857600;
          } in
          let c : IsConfigured resolve debug_str var s = record {
            id_set = IsVarSet-either_var var _ _ _ e.id_set;
            id_full = ne-nil-is_empty e.id e.id_full;
            addresses = e.others;
            resolved = rw (IsAddress-chosen var e.address e.address_set) e.resolved;
            limit_eq = refl;
          } in
          rw ((from_env_iff_IsConfigured resolve debug_str var s).1 c, e.bound, e.served) refl,
    )
