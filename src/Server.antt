-- ===== src/Server.antt =====
-- fabric-shim/src/server.rs, lines 18-67: the server's configuration. `var` is the environment, `none`
-- where `std::env::var` fails, and `resolve` is `to_socket_addrs` with its error displayed.
pub mod Listening
use fabric_chaincode_rs.Prelude.{
  ℕ, ◌≡◌, refl, ap, sym, ◌∙◌, ◌↔◌, false, Option, none, some, List, [], ◌∷◌, ◌++◌, Text, str,
  is_empty, or_else, head?, if◌then◌else◌, Bool-cases, inl, inr,
}
use fabric_chaincode_rs.Error.{Error, Result, ok, err, config, ok_or, map_err, ◌>>=◌, >>=-eq-ok}

abbrev pub default_max_message_size : ℕ
default_max_message_size = 104857600

pub record Server (Addr : Type 0) : Type 0 where
  pub chaincode_id : Text
  pub address : Addr
  pub limit : ℕ  -- max_message_size

-- the first of two variables that is set
unfoldable pub either_var : (Text → Option Text) → Text → Text → Option Text
either_var var a b = elim (var a) [ some v ↦ some v | none ↦ var b ]

module _ {Addr : Type 0} (resolve : Text → Result (List Addr) Text) (debug_str : Text → Text) where
  unfoldable pub new_server : Text → Text → Result (Server Addr) Error
  new_server chaincode_id address =
      if is_empty chaincode_id then err (config (str "chaincode id must not be empty")) else (do
        addresses ←
            map_err (λ e. config (str "invalid address " ++ debug_str address ++ str ": " ++ e))
              (resolve address)
        first ←
            ok_or (head? addresses)
              (config (str "address " ++ debug_str address ++ str " resolved to nothing"))
        ok (record {
          chaincode_id = chaincode_id;
          address = first;
          limit = default_max_message_size;
        }))

  unfoldable pub from_env : (Text → Option Text) → Result (Server Addr) Error
  from_env var = do
    chaincode_id ←
        ok_or (either_var var (str "CHAINCODE_ID") (str "CORE_CHAINCODE_ID"))
          (config (str "CHAINCODE_ID (or CORE_CHAINCODE_ID) is not set"))
    let address =
        or_else (either_var var (str "CHAINCODE_SERVER_ADDRESS") (str "CORE_CHAINCODE_ADDRESS"))
          (str "0.0.0.0:7052")
    new_server chaincode_id address

  -- The environment configures this server.
  pub record IsConfigured (var : Text → Option Text) (s : Server Addr) : Type 0 where
    pub id_set : either_var var (str "CHAINCODE_ID") (str "CORE_CHAINCODE_ID") ≡ some s.chaincode_id
    pub id_full : is_empty s.chaincode_id ≡ false
    pub addresses : List Addr
    pub resolved :
        resolve (
          or_else
            (either_var var (str "CHAINCODE_SERVER_ADDRESS") (str "CORE_CHAINCODE_ADDRESS"))
            (str "0.0.0.0:7052"))
        ≡ ok (s.address ∷ addresses)
    pub limit_eq : s.limit ≡ default_max_message_size

  -- What a server that was made is made of.
  record IsMade (id address : Text) (s : Server Addr) : Type 0 where
    full : is_empty id ≡ false
    id_eq : s.chaincode_id ≡ id
    limit_eq : s.limit ≡ default_max_message_size
    rest : List Addr
    resolved : resolve address ≡ ok (s.address ∷ rest)

  chosen-IsMade :
      (id address : Text) (r : Result (List Addr) Text) (s : Server Addr)
      → is_empty id ≡ false
      → resolve address ≡ r
      → new_server id address ≡ ok s
      → IsMade id address s
  unfolding new_server
  chosen-IsMade id address (err e) s full p h = absurd (cc (rw (full, p) at h))
  chosen-IsMade id address (ok []) s full p h = absurd (cc (rw (full, p) at h))
  chosen-IsMade id address (ok (a ∷ rest)) s full p h =
      let made : record { chaincode_id = id; address = a; limit = default_max_message_size } ≡ s =
        cc (rw (full, p) at h) in
      rw (← made) (record { full = full; id_eq = refl; limit_eq = refl; rest = rest; resolved = p })

  new_server-IsMade :
      (id address : Text) (s : Server Addr) → new_server id address ≡ ok s → IsMade id address s
  unfolding new_server
  new_server-IsMade id address s h = elim (Bool-cases (is_empty id)) [
    | inl empty ↦ absurd (cc (rw empty at h))
    | inr full ↦ chosen-IsMade id address (resolve address) s full refl h
  ]

  ok_or-ok : {A : Type 0} (o : Option A) (e : Error) (a : A) → ok_or o e ≡ ok a → o ≡ some a
  ok_or-ok none e a h = absurd (cc h)
  ok_or-ok (some x) e a h = cc h

  configures :
      (var : Text → Option Text) (s : Server Addr) → IsConfigured var s → from_env var ≡ ok s
  unfolding from_env new_server
  configures var s c = rw (c.id_set, c.id_full, c.resolved, ← c.limit_eq) refl

  configured :
      (var : Text → Option Text) (s : Server Addr) → from_env var ≡ ok s → IsConfigured var s
  unfolding from_env
  configured var s h =
      let (id, named, made) =
        >>=-eq-ok _
          (ok_or (either_var var (str "CHAINCODE_ID") (str "CORE_CHAINCODE_ID"))
            (config (str "CHAINCODE_ID (or CORE_CHAINCODE_ID) is not set")))
          h in
      let m = new_server-IsMade id _ s made in
      record {
        id_set = ok_or-ok _ _ id named ∙ ap some (sym m.id_eq);
        id_full = rw m.id_eq m.full;
        addresses = m.rest;
        resolved = m.resolved;
        limit_eq = m.limit_eq;
      }

  -- `from_env` gives a server exactly when the environment sets its id, by one of the two names and not
  -- empty, and the address, by one of two names or the default one, resolves to its address first; its
  -- message limit is the default.
  pub from_env_iff_IsConfigured :
      (var : Text → Option Text) (s : Server Addr) → (from_env var ≡ ok s) ↔ IsConfigured var s
  from_env_iff_IsConfigured var s = (configured var s, configures var s)

unfoldable pub max_message_size : {Addr : Type 0} → ℕ → Server Addr → Server Addr
max_message_size bytes s = record s { limit = bytes }
