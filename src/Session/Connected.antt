-- ===== src/Session/Connected.antt =====
-- A session against the connection that it is part of: what a session's action does to the link is done
-- by actions of the connection, the starts of the transaction's requests and the loop's rounds on the
-- peer's replies.
use fabric_chaincode_rs.Prelude.{
  ℕ, ◌≡◌, ◌≢◌, refl, sym, ap, ◌∙◌, true, Option, none, some, List, [], ◌∷◌, ◌++◌, Bytes, All,
  All-append,
}
use fabric_chaincode_rs.Error.{Error, Result, ok, err}
use fabric_chaincode_rs.Protos.MsgType.{MsgType}
use fabric_chaincode_rs.Protos.Messages.{ChaincodeMessage}
use fabric_chaincode_rs.Handler.Link.{
  TxKey, PeerLink, key_of, start_request, route_response, new_message,
}
use fabric_chaincode_rs.Handler.Connection.{
  ConnState, Conn, message, Action, inbound, request, complete, answer, act, run,
}
use fabric_chaincode_rs.Handler.Connection.Delivery.{IsReply, IsUnrelated, act-reply, run-append}
use fabric_chaincode_rs.Session.{
  Env, Session, StubCore, Outcome, done, hung, Exec, pure, lift, continue, ◌>>=◌, core_request,
  await_reply, deliver,
}
use fabric_chaincode_rs.Session.Requests.{core_key}

-- The peer answers a request by a RESPONSE or an ERROR for the request's transaction, if at all.
pub record IsReplying {W : Type 0} (env : Env W) : Type 0 where
  pub replies :
      (m : ChaincodeMessage) (w w' : W) (reply : ChaincodeMessage)
      → env.reply m w ≡ (some reply, w')
      → IsReply reply × (key_of reply ≡ key_of m)

-- The session is on the link of a connection that is ready and whose loop runs.
pub record IsAttached {W : Type 0} (s : Session W) (c : Conn) : Type 0 where
  pub link : c.link ≡ s.link
  pub state : c.state ≡ ConnState.ready
  pub running : c.running ≡ true

-- The start of a request of the transaction, a reply to it of the peer, or the transaction's end.
abbrev pub IsOwn : StubCore → Action → Type 0
IsOwn core (request now t payload channel tx) = (channel, tx) ≡ core_key core
IsOwn core (inbound now (message m)) = IsReply m × (key_of m ≡ core_key core)
IsOwn core (complete key m) = (key ≡ core_key core) × (key_of m ≡ core_key core)
IsOwn core (answer m) = key_of m ≡ core_key core
IsOwn core _ = ⊥

-- A transaction's own actions are unrelated to another one's.
pub IsOwn-IsUnrelated :
    (core : StubCore) (k : TxKey)
    → core_key core ≢ k
    → (a : Action) → IsOwn core a
    → IsUnrelated k a
IsOwn-IsUnrelated core k other (request now t payload channel tx) own = tt
IsOwn-IsUnrelated core k other (inbound now (message m)) own = λ same. other (sym own.1 ∙ same)
IsOwn-IsUnrelated core k other (complete key m) own = λ same. other (sym own.0 ∙ same)
IsOwn-IsUnrelated core k other (answer m) own = tt
IsOwn-IsUnrelated core k other _ own = absurd own

-- From a session to another one by actions of the connection.
pub record Leads {W : Type 0} (core : StubCore) (s s' : Session W) : Type 0 where
  pub at :
      (c : Conn)
      → IsAttached s c
      → (as' : List Action) × All (IsOwn core) as' × IsAttached s' (run as' c)

-- Whatever the action is run on, it leads to the session that it leaves.
abbrev pub Follows : {W A : Type 0} → StubCore → (Session W → A × Session W) → Type 0
Follows core m = (s : Session _) → Leads core s (m s).1

module _ {W : Type 0} (core : StubCore) where
  pub Leads-stay : (s s' : Session W) → s'.link ≡ s.link → Leads core s s'
  Leads-stay s s' same = record {
    at = λ c a. (
      [],
      tt,
      unfold run in record { link = a.link ∙ sym same; state = a.state; running = a.running },
    );
  }

  pub Leads-trans : {s s' s'' : Session W} → Leads core s s' → Leads core s' s'' → Leads core s s''
  Leads-trans h k = record {
    at = λ c a.
        let (as', own, a') = h.at c a in
        let (bs, own', a'') = k.at (run as' c) a' in
        (as' ++ bs, All-append (IsOwn core) as' bs own own', rw (run-append as' bs c) a'');
  }

  -- one action that touches the link alone
  pub Leads-act :
      (s s' : Session W) (action : Action)
      → IsOwn core action
      → ((c : Conn) → IsAttached s c → IsAttached s' (act action c))
      → Leads core s s'
  Leads-act s s' action own h = record { at = λ c a. (action ∷ [], (own, tt), unfold run in h c a) }

  Leads-continue :
      {A B : Type 0} (s : Session W) (o : Outcome A × Session W) (f : A → Exec W B)
      → Leads core s o.1
      → ((a : A) → o.0 ≡ done (ok a) → Follows core (f a))
      → Leads core s (continue o.0 f o.1).1
  Leads-continue s (done (ok a), s') f h k = Leads-trans h (k a refl s')
  Leads-continue s (done (err e), s') f h k = h
  Leads-continue s (hung, s') f h k = h

  pub Follows-bind :
      {A B : Type 0} (m : Exec W A) (f : A → Exec W B)
      → Follows core m
      → ((a : A) → Follows core (f a))
      → Follows core (m >>= f)
  Follows-bind m f h k s = Leads-continue s (m s) f (h s) (λ a _. k a)

  -- where what comes next needs that the first action gave its argument
  pub Follows-given :
      {A B : Type 0} (m : Exec W A) (f : A → Exec W B)
      → Follows core m
      → ((s : Session W) (a : A) → (m s).0 ≡ done (ok a) → Follows core (f a))
      → Follows core (m >>= f)
  Follows-given m f h k s = Leads-continue s (m s) f (h s) (k s)

  pub Follows-pure : {A : Type 0} (a : A) → Follows core (pure {W = W} a)
  Follows-pure a s = Leads-stay s s refl

  pub Follows-then :
      {A B : Type 0} (r : Result A Error) (f : A → Exec W B)
      → ((a : A) → Follows core (f a))
      → Follows core (lift r >>= f)
  Follows-then (ok a) f h s = h a s
  Follows-then (err e) f h s = Leads-stay s s refl

  pub Follows-lift : {A : Type 0} (r : Result A Error) → Follows core (lift {W = W} r)
  Follows-lift r s = Leads-stay s s refl

module _ {W : Type 0} (env : Env W) (core : StubCore) (peer : IsReplying env) (t : MsgType)
    (payload : Bytes) where
  started_session : Session W → Session W
  started_session s = record s {
    link = (start_request (env.now s.world) t payload core.channel_id core.tx_id s.link).1;
  }

  Leads-start : (s : Session W) → Leads core s (started_session s)
  unfolding started_session
  Leads-start s =
      Leads-act core s _ (request (env.now s.world) t payload core.channel_id core.tx_id) refl
        (λ c a.
          unfold act in
          record {
            link =
                ap (λ l. (start_request (env.now s.world) t payload core.channel_id core.tx_id l).1)
                  a.link;
            state = a.state;
            running = a.running;
          })

  Leads-deliver :
      (s : Session W) (o : Option ChaincodeMessage) (w : W)
      → ((reply : ChaincodeMessage)
          → o ≡ some reply
          → IsReply reply × (key_of reply ≡ core_key core))
      → Leads core s (record s { link = deliver env core o s.link; world = w })
  Leads-deliver s none w h = Leads-stay core s _ refl
  Leads-deliver s (some reply) w h =
      Leads-act core s _ (inbound (env.now s.world) (message reply)) (h reply refl) (λ c a.
        rw (act-reply (env.now s.world) reply c (h reply refl).0 a.state a.running) (record {
          link = ap (λ l. route_response reply l) a.link;
          state = a.state;
          running = a.running;
        }))

  await_reply-Leads :
      (s : Session W) (o : Result ℕ Error × PeerLink)
      → Leads core s (record s { link = o.1 })
      → Leads core s (await_reply env core t payload o s).1
  unfolding await_reply
  await_reply-Leads s (err e, l) h = h
  await_reply-Leads s (ok slot, l) h =
      let sent = new_message (env.now s.world) t payload core.channel_id core.tx_id in
      Leads-trans core h (
        Leads-deliver (record s { link = l }) (env.reply sent s.world).0 (env.reply sent s.world).1
          (λ reply e.
            let (kind, key) = peer.replies sent s.world (env.reply sent s.world).1 reply (cc e) in
            (kind, key ∙ unfold new_message in refl)))

  -- A request is its start and the loop's round on the reply, if one comes.
  pub core_request-Follows : Follows core (core_request env core t payload)
  unfolding core_request
  core_request-Follows s =
      await_reply-Leads s
        (start_request (env.now s.world) t payload core.channel_id core.tx_id s.link)
        (unfold started_session in Leads-start s)

  -- a request and what is made of its reply
  pub request-Follows :
      {A : Type 0} (f : ChaincodeMessage → Exec W A)
      → ((reply : ChaincodeMessage) → Follows core (f reply))
      → Follows core (core_request env core t payload >>= f)
  request-Follows f h = Follows-bind core (core_request env core t payload) f core_request-Follows h
