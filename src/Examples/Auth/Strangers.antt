-- ===== src/Examples/Auth/Strangers.antt =====
-- What examples/tcp_auth/server/main.go does with a connection that never gives credentials.
use text.Mathlib.TextEquality.{eq_iff}
use native.Mathlib.Decide.{ℕ_discrete}
use simple_message.Prelude.{
  ℕ, ◌==◌, ◌≡◌, ◌≢◌, ◌⊎◌, inl, inr, refl, sym, ap, ◌∙◌, subst, Bool, true, false, List, [], ◌∷◌,
  Option, none, some, if◌then◌else◌, lookup, string_eq, nat_eq, arith, Option-cases,
}
use simple_message.Errors.{Error}
use simple_message.Protocol.Wire.{All}
use simple_message.Protocol.Decoder.{Message}
use simple_message.Connection.Request.{Request, get_data, new_request}
use simple_message.Server.Dispatch.{
  Server, handle_msg, handle_msg-some, handle_msg-none, handle_msgs,
}
use simple_message.Examples.Auth.{
  AuthRequest, AuthResponse, Peer, fresh_peer, password_of, check_request, auth_handle,
  require_auth, handlers, bad_json, bad_credentials, not_authenticated, msg_hello, msg_auth_req,
}
use simple_message.Examples.Auth.Facts.{session, greets, refuse-facts}
use simple_message.Examples.Auth.Sessions.{
  Knows, password-Knows, auth_server, auth_server-handlers, greet, authorise, handler_found,
}
use simple_message.Examples.Auth.Safety.{greeted_authenticated}
use simple_message.Connection.Properties.{load_property}

module _ (decode : List ℕ → Option AuthRequest) (encode : AuthResponse → List ℕ ⊎ Error)
    (now : ℕ) where
  -- The connection was turned away: with an error, closed, without a session or a new greeting.
  abbrev Rejected : Peer → Option Error × Peer → Type 0
  Rejected c r =
      (r.0 ≢ none)
      × (r.1.closed ≡ true)
      × (session r.1 ≡ none)
      × ((greets r.1.outbox ≡ false) ⊎ (greets c.outbox ≡ true))

  -- A business message without a session
  greet-Rejected :
      (q : Request) (c : Peer) → session c ≡ none → Rejected c (greet decode encode now q c)
  unfolding require_auth
  greet-Rejected q c e =
      let f = refuse-facts encode c "please auth first" not_authenticated in ground (arith, f)

  -- A request that carries no JSON, or credentials that the server does not take
  Refusable : Request → Type 0
  Refusable q = (r : AuthRequest) → decode (get_data q) ≡ some r → ¬ Knows r

  authorise-Rejected :
      (q : Request) (c : Peer)
      → session c ≡ none
      → Refusable q
      → Rejected c (authorise decode encode now q c)
  unfolding auth_handle check_request Refusable
  authorise-Rejected q c e bad = elim (Option-cases (decode (get_data q))) [
    | inl n ↦ ground (arith, refuse-facts encode c "invalid auth json" bad_json)
    | inr (r, good) ↦
        let wrong : password_of r.username ≢ r.password = λ p. bad r good (password-Knows r p) in
        ground (
          arith,
          refuse-facts encode c "invalid username or password" bad_credentials,
          eq_iff (password_of r.username) r.password,
        )
  ]

  -- A message that is not an authentication request with credentials that the server takes
  abbrev pub IsStranger : Message → Type 0
  IsStranger m =
      m.msg_id ≡ msg_auth_req → (r : AuthRequest) → decode m.msg_data ≡ some r → ¬ Knows r

  abbrev pub has_handler : ℕ → Bool
  has_handler id = if id == msg_auth_req then true else id == msg_hello

  abbrev pub any_handled : List Message → Bool
  any_handled [] = false
  any_handled (m ∷ ms) = let rest = any_handled ms in if has_handler m.msg_id then true else rest

  -- A peer after a message of a stranger
  record Shut (m : Message) (c d : Peer) : Type 0 where
    outside : session d ≡ none
    shut : d.closed ≡ (if has_handler m.msg_id then true else c.closed)

  Rejected-Shut :
      (m : Message) (c : Peer) (r : Option Error × Peer)
      → (m.msg_id ≡ msg_auth_req) ⊎ (m.msg_id ≡ msg_hello)
      → Rejected c r
      → Shut m c r.1
  Rejected-Shut m c r (inl e) (n, closed, s, g) = record {
    outside = s;
    shut = ground (arith, e, closed);
  }
  Rejected-Shut m c r (inr e) (n, closed, s, g) = record {
    outside = s;
    shut = ground (arith, e, closed);
  }

  handle_msg-Shut :
      (conn : ℕ) (m : Message) (s : Server Peer) (c : Peer)
      → s.handler ≡ handlers decode encode now
      → session c ≡ none
      → IsStranger m
      → ((handle_msg conn m (s, c)).0.handler ≡ handlers decode encode now)
        × Shut m c (handle_msg conn m (s, c)).1
  unfolding new_request Refusable get_data
  handle_msg-Shut conn m s c e n bad =
      let found = ap (lookup m.msg_id) e ∙ handler_found decode encode now m.msg_id in
      let q = new_request conn m.msg_id m.msg_data in
      elim (ℕ_discrete msg_auth_req m.msg_id) [
        | yes a ↦
            let (k, w) =
              handle_msg-some conn m s c (authorise decode encode now) (found ∙ ground arith) in
            let r = authorise-Rejected q c n (bad (sym a)) in
            (k ∙ e, subst (Shut m c) (sym w) (Rejected-Shut m c _ (inl (sym a)) r))
        | no na ↦ elim (ℕ_discrete msg_hello m.msg_id) [
          | yes b ↦
              let (k, w) =
                handle_msg-some conn m s c (greet decode encode now) (found ∙ ground arith) in
              let r = greet-Rejected q c n in
              (k ∙ e, subst (Shut m c) (sym w) (Rejected-Shut m c _ (inr (sym b)) r))
          | no nb ↦
              let (k, w) = handle_msg-none conn m s c (found ∙ ground arith) in
              (
                k ∙ e,
                subst (Shut m c) (sym w) (record { outside = n; shut = ground (arith, na, nb) }),
              )
        ]
      ]

  stays_out :
      (conn : ℕ) (ms : List Message) (s : Server Peer) (c : Peer)
      → s.handler ≡ handlers decode encode now
      → session c ≡ none
      → All IsStranger ms
      → let d = (handle_msgs conn ms (s, c)).1 in
        (session d ≡ none) × (d.closed ≡ (if c.closed then true else any_handled ms))
  unfolding handle_msgs
  stays_out conn [] s c e n a = (n, ground arith)
  stays_out conn (m ∷ ms) s c e n a =
      let (k, w) = handle_msg-Shut conn m s c e n a.0 in
      let (out, shut) = stays_out conn ms _ _ k w.outside a.1 in
      let first = w.shut in (out, ground (arith, shut, first))

  -- A connection none of whose messages is an authentication request with credentials that the server
  -- takes, a known name's password or an unknown name without one, gets no session and no greeting,
  -- whatever it sends and whatever SendMsg returns; and the server closes it, by the first message
  -- that has a handler, exactly if there is one.
  pub strangers_closed :
      (conn : ℕ) (ms : List Message) (results : List (Option Error))
      → All IsStranger ms
      → let d = (handle_msgs conn ms (auth_server decode encode now, fresh_peer results)).1 in
        (session d ≡ none) × (greets d.outbox ≡ false) × (d.closed ≡ any_handled ms)
  unfolding load_property lookup
  strangers_closed conn ms results a =
      let d = (handle_msgs conn ms (auth_server decode encode now, fresh_peer results)).1 in
      let (out, shut) =
        stays_out conn ms (auth_server decode encode now) (fresh_peer results)
          (auth_server-handlers decode encode now) refl a in
      (
        out,
        elim (greeted_authenticated decode encode now conn ms results) [
          | inl g ↦ g
          | inr n ↦ absurd (n out)
        ],
        shut,
      )
