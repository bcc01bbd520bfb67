-- ===== src/Examples/Auth/Sessions.antt =====
-- The session of a connection through its messages: examples/tcp_auth/server/main.go
use text.Mathlib.Text.{◌==◌ as str_eq}
use text.Mathlib.TextEquality.{eq_iff}
use native.Mathlib.Decide.{ℕ_discrete}
use simple_message.Prelude.{
  ℕ, ◌≡◌, ◌≢◌, ◌⊎◌, inl, inr, refl, sym, ap, ◌∙◌, subst, true, List, [], ◌∷◌, Option, none, some,
  if◌then◌else◌, lookup, string_eq, nat_eq, ◌==◌, arith, Option-cases, Bool-cases,
}
use simple_message.Errors.{Error}
use simple_message.Protocol.Decoder.{Message}
use simple_message.Connection.Request.{Request, Handler, get_data, new_request}
use simple_message.Connection.Properties.{store_property, load-store_self}
use simple_message.Server.Dispatch.{
  Server, handle_msg, handle_msg-some, handle_msg-none, handle_msgs, new_server, with_handlers,
}
use simple_message.Examples.Auth.{
  AuthRequest, AuthResponse, AuthSession, Peer, greeting, users, password_of, auth_key,
  check_request, auth_handle, require_auth, hello_handle, handlers, bad_json, bad_credentials,
  not_authenticated, msg_hello, msg_auth_req,
}
use simple_message.Examples.Auth.Facts.{session, greets, send_msg-facts, refuse-facts, answer-facts}

-- What the server takes for a user's credentials: the password that the table has for the name, or no
-- password for a name that the table does not have.
abbrev pub Knows : AuthRequest → Type 0
Knows r =
    (lookup r.username users ≡ some r.password)
    ⊎ ((lookup r.username users ≡ none) × (r.password ≡ ""))

pub password-Knows : (r : AuthRequest) → password_of r.username ≡ r.password → Knows r
unfolding password_of
password-Knows r e = elim (Option-cases (lookup r.username users)) [
  | inl n ↦ inr (n, ground (arith, e, n))
  | inr (p, n) ↦ inl (ground (arith, e, n))
]

module _ (decode : List ℕ → Option AuthRequest) (encode : AuthResponse → List ℕ ⊎ Error)
    (now : ℕ) where
  -- A request whose credentials the server takes
  pub Grants : Request → AuthSession → Type 0
  Grants q s =
      (r : AuthRequest) × (decode (get_data q) ≡ some r) × Knows r × (r.username ≡ s.username)

  auth_session :
      (q : Request) (c : Peer) (s : AuthSession)
      → session (auth_handle decode encode now q c).1 ≡ some s
      → (session c ≡ some s) ⊎ Grants q s
  unfolding auth_handle check_request Grants
  auth_session q c s h = elim (Option-cases (session c)) [
    | inr (t, e) ↦ inl (ground (arith, answer-facts encode c "already authenticated" ""))
    | inl e ↦ elim (Option-cases (decode (get_data q))) [
      | inl bad ↦ absurd (ground (arith, refuse-facts encode c "invalid auth json" bad_json))
      | inr (r, good) ↦ elim (Bool-cases (str_eq (password_of r.username) r.password)) [
        | inl match ↦ inr (
          r,
          good,
          password-Knows r ((eq_iff _ _).0 match),
          (let t : AuthSession = record { username = r.username; login_at = now } in
              let c' : Peer = record c { properties = store_property auth_key t c.properties } in
              ground (
                arith,
                answer-facts encode c' "auth ok" r.username,
                load-store_self auth_key t c.properties,
              )),
        )
        | inr wrong ↦
            absurd
              (ground (arith, refuse-facts encode c "invalid username or password" bad_credentials))
      ]
    ]
  ]

  -- A session is kept, and authentication greets nobody.
  auth_keeps :
      (q : Request) (c : Peer)
      → (session c ≢ none → session (auth_handle decode encode now q c).1 ≡ session c)
        × (greets (auth_handle decode encode now q c).1.outbox ≡ true → greets c.outbox ≡ true)
  unfolding auth_handle check_request
  auth_keeps q c = elim (Option-cases (session c)) [
    | inr (t, e) ↦ ground (arith, answer-facts encode c "already authenticated" "")
    | inl e ↦ elim (Option-cases (decode (get_data q))) [
      | inl bad ↦ ground (arith, refuse-facts encode c "invalid auth json" bad_json)
      | inr (r, good) ↦
          let t : AuthSession = record { username = r.username; login_at = now } in
          let c' : Peer = record c { properties = store_property auth_key t c.properties } in
          ground (
            arith,
            answer-facts encode c' "auth ok" r.username,
            refuse-facts encode c "invalid username or password" bad_credentials,
          )
    ]
  ]

  hello_facts :
      (q : Request) (c : Peer)
      → let d = (require_auth decode encode now (hello_handle decode encode now) q c).1 in
        (session d ≡ session c)
        × (greets d.outbox ≡ true → (greets c.outbox ≡ true) ⊎ (session c ≢ none))
  unfolding require_auth hello_handle
  hello_facts q c = elim (Option-cases (session c)) [
    | inl e ↦ ground (arith, refuse-facts encode c "please auth first" not_authenticated)
    | inr (s, e) ↦ ground (arith, send_msg-facts msg_hello (greeting s.username (get_data q)) c)
  ]

  abbrev pub request_of : ℕ → Message → Request
  request_of conn m = record { conn = conn; request_data = m.msg_data; msg_id = m.msg_id }

  abbrev pub authorise : Handler Peer
  authorise = auth_handle decode encode now

  abbrev pub greet : Handler Peer
  greet = require_auth decode encode now (hello_handle decode encode now)

  pub handler_found :
      (id : ℕ)
      → lookup id (handlers decode encode now) ≡ (
          if msg_auth_req == id
          then some authorise
          else if msg_hello == id
          then some greet
          else none)
  unfolding handlers lookup
  handler_found id = refl

  -- A peer after a message: a new session was granted by it, an old one stays, and a greeting needs
  -- a session.
  record Steps (conn : ℕ) (m : Message) (c d : Peer) : Type 0 where
    granted :
        (x : AuthSession)
        → session d ≡ some x
        → (session c ≡ some x) ⊎ ((m.msg_id ≡ msg_auth_req) × Grants (request_of conn m) x)
    kept : session c ≢ none → session d ≡ session c
    greeted : greets d.outbox ≡ true → (greets c.outbox ≡ true) ⊎ (session c ≢ none)

  auth-Steps :
      (conn : ℕ) (m : Message) (c : Peer)
      → m.msg_id ≡ msg_auth_req
      → Steps conn m c (authorise (request_of conn m) c).1
  auth-Steps conn m c e = record {
    granted = λ x h. elim (auth_session (request_of conn m) c x h) [
      | inl old ↦ inl old
      | inr new ↦ inr (e, new)
    ];
    kept = (auth_keeps (request_of conn m) c).0;
    greeted = λ g. inl ((auth_keeps (request_of conn m) c).1 g);
  }

  hello-Steps : (conn : ℕ) (m : Message) (c : Peer) → Steps conn m c (greet (request_of conn m) c).1
  hello-Steps conn m c =
      let (same, greeted) = hello_facts (request_of conn m) c in
      record { granted = λ x h. inl (sym same ∙ h); kept = λ _. same; greeted = greeted }

  other-Steps : (conn : ℕ) (m : Message) (c : Peer) → Steps conn m c c
  other-Steps conn m c = record { granted = λ x h. inl h; kept = λ _. refl; greeted = λ g. inl g }

  handle_msg-Steps :
      (conn : ℕ) (m : Message) (s : Server Peer) (c : Peer)
      → s.handler ≡ handlers decode encode now
      → ((handle_msg conn m (s, c)).0.handler ≡ handlers decode encode now)
        × Steps conn m c (handle_msg conn m (s, c)).1
  unfolding new_request
  handle_msg-Steps conn m s c e =
      let found = ap (lookup m.msg_id) e ∙ handler_found m.msg_id in
      elim (ℕ_discrete msg_auth_req m.msg_id) [
        | yes a ↦
            let (k, w) = handle_msg-some conn m s c authorise (found ∙ ground arith) in
            (k ∙ e, subst (Steps conn m c) (sym w) (auth-Steps conn m c (sym a)))
        | no na ↦ elim (ℕ_discrete msg_hello m.msg_id) [
          | yes b ↦
              let (k, w) = handle_msg-some conn m s c greet (found ∙ ground arith) in
              (k ∙ e, subst (Steps conn m c) (sym w) (hello-Steps conn m c))
          | no nb ↦
              let (k, w) = handle_msg-none conn m s c (found ∙ ground arith) in
              (k ∙ e, subst (Steps conn m c) (sym w) (other-Steps conn m c))
        ]
      ]

  -- One of the messages granted a session.
  unfoldable pub Granted : ℕ → AuthSession → List Message → Type 0
  Granted conn x [] = ⊥
  Granted conn x (m ∷ ms) =
      ((m.msg_id ≡ msg_auth_req) × Grants (request_of conn m) x) ⊎ Granted conn x ms

  pub sessions :
      (conn : ℕ) (ms : List Message) (s : Server Peer) (c : Peer)
      → s.handler ≡ handlers decode encode now
      → let d = (handle_msgs conn ms (s, c)).1 in
        ((x : AuthSession) → session d ≡ some x → (session c ≡ some x) ⊎ Granted conn x ms)
        × (session c ≢ none → session d ≡ session c)
        × (greets d.outbox ≡ true → (greets c.outbox ≡ true) ⊎ (session d ≢ none))
  unfolding handle_msgs Granted
  sessions conn [] s c e = (λ x h. inl h, λ _. refl, λ g. inl g)
  sessions conn (m ∷ ms) s c e =
      let (e', st) = handle_msg-Steps conn m s c e in
      let d = (handle_msg conn m (s, c)).1 in
      let (granted, kept, greeted) = sessions conn ms (handle_msg conn m (s, c)).0 d e' in
      (
        λ x h. elim (granted x h) [
          | inl here ↦ elim (st.granted x here) [ inl old ↦ inl old | inr new ↦ inr (inl new) ]
          | inr later ↦ inr (inr later)
        ],
        λ n. kept (λ z. n (sym (st.kept n) ∙ z)) ∙ st.kept n,
        λ g. elim (greeted g) [
          | inl here ↦ elim (st.greeted here) [
            | inl old ↦ inl old
            | inr n ↦ inr (λ z. n (sym (kept (λ y. n (sym (st.kept n) ∙ y)) ∙ st.kept n) ∙ z))
          ]
          | inr n ↦ inr n
        ],
      )

  abbrev pub auth_server : Server Peer
  auth_server = new_server (with_handlers (handlers decode encode now) ∷ [])

  pub auth_server-handlers : auth_server.handler ≡ handlers decode encode now
  unfolding new_server with_handlers
  auth_server-handlers = refl
