-- ===== src/Examples/Auth/OverWebSocket/Refinement.antt =====
-- The handlers of examples/websocket_auth/server/main.go beside those of
-- examples/tcp_auth/server/main.go.
use Prim.Native.String.{String}
use text.Mathlib.Text.{◌==◌ as str_eq}
use simple_message.Prelude.{
  ℕ, ◌==◌, ◌≡◌, refl, sym, ap, ◌∙◌, Bool, true, false, List, [], ◌∷◌, ◌++◌, Option, none, some,
  if◌then◌else◌, lookup, nat_eq, string_eq, ◌⊎◌, inl, inr, arith, Option-cases, Bool-cases,
}
use simple_message.Errors.{Error}
use simple_message.Protocol.Decoder.{Message}
use simple_message.Connection.Request.{get_data}
use simple_message.Connection.Properties.{load_property}
use simple_message.Server.Dispatch.{Server, handle_msgs, new_server, with_handlers}
use simple_message.Server.Dispatch.Images.{Same, SameFound, handle_msgs-Follows}
use simple_message.Examples.Auth.{
  msg_hello, msg_auth_req, msg_auth_resp, auth_key, AuthRequest, AuthResponse, AuthSession, Peer,
  Reply, response, greeting, fresh_peer, password_of, bad_json, bad_credentials, not_authenticated,
}
use simple_message.Examples.Auth
use simple_message.Examples.Auth.Sessions.{auth_server, Granted}
use simple_message.Examples.Auth.Safety.{session-Granted}
use simple_message.Examples.Auth.OverWebSocket.{
  Socket, fresh_socket, close_socket, send_with, send_msg, reply_text, send_encoded,
  send_auth_response, refuse, check_request, auth_handle, require_auth, hello_handle, handlers,
  auth_timeout,
}

-- What a reply comes to in bytes
abbrev pub bytes_of : Reply → List ℕ
bytes_of (response bytes) = bytes
bytes_of (greeting username bytes) = reply_text username bytes

abbrev pub sent_bytes : List (ℕ × Reply) → List (ℕ × List ℕ)
sent_bytes [] = []
sent_bytes ((id, r) ∷ rs) = (id, bytes_of r) ∷ sent_bytes rs

abbrev pub render : Peer → Socket
render c = record {
  properties = c.properties;
  closed = c.closed;
  outbox = sent_bytes c.outbox;
  results = c.results;
}

-- A result, with the connection in bytes
abbrev rendered : Option Error × Peer → Option Error × Socket
rendered r = (r.0, render r.1)

sent_bytes-append :
    (xs : List (ℕ × Reply)) (id : ℕ) (r : Reply)
    → sent_bytes (xs ++ (id, r) ∷ []) ≡ sent_bytes xs ++ (id, bytes_of r) ∷ []
sent_bytes-append [] id r = refl
sent_bytes-append ((i, x) ∷ xs) id r = ap (λ l. (i, bytes_of x) ∷ l) (sent_bytes-append xs id r)

send_with-rendered :
    (id : ℕ) (r : Reply) (c : Peer) (rs : List (Option Error))
    → send_with id (bytes_of r) (render c) rs ≡ rendered (Auth.send_with id r c rs)
unfolding send_with Auth.send_with
send_with-rendered id r c [] = ground (arith, sent_bytes-append c.outbox id r)
send_with-rendered id r c (none ∷ rs) = ground (arith, sent_bytes-append c.outbox id r)
send_with-rendered id r c (some e ∷ rs) = refl

send_msg-rendered :
    (id : ℕ) (r : Reply) (c : Peer)
    → send_msg id (bytes_of r) (render c) ≡ rendered (Auth.send_msg id r c)
unfolding send_msg Auth.send_msg
send_msg-rendered id r c = send_with-rendered id r c c.results

close-rendered :
    (r : Option Error × Peer) → close_socket (render r.1) ≡ render (Auth.close_peer r.1)
unfolding close_socket Auth.close_peer
close-rendered r = refl

module _ (encode : AuthResponse → List ℕ ⊎ Error) where
  encoded-rendered :
      (x : List ℕ ⊎ Error) (c : Peer) → send_encoded x (render c) ≡ rendered (Auth.send_encoded x c)
  unfolding send_encoded Auth.send_encoded
  encoded-rendered (inl bytes) c = send_msg-rendered msg_auth_resp (response bytes) c
  encoded-rendered (inr e) c = refl

  answer-rendered :
      (c : Peer) (b : Bool) (message username : String)
      → send_auth_response encode (render c) b message username
        ≡ rendered (Auth.send_auth_response encode c b message username)
  unfolding send_auth_response Auth.send_auth_response
  answer-rendered c b message username =
      encoded-rendered (encode (record { is_ok = b; message = message; user = username })) c

  refuse-rendered :
      (c : Peer) (message : String) (e : Error)
      → refuse encode (render c) message e ≡ rendered (Auth.refuse encode c message e)
  unfolding refuse Auth.refuse close_socket Auth.close_peer
  refuse-rendered c message e =
      ap (λ r. (some e, close_socket r.1)) (answer-rendered c false message "")

module _ (decode : List ℕ → Option AuthRequest) (encode : AuthResponse → List ℕ ⊎ Error)
    (now : ℕ) where
  check-rendered :
      (r : AuthRequest) (c : Peer)
      → check_request decode encode now r (render c)
        ≡ rendered (Auth.check_request decode encode now r c)
  unfolding check_request Auth.check_request
  check-rendered r c = elim (Bool-cases (str_eq (password_of r.username) r.password)) [
    | inl e ↦ rw e (answer-rendered encode _ true "auth ok" r.username)
    | inr e ↦ rw e (refuse-rendered encode c "invalid username or password" bad_credentials)
  ]

  auth-rendered : Same render (Auth.auth_handle decode encode now) (auth_handle decode encode now)
  unfolding auth_handle Auth.auth_handle
  auth-rendered q c = elim (Option-cases (load_property auth_key c.properties)) [
    | inr (s, e) ↦
        rw (e, auth_handle, Auth.auth_handle)
          (answer-rendered encode c true "already authenticated" "")
    | inl e ↦ elim (Option-cases (decode (get_data q))) [
      | inl d ↦
          rw (e, d, auth_handle, Auth.auth_handle)
            (refuse-rendered encode c "invalid auth json" bad_json)
      | inr (r, d) ↦ rw (e, d, auth_handle, Auth.auth_handle) (check-rendered r c)
    ]
  ]

  hello-rendered :
      Same render (Auth.hello_handle decode encode now) (hello_handle decode encode now)
  unfolding hello_handle Auth.hello_handle
  hello-rendered q c = send_msg-rendered msg_hello (greeting _ (get_data q)) c

  require-rendered :
      Same render
        (Auth.require_auth decode encode now (Auth.hello_handle decode encode now))
        (require_auth decode encode now (hello_handle decode encode now))
  unfolding require_auth Auth.require_auth
  require-rendered q c = elim (Option-cases (load_property auth_key c.properties)) [
    | inl e ↦
        rw (e, require_auth, Auth.require_auth)
          (refuse-rendered encode c "please auth first" not_authenticated)
    | inr (s, e) ↦ rw (e, require_auth, Auth.require_auth) (hello-rendered q c)
  ]

  abbrev pub ws_server : Server Socket
  ws_server = new_server (with_handlers (handlers decode encode now) ∷ [])

  handlers-rendered :
      (id : ℕ)
      → SameFound render
          (lookup id (auth_server decode encode now).handler)
          (lookup id ws_server.handler)
  unfolding new_server with_handlers handlers Auth.handlers lookup
  handlers-rendered id = found (msg_auth_req == id) (msg_hello == id)
    where
      found :
          (a b : Bool)
          → SameFound render
              (if a
                then some (Auth.auth_handle decode encode now)
                else if b
                then some
                    (Auth.require_auth decode encode now (Auth.hello_handle decode encode now))
                else none)
              (if a
                then some (auth_handle decode encode now)
                else if b
                then some (require_auth decode encode now (hello_handle decode encode now))
                else none)
      found true b = auth-rendered
      found false true = require-rendered
      found false false = tt

  -- Whatever messages a connection sends and whatever SendMsg returns, the server of
  -- examples/websocket_auth does what that of examples/tcp_auth does, with the text of its own
  -- greeting: it sends the same replies in bytes, closes the connection where the other does, keeps
  -- the same session and counts the same.
  pub over_web_socket :
      (conn : ℕ) (ms : List Message) (results : List (Option Error))
      → let (s, c) = handle_msgs conn ms (auth_server decode encode now, fresh_peer results) in
        let (t, d) = handle_msgs conn ms (ws_server, fresh_socket results) in
        (d ≡ render c) × (t.stats ≡ s.stats)
  unfolding new_server with_handlers
  over_web_socket conn ms results =
      let l =
        handle_msgs-Follows render conn ms (auth_server decode encode now, fresh_peer results)
          (ws_server, fresh_socket results)
          (record { found = handlers-rendered; state = refl; counted = refl }) in
      (l.state, l.counted)

  -- The timer does the same, too.
  timeout-rendered : (c : Peer) → auth_timeout (render c) ≡ render (Auth.auth_timeout c)
  unfolding auth_timeout Auth.auth_timeout close_socket Auth.close_peer
  timeout-rendered c = ground arith

  -- So a connection has a session there, too, only if it sent the credentials of the session's user.
  ws_server-Granted :
      (conn : ℕ) (ms : List Message) (results : List (Option Error)) (x : AuthSession)
      → load_property auth_key (handle_msgs conn ms (ws_server, fresh_socket results)).1.properties
        ≡ some x
      → Granted decode encode now conn x ms
  ws_server-Granted conn ms results x h =
      session-Granted decode encode now conn ms results x (
        sym (ap (λ d. load_property auth_key d.properties) (over_web_socket conn ms results).0) ∙ h)
