-- ===== src/Examples/Auth/Client/Login.antt =====
-- A login between client/main.go and server/main.go of examples/tcp_auth, message by message.
use simple_message.Prelude.{
  ℕ, true, false, List, [], ◌∷◌, Option, some, ◌⊎◌, inl, ◌≡◌, refl, arith, lookup, nat_eq,
  string_eq,
}
use simple_message.Errors.{Error}
use simple_message.Protocol.Decoder.{Message}
use simple_message.Connection.Request.{Request, get_data, new_request}
use simple_message.Connection.Properties.{load-store_self}
use simple_message.Server.Dispatch.{handle_msg, handle_msgs, new_server, with_handlers}
use simple_message.Examples.Auth.{
  AuthRequest, AuthResponse, AuthSession, response, greeting, fresh_peer, password_of, auth_key,
  msg_hello, msg_auth_req, msg_auth_resp, handlers, require_auth, hello_handle, send_msg, send_with,
}
use simple_message.Examples.Auth.Sessions.{auth_server}
use simple_message.Examples.Auth.Client.{
  fresh_caller, call_msg, call_with, close_failed, connected_begin, auth_resp_handle,
}
use simple_message.Examples.Auth.Client.Stages.{answered, peer_at_closed}
use simple_message.Examples.Auth.Client.Answers.{auth_lem}

-- A login between the two programs. What either end's json.Marshal writes the other's
-- json.Unmarshal reads.
module _ (encode_request : AuthRequest → List ℕ ⊎ Error)
    (decode_request : List ℕ → Option AuthRequest) (encode_response : AuthResponse → List ℕ ⊎ Error)
    (decode_response : List ℕ → AuthResponse ⊎ Error) (now : ℕ) where
  -- The response to good credentials
  abbrev accepted : AuthRequest → AuthResponse
  accepted r = record { is_ok = true; message = "auth ok"; user = r.username }

  abbrev session_of : AuthRequest → AuthSession
  session_of r = record { username = r.username; login_at = now }

  greets_user :
      (q : Request) (r : AuthRequest) (asked answer : List ℕ)
      → (require_auth decode_request encode_response now
          (hello_handle decode_request encode_response now)
          q
          (peer_at_closed now r asked answer false answered)).1.outbox
        ≡ (msg_auth_resp, response answer) ∷ (msg_hello, greeting r.username (get_data q)) ∷ []
  unfolding require_auth hello_handle send_msg send_with
  greets_user q r asked answer = ground (arith, load-store_self auth_key (session_of r) [])

  login_answered :
      (conn : ℕ) (r : AuthRequest) (hello asked answer : List ℕ)
      → password_of r.username ≡ r.password
      → decode_request asked ≡ some r
      → encode_response (accepted r) ≡ inl answer
      → (handle_msgs conn
          (record { msg_id = msg_auth_req; msg_data = asked }
            ∷ record { msg_id = msg_hello; msg_data = hello }
            ∷ [])
          (auth_server decode_request encode_response now, fresh_peer [])).1.outbox
        ≡ (msg_auth_resp, response answer) ∷ (msg_hello, greeting r.username hello) ∷ []
  unfolding handle_msgs handle_msg new_server with_handlers handlers lookup new_request get_data
  login_answered conn r hello asked answer p q e =
      rw
        (auth_lem decode_request encode_response now r asked answer p q e
          (new_request conn msg_auth_req asked) false refl)
        (greets_user (new_request conn msg_hello hello) r asked answer)

  -- What was sent, as the messages that arrive
  abbrev messages_of : List (ℕ × List ℕ) → List Message
  messages_of [] = []
  messages_of ((id, bytes) ∷ rest) = record { msg_id = id; msg_data = bytes } ∷ messages_of rest

  -- A login with the table's password succeeds, where each end's json.Unmarshal reads what the
  -- other's json.Marshal wrote and no SendMsg fails: the client sends its request and, on the
  -- response, its business message, and the server, given these two, answers that the login is good
  -- and greets the user.
  login_served :
      (conn : ℕ) (r : AuthRequest) (hello asked answer : List ℕ)
      → password_of r.username ≡ r.password
      → encode_request r ≡ inl asked
      → decode_request asked ≡ some r
      → encode_response (accepted r) ≡ inl answer
      → decode_response answer ≡ inl (accepted r)
      → let c = connected_begin encode_request r (fresh_caller []) in
        let reply = new_request conn msg_auth_resp answer in
        let c' = (auth_resp_handle decode_response hello reply c).1 in
        let server = auth_server decode_request encode_response now in
        let d = (handle_msgs conn (messages_of c'.sent) (server, fresh_peer [])).1 in
        (c'.closed ≡ false)
        × (c'.sent ≡ (msg_auth_req, asked) ∷ (msg_hello, hello) ∷ [])
        × (d.outbox
            ≡ (msg_auth_resp, response answer) ∷ (msg_hello, greeting r.username hello) ∷ [])
  unfolding connected_begin call_msg call_with close_failed auth_resp_handle get_data new_request
  login_served conn r hello asked answer p sent read wrote understood =
      rw (sent, connected_begin)
        (rw (understood, auth_resp_handle)
          (refl, refl, login_answered conn r hello asked answer p read wrote))
