-- ===== src/Examples/Auth/OverWebSocket.antt =====
-- examples/websocket_auth/server/main.go: its handlers, with the bytes that they send. Its types,
-- constants and table of users are those of examples/tcp_auth/server/main.go. JSON, and what SendMsg
-- returns, are parameters.
use Prim.Native.String.{String}
use text.Mathlib.Text.{◌==◌ as str_eq}
use simple_message.Prelude.{
  ℕ, Bool, true, false, List, [], ◌∷◌, ◌++◌, Option, none, some, if◌then◌else◌, string_eq, ◌⊎◌, inl,
  inr,
}
use simple_message.Errors.{Error}
use simple_message.Connection.Request.{Handler, get_data}
use simple_message.Connection.Properties.{load_property, store_property}
use simple_message.Examples.Text.{utf8}
use simple_message.Examples.Auth.{
  msg_hello, msg_auth_req, msg_auth_resp, auth_key, AuthRequest, AuthResponse, AuthSession,
  password_of, bad_json, bad_credentials, not_authenticated,
}
pub mod Refinement
pub mod Chat
pub mod Phases
pub mod Handled
pub mod Chatting

-- A connection: its properties, whether Close was called, the messages that were sent, and what the
-- next calls of SendMsg return (`nil` at the end of the list).
pub record Socket : Type 0 where
  pub properties : List (String × AuthSession)
  pub closed : Bool
  pub outbox : List (ℕ × List ℕ)
  pub results : List (Option Error)

abbrev pub fresh_socket : List (Option Error) → Socket
fresh_socket results = record { properties = []; closed = false; outbox = []; results = results }

unfoldable pub close_socket : Socket → Socket
close_socket c = record c { closed = true }

send_with : ℕ → List ℕ → Socket → List (Option Error) → Option Error × Socket
send_with id bytes c [] = (none, record c { outbox = c.outbox ++ (id, bytes) ∷ [] })
send_with id bytes c (none ∷ rest) =
    (none, record c { outbox = c.outbox ++ (id, bytes) ∷ []; results = rest })
send_with id bytes c (some e ∷ rest) = (some e, record c { results = rest })

unfoldable pub send_msg : ℕ → List ℕ → Socket → Option Error × Socket
unfolding send_with
send_msg id bytes c = send_with id bytes c c.results

-- fmt.Sprintf of HelloHandler
abbrev pub reply_text : String → List ℕ → List ℕ
reply_text username bytes =
    utf8 "hello " ++ utf8 username ++ utf8 ", websocket server received: " ++ bytes

send_encoded : List ℕ ⊎ Error → Socket → Option Error × Socket
send_encoded (inl bytes) c = send_msg msg_auth_resp bytes c
send_encoded (inr e) c = (some e, c)

-- json.Marshal of an AuthResponse
module _ (encode : AuthResponse → List ℕ ⊎ Error) where
  unfoldable pub send_auth_response : Socket → Bool → String → String → Option Error × Socket
  unfolding send_encoded
  send_auth_response c is_ok message username =
      send_encoded (encode (record { is_ok = is_ok; message = message; user = username })) c

  -- An answer of refusal, whose own error is dropped, and the end of the connection
  unfoldable pub refuse : Socket → String → Error → Option Error × Socket
  unfolding send_auth_response close_socket
  refuse c message e = (some e, close_socket (send_auth_response c false message "").1)

-- json.Unmarshal into an AuthRequest, json.Marshal, and the clock
module _ (decode : List ℕ → Option AuthRequest) (encode : AuthResponse → List ℕ ⊎ Error)
    (now : ℕ) where
  -- The part of AuthHandler.Handle behind json.Unmarshal
  unfoldable pub check_request : AuthRequest → Socket → Option Error × Socket
  unfolding refuse send_auth_response
  check_request r c =
      if str_eq (password_of r.username) r.password
      then send_auth_response encode
          (record c {
            properties =
                store_property auth_key (record { username = r.username; login_at = now })
                  c.properties;
          })
          true "auth ok" r.username
      else refuse encode c "invalid username or password" bad_credentials

  unfoldable pub auth_handle : Handler Socket
  unfolding check_request refuse send_auth_response
  auth_handle request c = elim (load_property auth_key c.properties) [
    | some s ↦ send_auth_response encode c true "already authenticated" ""
    | none ↦ elim (decode (get_data request)) [
      | none ↦ refuse encode c "invalid auth json" bad_json
      | some r ↦ check_request r c
    ]
  ]

  -- AuthRequired.Handle
  unfoldable pub require_auth : Handler Socket → Handler Socket
  unfolding refuse
  require_auth next request c = elim (load_property auth_key c.properties) [
    | none ↦ refuse encode c "please auth first" not_authenticated
    | some s ↦ next request c
  ]

  -- HelloHandler.Handle
  unfoldable pub hello_handle : Handler Socket
  hello_handle request c =
      let username : String = elim (load_property auth_key c.properties) [
        | none ↦ "unknown"
        | some s ↦ s.username
      ] in
      send_msg msg_hello (reply_text username (get_data request)) c

  -- The handlers that main registers
  unfoldable pub handlers : List (ℕ × Handler Socket)
  handlers = (msg_auth_req, auth_handle) ∷ (msg_hello, require_auth hello_handle) ∷ []

-- The timer of ConnectedBegin
unfoldable pub auth_timeout : Socket → Socket
unfolding close_socket
auth_timeout c = elim (load_property auth_key c.properties) [ none ↦ close_socket c | some s ↦ c ]
