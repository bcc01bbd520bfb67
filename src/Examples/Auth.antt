-- ===== src/Examples/Auth.antt =====
-- examples/tcp_auth/server/main.go, and the same handlers in examples/websocket_auth/server/main.go:
-- a connection must authenticate before its other messages are handled. JSON, and what SendMsg
-- returns, are parameters.
pub mod Facts
pub mod Sessions
pub mod Safety
pub mod Strangers
pub mod Client
pub mod OverWebSocket
use Prim.Native.String.{String}
use text.Mathlib.Text.{◌==◌ as str_eq}
use simple_message.Prelude.{
  ℕ, Bool, true, false, List, [], ◌∷◌, ◌++◌, Option, none, some, if◌then◌else◌, lookup, string_eq,
  ◌⊎◌, inl, inr,
}
use simple_message.Errors.{Error, other}
use simple_message.Connection.Request.{Handler, get_data}
use simple_message.Connection.Properties.{load_property, store_property}

abbrev pub msg_hello : ℕ
msg_hello = 1

abbrev pub msg_auth_req : ℕ
msg_auth_req = 1000

abbrev pub msg_auth_resp : ℕ
msg_auth_resp = 1001

abbrev pub auth_key : String
auth_key = "auth_session"

pub record AuthRequest : Type 0 where
  pub username : String
  pub password : String

pub record AuthResponse : Type 0 where
  pub is_ok : Bool
  pub message : String
  pub user : String

pub record AuthSession : Type 0 where
  pub username : String
  pub login_at : ℕ

abbrev pub users : List (String × String)
users = ("admin", "123456") ∷ ("will", "pass123") ∷ []

-- `users[name]`: a missing key gives the empty string.
unfoldable pub password_of : String → String
password_of name = elim (lookup name users) [ none ↦ "" | some p ↦ p ]

-- What is sent: an encoded answer, or a greeting to a user with the data received
pub data Reply : Type 0 where
  response : List ℕ → Reply
  greeting : String → List ℕ → Reply

-- A connection: its properties, whether Close was called, the replies that were sent with their
-- message numbers, and what the next calls of SendMsg return (`nil` at the end of the list).
pub record Peer : Type 0 where
  pub properties : List (String × AuthSession)
  pub closed : Bool
  pub outbox : List (ℕ × Reply)
  pub results : List (Option Error)

abbrev pub fresh_peer : List (Option Error) → Peer
fresh_peer results = record { properties = []; closed = false; outbox = []; results = results }

unfoldable pub close_peer : Peer → Peer
close_peer c = record c { closed = true }

send_with : ℕ → Reply → Peer → List (Option Error) → Option Error × Peer
send_with id r c [] = (none, record c { outbox = c.outbox ++ (id, r) ∷ [] })
send_with id r c (none ∷ rest) =
    (none, record c { outbox = c.outbox ++ (id, r) ∷ []; results = rest })
send_with id r c (some e ∷ rest) = (some e, record c { results = rest })

unfoldable pub send_msg : ℕ → Reply → Peer → Option Error × Peer
unfolding send_with
send_msg id r c = send_with id r c c.results

-- Errors of fmt.Errorf and errors.New
abbrev pub bad_json : Error
bad_json = other 1

abbrev pub bad_credentials : Error
bad_credentials = other 2

abbrev pub not_authenticated : Error
not_authenticated = other 3

send_encoded : List ℕ ⊎ Error → Peer → Option Error × Peer
send_encoded (inl bytes) c = send_msg msg_auth_resp (response bytes) c
send_encoded (inr e) c = (some e, c)

-- json.Marshal of an AuthResponse
module _ (encode : AuthResponse → List ℕ ⊎ Error) where
  unfoldable pub send_auth_response : Peer → Bool → String → String → Option Error × Peer
  unfolding send_encoded
  send_auth_response c is_ok message username =
      send_encoded (encode (record { is_ok = is_ok; message = message; user = username })) c

  -- An answer of refusal, whose own error is dropped, and the end of the connection
  unfoldable pub refuse : Peer → String → Error → Option Error × Peer
  unfolding send_auth_response close_peer
  refuse c message e = (some e, close_peer (send_auth_response c false message "").1)

-- json.Unmarshal into an AuthRequest, json.Marshal, and the clock
module _ (decode : List ℕ → Option AuthRequest) (encode : AuthResponse → List ℕ ⊎ Error)
    (now : ℕ) where
  -- The part of AuthHandler.Handle behind json.Unmarshal
  unfoldable pub check_request : AuthRequest → Peer → Option Error × Peer
  unfolding refuse send_auth_response
  check_request r c =
      if str_eq (password_of r.username) r.password
      then send_auth_response encode
          (record c {
            properties =
                store_property auth_key (record { username = r.username; login_at = now })
                  c.properties;
          })
          true "auth ok" r.username
      else refuse encode c "invalid username or password" bad_credentials

  unfoldable pub auth_handle : Handler Peer
  unfolding check_request refuse send_auth_response
  auth_handle request c = elim (load_property auth_key c.properties) [
    | some s ↦ send_auth_response encode c true "already authenticated" ""
    | none ↦ elim (decode (get_data request)) [
      | none ↦ refuse encode c "invalid auth json" bad_json
      | some r ↦ check_request r c
    ]
  ]

  -- AuthRequired.Handle
  unfoldable pub require_auth : Handler Peer → Handler Peer
  unfolding refuse
  require_auth next request c = elim (load_property auth_key c.properties) [
    | none ↦ refuse encode c "please auth first" not_authenticated
    | some s ↦ next request c
  ]

  -- HelloHandler.Handle
  unfoldable pub hello_handle : Handler Peer
  hello_handle request c =
      let username : String = elim (load_property auth_key c.properties) [
        | none ↦ "unknown"
        | some s ↦ s.username
      ] in
      send_msg msg_hello (greeting username (get_data request)) c

  -- The handlers that main registers
  unfoldable pub handlers : List (ℕ × Handler Peer)
  handlers = (msg_auth_req, auth_handle) ∷ (msg_hello, require_auth hello_handle) ∷ []

-- The timer of ConnectedBegin
unfoldable pub auth_timeout : Peer → Peer
unfolding close_peer
auth_timeout c = elim (load_property auth_key c.properties) [ none ↦ close_peer c | some s ↦ c ]
