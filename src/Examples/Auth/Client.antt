-- ===== src/Examples/Auth/Client.antt =====
-- examples/tcp_auth/client/main.go, and the same handlers in examples/websocket_auth/client/main.go:
-- the client sends its credentials when it is connected, and its business messages once they are
-- accepted. JSON, and what SendMsg returns, are parameters.
use simple_message.Prelude.{
  ℕ, Bool, true, false, List, [], ◌∷◌, ◌++◌, Option, none, some, if◌then◌else◌, ◌⊎◌, inl, inr,
  nat_eq, string_eq,
}
use simple_message.Errors.{Error, other}
use simple_message.Connection.Request.{Handler, get_data}
use simple_message.Examples.Auth.{AuthRequest, AuthResponse, msg_hello, msg_auth_req}
pub mod Talk
pub mod Stages
pub mod Answers
pub mod Course
pub mod Login

-- The client's end of a connection: whether Close was called, the messages that were sent, and what
-- the next calls of SendMsg return (`nil` at the end of the list).
pub record Caller : Type 0 where
  pub closed : Bool
  pub sent : List (ℕ × List ℕ)
  pub results : List (Option Error)

abbrev pub fresh_caller : List (Option Error) → Caller
fresh_caller results = record { closed = false; sent = []; results = results }

unfoldable pub call_with : ℕ → List ℕ → Caller → List (Option Error) → Option Error × Caller
call_with id bytes c [] = (none, record c { sent = c.sent ++ (id, bytes) ∷ [] })
call_with id bytes c (none ∷ rest) =
    (none, record c { sent = c.sent ++ (id, bytes) ∷ []; results = rest })
call_with id bytes c (some e ∷ rest) = (some e, record c { results = rest })

unfoldable pub call_msg : ℕ → List ℕ → Caller → Option Error × Caller
unfolding call_with
call_msg id bytes c = call_with id bytes c c.results

unfoldable pub close_caller : Caller → Caller
close_caller c = record c { closed = true }

-- errors.New of the response's message
abbrev pub refused : Error
refused = other 4

-- A failed SendMsg closes the connection.
unfoldable pub close_failed : Option Error × Caller → Caller
unfolding close_caller
close_failed (none, c) = c
close_failed (some e, c) = close_caller c

-- ConnectedBegin; `encode` is json.Marshal of an AuthRequest.
unfoldable pub connected_begin : (AuthRequest → List ℕ ⊎ Error) → AuthRequest → Caller → Caller
unfolding call_msg close_failed close_caller
connected_begin encode r c = elim (encode r) [
  | inr e ↦ close_caller c
  | inl bytes ↦ close_failed (call_msg msg_auth_req bytes c)
]

-- AuthRespHandler.Handle, where `greets` are the bytes of its business message; `decode` is
-- json.Unmarshal into an AuthResponse.
unfoldable pub auth_resp_handle : (List ℕ → AuthResponse ⊎ Error) → List ℕ → Handler Caller
unfolding call_msg close_caller
auth_resp_handle decode greets request c = elim (decode (get_data request)) [
  | inr e ↦ (some e, close_caller c)
  | inl r ↦ if r.is_ok then call_msg msg_hello greets c else (some refused, close_caller c)
]

-- HelloHandler.Handle of examples/tcp_auth, which sends `text`
unfoldable pub heartbeat : List ℕ → Handler Caller
unfolding call_msg
heartbeat text request c = call_msg msg_hello text c
