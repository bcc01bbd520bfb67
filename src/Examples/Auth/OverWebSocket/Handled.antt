-- ===== src/Examples/Auth/OverWebSocket/Handled.antt =====
-- What the handlers of examples/websocket_auth make of the message that is on its way.
use text.Mathlib.TextEquality.{eq_iff}
use simple_message.Prelude.{
  ℕ, ◌≡◌, refl, ap, ◌∙◌, Bool, true, List, [], Option, some, ◌⊎◌, inl, lookup, nat_eq, string_eq,
  arith,
}
use simple_message.Errors.{Error}
use simple_message.Connection.Request.{Request, get_data}
use simple_message.Connection.Properties.{load_property, load-store_self}
use simple_message.Examples.Auth.{AuthRequest, AuthResponse, AuthSession, password_of, auth_key}
use simple_message.Examples.Auth.Client.{call_msg, call_with, auth_resp_handle}
use simple_message.Examples.Auth.OverWebSocket.{
  auth_handle, check_request, require_auth, hello_handle, send_auth_response, send_encoded,
  send_msg, send_with,
}
use simple_message.Examples.Auth.OverWebSocket.Chat.{web_hello, web_resp}
use simple_message.Examples.Auth.OverWebSocket.Phases.{
  asking, answered, speaking, greeted, socket_at_closed, viewer_at,
}

module _ (decode_request : List ℕ → Option AuthRequest)
    (encode_response : AuthResponse → List ℕ ⊎ Error) (now : ℕ) (r : AuthRequest)
    (asked answer : List ℕ) where
  pub greet_lem :
      (q : Request) (b : Bool)
      → get_data q ≡ web_hello
      → (require_auth decode_request encode_response now
          (hello_handle decode_request encode_response now)
          q
          (socket_at_closed now r asked answer b speaking)).1
        ≡ socket_at_closed now r asked answer b greeted
  unfolding require_auth hello_handle send_msg send_with
  greet_lem q b e = ground (
    arith,
    e,
    load-store_self {V = AuthSession} auth_key (record { username = r.username; login_at = now })
        [],
  )

  module _ (good : password_of r.username ≡ r.password) (reads : decode_request asked ≡ some r)
      (answers : encode_response (record { is_ok = true; message = "auth ok"; user = r.username })
        ≡ inl answer) where
    check_lem :
        (b : Bool)
        → (check_request decode_request encode_response now r
            (socket_at_closed now r asked answer b asking)).1
          ≡ socket_at_closed now r asked answer b answered
    unfolding check_request send_auth_response send_encoded send_msg send_with
    check_lem b =
        let match = (eq_iff (password_of r.username) r.password).1 good in
        ground (arith, match, answers)

    pub auth_lem :
        (q : Request) (b : Bool)
        → get_data q ≡ asked
        → (auth_handle decode_request encode_response now q
            (socket_at_closed now r asked answer b asking)).1
          ≡ socket_at_closed now r asked answer b answered
    unfolding auth_handle load_property lookup
    auth_lem q b e = rw (ap decode_request e ∙ reads, auth_handle) (check_lem b)

module _ (decode_response : List ℕ → AuthResponse ⊎ Error) (now : ℕ) (r : AuthRequest)
    (asked answer : List ℕ)
    (understands : decode_response answer
      ≡ inl (record { is_ok = true; message = "auth ok"; user = r.username })) where
  pub resp_lem :
      (q : Request)
      → get_data q ≡ answer
      → (web_resp decode_response q (viewer_at now r asked answer answered)).1
        ≡ viewer_at now r asked answer speaking
  unfolding auth_resp_handle call_msg call_with viewer_at
  resp_lem q e = rw (ap decode_response e ∙ understands, auth_resp_handle) refl
