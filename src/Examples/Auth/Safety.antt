-- ===== src/Examples/Auth/Safety.antt =====
-- Who gets past authentication.
use text.Mathlib.TextEquality.{eq_iff}
use simple_message.Prelude.{
  ℕ, ◌≡◌, ◌≢◌, ◌⊎◌, inl, inr, false, List, Option, none, some, lookup, string_eq, nat_eq, arith,
  Bool-cases,
}
use simple_message.Errors.{Error}
use simple_message.Protocol.Decoder.{Message}
use simple_message.Connection.Request.{Request, get_data}
use simple_message.Connection.Properties.{load_property, store_property, load-store_self}
use simple_message.Server.Dispatch.{handle_msgs}
use simple_message.Examples.Auth.{
  AuthRequest, AuthResponse, AuthSession, Peer, fresh_peer, users, password_of, auth_key,
  check_request, auth_handle,
}
use simple_message.Examples.Auth.Facts.{session, greets, answer-facts}
use simple_message.Examples.Auth.Sessions.{
  sessions, auth_server, auth_server-handlers, Granted, authorise,
}

module _ (decode : List ℕ → Option AuthRequest) (encode : AuthResponse → List ℕ ⊎ Error)
    (now : ℕ) where
  -- A connection that starts without a session has one only if one of its messages was an
  -- authentication request that names the session's user and either gives the password that the table
  -- has for that name or, where the table does not have the name, gives the empty password, whatever
  -- messages it sends and whatever SendMsg returns.
  pub session-Granted :
      (conn : ℕ) (ms : List Message) (results : List (Option Error)) (x : AuthSession)
      → session (handle_msgs conn ms (auth_server decode encode now, fresh_peer results)).1 ≡ some x
      → Granted decode encode now conn x ms
  unfolding load_property lookup
  session-Granted conn ms results x h =
      let (granted, _, _) =
        sessions decode encode now conn ms (auth_server decode encode now) (fresh_peer results)
          (auth_server-handlers decode encode now) in
      elim (granted x h) [ inl old ↦ absurd (cc) | inr new ↦ new ]

  -- A connection to which a business message was answered has a session, whatever messages it sends
  -- and whatever SendMsg returns.
  pub greeted_authenticated :
      (conn : ℕ) (ms : List Message) (results : List (Option Error))
      → let d = (handle_msgs conn ms (auth_server decode encode now, fresh_peer results)).1 in
        (greets d.outbox ≡ false) ⊎ (session d ≢ none)
  unfolding greets
  greeted_authenticated conn ms results =
      let d = (handle_msgs conn ms (auth_server decode encode now, fresh_peer results)).1 in
      let (_, _, greeted) =
        sessions decode encode now conn ms (auth_server decode encode now) (fresh_peer results)
          (auth_server-handlers decode encode now) in
      elim (Bool-cases (greets d.outbox)) [
        | inr none_yet ↦ inl none_yet
        | inl g ↦ elim (greeted g) [ inl old ↦ absurd (cc) | inr n ↦ inr n ]
      ]

  -- A name that is not in the table is authenticated by an empty password.
  unknown_user_authenticates :
      (q : Request) (c : Peer) (r : AuthRequest)
      → session c ≡ none
      → decode (get_data q) ≡ some r
      → lookup r.username users ≡ none
      → r.password ≡ ""
      → session (authorise decode encode now q c).1
        ≡ some (record { username = r.username; login_at = now })
  unfolding auth_handle check_request password_of
  unknown_user_authenticates q c r e good unknown empty =
      let t : AuthSession = record { username = r.username; login_at = now } in
      let c' : Peer = record c { properties = store_property auth_key t c.properties } in
      ground (
        arith,
        eq_iff (password_of r.username) r.password,
        answer-facts encode c' "auth ok" r.username,
        load-store_self auth_key t c.properties,
      )
