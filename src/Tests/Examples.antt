-- ===== src/Tests/Examples.antt =====
-- Runs of the examples.
use simple_message.Prelude.{
  false, ℕ, zero, suc, ◌≡◌, ◌⊎◌, inl, refl, true, List, [], ◌∷◌, Option, none, some, lookup,
  string_eq, insert,
}
use simple_message.Errors.{Error}
use simple_message.Protocol.Decoder.{Message}
use simple_message.Connection.Request.{get_data, new_request}
use simple_message.Connection.Properties.{load_property, store_property}
use simple_message.Server.Dispatch.{new_server, with_handlers, handle_msgs}
use simple_message.Examples.Auth.{
  handlers, require_auth, auth_handle, send_msg, hello_handle, AuthRequest, AuthResponse,
  AuthSession, fresh_peer, password_of,
}
use simple_message.Examples.Auth.Sessions.{auth_server, Granted}
use simple_message.Examples.Auth.Client.Talk.{
  Event, client_begins, server_reads, client_reads, timer_fires, found_session, connected, run,
}
use simple_message.Examples.Auth.Client.Stages.{
  Where, speaking, specify, specify_all, peer_at, caller_at,
}
use simple_message.Examples.Auth.Client.Course.{run-specify_all}
use simple_message.Examples.Text.{utf8}
use simple_message.Examples.Auth.OverWebSocket.{fresh_socket}
use simple_message.Examples.Auth.OverWebSocket.Refinement.{render, ws_server, over_web_socket}
use simple_message.Examples.Auth.Facts.{session, greets}
use simple_message.Examples.Auth.Safety.{session-Granted}
use simple_message.Examples.Auth.Strangers.{strangers_closed}

-- JSON for two requests, and for nothing else
abbrev pub decode : List ℕ → Option AuthRequest
decode [] = none
decode (n ∷ bytes) = elim n [
  | zero ↦ some (record { username = "admin"; password = "123456" })
  | suc k ↦ some (record { username = "nobody"; password = "" })
]

abbrev pub encode : AuthResponse → List ℕ ⊎ Error
encode r = inl (0 ∷ [])

abbrev login : Message
login = record { msg_id = 1000; msg_data = 0 ∷ [] }

abbrev business : Message
business = record { msg_id = 1; msg_data = [] }

abbrev admin : AuthSession
admin = record { username = "admin"; login_at = 42 }

session-Granted_example : Granted decode encode 42 0 admin (login ∷ business ∷ [])
unfolding load_property lookup handle_msgs new_server with_handlers handlers require_auth
    auth_handle get_data new_request password_of send_msg store_property insert hello_handle
session-Granted_example = session-Granted decode encode 42 0 (login ∷ business ∷ []) [] admin refl

-- A message that nobody takes, a login that is no JSON, and a business message
abbrev strange : List Message
strange =
    record { msg_id = 7; msg_data = [] } ∷ record { msg_id = 1000; msg_data = [] } ∷ business ∷ []

strangers_closed_example :
    let d = (handle_msgs 0 strange (auth_server decode encode 42, fresh_peer [])).1 in
    (session d ≡ none) × (greets d.outbox ≡ false) × (d.closed ≡ true)
strangers_closed_example =
    strangers_closed decode encode 42 0 strange [] (λ e. cc, (λ e r q. cc, (λ e. cc, tt)))

-- Encodings for the login of the admin
abbrev pub encode_request : AuthRequest → List ℕ ⊎ Error
encode_request r = inl (0 ∷ [])

abbrev pub decode_response : List ℕ → AuthResponse ⊎ Error
decode_response bytes = inl (record { is_ok = true; message = "auth ok"; user = "admin" })

abbrev pub admin_request : AuthRequest
admin_request = record { username = "admin"; password = "123456" }

-- A login, during which the timer of the server fires, and the first heartbeat
abbrev talk : List Event
talk = client_begins ∷ server_reads ∷ timer_fires ∷ client_reads ∷ server_reads ∷ client_reads ∷ []

run-specify_all_example :
    let x =
      run encode_request decode encode decode_response 42 admin_request talk
        (connected encode_request decode encode decode_response 42) in
    let p : Where = (speaking (utf8 "client heartbeat after auth"), found_session, false) in
    (x.server.1 ≡ peer_at 42 admin_request (0 ∷ []) (0 ∷ []) p)
    × (x.client.1 ≡ caller_at 42 admin_request (0 ∷ []) (0 ∷ []) p.0)
    × (x.timer ≡ p.1)
    × (x.server_stopped ≡ p.2)
unfolding password_of lookup specify_all specify
run-specify_all_example =
    run-specify_all encode_request decode encode decode_response 42 admin_request (0 ∷ []) (0 ∷ [])
      refl refl refl refl refl talk

over_web_socket_example :
    let ms = business ∷ login ∷ business ∷ [] in
    let (s, c) = handle_msgs 0 ms (auth_server decode encode 42, fresh_peer []) in
    let (t, d) = handle_msgs 0 ms (ws_server decode encode 42, fresh_socket []) in
    (d ≡ render c) × (t.stats ≡ s.stats)
over_web_socket_example = over_web_socket decode encode 42 0 (business ∷ login ∷ business ∷ []) []

text_bytes : utf8 "h欢" ≡ 104 ∷ 230 ∷ 172 ∷ 162 ∷ []
unfolding utf8
text_bytes = refl
