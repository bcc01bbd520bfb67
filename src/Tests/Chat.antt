-- ===== src/Tests/Chat.antt =====
-- The programs of examples/websocket_auth on one connection.
use simple_message.Prelude.{false, ◌≡◌, refl, List, [], ◌∷◌, lookup}
use simple_message.Examples.Auth.{password_of}
use simple_message.Examples.Auth.Client.Talk.{
  found_session, Event, client_begins, server_reads, client_reads, timer_fires,
}
use simple_message.Examples.Auth.OverWebSocket.Chat.{connected, run}
use simple_message.Examples.Auth.OverWebSocket.Phases.{
  Where, printing, specify, specify_all, socket_at, viewer_at,
}
use simple_message.Examples.Auth.OverWebSocket.Chatting.{chat-specify_all}
use simple_message.Tests.Examples.{decode, encode, encode_request, decode_response, admin_request}

-- A login, the business message, and the greeting that is printed; a client that reads again finds
-- nothing.
abbrev chat : List Event
chat =
    client_begins ∷ server_reads ∷ client_reads ∷ timer_fires ∷ server_reads ∷ client_reads
    ∷ server_reads ∷ client_reads ∷ []

chat-specify_all_example :
    let x =
      run encode_request decode encode decode_response 42 admin_request chat
        (connected encode_request decode encode decode_response 42) in
    let p : Where = (printing, found_session, false) in
    (x.server.1 ≡ socket_at 42 admin_request (0 ∷ []) (0 ∷ []) p)
    × (x.client.1 ≡ viewer_at 42 admin_request (0 ∷ []) (0 ∷ []) p.0)
    × (x.timer ≡ p.1)
    × (x.server_stopped ≡ p.2)
unfolding password_of lookup specify_all specify
chat-specify_all_example =
    chat-specify_all encode_request decode encode decode_response 42 admin_request (0 ∷ []) (0 ∷ [])
      refl refl refl refl refl chat
