-- ===== src/Examples/Auth/OverWebSocket/Chat.antt =====
-- examples/websocket_auth: client/main.go and server/main.go at the ends of one connection. JSON and
-- the clock are parameters. ConnectedBegin and AuthRespHandler are those of examples/tcp_auth but for
-- the text of the business message.
use simple_message.Prelude.{
  ℕ, ◌*◌, Bool, true, false, List, [], ◌∷◌, ◌++◌, Option, none, some, if◌then◌else◌, ◌⊎◌, string_eq,
  nat_eq,
}
use simple_message.Errors.{Error}
use simple_message.Connection.Request.{Handler, get_data, get_msg_id}
use simple_message.Connection.Properties.{load_property}
use simple_message.Server.Dispatch.{
  Server, handle_msg, new_server, with_handlers as with_served,
  with_max_data_len as with_served_len,
}
use simple_message.Client.Dispatch.{
  Client, new_client, with_handlers, with_max_data_len, handle_msg as handle_reply,
}
use simple_message.Examples.Text.{utf8}
use simple_message.Examples.Auth.{AuthRequest, AuthResponse, auth_key, msg_hello, msg_auth_resp}
use simple_message.Examples.Auth.Client.{Caller, fresh_caller, connected_begin, auth_resp_handle}
use simple_message.Examples.Auth.Client.Talk.{
  Timer, waits, found_none, has_closed, found_session, Event, client_begins, server_reads,
  client_reads, timer_fires, timer_closes, server_stops, client_stops, message,
}
use simple_message.Examples.Auth.OverWebSocket.{Socket, fresh_socket, close_socket, handlers}

abbrev pub web_hello : List ℕ
web_hello = utf8 "hello websocket after auth"

-- The client's end, and what its HelloHandler has printed: the numbers and data of messages
pub record Viewer : Type 0 where
  pub caller : Caller
  pub printed : List (ℕ × List ℕ)

abbrev as_caller : Handler Caller → Handler Viewer
as_caller handle q v = let (e, c) = handle q v.caller in (e, record v { caller = c })

-- AuthRespHandler.Handle
abbrev pub web_resp : (List ℕ → AuthResponse ⊎ Error) → Handler Viewer
web_resp decode = as_caller (auth_resp_handle decode web_hello)

-- HelloHandler.Handle
unfoldable pub print_reply : Handler Viewer
print_reply q v = (none, record v { printed = v.printed ++ (get_msg_id q, get_data q) ∷ [] })

-- Both ends, as in examples/tcp_auth
pub record Chat : Type 0 where
  pub server : Server Socket × Socket
  pub client : Client Viewer × Viewer
  pub begun : Bool
  pub timer : Timer
  pub server_stopped : Bool
  pub client_stopped : Bool

unfoldable pub serve : List (ℕ × List ℕ) → Chat → Chat
serve [] x = x
serve ((id, bytes) ∷ rest) x =
    let (k, v) = x.client in
    record x {
      server = handle_msg 0 (message id bytes) x.server;
      client = (k, record v { caller = record v.caller { sent = rest } });
    }

unfoldable pub take : List (ℕ × List ℕ) → Chat → Chat
take [] x = x
take ((id, bytes) ∷ rest) x =
    let (s, d) = x.server in
    record x {
      server = (s, record d { outbox = rest });
      client = handle_reply 0 (message id bytes) x.client;
    }

-- The goroutine that the server's ConnectedBegin starts
unfoldable pub found : Chat → Timer
found x = elim (load_property auth_key x.server.1.properties) [
  | none ↦ found_none
  | some s ↦ found_session
]

unfoldable pub fire : Timer → Chat → Chat
unfolding found
fire waits x = record x { timer = found x }
fire found_none x = x
fire has_closed x = x
fire found_session x = x

unfoldable pub close_late : Timer → Chat → Chat
unfolding close_socket
close_late found_none x =
    let (s, d) = x.server in record x { server = (s, close_socket d); timer = has_closed }
close_late waits x = x
close_late has_closed x = x
close_late found_session x = x

module _ (encode_request : AuthRequest → List ℕ ⊎ Error)
    (decode_request : List ℕ → Option AuthRequest) (encode_response : AuthResponse → List ℕ ⊎ Error)
    (decode_response : List ℕ → AuthResponse ⊎ Error) (now : ℕ) where
  -- The handlers that the client's main registers
  unfoldable pub viewer_handlers : List (ℕ × Handler Viewer)
  viewer_handlers = (msg_auth_resp, web_resp decode_response) ∷ (msg_hello, print_reply) ∷ []

  -- main of both, when they have connected
  unfoldable pub connected : Chat
  unfolding viewer_handlers handlers
  connected = record {
    server = (
      new_server (
          with_served (handlers decode_request encode_response now)
          ∷ with_served_len (1024 * 1024)
          ∷ []),
      fresh_socket [],
    );
    client = (
      new_client (with_handlers (some viewer_handlers) ∷ with_max_data_len (1024 * 1024) ∷ []),
      record { caller = fresh_caller []; printed = [] },
    );
    begun = false;
    timer = waits;
    server_stopped = false;
    client_stopped = false;
  }

  -- ConnectedBegin of the client
  unfoldable pub begin : AuthRequest → Chat → Chat
  begin r x =
      let (k, v) = x.client in
      record x {
        client = (k, record v { caller = connected_begin encode_request r v.caller });
        begun = true;
      }

  -- Close ends the context of the connection, and no more: the goroutine of read goes on until the
  -- manager's stop, which comes later, closes the socket.
  unfoldable pub act : AuthRequest → Event → Chat → Chat
  unfolding begin serve take fire close_late
  act r client_begins x = if x.begun then x else begin r x
  act r server_reads x = if x.server_stopped then x else serve x.client.1.caller.sent x
  act r client_reads x = if x.client_stopped then x else take x.server.1.outbox x
  act r timer_fires x = fire x.timer x
  act r timer_closes x = close_late x.timer x
  act r server_stops x = if x.server.1.closed then record x { server_stopped = true } else x
  act r client_stops x = if x.client.1.caller.closed then record x { client_stopped = true } else x

  unfoldable pub run : AuthRequest → List Event → Chat → Chat
  unfolding act
  run r [] x = x
  run r (e ∷ es) x = run r es (act r e x)
