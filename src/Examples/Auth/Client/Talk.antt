-- ===== src/Examples/Auth/Client/Talk.antt =====
-- examples/tcp_auth: client/main.go and server/main.go at the ends of one connection. JSON and the
-- clock are parameters.
use Prim.Native.String.{String}
use simple_message.Prelude.{
  ℕ, ◌*◌, Bool, true, false, List, [], ◌∷◌, ◌++◌, Option, none, some, if◌then◌else◌, ◌⊎◌, string_eq,
}
use simple_message.Errors.{Error}
use simple_message.Protocol.Decoder.{Message}
use simple_message.Connection.Request.{Handler}
use simple_message.Connection.Properties.{load_property}
use simple_message.Server.Dispatch.{Server, handle_msg}
use simple_message.Client.Dispatch.{
  Client, new_client, with_handlers, with_max_data_len, handle_msg as handle_reply,
}
use simple_message.Examples.Text.{utf8}
use simple_message.Examples.Auth.{
  AuthRequest, AuthResponse, Peer, Reply, response, greeting, fresh_peer, auth_key, msg_hello,
  msg_auth_resp, close_peer,
}
use simple_message.Examples.Auth.Sessions.{auth_server}
use simple_message.Examples.Auth.Client.{
  Caller, fresh_caller, connected_begin, auth_resp_handle, heartbeat,
}

abbrev pub hello_after_auth : List ℕ
hello_after_auth = utf8 "hello after auth"

abbrev pub heartbeat_text : List ℕ
heartbeat_text = utf8 "client heartbeat after auth"

-- fmt.Sprintf of the server's HelloHandler
abbrev pub greeting_text : String → List ℕ → List ℕ
greeting_text username bytes = utf8 "hello " ++ utf8 username ++ utf8 ", server received: " ++ bytes

abbrev pub reply_bytes : Reply → List ℕ
reply_bytes (response bytes) = bytes
reply_bytes (greeting username bytes) = greeting_text username bytes

-- The goroutine that the server's ConnectedBegin starts: it waits for its timer, has found that the
-- connection has no session, has closed the connection, or has found a session.
pub data Timer : Type 0 where
  waits found_none has_closed found_session : Timer

-- Both ends: what one has sent and the other has not read is in `sent` of the client and in `outbox`
-- of the server; `begun` is whether the client's ConnectedBegin has run, in a goroutine of its
-- own, and the last two are whether the manager of a closed connection has stopped.
pub record Talk : Type 0 where
  pub server : Server Peer × Peer
  pub client : Client Caller × Caller
  pub begun : Bool
  pub timer : Timer
  pub server_stopped : Bool
  pub client_stopped : Bool

pub data Event : Type 0 where
  client_begins server_reads client_reads timer_fires timer_closes server_stops client_stops : Event

abbrev pub message : ℕ → List ℕ → Message
message id bytes = record { msg_id = id; msg_data = bytes }

unfoldable pub serve : List (ℕ × List ℕ) → Talk → Talk
serve [] x = x
serve ((id, bytes) ∷ rest) x =
    let (k, c) = x.client in
    record x {
      server = handle_msg 0 (message id bytes) x.server;
      client = (k, record c { sent = rest });
    }

unfoldable pub take : List (ℕ × Reply) → Talk → Talk
take [] x = x
take ((id, r) ∷ rest) x =
    let (s, d) = x.server in
    record x {
      server = (s, record d { outbox = rest });
      client = handle_reply 0 (message id (reply_bytes r)) x.client;
    }

-- What the goroutine finds when its timer fires
unfoldable pub found : Talk → Timer
found x = elim (load_property auth_key x.server.1.properties) [
  | none ↦ found_none
  | some s ↦ found_session
]

unfoldable pub fire : Timer → Talk → Talk
unfolding found
fire waits x = record x { timer = found x }
fire found_none x = x
fire has_closed x = x
fire found_session x = x

unfoldable pub close_late : Timer → Talk → Talk
unfolding close_peer
close_late found_none x =
    let (s, d) = x.server in record x { server = (s, close_peer d); timer = has_closed }
close_late waits x = x
close_late has_closed x = x
close_late found_session x = x

module _ (encode_request : AuthRequest → List ℕ ⊎ Error)
    (decode_request : List ℕ → Option AuthRequest) (encode_response : AuthResponse → List ℕ ⊎ Error)
    (decode_response : List ℕ → AuthResponse ⊎ Error) (now : ℕ) where
  -- The handlers that the client's main registers
  unfoldable pub client_handlers : List (ℕ × Handler Caller)
  client_handlers =
      (msg_auth_resp, auth_resp_handle decode_response hello_after_auth)
      ∷ (msg_hello, heartbeat heartbeat_text)
      ∷ []

  -- main of both, when they have connected
  unfoldable pub connected : Talk
  unfolding client_handlers
  connected = record {
    server = (auth_server decode_request encode_response now, fresh_peer []);
    client = (
      new_client (with_handlers (some client_handlers) ∷ with_max_data_len (1024 * 1024) ∷ []),
      fresh_caller [],
    );
    begun = false;
    timer = waits;
    server_stopped = false;
    client_stopped = false;
  }

  unfoldable pub begin : AuthRequest → Talk → Talk
  begin r x =
      let (k, c) = x.client in
      record x { client = (k, connected_begin encode_request r c); begun = true }

  -- Close ends the context of the connection, and no more: the goroutine of read goes on until the
  -- manager's stop, which comes later, closes the socket.
  unfoldable pub act : AuthRequest → Event → Talk → Talk
  unfolding begin serve take fire close_late
  act r client_begins x = if x.begun then x else begin r x
  act r server_reads x = if x.server_stopped then x else serve x.client.1.sent x
  act r client_reads x = if x.client_stopped then x else take x.server.1.outbox x
  act r timer_fires x = fire x.timer x
  act r timer_closes x = close_late x.timer x
  act r server_stops x = if x.server.1.closed then record x { server_stopped = true } else x
  act r client_stops x = if x.client.1.closed then record x { client_stopped = true } else x

  unfoldable pub run : AuthRequest → List Event → Talk → Talk
  unfolding act
  run r [] x = x
  run r (e ∷ es) x = run r es (act r e x)
