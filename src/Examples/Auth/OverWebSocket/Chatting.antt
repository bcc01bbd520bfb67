-- ===== src/Examples/Auth/OverWebSocket/Chatting.antt =====
-- Runs of the two programs of examples/websocket_auth, on one connection.
use simple_message.Prelude.{
  ℕ, ◌≡◌, refl, ap, ◌∙◌, subst, sym, Bool, true, false, List, [], ◌∷◌, Option, some, if◌then◌else◌,
  ◌⊎◌, inl, lookup, insert, nat_eq, string_eq,
}
use simple_message.Errors.{Error}
use simple_message.Protocol.Decoder.{Message}
use simple_message.Connection.Request.{Handler, get_data, get_msg_id, new_request}
use simple_message.Connection.Properties.{load_property, store_property}
use simple_message.Server.Dispatch.{
  Server, handle_msg, handle_msg-some, new_server, with_handlers,
  with_max_data_len as with_served_len,
}
use simple_message.Client.Dispatch.{
  Client, new_client, handle_msg as handle_reply, handle_msg-some as handle_reply-some,
  with_handlers as with_called, with_max_data_len,
}
use simple_message.Examples.Auth.{
  AuthRequest, AuthResponse, password_of, msg_hello, msg_auth_req, msg_auth_resp,
}
use simple_message.Examples.Auth.Client.{call_msg, call_with, close_failed, connected_begin}
use simple_message.Examples.Auth.Client.Talk.{
  Timer, waits, found_none, Event, client_begins, server_reads, client_reads, timer_fires,
  timer_closes, message, server_stops, client_stops,
}
use simple_message.Examples.Auth.Client.Stages.{is_closed}
use simple_message.Examples.Auth.OverWebSocket.{Socket, handlers, close_socket}
use simple_message.Examples.Auth.OverWebSocket.Chat.{
  Viewer, Chat, web_hello, print_reply, serve, take, found, fire, close_late, viewer_handlers,
  connected, begin, act, run,
}
use simple_message.Examples.Auth.OverWebSocket.Phases.{
  Where, Phase, not_begun, asking, answered, speaking, greeted, specify, specify_all, server_next,
  client_next, outbox_at, sent_at, socket_at, viewer_at, has_begun, greeting_of,
}
use simple_message.Examples.Auth.OverWebSocket.Handled.{auth_lem, greet_lem, resp_lem}

-- JSON that reads what it wrote, and the right password
module _ (encode_request : AuthRequest → List ℕ ⊎ Error)
    (decode_request : List ℕ → Option AuthRequest) (encode_response : AuthResponse → List ℕ ⊎ Error)
    (decode_response : List ℕ → AuthResponse ⊎ Error) (now : ℕ) (r : AuthRequest)
    (asked answer : List ℕ) (good : password_of r.username ≡ r.password)
    (writes : encode_request r ≡ inl asked) (reads : decode_request asked ≡ some r)
    (answers : encode_response (record { is_ok = true; message = "auth ok"; user = r.username })
      ≡ inl answer)
    (understands : decode_response answer
      ≡ inl (record { is_ok = true; message = "auth ok"; user = r.username })) where
  abbrev chat_at : Server Socket → Client Viewer → Where → Chat
  chat_at s k p = record {
    server = (s, socket_at now r asked answer p);
    client = (k, viewer_at now r asked answer p.0);
    begun = has_begun p.0;
    timer = p.1;
    server_stopped = p.2;
    client_stopped = false;
  }

  abbrev called_handlers : List (ℕ × Handler Viewer)
  called_handlers =
      viewer_handlers encode_request decode_request encode_response decode_response now

  -- The programs with their handlers
  record Programs (s : Server Socket) (k : Client Viewer) : Type 0 where
    serves : s.handler ≡ handlers decode_request encode_response now
    calls : k.handler ≡ some called_handlers

  -- The programs are at a phase.
  IsAt : Chat → Where → Type 0
  IsAt x p = (s : Server Socket) × (k : Client Viewer) × Programs s k × (x ≡ chat_at s k p)

  stays :
      (s : Server Socket) (k : Client Viewer) (p : Where) → Programs s k → IsAt (chat_at s k p) p
  unfolding IsAt
  stays s k p h = (s, k, h, refl)

  either :
      (b : Bool) (x y : Chat) (p q : Where)
      → IsAt x p
      → IsAt y q
      → IsAt (if b then x else y) (if b then p else q)
  either true x y p q a c = a
  either false x y p q a c = c

  -- A message arrives at the server, whose handler leaves it at the next phase.
  served :
      (s : Server Socket) (k : Client Viewer) (p : Phase) (t : Timer) (b : Bool) (m : Message)
      (handle : Handler Socket)
      → Programs s k
      → lookup m.msg_id (handlers decode_request encode_response now) ≡ some handle
      → (handle (new_request 0 m.msg_id m.msg_data) (socket_at now r asked answer (p, t, b))).1
        ≡ socket_at now r asked answer (server_next p, t, b)
      → has_begun (server_next p) ≡ has_begun p
      → IsAt
          (record {
            server = handle_msg 0 m (s, socket_at now r asked answer (p, t, b));
            client = (k, viewer_at now r asked answer (server_next p));
            begun = has_begun p;
            timer = t;
            server_stopped = b;
            client_stopped = false;
          })
          (server_next p, t, b)
  unfolding IsAt
  served s k p t b m handle h f e q =
      let (same, called) =
        handle_msg-some 0 m s (socket_at now r asked answer (p, t, b)) handle
          (ap (lookup m.msg_id) h.serves ∙ f) in
      (
        (handle_msg 0 m (s, socket_at now r asked answer (p, t, b))).0,
        k,
        record { serves = same ∙ h.serves; calls = h.calls },
        cc,
      )

  server_phase :
      (s : Server Socket) (k : Client Viewer) (p : Phase) (t : Timer) (b : Bool)
      → Programs s k
      → IsAt (serve (sent_at now r asked answer p) (chat_at s k (p, t, b))) (server_next p, t, b)
  unfolding serve socket_at viewer_at handlers lookup get_data new_request
  server_phase s k asking t b h =
      served s k asking t b (message msg_auth_req asked) _ h refl
        (auth_lem decode_request encode_response now r asked answer good reads answers _
          (is_closed t) refl)
        refl
  server_phase s k speaking t b h =
      served s k speaking t b (message msg_hello web_hello) _ h refl
        (greet_lem decode_request encode_response now r asked answer
          (new_request 0 msg_hello web_hello) (is_closed t) refl)
        refl
  server_phase s k p t b h = stays s k (p, t, b) h

  -- and at the client
  taken :
      (s : Server Socket) (k : Client Viewer) (p : Phase) (t : Timer) (b : Bool) (m : Message)
      (handle : Handler Viewer)
      → Programs s k
      → lookup m.msg_id called_handlers ≡ some handle
      → (handle (new_request 0 m.msg_id m.msg_data) (viewer_at now r asked answer p)).1
        ≡ viewer_at now r asked answer (client_next p)
      → has_begun (client_next p) ≡ has_begun p
      → IsAt
          (record {
            server = (s, socket_at now r asked answer (client_next p, t, b));
            client = handle_reply 0 m (k, viewer_at now r asked answer p);
            begun = has_begun p;
            timer = t;
            server_stopped = b;
            client_stopped = false;
          })
          (client_next p, t, b)
  unfolding IsAt
  taken s k p t b m handle h f e q =
      let (same, called) =
        handle_reply-some 0 m k (viewer_at now r asked answer p) called_handlers handle h.calls f in
      (
        s,
        (handle_reply 0 m (k, viewer_at now r asked answer p)).0,
        record { serves = h.serves; calls = same },
        cc,
      )

  client_phase :
      (s : Server Socket) (k : Client Viewer) (p : Phase) (t : Timer) (b : Bool)
      → Programs s k
      → IsAt (take (outbox_at now r asked answer p) (chat_at s k (p, t, b))) (client_next p, t, b)
  unfolding take socket_at viewer_at viewer_handlers lookup get_data get_msg_id new_request
      print_reply
  client_phase s k answered t b h =
      taken s k answered t b (message msg_auth_resp answer) _ h refl
        (resp_lem decode_response now r asked answer understands _ refl) refl
  client_phase s k greeted t b h =
      taken s k greeted t b (message msg_hello (greeting_of now r asked answer)) _ h refl refl refl
  client_phase s k p t b h = stays s k (p, t, b) h

  at_phase :
      (e : Event) (s : Server Socket) (k : Client Viewer) (p : Where)
      → Programs s k
      → IsAt
          (act encode_request decode_request encode_response decode_response now r e
            (chat_at s k p))
          (specify e p)
  unfolding IsAt specify act begin socket_at viewer_at connected_begin call_msg call_with
      close_failed fire found close_late close_socket load_property lookup store_property insert
  at_phase client_begins s k (not_begun, t, b) h = (s, k, h, rw (writes, connected_begin) refl)
  at_phase client_begins s k (p, t, b) h = stays s k (p, t, b) h
  at_phase server_reads s k (p, t, b) h =
      either b (chat_at s k (p, t, b)) _ (p, t, b) (server_next p, t, b) (stays s k (p, t, b) h)
        (server_phase s k p t b h)
  at_phase client_reads s k (p, t, b) h = client_phase s k p t b h
  at_phase timer_fires s k (not_begun, waits, false) h = (s, k, h, refl)
  at_phase timer_fires s k (asking, waits, b) h = (s, k, h, refl)
  at_phase timer_fires s k (p, waits, b) h = (s, k, h, refl)
  at_phase timer_fires s k (p, t, b) h = (s, k, h, refl)
  at_phase timer_closes s k (p, found_none, b) h = (s, k, h, refl)
  at_phase timer_closes s k (p, t, b) h = (s, k, h, refl)
  at_phase server_stops s k (p, t, b) h =
      either (is_closed t) _ (chat_at s k (p, t, b)) (p, t, true) (p, t, b) (s, k, h, refl)
        (s, k, h, refl)
  at_phase client_stops s k p h = (s, k, h, refl)

  runs :
      (es : List Event) (s : Server Socket) (k : Client Viewer) (p : Where)
      → Programs s k
      → IsAt
          (run encode_request decode_request encode_response decode_response now r es
            (chat_at s k p))
          (specify_all es p)
  unfolding run specify_all IsAt
  runs [] s k p h = (s, k, h, refl)
  runs (e ∷ es) s k p h =
      let (s', k', h', same) = at_phase e s k p h in
      subst
        (λ x.
          IsAt (run encode_request decode_request encode_response decode_response now r es x)
            (specify_all es (specify e p)))
        (sym same) (runs es s' k' (specify e p) h')

  -- However messages arrive, and whenever the server's timer fires, a login over WebSocket with the
  -- right password and what follows it go through the phases of `specify_all`, if each end's
  -- json.Unmarshal reads what the other's json.Marshal wrote and no SendMsg fails: what either end has
  -- sent and the other has not read, the session, what the client has printed, and which end is closed
  -- are those of the phase. So the conversation ends: the client prints the server's greeting once and
  -- sends nothing more, unless the server's manager has stopped after the timer found no session and
  -- closed the connection; what is read between that Close and the stop is still answered.
  pub chat-specify_all :
      (es : List Event)
      → let x =
          run encode_request decode_request encode_response decode_response now r es
            (connected encode_request decode_request encode_response decode_response now) in
        let p = specify_all es (not_begun, waits, false) in
        (x.server.1 ≡ socket_at now r asked answer p)
        × (x.client.1 ≡ viewer_at now r asked answer p.0)
        × (x.timer ≡ p.1)
        × (x.server_stopped ≡ p.2)
  unfolding connected socket_at viewer_at IsAt new_client with_called with_max_data_len new_server
      with_handlers with_served_len
  chat-specify_all es =
      let (s, k, h, same) =
        runs es _ _ (not_begun, waits, false) (record { serves = refl; calls = refl }) in
      (
        ap (λ x. x.server.1) same,
        ap (λ x. x.client.1) same,
        ap (λ x. x.timer) same,
        ap (λ x. x.server_stopped) same,
      )
