-- ===== src/Examples/Auth/Client/Course.antt =====
-- Runs of the two programs of examples/tcp_auth, on one connection.
use simple_message.Prelude.{
  ℕ, ◌≡◌, refl, ap, ◌∙◌, subst, sym, Bool, true, false, List, [], ◌∷◌, Option, some, if◌then◌else◌,
  ◌⊎◌, inl, lookup, insert, nat_eq, string_eq,
}
use simple_message.Errors.{Error}
use simple_message.Protocol.Decoder.{Message}
use simple_message.Connection.Request.{Handler, get_data, new_request}
use simple_message.Connection.Properties.{load_property, store_property}
use simple_message.Server.Dispatch.{Server, handle_msg, handle_msg-some, new_server, with_handlers}
use simple_message.Client.Dispatch.{
  Client, new_client, handle_msg as handle_reply, handle_msg-some as handle_reply-some,
  with_handlers as with_called, with_max_data_len,
}
use simple_message.Examples.Auth.{
  AuthRequest, AuthResponse, Peer, greeting, password_of, msg_hello, msg_auth_req, msg_auth_resp,
  handlers, close_peer,
}
use simple_message.Examples.Auth.Client.{
  Caller, call_msg, call_with, close_failed, connected_begin, heartbeat,
}
use simple_message.Examples.Auth.Client.Talk.{
  reply_bytes, Timer, waits, found_none, has_closed, found_session, Talk, Event, client_begins,
  server_reads, client_reads, timer_fires, timer_closes, server_stops, client_stops, message, serve,
  take, found, fire, close_late, client_handlers, connected, begin, act, run,
}
use simple_message.Examples.Auth.Client.Stages.{
  Where, Stage, not_begun, asking, answered, speaking, greeted, specify, specify_all, is_closed,
  server_next, client_next, timer_next, outbox_at, sent_at, peer_at, caller_at, has_begun,
}
use simple_message.Examples.Auth.Client.Answers.{auth_lem, greet_lem, resp_lem}

-- JSON that reads what it wrote, and the right password
module _ (encode_request : AuthRequest → List ℕ ⊎ Error)
    (decode_request : List ℕ → Option AuthRequest) (encode_response : AuthResponse → List ℕ ⊎ Error)
    (decode_response : List ℕ → AuthResponse ⊎ Error) (now : ℕ) (r : AuthRequest)
    (asked answer : List ℕ) (good : password_of r.username ≡ r.password)
    (writes : encode_request r ≡ inl asked) (reads : decode_request asked ≡ some r)
    (answers : encode_response (record { is_ok = true; message = "auth ok"; user = r.username })
      ≡ inl answer)
    (understands : decode_response answer
      ≡ inl (record { is_ok = true; message = "auth ok"; user = r.username })) where
  abbrev talk_at : Server Peer → Client Caller → Where → Talk
  talk_at s k p = record {
    server = (s, peer_at now r asked answer p);
    client = (k, caller_at now r asked answer p.0);
    begun = has_begun p.0;
    timer = p.1;
    server_stopped = p.2;
    client_stopped = false;
  }

  abbrev called_handlers : List (ℕ × Handler Caller)
  called_handlers =
      client_handlers encode_request decode_request encode_response decode_response now

  abbrev Serves : Server Peer → Type 0
  Serves s = s.handler ≡ handlers decode_request encode_response now

  abbrev Calls : Client Caller → Type 0
  Calls k = k.handler ≡ some called_handlers

  -- The programs are at a stage.
  IsAt : Talk → Where → Type 0
  IsAt x p = (s : Server Peer) × (k : Client Caller) × Serves s × Calls k × (x ≡ talk_at s k p)

  either :
      (b : Bool) (x y : Talk) (p q : Where)
      → IsAt x p
      → IsAt y q
      → IsAt (if b then x else y) (if b then p else q)
  either true x y p q a c = a
  either false x y p q a c = c

  -- A message arrives at the server, whose handler leaves it at the next stage.
  served :
      (s : Server Peer) (k : Client Caller) (st : Stage) (t : Timer) (b : Bool) (m : Message)
      (handle : Handler Peer)
      → Serves s
      → Calls k
      → lookup m.msg_id (handlers decode_request encode_response now) ≡ some handle
      → (handle (new_request 0 m.msg_id m.msg_data) (peer_at now r asked answer (st, t, b))).1
        ≡ peer_at now r asked answer (server_next st, t, b)
      → has_begun (server_next st) ≡ has_begun st
      → IsAt
          (record {
            server = handle_msg 0 m (s, peer_at now r asked answer (st, t, b));
            client = (k, caller_at now r asked answer (server_next st));
            begun = has_begun st;
            timer = t;
            server_stopped = b;
            client_stopped = false;
          })
          (server_next st, t, b)
  unfolding IsAt
  served s k st t b m handle h g f e q =
      let (same, called) =
        handle_msg-some 0 m s (peer_at now r asked answer (st, t, b)) handle
          (ap (lookup m.msg_id) h ∙ f) in
      ((handle_msg 0 m (s, peer_at now r asked answer (st, t, b))).0, k, same ∙ h, g, cc)

  server_stage :
      (s : Server Peer) (k : Client Caller) (st : Stage) (t : Timer) (b : Bool)
      → Serves s
      → Calls k
      → IsAt (serve (sent_at now r asked answer st) (talk_at s k (st, t, b))) (server_next st, t, b)
  unfolding serve IsAt peer_at caller_at handlers lookup get_data new_request
  server_stage s k not_begun t b h g = (s, k, h, g, refl)
  server_stage s k answered t b h g = (s, k, h, g, refl)
  server_stage s k (greeted w) t b h g = (s, k, h, g, refl)
  server_stage s k asking t b h g =
      served s k asking t b (message msg_auth_req asked) _ h g refl
        (auth_lem decode_request encode_response now r asked answer good reads answers _
          (is_closed t) refl)
        refl
  server_stage s k (speaking w) t b h g =
      served s k (speaking w) t b (message msg_hello w) _ h g refl
        (greet_lem decode_request encode_response now r asked answer (new_request 0 msg_hello w)
          (is_closed t))
        refl

  timer_stage :
      (s : Server Peer) (k : Client Caller) (st : Stage) (b : Bool)
      → Serves s
      → Calls k
      → IsAt (fire waits (talk_at s k (st, waits, b))) (st, timer_next st waits, b)
  unfolding IsAt fire found peer_at caller_at load_property lookup store_property insert
  timer_stage s k not_begun b h g = (s, k, h, g, refl)
  timer_stage s k asking b h g = (s, k, h, g, refl)
  timer_stage s k answered b h g = (s, k, h, g, refl)
  timer_stage s k (speaking w) b h g = (s, k, h, g, refl)
  timer_stage s k (greeted w) b h g = (s, k, h, g, refl)

  -- and at the client
  taken :
      (s : Server Peer) (k : Client Caller) (st : Stage) (t : Timer) (b : Bool) (m : Message)
      (handle : Handler Caller)
      → Serves s
      → Calls k
      → lookup m.msg_id called_handlers ≡ some handle
      → (handle (new_request 0 m.msg_id m.msg_data) (caller_at now r asked answer st)).1
        ≡ caller_at now r asked answer (client_next st)
      → has_begun (client_next st) ≡ has_begun st
      → IsAt
          (record {
            server = (s, peer_at now r asked answer (client_next st, t, b));
            client = handle_reply 0 m (k, caller_at now r asked answer st);
            begun = has_begun st;
            timer = t;
            server_stopped = b;
            client_stopped = false;
          })
          (client_next st, t, b)
  unfolding IsAt
  taken s k st t b m handle h g f e q =
      let (same, called) =
        handle_reply-some 0 m k (caller_at now r asked answer st) called_handlers handle g f in
      (s, (handle_reply 0 m (k, caller_at now r asked answer st)).0, h, same, cc)

  client_stage :
      (s : Server Peer) (k : Client Caller) (st : Stage) (t : Timer) (b : Bool)
      → Serves s
      → Calls k
      → IsAt
          (take (outbox_at now r asked answer st) (talk_at s k (st, t, b)))
          (client_next st, t, b)
  unfolding take IsAt peer_at caller_at client_handlers lookup get_data new_request heartbeat
      call_msg call_with
  client_stage s k not_begun t b h g = (s, k, h, g, refl)
  client_stage s k asking t b h g = (s, k, h, g, refl)
  client_stage s k (speaking w) t b h g = (s, k, h, g, refl)
  client_stage s k answered t b h g =
      taken s k answered t b (message msg_auth_resp answer) _ h g refl
        (resp_lem decode_response now r asked answer understands _ refl) refl
  client_stage s k (greeted w) t b h g =
      taken s k (greeted w) t b (message msg_hello (reply_bytes (greeting r.username w))) _ h g refl
        refl refl

  at_stage :
      (e : Event) (s : Server Peer) (k : Client Caller) (p : Where)
      → Serves s
      → Calls k
      → IsAt
          (act encode_request decode_request encode_response decode_response now r e
            (talk_at s k p))
          (specify e p)
  unfolding IsAt specify act begin peer_at caller_at connected_begin call_msg call_with close_failed
      serve take fire found close_late close_peer
  at_stage client_begins s k (not_begun, t, b) h g = (s, k, h, g, rw (writes, connected_begin) refl)
  at_stage client_begins s k (asking, t, b) h g = (s, k, h, g, refl)
  at_stage client_begins s k (answered, t, b) h g = (s, k, h, g, refl)
  at_stage client_begins s k (speaking w, t, b) h g = (s, k, h, g, refl)
  at_stage client_begins s k (greeted w, t, b) h g = (s, k, h, g, refl)
  at_stage server_reads s k (st, t, b) h g =
      either b (talk_at s k (st, t, b)) _ (st, t, b) (server_next st, t, b) (s, k, h, g, refl)
        (server_stage s k st t b h g)
  at_stage client_reads s k (st, t, b) h g = client_stage s k st t b h g
  at_stage timer_fires s k (st, waits, b) h g = timer_stage s k st b h g
  at_stage timer_fires s k (st, found_none, b) h g = (s, k, h, g, refl)
  at_stage timer_fires s k (st, has_closed, b) h g = (s, k, h, g, refl)
  at_stage timer_fires s k (st, found_session, b) h g = (s, k, h, g, refl)
  at_stage timer_closes s k (st, found_none, b) h g = (s, k, h, g, refl)
  at_stage timer_closes s k (st, waits, b) h g = (s, k, h, g, refl)
  at_stage timer_closes s k (st, has_closed, b) h g = (s, k, h, g, refl)
  at_stage timer_closes s k (st, found_session, b) h g = (s, k, h, g, refl)
  at_stage server_stops s k (st, t, b) h g =
      either (is_closed t) _ (talk_at s k (st, t, b)) (st, t, true) (st, t, b) (s, k, h, g, refl)
        (s, k, h, g, refl)
  at_stage client_stops s k (st, t, b) h g = (s, k, h, g, refl)

  runs :
      (es : List Event) (s : Server Peer) (k : Client Caller) (p : Where)
      → Serves s
      → Calls k
      → IsAt
          (run encode_request decode_request encode_response decode_response now r es
            (talk_at s k p))
          (specify_all es p)
  unfolding run specify_all IsAt
  runs [] s k p h g = (s, k, h, g, refl)
  runs (e ∷ es) s k p h g =
      let (s', k', h', g', same) = at_stage e s k p h g in
      subst
        (λ x.
          IsAt (run encode_request decode_request encode_response decode_response now r es x)
            (specify_all es (specify e p)))
        (sym same) (runs es s' k' (specify e p) h' g')

  -- However messages arrive, and whenever the server's timer fires, a login with the right password
  -- and what follows it go through the stages of `specify_all`, if each end's json.Unmarshal reads what
  -- the other's json.Marshal wrote and no SendMsg fails: what either end has sent and the other has
  -- not read, the session, and which end is closed are those of the stage. So there is one message on
  -- its way once the client has begun, the client never closes, and the server closes only if its
  -- timer has found no session; a request that is read between that Close and the stop of the server's
  -- manager is still granted and answered.
  pub run-specify_all :
      (es : List Event)
      → let x =
          run encode_request decode_request encode_response decode_response now r es
            (connected encode_request decode_request encode_response decode_response now) in
        let p = specify_all es (not_begun, waits, false) in
        (x.server.1 ≡ peer_at now r asked answer p)
        × (x.client.1 ≡ caller_at now r asked answer p.0)
        × (x.timer ≡ p.1)
        × (x.server_stopped ≡ p.2)
  unfolding connected peer_at caller_at IsAt new_client with_called with_max_data_len new_server
      with_handlers
  run-specify_all es =
      let (s, k, h, g, same) = runs es _ _ (not_begun, waits, false) refl refl in
      (
        ap (λ x. x.server.1) same,
        ap (λ x. x.client.1) same,
        ap (λ x. x.timer) same,
        ap (λ x. x.server_stopped) same,
      )
