-- ===== src/Client/Dispatch/Agreement.antt =====
-- handleMsg of client/client.go beside handleMsg of server/handler.go.
use simple_message.Prelude.{ℕ, ◌≡◌, refl, List, [], ◌∷◌, some, map, subst, arith}
use simple_message.Protocol.Decoder.{Message}
use simple_message.Connection.Request.{Handler}
use simple_message.Server.Dispatch.{Server}
use simple_message.Server.Dispatch
use simple_message.Client.Dispatch.{
  Client, new_client, with_handlers, handle_msg, receive, obey, obey_all,
}

-- The client and the server have the same handlers and the same statistics.
record Agrees {W : Type 0} (s : Server W) (c : Client W) : Type 0 where
  handlers : c.handler ≡ some s.handler
  counted : c.stats ≡ s.stats

module _ {W : Type 0} (conn : ℕ) where
  abbrev Same : Server W × W → Client W × W → Type 0
  Same p q = Agrees p.0 q.0 × (p.1 ≡ q.1)

  handle-Same :
      (m : Message) (s : Server W) (c : Client W) (w : W)
      → Agrees s c
      → Same (Dispatch.handle_msg conn m (s, w)) (handle_msg conn m (c, w))
  unfolding Dispatch.handle_msg handle_msg
  handle-Same m s c w a = ground (arith, a)

  handle_pair :
      (m : Message) (p : Server W × W) (q : Client W × W)
      → Same p q
      → Same (Dispatch.handle_msg conn m p) (handle_msg conn m q)
  handle_pair m (s, v) (c, w) (a, e) =
      subst (λ x. Same (Dispatch.handle_msg conn m (s, v)) (handle_msg conn m (c, x))) e
        (handle-Same m s c v a)

  run-Same :
      (ms : List Message) (p : Server W × W) (q : Client W × W)
      → Same p q
      → Same (Dispatch.handle_msgs conn ms p) (obey_all conn (map receive ms) q)
  unfolding Dispatch.handle_msgs obey_all obey
  run-Same [] p q a = a
  run-Same (m ∷ ms) p q a =
      run-Same ms (Dispatch.handle_msg conn m p) (handle_msg conn m q) (handle_pair m p q a)

  -- A server and a client that are given the same handlers do the same with the same messages: the
  -- handlers' state and the statistics come out equal, though each has a handleMsg of its own.
  pub same_dispatch :
      (hs : List (ℕ × Handler W)) (ms : List Message) (w : W)
      → let (s, v) =
          Dispatch.handle_msgs conn ms (Dispatch.new_server (Dispatch.with_handlers hs ∷ []), w) in
        let (c, u) =
          obey_all conn (map receive ms) (new_client (with_handlers (some hs) ∷ []), w) in
        (v ≡ u) × (c.stats ≡ s.stats)
  unfolding new_client with_handlers Dispatch.new_server Dispatch.with_handlers
  same_dispatch hs ms w =
      let (a, e) =
        run-Same ms (Dispatch.new_server (Dispatch.with_handlers hs ∷ []), w)
          (new_client (with_handlers (some hs) ∷ []), w)
          (record { handlers = refl; counted = refl }, refl) in
      (e, a.counted)
