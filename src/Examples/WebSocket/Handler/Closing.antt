-- ===== src/Examples/WebSocket/Handler/Closing.antt =====
-- When handleWS of examples/websocket/server.go ends, and what becomes of its connection.
use simple_message.Prelude.{
  ℕ, ◌≡◌, ◌⊎◌, inl, inr, refl, Bool, true, false, List, Option, arith, subst, sym,
}
use simple_message.Errors.{Error}
use simple_message.Examples.WebSocket.Conn.{Incoming, Conn}
use simple_message.Examples.WebSocket.Listener.{
  Listener, new_listener, Case, ctx_case, chan_case, close_case, offer, accept, close_listener, Inv,
  act-Inv, run-Inv, new-Inv,
}
use simple_message.Examples.WebSocket.Listener
use simple_message.Examples.WebSocket.Handler.{
  HandlerPc, offering, parked, leaving, gone, Serving, serving, Event, offered, waited, select_at,
  select_handler, leave_at, leave_handler, run,
}
use simple_message.Examples.WebSocket.Handler.Changes.{At, IsServing}
use simple_message.Examples.WebSocket.Handler.Invariant.{run-IsServing, start-IsServing}

module _ (is_close_error is_close_sent : Error → Bool) (me : ℕ) where
  -- Who waits has not been let go.
  still :
      (p : HandlerPc) (w : Conn) (l : Listener)
      → At p w l
      → w.ctx_done ≡ false
      → l.closed ≡ false
      → (p ≡ offering) ⊎ (p ≡ parked)
  still offering w l a c d = inl refl
  still parked w l a c d = inr refl
  still leaving w l a c d = ground (arith, a)
  still gone w l a c d = ground (arith, a)

  Ended : Serving → Type 0
  Ended s = (s.pc ≡ gone) × (s.conn.socket_open ≡ false)

  let_go :
      (r q : Option Error) (s : Serving)
      → s.pc ≡ leaving
      → Ended (leave_handler is_close_error is_close_sent me r q s)
  unfolding leave_handler leave_at Ended
  let_go r q s e =
      subst (λ p. Ended (leave_at is_close_error is_close_sent me p r q s)) (sym e) (refl, refl)

  kept_gone :
      (r q : Option Error) (s : Serving)
      → s.pc ≡ gone
      → s.conn.socket_open ≡ false
      → Ended (leave_handler is_close_error is_close_sent me r q s)
  unfolding leave_handler leave_at Ended
  kept_gone r q s e o =
      subst (λ p. Ended (leave_at is_close_error is_close_sent me p r q s)) (sym e) (e, o)

  -- The case that the handler's select can take
  way_out :
      (s : Serving)
      → Inv s.listener
      → (s.conn.ctx_done ≡ true) ⊎ (s.listener.closed ≡ true)
      → (k : Case) × ((select_at is_close_error is_close_sent me offering k s).pc ≡ leaving)
        × ((select_at is_close_error is_close_sent me parked k s).pc ≡ leaving)
  unfolding select_at offered waited offer
  way_out s i (inl c) = (ctx_case, ground (arith, c), ground (arith, c))
  way_out s i (inr c) = (close_case, ground (arith, c, i), ground (arith, c, i))

  ends_from :
      (p : HandlerPc) (s : Serving) (r q : Option Error)
      → s.pc ≡ p
      → IsServing s
      → At p s.conn s.listener
      → (s.conn.ctx_done ≡ true) ⊎ (s.listener.closed ≡ true)
      → (k : Case) × Ended (
          leave_handler is_close_error is_close_sent me r q
            (select_at is_close_error is_close_sent me p k s))
  unfolding select_at
  ends_from offering s r q e i a c = let (k, l, m) = way_out s i.channels c in (k, let_go r q _ l)
  ends_from parked s r q e i a c = let (k, l, m) = way_out s i.channels c in (k, let_go r q _ m)
  ends_from leaving s r q e i a c = (ctx_case, let_go r q s e)
  ends_from gone s r q e i a c = (ctx_case, kept_gone r q s e a.1)

  -- Once the connection or the listener is closed, the select at which the handler waits has a case
  -- to take, and the deferred calls behind it leave the handler ended and the connection below
  -- closed, whatever they return. This holds of a handler that has panicked, too.
  pub handler_ends :
      (before : List Listener.Event) (incoming : List Incoming) (es : List Event)
      (r q : Option Error)
      → let s =
          run is_close_error is_close_sent me es
            (serving incoming (Listener.run before new_listener)) in
        (s.conn.closed ≡ true) ⊎ (s.listener.closed ≡ true)
        → (k : Case) × (let v =
              leave_handler is_close_error is_close_sent me r q
                (select_handler is_close_error is_close_sent me k s) in
            (v.pc ≡ gone) × (v.conn.socket_open ≡ false))
  unfolding Ended select_handler
  handler_ends before incoming es r q c =
      let s =
        run is_close_error is_close_sent me es
          (serving incoming (Listener.run before new_listener)) in
      let i =
        run-IsServing is_close_error is_close_sent me es _
          (start-IsServing is_close_error is_close_sent me incoming before) in
      ends_from s.pc s r q refl i i.place (ground (arith, c, i))

  -- As long as neither is closed, the handler waits and the connection below is open.
  handler_waits :
      (before : List Listener.Event) (incoming : List Incoming) (es : List Event)
      → let s =
          run is_close_error is_close_sent me es
            (serving incoming (Listener.run before new_listener)) in
        s.conn.ctx_done ≡ false
        → s.listener.closed ≡ false
        → ((s.pc ≡ offering) ⊎ (s.pc ≡ parked)) × (s.conn.socket_open ≡ true)
  handler_waits before incoming es c l =
      let s =
        run is_close_error is_close_sent me es
          (serving incoming (Listener.run before new_listener)) in
      let i =
        run-IsServing is_close_error is_close_sent me es _
          (start-IsServing is_close_error is_close_sent me incoming before) in
      (still s.pc s.conn s.listener i.place c l, ground (arith, c, i))
