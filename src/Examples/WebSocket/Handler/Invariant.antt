-- ===== src/Examples/WebSocket/Handler/Invariant.antt =====
-- What holds in every run of handleWS, in examples/websocket/server.go.
use simple_message.Prelude.{
  ℕ, ◌≡◌, inl, inr, refl, Bool, true, List, [], ◌∷◌, Option, none, some, arith, append_assoc,
  length-append,
}
use simple_message.Errors.{Error}
use simple_message.Examples.WebSocket.Conn.{
  Incoming, Conn, new_websocket_conn, read, read_buffered, write, close,
}
use simple_message.Examples.WebSocket.Listener.{
  Listener, new_listener, Case, ctx_case, chan_case, close_case, offer, accept, close_listener, Inv,
  act-Inv, run-Inv, new-Inv,
}
use simple_message.Examples.WebSocket.Listener
use simple_message.Examples.WebSocket.Handler.{
  HandlerPc, offering, parked, leaving, gone, Serving, serving, Event, selects, leaves, reads,
  writes, closes, others, offered, waited, select_at, select_handler, leave_at, leave_handler, act,
  run,
}
use simple_message.Examples.WebSocket.Handler.Changes.{
  IsServing, write-Keeps, close-Keeps, set_conn, read-Keeps, after_read-IsServing, set_listener,
}

-- Where the first select leads
offers-IsServing :
    (k : Case) (me : ℕ) (s : Serving)
    → IsServing s
    → IsServing (offered k (offer k s.conn.ctx_done me s.listener) s)
unfolding offered offer
offers-IsServing ctx_case me s i = ground (arith, i)
offers-IsServing chan_case me s i = ground (
  arith,
  i,
  append_assoc {0} s.listener.accepted s.listener.conns (me ∷ []),
  length-append {0} s.listener.conns (me ∷ []),
)
offers-IsServing close_case me s i = ground (arith, i)

waits-IsServing : (k : Case) (s : Serving) → IsServing s → IsServing (waited k s)
unfolding waited
waits-IsServing ctx_case s i = ground (arith, i)
waits-IsServing chan_case s i = i
waits-IsServing close_case s i = ground (arith, i)

module _ (is_close_error is_close_sent : Error → Bool) (me : ℕ) where
  close_cancels : (r q : Option Error) (w : Conn) → (close is_close_sent r q w).1.ctx_done ≡ true
  unfolding close
  close_cancels none q w = ground arith
  close_cancels (some e) q w = ground arith

  select-IsServing :
      (p : HandlerPc) (k : Case) (s : Serving)
      → IsServing s
      → IsServing (select_at is_close_error is_close_sent me p k s)
  unfolding select_at
  select-IsServing offering k s i = offers-IsServing k me s i
  select-IsServing parked k s i = waits-IsServing k s i
  select-IsServing leaving k s i = i
  select-IsServing gone k s i = i

  leave-IsServing :
      (p : HandlerPc) (r q : Option Error) (s : Serving)
      → IsServing s
      → IsServing (leave_at is_close_error is_close_sent me p r q s)
  unfolding leave_at
  leave-IsServing offering r q s i = i
  leave-IsServing parked r q s i = i
  leave-IsServing leaving r q s i = record {
    channels = i.channels;
    cancelled = inr (close_cancels r q s.conn);
    reached = inr (close_cancels r q s.conn);
    place = (inl (close_cancels r q s.conn), refl);
  }
  leave-IsServing gone r q s i = i

  act-IsServing :
      (e : Event) (s : Serving) → IsServing s → IsServing (act is_close_error is_close_sent me e s)
  unfolding act select_handler leave_handler
  act-IsServing (selects k) s i = select-IsServing s.pc k s i
  act-IsServing (leaves r q) s i = leave-IsServing s.pc r q s i
  act-IsServing (reads n) s i =
      after_read-IsServing is_close_error is_close_sent (read is_close_error n s.conn) s
        (read-Keeps is_close_error is_close_sent n s (read_buffered n s.conn) refl) i
  act-IsServing (writes p r) s i =
      set_conn is_close_error is_close_sent s (write p r s.conn).1
        (write-Keeps is_close_error is_close_sent p r s.conn) i
  act-IsServing (closes r q) s i =
      set_conn is_close_error is_close_sent s (close is_close_sent r q s.conn).1
        (close-Keeps is_close_error is_close_sent r q s.conn) i
  act-IsServing (others e) s i = set_listener s e i

  pub run-IsServing :
      (es : List Event) (s : Serving)
      → IsServing s
      → IsServing (run is_close_error is_close_sent me es s)
  unfolding run
  run-IsServing [] s i = i
  run-IsServing (e ∷ es) s i = run-IsServing es _ (act-IsServing e s i)

  pub start-IsServing :
      (incoming : List Incoming) (es : List Listener.Event)
      → IsServing (serving incoming (Listener.run es new_listener))
  unfolding new_websocket_conn
  start-IsServing incoming es = record {
    channels = run-Inv es new_listener new-Inv;
    cancelled = inl refl;
    reached = inl refl;
    place = tt;
  }
