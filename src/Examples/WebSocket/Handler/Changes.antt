-- ===== src/Examples/WebSocket/Handler/Changes.antt =====
-- What users of a connection and of the listener leave true of a handler, in
-- examples/websocket/conn.go and server.go.
use simple_message.Prelude.{
  ℕ, ◌≡◌, ◌⊎◌, Bool, true, false, List, [], ◌∷◌, Option, none, some, arith,
}
use simple_message.Errors.{Error, Result}
use simple_message.Examples.WebSocket.Conn.{
  Incoming, Conn, read, read_buffered, read_message, message, failure, write, close,
}
use simple_message.Examples.WebSocket.Listener.{
  Listener, new_listener, Case, ctx_case, chan_case, close_case, offer, accept, close_listener,
  close_conn_chan, Inv, act-Inv, run-Inv, new-Inv,
}
use simple_message.Examples.WebSocket.Listener
use simple_message.Examples.WebSocket.Handler.{
  HandlerPc, offering, parked, leaving, gone, Serving, after_read,
}

-- What a handler's place says of its connection and of the listener
abbrev pub At : HandlerPc → Conn → Listener → Type 0
At offering w l = Unit
At parked w l = Unit
At leaving w l = (w.ctx_done ≡ true) ⊎ (l.closed ≡ true)
At gone w l = ((w.ctx_done ≡ true) ⊎ (l.closed ≡ true)) × (w.socket_open ≡ false)

pub record IsServing (s : Serving) : Type 0 where
  pub channels : Inv s.listener
  pub cancelled : (s.conn.closed ≡ false) ⊎ (s.conn.ctx_done ≡ true)
  pub reached : (s.conn.socket_open ≡ true) ⊎ (s.conn.ctx_done ≡ true)
  pub place : At s.pc s.conn s.listener

-- A change of the connection that closes nothing it does not cancel first
pub record Keeps (w v : Conn) : Type 0 where
  pub open_below : (v.socket_open ≡ w.socket_open) ⊎ (v.socket_open ≡ false)
  pub closed_by : (v.closed ≡ w.closed) ⊎ (v.ctx_done ≡ true)
  pub socket_by : (v.socket_open ≡ w.socket_open) ⊎ (v.ctx_done ≡ true)
  pub ctx_by : (v.ctx_done ≡ w.ctx_done) ⊎ (v.ctx_done ≡ true)

module _ (is_close_error is_close_sent : Error → Bool) where
  pub write-Keeps : (p : List ℕ) (r : Option Error) (w : Conn) → Keeps w (write p r w).1
  unfolding write
  write-Keeps p none w = ground arith
  write-Keeps p (some e) w = ground arith

  pub close-Keeps : (r q : Option Error) (w : Conn) → Keeps w (close is_close_sent r q w).1
  unfolding close
  close-Keeps none q w = ground arith
  close-Keeps (some e) q w = ground arith

  Keeps-At : (p : HandlerPc) (w v : Conn) (l : Listener) → Keeps w v → At p w l → At p v l
  Keeps-At offering w v l k a = tt
  Keeps-At parked w v l k a = tt
  Keeps-At leaving w v l k a = ground (arith, k)
  Keeps-At gone w v l k a = ground (arith, k)

  pub set_conn :
      (s : Serving) (v : Conn) → Keeps s.conn v → IsServing s → IsServing (record s { conn = v })
  set_conn s v k i = record {
    channels = i.channels;
    cancelled = ground (arith, k, i);
    reached = ground (arith, k, i);
    place = Keeps-At s.pc s.conn v s.listener k i.place;
  }

  message-Keeps :
      (n : ℕ) (xs : List Incoming) (s : Serving)
      → Keeps s.conn (after_read (read_message is_close_error n xs s.conn) s).conn
  unfolding read_message after_read
  message-Keeps n [] s = ground arith
  message-Keeps n (message m ∷ xs) s = ground arith
  message-Keeps n (failure e ∷ xs) s = ground arith

  found-Keeps :
      (n : ℕ) (w : Conn) (r : Result (List ℕ)) (v : Conn)
      → read_buffered n w ≡ some (r, v)
      → Keeps w v
  unfolding read_buffered
  found-Keeps n w r v e = ground arith

  pub read-Keeps :
      (n : ℕ) (s : Serving) (x : Option (Result (List ℕ) × Conn))
      → read_buffered n s.conn ≡ x
      → Keeps s.conn (after_read (read is_close_error n s.conn) s).conn
  unfolding read after_read
  read-Keeps n s none e = rw (e, read) (message-Keeps n s.conn.incoming s)
  read-Keeps n s (some (r, v)) e = rw (e, read) (found-Keeps n s.conn r v e)

  pub after_read-IsServing :
      (x : Option (Result (List ℕ) × Conn)) (s : Serving)
      → Keeps s.conn (after_read x s).conn
      → IsServing s
      → IsServing (after_read x s)
  unfolding after_read
  after_read-IsServing none s k i = i
  after_read-IsServing (some (r, v)) s k i = set_conn s v k i

stays_closed :
    (e : Listener.Event) (l : Listener)
    → ((Listener.act e l).closed ≡ l.closed) ⊎ ((Listener.act e l).closed ≡ true)
unfolding Listener.act offer accept close_listener close_conn_chan
stays_closed (Listener.offers ctx_case d c) l = ground arith
stays_closed (Listener.offers chan_case d c) l = ground arith
stays_closed (Listener.offers close_case d c) l = ground arith
stays_closed (Listener.accepts ctx_case) l = ground arith
stays_closed (Listener.accepts chan_case) l = ground arith
stays_closed (Listener.accepts close_case) l = ground arith
stays_closed Listener.closes l = ground arith
stays_closed Listener.ends_close l = ground arith

place_after :
    (p : HandlerPc) (w : Conn) (l : Listener) (e : Listener.Event)
    → At p w l
    → At p w (Listener.act e l)
place_after offering w l e a = tt
place_after parked w l e a = tt
place_after leaving w l e a = ground (arith, stays_closed e l)
place_after gone w l e a = ground (arith, stays_closed e l)

pub set_listener :
    (s : Serving) (e : Listener.Event)
    → IsServing s
    → IsServing (record s { listener = Listener.act e s.listener })
set_listener s e i = record {
  channels = act-Inv e s.listener i.channels;
  cancelled = i.cancelled;
  reached = i.reached;
  place = place_after s.pc s.conn s.listener e i.place;
}
