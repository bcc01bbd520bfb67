-- ===== src/Examples/WebSocket/Handler.antt =====
-- handleWS of examples/websocket/server.go once it has upgraded its connection, with the connection
-- of conn.go that it hands to the listener: one handler, the listener, and the users of both.
use simple_message.Prelude.{ℕ, Bool, true, false, List, [], ◌∷◌, Option, none, some, if◌then◌else◌}
use simple_message.Errors.{Error, Result, ok, panic}
use simple_message.Examples.WebSocket.Conn.{Incoming, Conn, new_websocket_conn, read, write, close}
use simple_message.Examples.WebSocket.Listener.{
  Listener, Case, ctx_case, chan_case, close_case, offer,
}
use simple_message.Examples.WebSocket.Listener
pub mod Changes
pub mod Invariant
pub mod Closing

-- Where the handler stands: at its first select, at the second, past them with its deferred calls to
-- run, or ended.
pub data HandlerPc : Type 0 where
  offering parked leaving gone : HandlerPc

-- `crashed` is whether the handler panicked; its deferred calls run then, too.
pub record Serving : Type 0 where
  pub conn : Conn
  pub listener : Listener
  pub pc : HandlerPc
  pub crashed : Bool

abbrev pub serving : List Incoming → Listener → Serving
serving incoming l = record {
  conn = new_websocket_conn incoming;
  listener = l;
  pc = offering;
  crashed = false;
}

pub data Event : Type 0 where
  -- the handler: the case that its select takes, and its deferred calls, where the write of the close
  -- frame returns the first value and Close of the connection below the second
  selects : Case → Event
  leaves : Option Error → Option Error → Event
  -- users of the connection
  reads : ℕ → Event
  writes : List ℕ → Option Error → Event
  closes : Option Error → Option Error → Event
  -- other handlers, Accept and Close of the listener
  others : Listener.Event → Event

-- The first select, by what its case gives: a connection that is in the channel is waited for.
offered : Case → Option (Result (Unit {0}) × Listener) → Serving → Serving
offered k none s = s
offered chan_case (some (ok u, l)) s = record s { listener = l; pc = parked }
offered k (some (panic, l)) s = record s { listener = l; pc = leaving; crashed = true }
offered k (some (r, l)) s = record s { listener = l; pc = leaving }

-- The second select
waited : Case → Serving → Serving
waited ctx_case s = if s.conn.ctx_done then record s { pc = leaving } else s
waited close_case s = if s.listener.close_chan_closed then record s { pc = leaving } else s
waited chan_case s = s

pub after_read : Option (Result (List ℕ) × Conn) → Serving → Serving
after_read none s = s
after_read (some (r, w)) s = record s { conn = w }

-- `me` is the connection's number; the other arguments say which errors are which.
module _ (is_close_error is_close_sent : Error → Bool) (me : ℕ) where
  select_at : HandlerPc → Case → Serving → Serving
  select_at offering k s = offered k (offer k s.conn.ctx_done me s.listener) s
  select_at parked k s = waited k s
  select_at leaving k s = s
  select_at gone k s = s

  unfoldable pub select_handler : Case → Serving → Serving
  unfolding select_at offered waited
  select_handler k s = select_at s.pc k s

  -- `defer wrapper.Close()`, and then `defer conn.Close()` of the connection below
  leave_at : HandlerPc → Option Error → Option Error → Serving → Serving
  leave_at leaving r q s =
      let w = (close is_close_sent r q s.conn).1 in
      record s { conn = record w { socket_open = false }; pc = gone }
  leave_at _ r q s = s

  unfoldable pub leave_handler : Option Error → Option Error → Serving → Serving
  unfolding leave_at
  leave_handler r q s = leave_at s.pc r q s

  unfoldable pub act : Event → Serving → Serving
  unfolding after_read select_handler leave_handler
  act (selects k) s = select_handler k s
  act (leaves r q) s = leave_handler r q s
  act (reads n) s = after_read (read is_close_error n s.conn) s
  act (writes p r) s = record s { conn = (write p r s.conn).1 }
  act (closes r q) s = record s { conn = (close is_close_sent r q s.conn).1 }
  act (others e) s = record s { listener = Listener.act e s.listener }

  unfoldable pub run : List Event → Serving → Serving
  unfolding act
  run [] s = s
  run (e ∷ es) s = run es (act e s)
