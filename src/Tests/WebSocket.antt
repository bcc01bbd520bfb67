-- ===== src/Tests/WebSocket.antt =====
-- Runs of examples/websocket.
use simple_message.Prelude.{
  map, ℕ, zero, suc, ◌≡◌, ◌≤◌, ◌⊎◌, inr, refl, Bool, true, false, List, [], ◌∷◌, ◌++◌, Option, none,
  some, string_eq, length,
}
use simple_message.Errors.{Error, err, other, net_closed}
use simple_message.Examples.WebSocket.Conn.{
  message, failure, Conn, new_websocket_conn, read, read_all,
}
use mathlib.Core.List.{flatten}
use simple_message.Examples.WebSocket.Conn.Carrying.{write_all, writes_carried}
use simple_message.Examples.WebSocket.Conn.Reading.{Prefix}
use simple_message.Examples.WebSocket.Handler.{
  serving, offering, parked, gone, selects, select_handler, leave_handler,
}
use simple_message.Examples.WebSocket.Handler
use simple_message.Examples.WebSocket.Handler.Closing.{handler_ends}
use simple_message.Examples.WebSocket.Listener.{
  Case, Event, offers, accepts, closes, ends_close, chan_case, close_case, new_listener, run, offer,
  accept, close_listener, conn_chan_cap, accept_order,
}

-- A normal closure has the number 1.
abbrev is_close_error : Error → Bool
is_close_error (other n) = elim n [ zero ↦ false | suc k ↦ true ]
is_close_error _ = false

abbrev two_messages : Conn
two_messages =
    new_websocket_conn (message (1 ∷ 2 ∷ 3 ∷ []) ∷ message (4 ∷ []) ∷ failure (other 1) ∷ [])

reads_in_pieces :
    (read_all is_close_error (2 ∷ 2 ∷ 2 ∷ 2 ∷ []) two_messages).0
    ≡ (1 ∷ 2 ∷ []) ∷ (3 ∷ []) ∷ (4 ∷ []) ∷ []
unfolding read_all read new_websocket_conn
reads_in_pieces = refl

abbrev closed_by_peer : Conn
closed_by_peer = new_websocket_conn (failure (other 1) ∷ [])

abbrev never : Error → Bool
never e = false

abbrev two_offers : List Event
two_offers =
    offers chan_case false 1
    ∷ offers chan_case false 2
    ∷ accepts chan_case
    ∷ closes
    ∷ ends_close
    ∷ []

accept_order_example :
    let l = run two_offers new_listener in
    (l.offered ≡ l.accepted ++ l.conns)
    × (length l.conns ≤ conn_chan_cap)
    × ((l.closed ≡ false) ⊎ (accept close_case l ≡ some (err net_closed, l)))
accept_order_example = accept_order two_offers

-- The second of three Writes fails, and with it the third.
abbrev three_writes : List (List ℕ × Option Error)
three_writes = (1 ∷ 2 ∷ 3 ∷ [], none) ∷ (4 ∷ [], some (other 3)) ∷ (5 ∷ [], none) ∷ []

three_writes_written : (write_all three_writes (new_websocket_conn [])).0 ≡ (1 ∷ 2 ∷ 3 ∷ []) ∷ []
unfolding write_all new_websocket_conn
three_writes_written = refl

writes_carried_example :
    Prefix is_close_error
      (2 ∷ 2 ∷ [])
      (flatten (write_all three_writes (new_websocket_conn [])).0)
      (read_all is_close_error (2 ∷ 2 ∷ []) (
        new_websocket_conn (map message (write_all three_writes (new_websocket_conn [])).1.sent))).0
writes_carried_example = writes_carried is_close_error three_writes (2 ∷ 2 ∷ [])

-- A handler hands over its connection, and the listener is closed.
abbrev handed_over : List Handler.Event
handed_over = selects chan_case ∷ Handler.others (accepts chan_case) ∷ Handler.others closes ∷ []

handler_ends_example :
    let s = Handler.run is_close_error never 5 handed_over (serving [] (run [] new_listener)) in
    (k : Case) × (let v =
        leave_handler is_close_error never 5
          (some (other 3))
          none
          (select_handler is_close_error never 5 k s) in
      (v.pc ≡ gone) × (v.conn.socket_open ≡ false))
unfolding Handler.run run new_listener new_websocket_conn offer accept close_listener select_handler
handler_ends_example =
    handler_ends is_close_error never 5 [] [] handed_over (some (other 3)) none (inr refl)
