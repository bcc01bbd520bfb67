-- ===== src/Examples/WebSocket/Conn.antt =====
-- examples/websocket/conn.go. What the WebSocket connection delivers is a list, of messages and
-- failures of ReadMessage; what its writes return is an argument.
pub mod Reading
pub mod Carrying
use simple_message.Prelude.{
  ℕ, ◌≡◌, Bool, true, false, List, [], ◌∷◌, ◌++◌, Option, none, some, if◌then◌else◌, length, take,
  drop, ltb, arith,
}
use simple_message.Errors.{Error, Result, ok, err, panic, eof, closed_pipe}

pub data Incoming : Type 0 where
  message : List ℕ → Incoming
  failure : Error → Incoming

pub record Conn : Type 0 where
  pub incoming : List Incoming
  pub read_buf : List ℕ
  pub closed : Bool
  pub read_err : Option Error
  pub write_err : Option Error
  pub ctx_done : Bool
  -- the connection below
  pub socket_open : Bool
  pub sent : List (List ℕ)

unfoldable pub new_websocket_conn : List Incoming → Conn
new_websocket_conn incoming = record {
  incoming = incoming;
  read_buf = [];
  closed = false;
  read_err = none;
  write_err = none;
  ctx_done = false;
  socket_open = true;
  sent = [];
}

-- Read up to the lock that it gives back before ReadMessage: `none` is an empty buffer.
unfoldable pub read_buffered : ℕ → Conn → Option (Result (List ℕ) × Conn)
read_buffered n w = if w.closed then some (err closed_pipe, w) else elim w.read_err [
  | some e ↦ some (err e, w)
  | none ↦ elim w.read_buf [
    | [] ↦ none
    | b ∷ bs ↦ some (ok (take n w.read_buf), record w { read_buf = drop n w.read_buf })
  ]
]

-- websocket.IsCloseError for a normal closure or a peer that goes away
module _ (is_close_error : Error → Bool) where
  -- Read from ReadMessage on: `none` is a ReadMessage that does not return.
  unfoldable pub read_message : ℕ → List Incoming → Conn → Option (Result (List ℕ) × Conn)
  read_message n [] w = none
  read_message n (failure e ∷ rest) w =
      some
        (err (if is_close_error e then eof else e), record w { incoming = rest; read_err = some e })
  read_message n (message m ∷ rest) w = some (
    ok (take n m),
    record w {
      incoming = rest;
      read_buf = if ltb (length (take n m)) (length m) then drop n m else w.read_buf;
    },
  )

  unfoldable pub read : ℕ → Conn → Option (Result (List ℕ) × Conn)
  unfolding read_buffered read_message
  read n w = elim (read_buffered n w) [ some r ↦ some r | none ↦ read_message n w.incoming w ]

  -- Reads into buffers of the sizes of the list, while they succeed: the pieces and what is left
  unfoldable pub read_all : List ℕ → Conn → List (List ℕ) × Conn
  unfolding read
  read_all [] w = ([], w)
  read_all (n ∷ ns) w = elim (read n w) [
    | none ↦ ([], w)
    | some (r, w') ↦ elim r [
      | ok b ↦ let (bs, v) = read_all ns w' in (b ∷ bs, v)
      | err e ↦ ([], w')
      | panic ↦ ([], w')
    ]
  ]

-- Write, where WriteMessage below returns `r`
unfoldable pub write : List ℕ → Option Error → Conn → Result ℕ × Conn
write p r w = if w.closed then (err closed_pipe, w) else elim w.write_err [
  | some e ↦ (err e, w)
  | none ↦ elim r [
    | none ↦ (ok (length p), record w { sent = w.sent ++ p ∷ [] })
    | some e ↦ (err e, record w { write_err = some e })
  ]
]

-- Close, where the write of the close frame returns `r` and Close below returns `q`;
-- `is_close_sent` is whether an error is websocket.ErrCloseSent.
unfoldable pub close : (Error → Bool) → Option Error → Option Error → Conn → Option Error × Conn
close is_close_sent r q w = if w.closed then (none, record w { ctx_done = true }) else elim r [
  | none ↦ (q, record w { ctx_done = true; closed = true; socket_open = false })
  | some e ↦
      if is_close_sent e
      then (q, record w { ctx_done = true; closed = true; socket_open = false })
      else (some e, record w { ctx_done = true; closed = true })
]

-- If the close frame cannot be written, for another reason than that one was sent, Close leaves the
-- connection below open, and so does every later Close, which reports success.
close_leaks :
    (is_close_sent : Error → Bool) (w : Conn) (e : Error) (q r' q' : Option Error)
    → w.closed ≡ false
    → is_close_sent e ≡ false
    → let (x, v) = close is_close_sent (some e) q w in
      (x ≡ some e)
      × (v.socket_open ≡ w.socket_open)
      × ((close is_close_sent r' q' v).0 ≡ none)
      × ((close is_close_sent r' q' v).1.socket_open ≡ w.socket_open)
unfolding close
close_leaks is_close_sent w e q r' q' c s = ground arith
