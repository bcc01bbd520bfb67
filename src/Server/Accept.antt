-- ===== src/Server/Accept.antt =====
-- server/server.go, Start, Stop and stop, and server/handler.go, accept: the accept goroutines, the
-- goroutines of the connections, and the count of connections. A state counts the goroutines that
-- stand at each place; an event is one atomic action; a run is any list of events.
pub mod Limit
pub mod Lifecycle
use simple_message.Prelude.{
  ℕ, zero, suc, ◌+◌, ◌-◌, ◌%◌, ◌^◌, Bool, true, false, List, [], ◌∷◌, if◌then◌else◌, ltb, ◌==◌,
  ◌&&◌,
}

-- An int32 is kept as its bit pattern.
abbrev pub i32_mod : ℕ
i32_mod = 2 ^ 32

abbrev pub add32 : ℕ → ℕ → ℕ
add32 a b = (a + b) % i32_mod

-- The pattern of -1
abbrev pub minus_one : ℕ
minus_one = i32_mod - 1

-- The signed order of two patterns
abbrev pub less32 : ℕ → ℕ → Bool
less32 a b = ltb ((a + 2 ^ 31) % i32_mod) ((b + 2 ^ 31) % i32_mod)

-- `started` is that of startOnce, and so whether cancel and done are set; `accepting` accept
-- goroutines stand at Accept, `rejecting` between `connCount.Add(1)` and `connCount.Add(-1)`, and
-- `returned` past the loop; `active` connections are handled and not yet subtracted. `closing` is whether the goroutine
-- of Start stands before `close(m.done)`. `refused` and `panicked` record how many connections were
-- refused and whether done was closed twice.
pub record Server : Type 0 where
  pub max_conn_count : ℕ
  pub started : Bool
  pub running : Bool
  pub canceled : Bool
  pub listener_closed : Bool
  pub done : Bool
  pub conn_count : ℕ
  pub accepting : ℕ
  pub rejecting : ℕ
  pub returned : ℕ
  pub active : ℕ
  pub refused : ℕ
  pub closing : Bool
  pub panicked : Bool

unfoldable pub new_server : ℕ → Server
new_server max = record {
  max_conn_count = max;
  started = false;
  running = false;
  canceled = false;
  listener_closed = false;
  done = false;
  conn_count = 0;
  accepting = 0;
  rejecting = 0;
  returned = 0;
  active = 0;
  refused = 0;
  closing = false;
  panicked = false;
}

-- A negative amount is treated like 0.
unfoldable pub start : ℕ → Server → Server
start amount s =
    if s.started
    then s
    else record s { started = true; running = true; accepting = if amount == 0 then 1 else amount }

-- `nil` is returned, and nothing done, before Start.
unfoldable pub stop_server : Server → Server
stop_server s = if s.started then record s { canceled = true; listener_closed = true } else s

-- The goroutine that waits for the context
unfoldable pub watch : Server → Server
watch s = if s.started && s.canceled then record s { listener_closed = true } else s

-- `maxConnCount > 0 && count > maxConnCount`
unfoldable pub over_limit : ℕ → ℕ → Bool
over_limit max count = less32 0 max && less32 max count

-- Accept returns a connection to a goroutine at `accepting`, which counts it and tests the limit.
-- Its loop's test has held since `running` falls only after all these goroutines have returned.
unfoldable pub accept_conn : Server → Server
unfolding over_limit
accept_conn s = elim s.accepting [
  | zero ↦ s
  | suc n ↦
      let count = add32 s.conn_count 1 in
      if over_limit s.max_conn_count count
      then record s { conn_count = count; accepting = n; rejecting = s.rejecting + 1 }
      else record s { conn_count = count; active = s.active + 1 }
]

-- Accept returns an error: the deferred cancel runs, and the goroutine waits for its connections.
unfoldable pub accept_error : Server → Server
accept_error s = elim s.accepting [
  | zero ↦ s
  | suc n ↦ record s { accepting = n; returned = s.returned + 1; canceled = true }
]

-- The rest of a refusal: the count is taken back, the connection closed.
unfoldable pub refuse_conn : Server → Server
refuse_conn s = elim s.rejecting [
  | zero ↦ s
  | suc n ↦ record s {
    conn_count = add32 s.conn_count minus_one;
    rejecting = n;
    accepting = s.accepting + 1;
    refused = s.refused + 1;
  }
]

-- The goroutine of a connection is past handlerTcpConn, and subtracts it.
unfoldable pub end_conn : Server → Server
end_conn s = elim s.active [
  | zero ↦ s
  | suc n ↦ record s { conn_count = add32 s.conn_count minus_one; active = n }
]

-- stop up to its close of done: nothing is left to do if the server is not running.
unfoldable pub close_server : Server → Server
close_server s = if s.running then record s { running = false; closing = true } else s

-- The end of stop
unfoldable pub close_done : Server → Server
close_done s = if s.closing then record s { closing = false; done = true; panicked = s.done } else s

-- The goroutine of Start, once every accept goroutine and every connection has ended
unfoldable pub finish : Server → Server
unfolding close_server
finish s =
    if s.started && (s.accepting == 0) && (s.rejecting == 0) && (s.active == 0)
    then close_server s
    else s

pub data Event : Type 0 where
  starts : ℕ → Event
  stops watches accepts accept_fails refuses ends finishes closes : Event
  -- the context given to Start is canceled
  cancels : Event

unfoldable pub act : Event → Server → Server
act (starts n) s = start n s
act stops s = stop_server s
act watches s = watch s
act accepts s = accept_conn s
act accept_fails s = accept_error s
act refuses s = refuse_conn s
act ends s = end_conn s
act finishes s = finish s
act closes s = close_done s
act cancels s = if s.started then record s { canceled = true } else s

unfoldable pub run : List Event → Server → Server
unfolding act
run [] s = s
run (e ∷ es) s = run es (act e s)
