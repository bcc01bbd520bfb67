-- ===== src/Server/Running.antt =====
-- server/server.go and server/handler.go: Start, Stop and accept beside the goroutines of all the
-- connections that were accepted, each with its HandlerManager. The accept goroutines are counted as
-- in the module of accepting; a connection that is let in is followed to the end of its goroutine.
pub mod Invariant
pub mod Stepping
pub mod Outside
pub mod Admitting
pub mod Course
pub mod Connections
pub mod Leaving
pub mod Ending
use simple_message.Prelude.{
  ℕ, zero, suc, Bool, true, false, List, [], ◌∷◌, Option, if◌then◌else◌, ◌&&◌,
}
use simple_message.Errors.{Error}
use simple_message.Protocol.Stream.{Stream}
use simple_message.Protocol.Decoder.{Decoder}
use simple_message.Connection.Manager.Run
use simple_message.Server.Accept.{Server, new_server, add32, over_limit, accept_conn, end_conn}
use simple_message.Server.Accept
use simple_message.Server.Handling.{ConnPc, Handling, handling, closing, ended}
use simple_message.Server.Handling
use simple_message.Server.Handling.Group.{inner, manage, cancel_manager}

-- `counted` falls with the deferred `connCount.Add(-1)`, which runs after ConnErr and before
-- conn.Close; the WaitGroup is done once the goroutine has ended.
pub record Conn (T : Type 0) : Type 0 where
  pub handling : Handling T
  pub counted : Bool

-- The connections that were let in, the last one first
pub record Running (T : Type 0) : Type 0 where
  pub server : Server
  pub conns : List (Conn T)

abbrev pub new_running : {T : Type 0} → ℕ → Running T
new_running max = record { server = new_server max; conns = [] }

-- The users of the server and its goroutines other than those of the connections; a connection that
-- the listener gives, with what can be read from it; the manager of the `i`-th connection, and its
-- goroutine
pub data Event : Type 0 where
  serves : Accept.Event → Event
  accepts : Stream → Event
  manages : ℕ → Run.Event → Event
  goes_on : ℕ → Event

abbrev pub has_ended : ConnPc → Bool
has_ended ended = true
has_ended _ = false

-- Whether the next action of a goroutine is to subtract its connection
abbrev pub subtracts : ConnPc → Bool → Bool
subtracts closing counted = counted
subtracts _ counted = false

module _ {T : Type 0} where
  abbrev pub manage_conn : (Handling T → Handling T) → Conn T → Conn T
  manage_conn f c = record c { handling = f c.handling }

  abbrev pub cancel_conns : List (Conn T) → List (Conn T)
  cancel_conns [] = []
  cancel_conns (c ∷ cs) = manage_conn cancel_manager c ∷ cancel_conns cs

  -- The end of a context is that of the contexts made from it.
  unfoldable pub propagate : Running T → Running T
  propagate x = if x.server.canceled then record x { conns = cancel_conns x.conns } else x

  -- What the WaitGroups of the accept goroutines wait for
  abbrev pub all_ended : List (Conn T) → Bool
  all_ended [] = true
  all_ended (c ∷ cs) = has_ended c.handling.pc && all_ended cs

  -- Accepting, and the end of a connection, are events of their own here.
  abbrev pub outside : Accept.Event → Running T → Server
  outside Accept.accepts x = x.server
  outside Accept.ends x = x.server
  outside Accept.finishes x =
      if all_ended x.conns then Accept.act Accept.finishes x.server else x.server
  outside e x = Accept.act e x.server

  abbrev pub manage_at : ℕ → Run.Event → List (Conn T) → List (Conn T)
  manage_at i e [] = []
  manage_at zero e (c ∷ cs) = manage_conn (manage (inner e)) c ∷ cs
  manage_at (suc i) e (c ∷ cs) = c ∷ manage_at i e cs

module _ {T : Type 0} (stop_and_wait : T → Option Error × T) where
  unfoldable pub step_conn : Conn T → Conn T
  step_conn c =
      if subtracts c.handling.pc c.counted
      then record c { counted = false }
      else record c { handling = Handling.act stop_and_wait Handling.goes_on c.handling }

  -- The goroutine of the `i`-th connection, and the count that it may lower
  unfoldable pub step_at : ℕ → List (Conn T) → Server → Server × List (Conn T)
  unfolding step_conn
  step_at i [] s = (s, [])
  step_at zero (c ∷ cs) s =
      (if subtracts c.handling.pc c.counted then end_conn s else s, step_conn c ∷ cs)
  step_at (suc i) (c ∷ cs) s = let (t, ds) = step_at i cs s in (t, c ∷ ds)

module _ {T : Type 0} (stop_and_wait : T → Option Error × T) (tasks : T) (d : Decoder) where
  -- Accept returns a connection to one of the accept goroutines: it is refused, or handled.
  unfoldable pub admit : ℕ → Stream → Running T → Running T
  admit zero s x = x
  admit (suc n) s x =
      if over_limit x.server.max_conn_count (add32 x.server.conn_count 1)
      then record x { server = accept_conn x.server }
      else record x {
        server = accept_conn x.server;
        conns = record { handling = handling d s tasks; counted = true } ∷ x.conns;
      }

  unfoldable pub act : Event → Running T → Running T
  unfolding propagate admit step_at
  act (serves e) x = propagate (record x { server = outside e x })
  act (accepts s) x = propagate (admit x.server.accepting s x)
  act (manages i e) x = record x { conns = manage_at i e x.conns }
  act (goes_on i) x =
      let (s, cs) = step_at stop_and_wait i x.conns x.server in record { server = s; conns = cs }

  unfoldable pub run : List Event → Running T → Running T
  unfolding act
  run [] x = x
  run (e ∷ es) x = run es (act e x)
