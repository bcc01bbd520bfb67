-- ===== src/Server/Handling.antt =====
-- The goroutine of a connection in server/handler.go: handlerTcpConn, and the deferred calls of
-- accept behind it, beside the connection's HandlerManager. dialAndRun of client/client.go does the
-- same with the client's connection.
use simple_message.Prelude.{Bool, false, List, [], ◌∷◌, Option, none, some}
use simple_message.Errors.{Error, Result, ok, err, panic}
use simple_message.Protocol.Stream.{Stream}
use simple_message.Protocol.Decoder.{Decoder}
use simple_message.Connection.State.{Manager, new_handler_manager}
use simple_message.Connection.Manager.Run
use simple_message.Connection.Shutdown.{stop_with_timeout}
pub mod Ending
pub mod Going
pub mod Group
pub mod Linked
pub mod Quitting

-- Where it stands: at its select, at StopWithTimeout, at ConnErr, at the deferred conn.Close, or ended
pub data ConnPc : Type 0 where
  waiting stopping reporting closing ended : ConnPc

-- `tasks` is the task manager's state, `done` whether the manager's done channel is closed, and
-- `reported` the error that ConnErr was given, once it was called.
pub record Handling (T : Type 0) : Type 0 where
  pub manager : Manager
  pub pc : ConnPc
  pub tasks : T
  pub done : Bool
  pub reported : Option (Option Error)

abbrev pub handling : {T : Type 0} → Decoder → Stream → T → Handling T
handling d s tasks = record {
  manager = new_handler_manager d s;
  pc = waiting;
  tasks = tasks;
  done = false;
  reported = none;
}

-- Events of the manager, and the goroutine's next action
pub data Event : Type 0 where
  manages : Run.Event → Event
  goes_on : Event

-- StopAndWait of the task manager
module _ {T : Type 0} (stop_and_wait : T → Option Error × T) where
  -- A panic of StopWithTimeout leaves out ConnErr, and not conn.Close.
  after_stop : Result (Unit {0}) × T × Bool → Handling T → Handling T
  after_stop (ok u, t, d) x = record x { tasks = t; done = d; pc = reporting }
  after_stop (err e, t, d) x = record x { tasks = t; done = d; pc = closing }
  after_stop (panic, t, d) x = record x { tasks = t; done = d; pc = closing }

  go_on : ConnPc → Handling T → Handling T
  unfolding after_stop
  go_on waiting x = elim x.manager.ctx_err [ none ↦ x | some e ↦ record x { pc = stopping } ]
  go_on stopping x = after_stop (stop_with_timeout stop_and_wait x.tasks x.done) x
  go_on reporting x = record x { reported = some x.manager.error; pc = closing }
  go_on closing x = record x { manager = record x.manager { socket_open = false }; pc = ended }
  go_on ended x = x

  unfoldable pub act : Event → Handling T → Handling T
  unfolding go_on
  act (manages e) x = record x { manager = Run.act e x.manager }
  act goes_on x = go_on x.pc x

  unfoldable pub run : List Event → Handling T → Handling T
  unfolding act
  run [] x = x
  run (e ∷ es) x = run es (act e x)
