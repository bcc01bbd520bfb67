-- ===== src/Client/Running.antt =====
-- client/client.go: start and dialAndRun beside the HandlerManagers of the connections that they
-- make. What dialAndRun does with a connection and its manager is what handlerTcpConn and the
-- deferred calls behind it do in package server.
pub mod Invariant
pub mod Preserving
pub mod Course
pub mod Lifting
pub mod Leaving
pub mod Hanging
pub mod Ending
pub mod Connections
pub mod Redialing
use simple_message.Prelude.{ℕ, Bool, List, [], ◌∷◌, map, length, Option, none, some, if◌then◌else◌}
use simple_message.Errors.{Error}
use simple_message.Protocol.Stream.{Stream}
use simple_message.Protocol.Decoder.{Decoder}
use simple_message.Connection.Manager.Run
use simple_message.Server.Handling.{ConnPc, Handling, handling, ended}
use simple_message.Server.Handling
use simple_message.Server.Handling.Group.{inner, manage, cancel_manager, linger}
use simple_message.Client.Lifecycle.{Life, Phase, new_life, dialing}
use simple_message.Client.Lifecycle

-- `current` is the connection that dialAndRun waits for; `past` are those before it, the last one
-- first: goroutines of their managers may still run, if StopWithTimeout did not wait for them.
pub record Running (T : Type 0) : Type 0 where
  pub life : Life
  pub current : Option (Handling T)
  pub past : List (Handling T)

abbrev pub new_running : {T : Type 0} → Bool → Running T
new_running action = record { life = new_life action; current = none; past = [] }

-- The users of the client and its goroutine, outside dialAndRun; a dial that gives a connection,
-- from which the stream can be read; the manager of the current connection; the goroutine in
-- dialAndRun; the manager of the `i`-th connection of `past`
pub data Event : Type 0 where
  lives : Lifecycle.Event → Event
  connects : Stream → Event
  manages : Run.Event → Event
  goes_on : Event
  lingers : ℕ → Run.Event → Event

module _ {T : Type 0} where
  abbrev pub cancel_current : Option (Handling T) → Option (Handling T)
  cancel_current none = none
  cancel_current (some x) = some (cancel_manager x)

  -- The end of a context is that of the contexts made from it.
  unfoldable pub propagate : Running T → Running T
  propagate x =
      if x.life.canceled
      then record x { current = cancel_current x.current; past = map cancel_manager x.past }
      else x

  abbrev pub manage_current : Run.Event → Option (Handling T) → Option (Handling T)
  manage_current e none = none
  manage_current e (some x) = some (manage (inner e) x)

-- A dial that gives a connection, and the end of a connection, are events of their own here.
abbrev pub outside : Lifecycle.Event → Life → Life
outside (Lifecycle.connects conn) l = l
outside Lifecycle.hangs_up l = l
outside e l = Lifecycle.act e l

module _ {T : Type 0} (stop_and_wait : T → Option Error × T) (tasks : T) (d : Decoder) where
  -- DialContext returns a connection: NewHandlerManager, and connPointer.Store.
  unfoldable pub connect : Stream → Phase → Running T → Running T
  unfolding propagate
  connect s dialing x = propagate (record x {
    life = Lifecycle.act (Lifecycle.connects (length x.past)) x.life;
    current = some (handling d s tasks);
  })
  connect s _ x = x

  -- The goroutine behind the connection: once it has returned from dialAndRun it is in SleepAtLeast.
  unfoldable pub hang_up : ConnPc → Handling T → Running T → Running T
  hang_up ended y x = record x {
    life = Lifecycle.act Lifecycle.hangs_up x.life;
    current = none;
    past = y ∷ x.past;
  }
  hang_up _ y x = record x { current = some y }

  unfoldable pub go_on_current : Option (Handling T) → Running T → Running T
  unfolding hang_up
  go_on_current none x = x
  go_on_current (some y) x =
      let z = Handling.act stop_and_wait Handling.goes_on y in hang_up z.pc z x

  unfoldable pub act : Event → Running T → Running T
  unfolding propagate connect go_on_current
  act (lives e) x = propagate (record x { life = outside e x.life })
  act (connects s) x = connect s x.life.phase x
  act (manages e) x = record x { current = manage_current e x.current }
  act goes_on x = go_on_current x.current x
  act (lingers i e) x = record x { past = linger i e x.past }

  unfoldable pub run : List Event → Running T → Running T
  unfolding act
  run [] x = x
  run (e ∷ es) x = run es (act e x)
