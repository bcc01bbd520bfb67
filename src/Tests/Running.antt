-- ===== src/Tests/Running.antt =====
-- Runs of a client with its connections.
use simple_message.Prelude.{ℕ, ◌+◌, ◌≡◌, refl, inl, true, List, [], ◌∷◌, length, Option, none, some}
use simple_message.Errors.{Error, other}
use simple_message.Protocol.Wire.{All, uint32}
use simple_message.Protocol.Stream.{Stream, chunk, read_full, fill}
use simple_message.Protocol.Decoder.{Decoder, unmarshal}
use simple_message.Connection.State.{new_handler_manager}
use simple_message.Connection.Manager.{close_connection, step_stop, leave_read, step_read}
use simple_message.Connection.Shutdown.{stop_with_timeout}
use simple_message.Server.Handling
use simple_message.Connection.Manager.Run
use simple_message.Server.Handling.Quitting.{Behind, Left}
use simple_message.Client.Lifecycle.{new_life}
use simple_message.Client.Lifecycle
use simple_message.Client.Running.{
  Running, Event, lives, connects, manages, goes_on, new_running, run,
}
use simple_message.Client.Running.Invariant.{newest}
use simple_message.Client.Running.Leaving.{IsOwn}
use simple_message.Client.Running.Ending.{can_end_running}
use simple_message.Client.Running.Redialing.{Redials, can_redial}
use simple_message.Client.Running.Connections.{IsCurrent, one_connection}

abbrev pub small : Decoder
small = record { max_data_len = 16 }

-- StopAndWait answers that a task is left.
abbrev pub one_left : ℕ → Option Error × ℕ
one_left calls = (some (other 1), calls + 1)

abbrev pub a_frame : Stream
a_frame = chunk (0 ∷ 0 ∷ 1 ∷ 2 ∷ 0 ∷ 0 ∷ 0 ∷ 1 ∷ 104 ∷ []) ∷ []

-- A connection ends after its message, the client dials again, and is stopped with the second
-- connection while the goroutine of send of the first has not ended.
abbrev two_connections : List Event
two_connections =
    lives Lifecycle.starts
    ∷ lives Lifecycle.tests
    ∷ connects a_frame
    ∷ manages Run.read
    ∷ manages Run.read
    ∷ manages Run.read
    ∷ manages Run.exit_read
    ∷ manages Run.next_stop
    ∷ manages Run.next_stop
    ∷ manages Run.next_stop
    ∷ goes_on
    ∷ goes_on
    ∷ goes_on
    ∷ goes_on
    ∷ lives Lifecycle.wakes
    ∷ lives Lifecycle.tests
    ∷ connects []
    ∷ lives Lifecycle.stops
    ∷ []

abbrev second : Running ℕ
second = run one_left 0 small two_connections (new_running true)

one_connection_example :
    All Behind second.past
    × (second.life.conn_pointer ≡ newest second.current (length second.past))
    × IsCurrent second.current second
one_connection_example = one_connection one_left 0 small true two_connections

-- The first connection is over, and the second is to end with the client.
second_connects : (second.life.conn_pointer ≡ some 1) × (length second.past ≡ 1)
unfolding run Lifecycle.act new_life Handling.act Run.act step_stop leave_read step_read
    new_handler_manager unmarshal read_full fill uint32 stop_with_timeout
second_connects = (refl, refl)

can_end_running_example :
    (fs : List Event) × All IsOwn fs
    × (let y = run one_left 0 small fs second in
        (y.life.done ≡ true) × (y.life.dials ≡ 2) × (y.current ≡ none) × All Left y.past)
unfolding run Lifecycle.act new_life Handling.act Run.act step_stop leave_read step_read
    new_handler_manager unmarshal read_full fill uint32 stop_with_timeout
can_end_running_example = can_end_running one_left 0 small true two_connections refl refl

-- A handler closes its connection.
abbrev closed_by_handler : List Event
closed_by_handler =
    lives Lifecycle.starts
    ∷ lives Lifecycle.tests
    ∷ connects a_frame
    ∷ manages Run.read
    ∷ manages Run.close
    ∷ []

abbrev closed_client : Running ℕ
closed_client = run one_left 0 small closed_by_handler (new_running true)

can_redial_example :
    (fs : List Event) × All IsOwn fs
    × Redials one_left 0 small closed_client (run one_left 0 small fs closed_client)
unfolding run Lifecycle.act new_life Run.act step_read new_handler_manager unmarshal read_full fill
    uint32 close_connection
can_redial_example = can_redial one_left 0 small closed_by_handler _ refl (inl refl) refl
