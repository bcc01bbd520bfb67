-- ===== src/Tests/Serving.antt =====
-- Runs of a server with its connections.
use simple_message.Prelude.{
  ◌<◌, ◌≤◌, ◌+◌, ◌^◌, arith, ℕ, ◌≡◌, ◌⊎◌, refl, true, false, List, [], ◌∷◌, ◌++◌,
}
use simple_message.Protocol.Wire.{All, uint32}
use simple_message.Protocol.Stream.{read_full, fill}
use simple_message.Protocol.Decoder.{unmarshal}
use simple_message.Connection.State.{new_handler_manager}
use simple_message.Connection.Manager.{step_stop, leave_read, step_read}
use simple_message.Connection.Shutdown.{stop_with_timeout}
use simple_message.Connection.Manager.Run
use simple_message.Server.Accept.{
  new_server, start, accept_conn, over_limit, refuse_conn, stop_server, accept_error, end_conn,
  finish, close_done,
}
use simple_message.Server.Accept
use simple_message.Server.Handling
use simple_message.Server.Handling.Quitting.{Behind, Left}
use simple_message.Server.Running.{
  Running, Event, serves, accepts, manages, goes_on, new_running, step_conn, run,
}
use simple_message.Server.Running.Invariant.{count}
use simple_message.Server.Running.Connections.{handlings, done_after_all, few_connections}
use simple_message.Server.Running.Leaving.{IsOwn}
use simple_message.Server.Running.Ending.{can_end_server}
use simple_message.Tests.Running.{small, one_left, a_frame}

-- Two connections are let in and a third is refused; the first that came ends after its message.
abbrev one_ended : List Event
one_ended =
    serves (Accept.starts 2)
    ∷ accepts a_frame
    ∷ accepts []
    ∷ accepts []
    ∷ serves Accept.refuses
    ∷ manages 1 Run.read
    ∷ manages 1 Run.read
    ∷ manages 1 Run.read
    ∷ manages 1 Run.exit_read
    ∷ manages 1 Run.next_stop
    ∷ manages 1 Run.next_stop
    ∷ manages 1 Run.next_stop
    ∷ goes_on 1
    ∷ goes_on 1
    ∷ goes_on 1
    ∷ goes_on 1
    ∷ goes_on 1
    ∷ []

abbrev half : Running ℕ
half = run one_left 0 small one_ended (new_running 2)

-- Stop, the end of the accept goroutines and of the connection that is left, and of the server
abbrev the_rest : List Event
the_rest =
    serves Accept.stops
    ∷ serves Accept.accept_fails
    ∷ serves Accept.accept_fails
    ∷ serves Accept.finishes
    ∷ goes_on 0
    ∷ goes_on 0
    ∷ goes_on 0
    ∷ goes_on 0
    ∷ goes_on 0
    ∷ serves Accept.finishes
    ∷ serves Accept.closes
    ∷ []

abbrev all_over : Running ℕ
all_over = run one_left 0 small (one_ended ++ the_rest) (new_running 2)

-- The first is over, the second is handled, and the server is at its end behind both.
half_counts : (half.server.active ≡ 1) × (half.server.refused ≡ 1) × (count half.conns ≡ 1)
unfolding run step_conn new_server start accept_conn over_limit refuse_conn end_conn Accept.act
    Handling.act Run.act step_stop leave_read step_read new_handler_manager unmarshal read_full fill
    uint32 stop_with_timeout
half_counts = (refl, refl, refl)

over_done : all_over.server.done ≡ true
unfolding run step_conn new_server start accept_conn over_limit refuse_conn end_conn Accept.act
    Handling.act Run.act step_stop leave_read step_read new_handler_manager unmarshal read_full fill
    uint32 stop_with_timeout stop_server accept_error finish close_done
over_done = refl

done_after_all_example :
    (all_over.server.panicked ≡ false)
    × ((all_over.server.done ≡ false)
        ⊎ ((all_over.server.running ≡ false)
            × (all_over.server.canceled ≡ true)
            × (all_over.server.accepting ≡ 0)
            × (all_over.server.rejecting ≡ 0)
            × All Behind (handlings all_over.conns)))
done_after_all_example = done_after_all one_left 0 small 2 (one_ended ++ the_rest)

few_connections_example :
    (count half.conns ≤ 2)
    × (half.server.conn_count ≡ count half.conns + half.server.rejecting)
    × (half.server.conn_count < 2 ^ 31)
few_connections_example =
    few_connections one_left 0 small 2 2 one_ended (omega arith) (omega arith) (omega arith)

can_end_server_example :
    (fs : List Event) × All IsOwn fs
    × (let y = run one_left 0 small fs half in
        (y.server.done ≡ true) × All Left (handlings y.conns))
unfolding run step_conn new_server start accept_conn over_limit refuse_conn end_conn Accept.act
    Handling.act Run.act step_stop leave_read step_read new_handler_manager unmarshal read_full fill
    uint32 stop_with_timeout
can_end_server_example = can_end_server one_left 0 small 2 one_ended refl
