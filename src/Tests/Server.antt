-- ===== src/Tests/Server.antt =====
-- Runs of package server.
use simple_message.Prelude.{
  Option, ◌≢◌, ℕ, zero, suc, ◌≡◌, ◌≤◌, ◌+◌, refl, true, List, [], ◌∷◌, ◌++◌, length, none, some,
  arith, nat_eq,
}
use simple_message.Errors.{Error, err, other, canceled}
use simple_message.Protocol.Wire.{uint32, All}
use simple_message.Protocol.Stream.{Stream, chunk, read_full, fill}
use simple_message.Connection.State.{new_handler_manager}
use simple_message.Connection.Manager.{step_read}
use simple_message.Connection.Manager.Run.{read, cancel}
use simple_message.Connection.Manager.Run
use simple_message.Server.Handling
use simple_message.Server.Handling.{handling}
use simple_message.Server.Handling.Ending.{Finishes, can_end_handling}
use simple_message.Protocol.Decoder.{Message, unmarshal}
use simple_message.Connection.Request.{Handler}
use simple_message.Server.Accept.{
  Event, starts, stops, accepts, accept_fails, ends, finishes, closes, run, new_server, start,
  accept_conn, over_limit, stop_server, accept_error, end_conn, finish, close_done,
}
use simple_message.Server.Dispatch.{Server, handle_msg, new_server as new_dispatcher, with_handlers}
use simple_message.Server.Dispatch.Reading.{decoder_of, limit_of, Served, read-Served}
use simple_message.Connection.ReadLoop.{read as read_loop, frames}
use simple_message.Protocol.Stream.View.{view}

-- The whole life of a server
abbrev closes_done : List Event
closes_done = starts 1 ∷ accepts ∷ stops ∷ accept_fails ∷ finishes ∷ ends ∷ finishes ∷ closes ∷ []

closes_done_runs : (run closes_done (new_server 0)).done ≡ true
unfolding run start accept_conn over_limit new_server stop_server accept_error end_conn finish
    close_done
closes_done_runs = refl

-- A handler that counts, and fails from the second call on
abbrev counts : Handler ℕ
counts r zero = (none, 1)
counts r (suc k) = (some (other 1), suc (suc k))

abbrev counting : Server ℕ
counting = new_dispatcher (with_handlers ((7, counts) ∷ []) ∷ [])

-- Frames of two messages numbered 7 and one numbered 8, in pieces, and the beginning of one more
abbrev in_pieces : Stream
in_pieces =
    chunk (0 ∷ 0 ∷ 0 ∷ 7 ∷ 0 ∷ 0 ∷ 0 ∷ 2 ∷ 1 ∷ [])
    ∷ chunk (2 ∷ 0 ∷ 0 ∷ 0 ∷ 8 ∷ 0 ∷ 0 ∷ 0 ∷ 0 ∷ 0 ∷ 0 ∷ [])
    ∷ chunk (0 ∷ 7 ∷ 0 ∷ 0 ∷ 0 ∷ 1 ∷ 3 ∷ 0 ∷ 0 ∷ [])
    ∷ []

read-Served_example :
    (ms : List Message) × (e : Error) × (p : Server ℕ × ℕ) × (last : Stream) × (read_loop 30
        (decoder_of counting)
        (handle_msg 0)
        (counting, 0)
        in_pieces
      ≡ some (e, p, (unmarshal (decoder_of counting) last).1))
    × ((unmarshal (decoder_of counting) last).0 ≡ err e)
    × ((view in_pieces).bytes ≡ frames ms ++ (view last).bytes)
    × All (λ m. length m.msg_data ≤ limit_of counting) ms
    × Served 0 counting 0 ms p
unfolding view new_dispatcher with_handlers
read-Served_example = read-Served 0 counting 0 30 in_pieces refl (omega arith) (omega arith)

-- The server is stopped while read is in a handler, and StopAndWait answers that a task is left.
abbrev canceled_in_handler : List Handling.Event
canceled_in_handler =
    Handling.manages read ∷ Handling.manages (cancel canceled) ∷ Handling.goes_on ∷ []

abbrev one_left : ℕ → Option Error × ℕ
one_left calls = (some (other 1), calls + 1)

some-ne-none : some canceled ≢ none
some-ne-none e = cc

abbrev hello_frame : Stream
hello_frame = chunk (0 ∷ 0 ∷ 1 ∷ 2 ∷ 0 ∷ 0 ∷ 0 ∷ 1 ∷ 104 ∷ []) ∷ []

can_end_handling_example : Finishes one_left (
    Handling.run one_left canceled_in_handler
      (handling (record { max_data_len = 16 }) hello_frame 0))
unfolding Handling.run Run.act new_handler_manager step_read unmarshal read_full fill uint32
can_end_handling_example =
    can_end_handling one_left (record { max_data_len = 16 }) hello_frame 0 canceled_in_handler
      some-ne-none
