-- ===== src/Tests/Tcp.antt =====
-- Runs of examples/tcp.
use simple_message.Prelude.{
  ◌≡◌, ◌≤◌, ◌+◌, refl, true, List, [], ◌∷◌, Option, none, some, length, lookup, insert, remove,
  nat_eq, map,
}
use simple_message.Errors.{Error, other}
use simple_message.Client.Dispatch.{
  new_client, with_handlers, with_max_data_len, find_handler, run_handler, add_handler,
  remove_handler,
}
use simple_message.Client.Dispatch.Interleaving
use simple_message.Server.Dispatch
use simple_message.Examples.Tcp.{
  Event, server_begins, client_begins, server_reads, client_finds, client_calls, main_steps,
  connected, run, welcome, ask_first, send_msg, answer, ask_again, take_second,
}
use simple_message.Examples.Tcp.Sends.{failures}
use simple_message.Examples.Tcp.Exchange.{pending}
use simple_message.Examples.Tcp.Exchange.Course.{exchange_bounded}

-- The client adds its second handler, both read, and the server's last SendMsg fails.
abbrev some_rounds : List Event
some_rounds =
    server_begins ∷ client_begins ∷ main_steps ∷ server_reads ∷ client_finds ∷ client_calls
    ∷ server_reads ∷ client_finds ∷ []

abbrev last_fails : List (Option Error)
last_fails = none ∷ none ∷ none ∷ some (other 1) ∷ []

rounds_sent :
    map (λ m. m.msg_id) (run some_rounds (connected last_fails [])).server.1.outbox ≡ 2 ∷ []
unfolding run connected welcome ask_first send_msg Dispatch.handle_msg Dispatch.new_server
    Dispatch.with_handlers lookup answer new_client with_handlers with_max_data_len Interleaving.act
    find_handler run_handler add_handler insert ask_again
rounds_sent = refl

exchange_bounded_example :
    let x = run some_rounds (connected last_fails []) in
    (pending x ≤ 2)
    × (2 ≤ pending x + (failures last_fails + failures []))
    × (length x.client.world.link.outbox ≤ 2)
    × (length x.server.1.outbox ≤ 5)
exchange_bounded_example = exchange_bounded last_fails [] some_rounds

-- Handler2 is found, then removed and the flag set, and then called.
abbrev removed_too_late : List Event
removed_too_late =
    server_begins ∷ client_begins ∷ main_steps ∷ server_reads ∷ client_finds ∷ client_calls
    ∷ client_finds ∷ client_calls ∷ client_finds ∷ main_steps ∷ main_steps ∷ client_calls ∷ []

removed_handler_panics : (run removed_too_late (connected [] [])).client.world.panicked ≡ true
unfolding run connected welcome ask_first send_msg Dispatch.handle_msg Dispatch.new_server
    Dispatch.with_handlers lookup answer new_client with_handlers with_max_data_len Interleaving.act
    find_handler run_handler add_handler insert ask_again remove_handler remove take_second
removed_handler_panics = refl
