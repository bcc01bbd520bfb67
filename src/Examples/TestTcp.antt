-- ===== src/Examples/TestTcp.antt =====
-- examples/testtcp: Handler1 and Handler2 of client/main.go, and the tests that both programs make of
-- stopping, each in a goroutine that panics if it fails. What SendMsg returns is a parameter.
use simple_message.Prelude.{
  ℕ, ◌*◌, Bool, true, false, List, [], ◌∷◌, ◌++◌, Option, none, some, if◌then◌else◌,
}
use simple_message.Errors.{Error}
use simple_message.Protocol.Decoder.{Message}
use simple_message.Connection.Request.{Handler}
use simple_message.Server.Accept.{new_server, start, stop_server}
use simple_message.Server.Accept
use simple_message.Client.Dispatch.{
  Client, new_client, with_handlers, with_max_data_len, handle_msg, obey, Command, add,
  drop_handler,
}
use simple_message.Client.Lifecycle.{Life, is_stoped, new_life}
use simple_message.Client.Lifecycle
use simple_message.Examples.Tcp.{
  Link, fresh_link, text_message, hello_from_client, send_msg, MainPc, started, added, removed,
  flagged,
}
pub mod Handled
pub mod Closing
pub mod Stopping
pub mod Canceling

-- What the client's handlers share: the messages that they sent, the globals HaveRemoveHandler2 and
-- TestCloseConn (whether its function has run), the connections that were closed, and whether
-- Handler2 has panicked.
pub record Tested : Type 0 where
  pub link : Link
  pub have_remove_handler2 : Bool
  pub test_close_conn : Bool
  pub closed : List ℕ
  pub panicked : Bool

-- Handler1.Handle
unfoldable pub ask_again : Handler Tested
ask_again request c =
    let (e, l) = send_msg (text_message 1 hello_from_client) c.link in (e, record c { link = l })

-- Handler2.Handle
unfoldable pub take_second : Handler Tested
take_second request c =
    if c.have_remove_handler2
    then (none, record c { panicked = true })
    else if c.test_close_conn
    then (none, c)
    else (none, record c { test_close_conn = true; closed = c.closed ++ request.conn ∷ [] })

-- ConnectedBegin
unfoldable pub ask_first : Tested → Tested
ask_first c = record c { link = (send_msg (text_message 1 hello_from_client) c.link).1 }

abbrev pub untested : List (Option Error) → Tested
untested results = record {
  link = fresh_link results;
  have_remove_handler2 = false;
  test_close_conn = false;
  closed = [];
  panicked = false;
}

-- main up to Start: the client with Handler1
unfoldable pub tested_client : Client Tested
tested_client =
    new_client (with_handlers (some ((1, ask_again) ∷ [])) ∷ with_max_data_len (1024 * 1024) ∷ [])

-- The client's handlers, what they share, and how far main is with Handler2: AddHandler a second after
-- Start, RemoveHandler three seconds later, and HaveRemoveHandler2 = true
pub record Testing : Type 0 where
  pub client : Client Tested
  pub tested : Tested
  pub main_pc : MainPc

abbrev pub started_test : List (Option Error) → Testing
started_test results = record {
  client = tested_client;
  tested = untested results;
  main_pc = started;
}

-- A message that arrives on a connection, whose handler runs as one action, and the next step of main
pub data HandlerEvent : Type 0 where
  arrives : ℕ → Message → HandlerEvent
  main_steps : HandlerEvent

abbrev command : Command Tested → Testing → Testing
command e x = let (k, c) = obey 0 e (x.client, x.tested) in record x { client = k; tested = c }

unfoldable pub step_handlers : MainPc → Testing → Testing
step_handlers started x = record (command (add 2 take_second) x) { main_pc = added }
step_handlers added x = record (command (drop_handler 2) x) { main_pc = removed }
step_handlers removed x = record x {
  tested = record x.tested { have_remove_handler2 = true };
  main_pc = flagged;
}
step_handlers flagged x = x

unfoldable pub act_handlers : HandlerEvent → Testing → Testing
unfolding step_handlers
act_handlers (arrives conn m) x =
    let (k, c) = handle_msg conn m (x.client, x.tested) in record x { client = k; tested = c }
act_handlers main_steps x = step_handlers x.main_pc x

unfoldable pub run_handlers : List HandlerEvent → Testing → Testing
unfolding act_handlers
run_handlers [] x = x
run_handlers (e ∷ es) x = run_handlers es (act_handlers e x)

-- The goroutine of the server's main: before Stop, at its select, at IsRunning, past it, or in one of
-- its panics
pub data ServerTest : Type 0 where
  sleeps selects examines passed timed_out still_running : ServerTest

pub record TestedServer : Type 0 where
  pub server : Accept.Server
  pub test : ServerTest

-- The server, and the goroutine's sleep, the cases of its select and what follows
pub data ServerEvent : Type 0 where
  serves : Accept.Event → ServerEvent
  stops receives times_out asks : ServerEvent

-- main up to its select: Start with 16 accept goroutines
unfoldable pub started_server : TestedServer
started_server = record { server = start 16 (new_server 0); test = sleeps }

test_server : ServerEvent → ServerTest → TestedServer → TestedServer
test_server stops sleeps x = record x { server = stop_server x.server; test = selects }
test_server receives selects x = if x.server.done then record x { test = examines } else x
test_server times_out selects x = record x { test = timed_out }
test_server asks examines x =
    if x.server.running then record x { test = still_running } else record x { test = passed }
test_server _ _ x = x

unfoldable pub act_server : ServerEvent → TestedServer → TestedServer
unfolding test_server
act_server (serves e) x = record x { server = Accept.act e x.server }
act_server e x = test_server e x.test x

unfoldable pub run_server : List ServerEvent → TestedServer → TestedServer
unfolding act_server
run_server [] x = x
run_server (e ∷ es) x = run_server es (act_server e x)

-- The goroutine of the client's main: before cancel, before IsStoped, past it, or in its panic
pub data ClientTest : Type 0 where
  sleeps waits passed not_stopped : ClientTest

pub record TestedLife : Type 0 where
  pub life : Life
  pub test : ClientTest

pub data ClientEvent : Type 0 where
  lives : Lifecycle.Event → ClientEvent
  cancels asks : ClientEvent

unfoldable pub started_client : TestedLife
started_client = record { life = Lifecycle.start (new_life true); test = sleeps }

test_client : ClientEvent → ClientTest → TestedLife → TestedLife
test_client cancels sleeps x = record x {
  life = Lifecycle.act Lifecycle.cancels x.life;
  test = waits;
}
test_client asks waits x =
    if is_stoped x.life then record x { test = passed } else record x { test = not_stopped }
test_client _ _ x = x

unfoldable pub act_client : ClientEvent → TestedLife → TestedLife
unfolding test_client
act_client (lives e) x = record x { life = Lifecycle.act e x.life }
act_client e x = test_client e x.test x

unfoldable pub run_client : List ClientEvent → TestedLife → TestedLife
unfolding act_client
run_client [] x = x
run_client (e ∷ es) x = run_client es (act_client e x)
