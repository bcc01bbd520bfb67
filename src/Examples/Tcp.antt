-- ===== src/Examples/Tcp.antt =====
-- examples/tcp: the handlers and callbacks of server/main.go and client/main.go, and the two programs
-- at the ends of one connection. What SendMsg returns is a parameter.
use simple_message.Prelude.{
  ℕ, ◌*◌, Bool, true, false, List, [], ◌∷◌, ◌++◌, Option, none, some, if◌then◌else◌, nat_eq,
}
use simple_message.Errors.{Error}
use simple_message.Protocol.Decoder.{Message}
use simple_message.Connection.Request.{Handler}
use simple_message.Examples.Text.{utf8}
use simple_message.Server.Dispatch.{Server}
use simple_message.Server.Dispatch
use simple_message.Client.Dispatch.{Client, new_client, with_handlers, with_max_data_len}
use simple_message.Client.Dispatch.Interleaving.{Shared, idle, finds, calls, adds, removes}
use simple_message.Client.Dispatch.Interleaving
pub mod Sends
pub mod Exchange

-- An end of a connection: the messages that were sent and have not arrived, and what the next calls
-- of SendMsg return (`nil` at the end of the list).
pub record Link : Type 0 where
  pub outbox : List Message
  pub results : List (Option Error)

abbrev pub fresh_link : List (Option Error) → Link
fresh_link results = record { outbox = []; results = results }

send_with : Message → Link → List (Option Error) → Option Error × Link
send_with m l [] = (none, record l { outbox = l.outbox ++ m ∷ [] })
send_with m l (none ∷ rest) = (none, record l { outbox = l.outbox ++ m ∷ []; results = rest })
send_with m l (some e ∷ rest) = (some e, record l { results = rest })

unfoldable pub send_msg : Message → Link → Option Error × Link
unfolding send_with
send_msg m l = send_with m l l.results

abbrev pub text_message : ℕ → List ℕ → Message
text_message id bytes = record { msg_id = id; msg_data = bytes }

abbrev hello_from_server : List ℕ
hello_from_server = utf8 "hello from server"

abbrev pub hello_from_client : List ℕ
hello_from_client = utf8 "hello from client"

abbrev welcome_text : List ℕ
welcome_text = utf8 "欢迎连接到服务器"

-- The second answer of the server, unless the first failed
send_second : Option Error × Link → Option Error × Link
send_second (some e, l) = (some e, l)
send_second (none, l) = send_msg (text_message 2 hello_from_server) l

-- Handler1.Handle of the server
unfoldable pub answer : Handler Link
unfolding send_second
answer request l = send_second (send_msg (text_message 1 hello_from_server) l)

-- ConnectedBegin of the server
unfoldable pub welcome : Link → Link
welcome l = (send_msg (text_message 1 welcome_text) l).1

-- The client's end, with the global HaveRemoveHandler2; `panicked` is whether Handler2 did.
pub record Caller : Type 0 where
  pub link : Link
  pub have_remove_handler2 : Bool
  pub panicked : Bool

-- Handler1.Handle and Handler2.Handle of the client
unfoldable pub ask_again : Handler Caller
ask_again request c =
    let (e, l) = send_msg (text_message 1 hello_from_client) c.link in (e, record c { link = l })

unfoldable pub take_second : Handler Caller
take_second request c =
    if c.have_remove_handler2 then (none, record c { panicked = true }) else (none, c)

-- ConnectedBegin of the client
unfoldable pub ask_first : Caller → Caller
ask_first c = record c { link = (send_msg (text_message 1 hello_from_client) c.link).1 }

-- How far the client's main is: AddHandler(2), RemoveHandler(2) and HaveRemoveHandler2 = true, in turn
pub data MainPc : Type 0 where
  started added removed flagged : MainPc

-- Both programs, each with what its handlers share: what one end has sent arrives at the other.
pub record Programs : Type 0 where
  pub server : Server Link × Link
  -- with the message whose handler handleMsg has found and not called yet
  pub client : Shared Caller
  pub main_pc : MainPc
  -- whether ConnectedBegin has run, which has a goroutine of its own
  pub server_begun : Bool
  pub client_begun : Bool

-- main of both, when they have connected
unfoldable pub connected : List (Option Error) → List (Option Error) → Programs
connected server_results client_results = record {
  server = (
    Dispatch.new_server (Dispatch.with_handlers ((1, answer) ∷ []) ∷ []),
    fresh_link server_results,
  );
  client = idle (
    new_client (with_handlers (some ((1, ask_again) ∷ [])) ∷ with_max_data_len (1024 * 1024) ∷ []),
    record { link = fresh_link client_results; have_remove_handler2 = false; panicked = false },
  );
  main_pc = started;
  server_begun = false;
  client_begun = false;
}

-- ConnectedBegin of either end, messages that arrive at either read goroutine, the call of the handler
-- that the client's has found, and the client's main
pub data Event : Type 0 where
  server_begins client_begins server_reads client_finds client_calls main_steps : Event

begin_server : Programs → Programs
begin_server x = let (s, l) = x.server in record x { server = (s, welcome l); server_begun = true }

begin_client : Programs → Programs
begin_client x = record x {
  client = record x.client { world = ask_first x.client.world };
  client_begun = true;
}

set_outbox : List Message → Shared Caller → Shared Caller
set_outbox ms s = record s { world = record s.world { link = record s.world.link { outbox = ms } } }

pub serve : List Message → Programs → Programs
unfolding set_outbox
serve [] x = x
serve (m ∷ rest) x = record x {
  server = Dispatch.handle_msg 0 m x.server;
  client = set_outbox rest x.client;
}

pub receive : List Message → Programs → Programs
receive [] x = x
receive (m ∷ rest) x =
    let (s, l) = x.server in
    record x {
      server = (s, record l { outbox = rest });
      client = Interleaving.act 0 (finds m) x.client;
    }

-- A client whose handler runs, or has panicked, reads no further message.
find_first : Option (Message × Handler Caller) → Programs → Programs
unfolding receive
find_first (some h) x = x
find_first none x = if x.client.world.panicked then x else receive x.server.1.outbox x

step_main : MainPc → Programs → Programs
step_main started x = record x {
  client = Interleaving.act 0 (adds 2 take_second) x.client;
  main_pc = added;
}
step_main added x = record x { client = Interleaving.act 0 (removes 2) x.client; main_pc = removed }
step_main removed x = record x {
  client = record x.client { world = record x.client.world { have_remove_handler2 = true } };
  main_pc = flagged;
}
step_main flagged x = x

unfoldable pub act : Event → Programs → Programs
unfolding begin_server begin_client serve find_first step_main
act server_begins x = if x.server_begun then x else begin_server x
act client_begins x = if x.client_begun then x else begin_client x
act server_reads x = serve x.client.world.link.outbox x
act client_finds x = find_first x.client.hand x
act client_calls x = record x { client = Interleaving.act 0 calls x.client }
act main_steps x = step_main x.main_pc x

unfoldable pub run : List Event → Programs → Programs
unfolding act
run [] x = x
run (e ∷ es) x = run es (act e x)
