-- ===== src/Lib.antt =====
-- simple-message: messages with a number over a connection, for Go servers and clients.
--
-- The program. Package protocol cuts a stream of bytes into frames: a message number and a length
-- of four bytes each, the high byte first, and the data. Package connection runs two goroutines on
-- a connection: one reads frames and calls a handler for each message, the other takes queued
-- messages from a channel, writes their frames and acknowledges them to the callers of SendMsg,
-- which wait. Packages server and client make such connections, by accepting and by dialing, look
-- up the handler of a message by its number, and count messages in package stats. The examples add
-- authentication to a server, and carry the stream over WebSocket messages.
--
-- What is where, by path from the repository's root:
--   Errors       the error values of all packages, and results: a value, an error or a panic
--   Protocol     protocol/decoder.go and protocol/message.go: Decoder has Marshal and Unmarshal,
--                Stream io.ReadFull over what a connection delivers, Wire encoding/binary; Spec,
--                under Decoder, describes the decoding of bytes on its own
--   Stats        stats/stats.go: the counters behind their pointers; Concurrent has calls of
--                AddBytes that interleave, as a step relation, Totals what they are to add up to
--   Connection   connection/*.go: Request, MessageBody and Properties are the types and methods
--                of their files; State and Manager are sendMsg of connection.go and read, send
--                and stop of handler.go, Manager.Reading what read makes of the bytes beside
--                them, and Manager.Stopping how a stop comes to its end; ReadLoop is the loop of
--                read on its own, and Transfer one manager's sends with another's reads,
--                Transfer.Ends where both run on their own; Shutdown is StopWithTimeout; Account
--                is what a dispatcher is to record
--   Server       server/*.go: Dispatch has the options and handleMsg, and in Reading these behind
--                the loop of read; Accept has Start, Stop, stop and accept, Handling has
--                handlerTcpConn beside the manager of its connection, and Running the two
--                together, with all connections
--   Client       client/client.go: Dispatch has the options, handleMsg, AddHandler and
--                RemoveHandler, Interleaving, below it, these three at the same time, NilMap a
--                client without a map, and Agreement the server's handleMsg beside the client's;
--                Lifecycle has Start, Stop, start and dialAndRun as one goroutine, Running the same
--                beside the managers of its connections, and Pace SleepAtLeast
--   Examples     Auth has the handlers of examples/tcp_auth/server/main.go, Auth.OverWebSocket
--                those of examples/websocket_auth/server/main.go with the bytes that they send,
--                Auth.Client those of the clients and, in Talk, both programs of
--                examples/tcp_auth at the ends of a connection, as Auth.OverWebSocket.Chat has
--                those of examples/websocket_auth; Text the bytes of a string;
--                Listener has Accept of examples/tcp_auth/server/main.go and of
--                examples/tcp/server/main.go; Tcp has the handlers of that program and of
--                examples/tcp/client/main.go, and the two at the ends of a connection; TestTcp
--                has the client's handlers of examples/testtcp, and the tests that both of its
--                programs make of stopping; WebSocket has examples/websocket/conn.go and
--                server.go, and handleWS of the latter as a goroutine in WebSocket.Handler
--   Tests        runs at concrete inputs
--   Prelude      names and lemmas that all modules share
--
-- How it is modelled. A byte and an unsigned integer are a natural number; where Go wraps, the
-- model has the remainder: 2 ^ 32 for lengths and the count of connections, which is an int32 kept
-- as its bit pattern, 2 ^ 64 for counters. A connection that is read is a list of pieces and
-- failures, so that a Read may give any number of bytes; one that is written keeps the pieces of
-- its Writes, of which any may fail part of the way. Handlers are functions on a state that they
-- share. A map is an association list.
--
-- Goroutines that interleave are a state and a list of events, each of which is one atomic action
-- of one goroutine or of the environment; an event that cannot happen where its goroutine stands
-- changes nothing, so that every list of events is a run, and theorems hold for every list. A
-- select is an event for each of its ready cases. What is said to be possible ("can always
-- return") is a list of events of the program's own goroutines that leads there.
--
-- The only fuel is that of the loop of read in Connection.ReadLoop: one round for each byte and
-- one more is enough, since a message takes eight bytes at least.
--
-- Parameters. StopAndWait of pkg/taskgo, a copy of another project's library, answers anything.
-- JSON and the clock are functions, and the results of SendMsg a list, in Examples.Auth (an empty
-- one in Auth.Client.Talk and Auth.OverWebSocket.Chat, where no SendMsg fails), Examples.Tcp and
-- Examples.TestTcp, where a handler runs as one step. Package gorilla/websocket delivers any list of
-- messages and failures, and its writes and its Close return anything, in Examples.WebSocket; which
-- errors are normal closures is a function.
--
-- Not modelled: logging; the callbacks ConnectedBegin, ConnErr and DialErr, which are the user's;
-- the branch of NewHandlerManager without taskgo, which a constant turns off; changes that a
-- caller makes to its data while SendMsg has it; the programs under examples beyond the handlers
-- named above: their flags, signals, dialing and printing; pkg/taskgo.
pub mod Prelude
pub mod Errors
pub mod Protocol
pub mod Stats
pub mod Connection
pub mod Server
pub mod Client
pub mod Examples
pub mod Tests
