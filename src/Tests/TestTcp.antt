-- ===== src/Tests/TestTcp.antt =====
-- Runs of examples/testtcp.
use simple_message.Prelude.{ℕ, ◌≡◌, ◌≢◌, ◌⊎◌, refl, true, false, List, [], ◌∷◌, ◌++◌, none, some}
use simple_message.Errors.{other}
use simple_message.Protocol.Wire.{All}
use simple_message.Protocol.Decoder.{Message}
use simple_message.Server.Accept
use simple_message.Client.Lifecycle
use simple_message.Examples.TestTcp.{
  ServerTest, ServerEvent, serves, ClientTest, ClientEvent, lives, cancels, HandlerEvent, arrives,
  started_test, run_handlers, started_server, run_server, started_client, run_client,
}
use simple_message.Examples.TestTcp.Closing.{closes_once}
use simple_message.Examples.TestTcp.Stopping.{stop_tested}
use simple_message.Examples.TestTcp.Stopping
use simple_message.Examples.TestTcp.Canceling.{cancel_tested}
use simple_message.Examples.TestTcp.Canceling

abbrev numbered : ℕ → Message
numbered id = record { msg_id = id; msg_data = [] }

-- Two connections, whose messages come before, between and after the steps of main; the second SendMsg
-- fails.
abbrev two_connections : List HandlerEvent
two_connections =
    arrives 0 (numbered 1)
    ∷ arrives 0 (numbered 2)
    ∷ HandlerEvent.main_steps
    ∷ arrives 0 (numbered 3)
    ∷ arrives 1 (numbered 2)
    ∷ arrives 0 (numbered 2)
    ∷ HandlerEvent.main_steps
    ∷ HandlerEvent.main_steps
    ∷ arrives 1 (numbered 2)
    ∷ []

closes_once_example :
    let c = (run_handlers two_connections (started_test (none ∷ some (other 7) ∷ []))).tested in
    (c.closed ≡ 1 ∷ []) × (c.panicked ≡ false)
closes_once_example = closes_once two_connections (none ∷ some (other 7) ∷ [])

-- The server has one connection when Stop is called.
abbrev stopping : List ServerEvent
stopping = serves Accept.accepts ∷ ServerEvent.stops ∷ []

stop_tested_example :
    let x = run_server stopping started_server in
    (x.test ≢ ServerTest.still_running)
    × (x.test ≡ ServerTest.passed
        → (x.server.running ≡ false)
          × (x.server.accepting ≡ 0)
          × (x.server.rejecting ≡ 0)
          × (x.server.active ≡ 0))
    × (x.test ≡ ServerTest.selects
        → (fs : List ServerEvent) × All Stopping.IsOwn fs
          × ((run_server fs x).test ≡ ServerTest.passed))
stop_tested_example = stop_tested stopping

-- The client has a connection when its context is canceled.
abbrev canceling : List ClientEvent
canceling = lives Lifecycle.tests ∷ lives (Lifecycle.connects 0) ∷ cancels ∷ []

cancel_tested_example :
    let x = run_client canceling started_client in
    (x.test ≡ ClientTest.passed
      → (x.life.canceled ≡ true)
        × ((x.life.phase ≡ Lifecycle.returned) ⊎ (x.life.phase ≡ Lifecycle.ended)))
    × (x.test ≡ ClientTest.waits
        → (fs : List ClientEvent) × All Canceling.IsOwn fs
          × ((run_client fs x).test ≡ ClientTest.passed))
cancel_tested_example = cancel_tested canceling

-- A second later the connection has not ended, and the test panics.
stops_late :
    (run_client (canceling ++ ClientEvent.asks ∷ []) started_client).test ≡ ClientTest.not_stopped
unfolding run_client started_client Lifecycle.start Lifecycle.act Lifecycle.is_stoped
    Lifecycle.new_life
stops_late = refl
