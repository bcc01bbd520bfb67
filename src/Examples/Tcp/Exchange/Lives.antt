-- ===== src/Examples/Tcp/Exchange/Lives.antt =====
-- The two programs of examples/tcp go on to talk to each other.
use simple_message.Prelude.{ℕ, ◌+◌, ◌*◌, ◌≡◌, ◌≢◌, ◌⊎◌, true, List, [], length}
use simple_message.Client.Dispatch.Interleaving.{Shared, idle, calls}
use simple_message.Client.Dispatch.Interleaving
use simple_message.Examples.Tcp.{Programs, Event, run}
use simple_message.Examples.Tcp.Sends.{in_hand}
use simple_message.Examples.Tcp.Exchange.{to_begin}

-- A bound on the events before the client's next message
unfoldable distance : Programs → ℕ
distance x =
    3 * to_begin x.server_begun
    + to_begin x.client_begun
    + 2 * length x.server.1.outbox
    + length (in_hand x.client.hand)

-- The client sends, or its Handler2 panics.
abbrev pub GoesOn : Programs → Type 0
GoesOn x =
    (more : List Event) × (((run more x).client.world.link.outbox ≢ [])
      ⊎ ((run more x).client.world.panicked ≡ true))
