-- ===== src/Examples/Auth/Client/Stages.antt =====
-- The stages that the two programs of examples/tcp_auth go through on one connection.
use Prim.Native.String.{String}
use simple_message.Prelude.{ℕ, Bool, true, false, List, [], ◌∷◌, if◌then◌else◌, nat_eq, string_eq}
use simple_message.Connection.Properties.{store_property}
use simple_message.Examples.Auth.{
  AuthRequest, AuthSession, Peer, Reply, response, greeting, auth_key, msg_hello, msg_auth_req,
  msg_auth_resp,
}
use simple_message.Examples.Auth.Client.{Caller}
use simple_message.Examples.Auth.Client.Talk.{
  hello_after_auth, heartbeat_text, Timer, waits, found_none, has_closed, found_session, Event,
  client_begins, server_reads, client_reads, timer_fires, timer_closes, server_stops, client_stops,
}

-- Nothing is sent yet, the credentials are on their way, the answer to them is, a text to the server
-- is, or the greeting that answers a text.
pub data Stage : Type 0 where
  not_begun asking answered : Stage
  speaking greeted : List ℕ → Stage

abbrev pub is_closed : Timer → Bool
is_closed waits = false
is_closed found_none = false
is_closed has_closed = true
is_closed found_session = false

abbrev pub begins : Stage → Stage
begins not_begun = asking
begins asking = asking
begins answered = answered
begins (speaking text) = speaking text
begins (greeted text) = greeted text

abbrev pub server_next : Stage → Stage
server_next not_begun = not_begun
server_next asking = answered
server_next answered = answered
server_next (speaking text) = greeted text
server_next (greeted text) = greeted text

abbrev pub client_next : Stage → Stage
client_next not_begun = not_begun
client_next asking = asking
client_next answered = speaking hello_after_auth
client_next (speaking text) = speaking text
client_next (greeted text) = speaking heartbeat_text

abbrev pub has_session : Stage → Bool
has_session not_begun = false
has_session asking = false
has_session answered = true
has_session (speaking text) = true
has_session (greeted text) = true

abbrev pub timer_next : Stage → Timer → Timer
timer_next s waits = if has_session s then found_session else found_none
timer_next s found_none = found_none
timer_next s has_closed = has_closed
timer_next s found_session = found_session

abbrev pub closes_next : Timer → Timer
closes_next waits = waits
closes_next found_none = has_closed
closes_next has_closed = has_closed
closes_next found_session = found_session

-- Where the two programs are: the stage, the timer's goroutine, and whether the server's manager has
-- stopped
abbrev pub Where : Type 0
Where = Stage × Timer × Bool

-- What an event does: once the timer's goroutine has closed the connection, the manager may stop, and
-- from then on the server reads nothing.
unfoldable pub specify : Event → Where → Where
specify client_begins (s, t, b) = (begins s, t, b)
specify server_reads (s, t, b) = if b then (s, t, b) else (server_next s, t, b)
specify client_reads (s, t, b) = (client_next s, t, b)
specify timer_fires (s, t, b) = (s, timer_next s t, b)
specify timer_closes (s, t, b) = (s, closes_next t, b)
specify server_stops (s, t, b) = if is_closed t then (s, t, true) else (s, t, b)
specify client_stops (s, t, b) = (s, t, b)

unfoldable pub specify_all : List Event → Where → Where
unfolding specify
specify_all [] p = p
specify_all (e ∷ es) p = specify_all es (specify e p)

-- The ends of the connection at a stage, of the user `r` with the credentials `asked` and the answer
-- `answer` to them.
module _ (now : ℕ) (r : AuthRequest) (asked answer : List ℕ) where
  abbrev pub properties_at : Bool → List (String × AuthSession)
  properties_at true = store_property auth_key (record { username = r.username; login_at = now }) []
  properties_at false = []

  abbrev pub outbox_at : Stage → List (ℕ × Reply)
  outbox_at not_begun = []
  outbox_at asking = []
  outbox_at answered = (msg_auth_resp, response answer) ∷ []
  outbox_at (speaking text) = []
  outbox_at (greeted text) = (msg_hello, greeting r.username text) ∷ []

  abbrev pub sent_at : Stage → List (ℕ × List ℕ)
  sent_at not_begun = []
  sent_at asking = (msg_auth_req, asked) ∷ []
  sent_at answered = []
  sent_at (speaking text) = (msg_hello, text) ∷ []
  sent_at (greeted text) = []

  abbrev pub peer_at_closed : Bool → Stage → Peer
  peer_at_closed b s = record {
    properties = properties_at (has_session s);
    closed = b;
    outbox = outbox_at s;
    results = [];
  }

  unfoldable pub peer_at : Where → Peer
  peer_at (s, t, b) = peer_at_closed (is_closed t) s

  unfoldable pub caller_at : Stage → Caller
  caller_at s = record { closed = false; sent = sent_at s; results = [] }

abbrev pub has_begun : Stage → Bool
has_begun not_begun = false
has_begun asking = true
has_begun answered = true
has_begun (speaking text) = true
has_begun (greeted text) = true
