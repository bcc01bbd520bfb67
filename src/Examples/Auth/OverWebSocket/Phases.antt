-- ===== src/Examples/Auth/OverWebSocket/Phases.antt =====
-- The stages that the two programs of examples/websocket_auth go through on one connection.
use Prim.Native.String.{String}
use simple_message.Prelude.{ℕ, Bool, true, false, List, [], ◌∷◌, if◌then◌else◌, nat_eq, string_eq}
use simple_message.Connection.Properties.{store_property}
use simple_message.Examples.Auth.{
  AuthRequest, AuthSession, auth_key, msg_hello, msg_auth_req, msg_auth_resp,
}
use simple_message.Examples.Auth.Client.Talk.{
  Timer, waits, found_none, found_session, Event, client_begins, server_reads, client_reads,
  timer_fires, timer_closes, server_stops, client_stops,
}
use simple_message.Examples.Auth.Client.Stages.{is_closed, closes_next}
use simple_message.Examples.Auth.OverWebSocket.{Socket, reply_text}
use simple_message.Examples.Auth.OverWebSocket.Chat.{Viewer, web_hello}

-- Nothing is sent yet, the credentials are on their way, the answer to them is, the business message
-- is, the greeting is, or it has been printed.
pub data Phase : Type 0 where
  not_begun asking answered speaking greeted printing : Phase

abbrev pub has_begun : Phase → Bool
has_begun not_begun = false
has_begun _ = true

abbrev pub begins : Phase → Phase
begins not_begun = asking
begins p = p

abbrev pub server_next : Phase → Phase
server_next asking = answered
server_next speaking = greeted
server_next p = p

abbrev pub client_next : Phase → Phase
client_next answered = speaking
client_next greeted = printing
client_next p = p

abbrev pub has_session : Phase → Bool
has_session not_begun = false
has_session asking = false
has_session _ = true

abbrev pub timer_next : Phase → Timer → Timer
timer_next p waits = if has_session p then found_session else found_none
timer_next p t = t

-- Where the two programs are: the phase, the timer's goroutine, and whether the server's manager has
-- stopped
abbrev pub Where : Type 0
Where = Phase × Timer × Bool

-- What an event does: once the timer's goroutine has closed the connection, the manager may stop, and
-- from then on the server reads nothing.
unfoldable pub specify : Event → Where → Where
specify client_begins (p, t, b) = (begins p, t, b)
specify server_reads (p, t, b) = if b then (p, t, b) else (server_next p, t, b)
specify client_reads (p, t, b) = (client_next p, t, b)
specify timer_fires (p, t, b) = (p, timer_next p t, b)
specify timer_closes (p, t, b) = (p, closes_next t, b)
specify server_stops (p, t, b) = if is_closed t then (p, t, true) else (p, t, b)
specify client_stops (p, t, b) = (p, t, b)

unfoldable pub specify_all : List Event → Where → Where
unfolding specify
specify_all [] p = p
specify_all (e ∷ es) p = specify_all es (specify e p)

-- The ends of the connection, of the user `r` with the credentials `asked` and the answer `answer`
module _ (now : ℕ) (r : AuthRequest) (asked answer : List ℕ) where
  abbrev pub greeting_of : List ℕ
  greeting_of = reply_text r.username web_hello

  abbrev pub properties_at : Bool → List (String × AuthSession)
  properties_at true = store_property auth_key (record { username = r.username; login_at = now }) []
  properties_at false = []

  abbrev pub outbox_at : Phase → List (ℕ × List ℕ)
  outbox_at answered = (msg_auth_resp, answer) ∷ []
  outbox_at greeted = (msg_hello, greeting_of) ∷ []
  outbox_at _ = []

  abbrev pub sent_at : Phase → List (ℕ × List ℕ)
  sent_at asking = (msg_auth_req, asked) ∷ []
  sent_at speaking = (msg_hello, web_hello) ∷ []
  sent_at _ = []

  abbrev pub printed_at : Phase → List (ℕ × List ℕ)
  printed_at printing = (msg_hello, greeting_of) ∷ []
  printed_at _ = []

  abbrev pub socket_at_closed : Bool → Phase → Socket
  socket_at_closed b p = record {
    properties = properties_at (has_session p);
    closed = b;
    outbox = outbox_at p;
    results = [];
  }

  unfoldable pub socket_at : Where → Socket
  socket_at (p, t, b) = socket_at_closed (is_closed t) p

  unfoldable pub viewer_at : Phase → Viewer
  viewer_at p = record {
    caller = record { closed = false; sent = sent_at p; results = [] };
    printed = printed_at p;
  }
