-- ===== src/Examples/Tcp/Exchange.antt =====
-- What is on its way between the two programs of examples/tcp.
use simple_message.Prelude.{
  ℕ, ◌+◌, ◌≤◌, ◌≡◌, ◌⊎◌, refl, sym, ap, ◌∙◌, subst, Bool, true, false, List, [], ◌∷◌, length,
  Option, none, some, lookup, nat_eq, arith,
}
use simple_message.Protocol.Wire.{All}
use simple_message.Protocol.Decoder.{Message}
use simple_message.Connection.Request.{Handler, new_request}
use simple_message.Server.Dispatch.{Server, handle_msg-some}
use simple_message.Server.Dispatch
use simple_message.Client.Dispatch.{Client, find_handler}
use simple_message.Client.Dispatch.Interleaving
use simple_message.Examples.Tcp.{
  Link, Caller, Programs, answer, ask_again, take_second, serve, set_outbox,
}
use simple_message.Examples.Tcp.Sends.{
  ones, failures, in_hand, IsOne, Spaced, Adds, ones-append, Spaced-append, answer-Adds,
}
pub mod Finding
pub mod Calling
pub mod Course
pub mod Lives

-- The handler in hand is the one that main gave for its message's number.
abbrev pub Held : Option (Message × Handler Caller) → Type 0
Held none = Unit
Held (some (m, h)) = ((m.msg_id ≡ 1) × (h ≡ ask_again)) ⊎ ((m.msg_id ≡ 2) × (h ≡ take_second))

abbrev pub to_begin : Bool → ℕ
to_begin true = 0
to_begin false = 1

-- The messages numbered 1 that are on their way, in hand, or still to be sent by ConnectedBegin
unfoldable pub pending : Programs → ℕ
pending x =
    length x.client.world.link.outbox
    + ones x.server.1.outbox
    + ones (in_hand x.client.hand)
    + to_begin x.server_begun
    + to_begin x.client_begun

unfoldable pub to_fail : Programs → ℕ
to_fail x = failures x.server.1.results + failures x.client.world.link.results

pub record IsSound (lost : ℕ) (x : Programs) : Type 0 where
  pub serves : x.server.0.handler ≡ (1, answer) ∷ []
  pub first : find_handler 1 x.client.client ≡ some ask_again
  pub second :
      (find_handler 2 x.client.client ≡ none) ⊎ (find_handler 2 x.client.client ≡ some take_second)
  pub held : Held x.client.hand
  pub asks : All IsOne x.client.world.link.outbox
  pub answers : Spaced x.server.1.outbox
  pub at_most : pending x ≤ 2
  pub at_least : 2 + to_fail x ≤ pending x + lost

answer_found :
    (hs : List (ℕ × Handler Link)) (id : ℕ)
    → hs ≡ (1, answer) ∷ []
    → id ≡ 1
    → lookup id hs ≡ some answer
unfolding lookup
answer_found hs id e f = rw (e, f) refl

-- A message arrives at the server.
pub serve-IsSound :
    (lost : ℕ) (x : Programs) (ms : List Message)
    → x.client.world.link.outbox ≡ ms
    → IsSound lost x
    → IsSound lost (serve ms x)
unfolding serve set_outbox pending to_fail
serve-IsSound lost x [] e i = i
serve-IsSound lost x (m ∷ ms) e i =
    let ids = subst (All IsOne) e i.asks in
    let (same, called) =
      handle_msg-some 0 m x.server.0 x.server.1 answer
        (answer_found x.server.0.handler m.msg_id i.serves ids.0) in
    let a =
      subst (Adds x.server.1) (sym called)
        (answer-Adds (new_request 0 m.msg_id m.msg_data) x.server.1) in
    let n = ap ones a.grows ∙ ones-append x.server.1.outbox a.more in
    let l = ap length e in
    record {
      serves = same ∙ i.serves;
      first = i.first;
      second = i.second;
      held = i.held;
      asks = ids.1;
      answers =
          subst Spaced (sym a.grows)
            (Spaced-append x.server.1.outbox a.more i.answers a.starts a.spaced);
      at_most = omega (arith, n, l, a.single, i.at_most);
      at_least = omega (arith, n, l, a.paid, i.at_least);
    }
