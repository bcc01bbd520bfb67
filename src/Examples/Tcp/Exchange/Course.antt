-- ===== src/Examples/Tcp/Exchange/Course.antt =====
-- Runs of the two programs of examples/tcp, on one connection.
use simple_message.Prelude.{
  ℕ, ◌+◌, ◌≤◌, ◌≡◌, inl, inr, refl, sym, ap, ◌∙◌, subst, false, List, [], ◌∷◌, length,
  length-append, Option, none, some, if-holds, lookup, nat_eq, arith,
}
use simple_message.Errors.{Error}
use simple_message.Protocol.Wire.{All, All-append}
use simple_message.Protocol.Decoder.{Message}
use simple_message.Connection.Request.{Handler}
use simple_message.Server.Dispatch.{Server, handle_msg-some}
use simple_message.Server.Dispatch
use simple_message.Client.Dispatch.{new_client, with_handlers, with_max_data_len, find_handler}
use simple_message.Client.Dispatch.Interleaving.{Shared, idle, finds, calls, adds, removes}
use simple_message.Client.Dispatch.Interleaving
use simple_message.Client.Dispatch.Interleaving.Steps.{adds-find, removes-find}
use simple_message.Examples.Tcp.{
  welcome_text, hello_from_client, Caller, Programs, Event, begin_server, begin_client,
  server_begins, client_begins, server_reads, client_finds, client_calls, main_steps, started,
  added, removed, flagged, MainPc, text_message, ask_again, take_second, welcome, ask_first,
  connected, find_first, step_main, act, run,
}
use simple_message.Examples.Tcp.Sends.{
  ones, failures, IsOne, Spaced, Spaced-append, ones-append, Spaced-length, ones-IsOne, one-Asks,
}
use simple_message.Examples.Tcp.Exchange.{to_begin, pending, to_fail, IsSound, serve-IsSound}
use simple_message.Examples.Tcp.Exchange.Finding.{find-IsSound}
use simple_message.Examples.Tcp.Exchange.Calling.{call-IsSound}

-- main goes on.
main-IsSound :
    (lost : ℕ) (x : Programs) (p : MainPc) → IsSound lost x → IsSound lost (step_main p x)
unfolding step_main Interleaving.act pending to_fail
main-IsSound lost x started i = record {
  serves = i.serves;
  first = adds-find 0 2 1 1 take_second ask_again x.client i.first ∙ i.first;
  second = inr (adds-find 0 2 2 1 take_second ask_again x.client i.first);
  held = i.held;
  asks = i.asks;
  answers = i.answers;
  at_most = i.at_most;
  at_least = i.at_least;
}
main-IsSound lost x added i = record {
  serves = i.serves;
  first = removes-find 0 2 1 x.client ∙ i.first;
  second = inl (removes-find 0 2 2 x.client);
  held = i.held;
  asks = i.asks;
  answers = i.answers;
  at_most = i.at_most;
  at_least = i.at_least;
}
main-IsSound lost x removed i = record {
  serves = i.serves;
  first = i.first;
  second = i.second;
  held = i.held;
  asks = i.asks;
  answers = i.answers;
  at_most = i.at_most;
  at_least = i.at_least;
}
main-IsSound lost x flagged i = i

finds-IsSound :
    (lost : ℕ) (x : Programs) (h : Option (Message × Handler Caller))
    → x.client.hand ≡ h
    → IsSound lost x
    → IsSound lost (find_first h x)
unfolding find_first
finds-IsSound lost x (some h) e i = i
finds-IsSound lost x none e i =
    if-holds (IsSound lost) x.client.world.panicked (λ _. i)
      (λ _. find-IsSound lost x x.server.1.outbox e refl i)

begin_server-IsSound :
    (lost : ℕ) (x : Programs)
    → x.server_begun ≡ false
    → IsSound lost x
    → IsSound lost (begin_server x)
unfolding begin_server welcome pending to_fail
begin_server-IsSound lost x e i =
    let a = (one-Asks (text_message 1 welcome_text) x.server.1 refl).adds in
    let n = ap ones a.grows ∙ ones-append x.server.1.outbox a.more in
    let b = ap to_begin e in
    record {
      serves = i.serves;
      first = i.first;
      second = i.second;
      held = i.held;
      asks = i.asks;
      answers =
          subst Spaced (sym a.grows)
            (Spaced-append x.server.1.outbox a.more i.answers a.starts a.spaced);
      at_most = omega (arith, n, b, a.single, i.at_most);
      at_least = omega (arith, n, b, a.paid, i.at_least);
    }

begin_client-IsSound :
    (lost : ℕ) (x : Programs)
    → x.client_begun ≡ false
    → IsSound lost x
    → IsSound lost (begin_client x)
unfolding begin_client ask_first pending to_fail
begin_client-IsSound lost x e i =
    let l = x.client.world.link in
    let a = one-Asks (text_message 1 hello_from_client) l refl in
    let n = ap length a.adds.grows ∙ length-append l.outbox a.adds.more in
    let m = ones-IsOne a.adds.more a.ones_only in
    let b = ap to_begin e in
    record {
      serves = i.serves;
      first = i.first;
      second = i.second;
      held = i.held;
      asks =
          subst (All IsOne) (sym a.adds.grows)
            (All-append IsOne l.outbox a.adds.more i.asks a.ones_only);
      answers = i.answers;
      at_most = omega (arith, n, m, b, a.adds.single, i.at_most);
      at_least = omega (arith, n, m, b, a.adds.paid, i.at_least);
    }

pub act-IsSound : (lost : ℕ) (e : Event) (x : Programs) → IsSound lost x → IsSound lost (act e x)
unfolding act
act-IsSound lost server_begins x i =
    if-holds (IsSound lost) x.server_begun (λ _. i) (λ e. begin_server-IsSound lost x e i)
act-IsSound lost client_begins x i =
    if-holds (IsSound lost) x.client_begun (λ _. i) (λ e. begin_client-IsSound lost x e i)
act-IsSound lost server_reads x i = serve-IsSound lost x x.client.world.link.outbox refl i
act-IsSound lost client_finds x i = finds-IsSound lost x x.client.hand refl i
act-IsSound lost client_calls x i = call-IsSound lost x x.client.hand refl i
act-IsSound lost main_steps x i = main-IsSound lost x x.main_pc i

pub run-IsSound :
    (lost : ℕ) (es : List Event) (x : Programs) → IsSound lost x → IsSound lost (run es x)
unfolding run
run-IsSound lost [] x i = i
run-IsSound lost (e ∷ es) x i = run-IsSound lost es (act e x) (act-IsSound lost e x i)

pub connected-IsSound :
    (rs qs : List (Option Error)) → IsSound (failures rs + failures qs) (connected rs qs)
unfolding connected pending to_fail new_client with_handlers with_max_data_len Dispatch.new_server
    Dispatch.with_handlers find_handler lookup
connected-IsSound rs qs = record {
  serves = refl;
  first = refl;
  second = inl refl;
  held = tt;
  asks = tt;
  answers = tt;
  at_most = omega arith;
  at_least = omega arith;
}

-- However messages arrive and main goes on, the two programs do not flood each other: of the two
-- messages numbered 1 that the calls of ConnectedBegin send, as many are still to be sent, on their
-- way, or in the client's hands, as no failed SendMsg has used up, and never more; at most two
-- messages are on their way to the server and at most five to the client.
pub exchange_bounded :
    (server_results client_results : List (Option Error)) (es : List Event)
    → let x = run es (connected server_results client_results) in
      (pending x ≤ 2)
      × (2 ≤ pending x + (failures server_results + failures client_results))
      × (length x.client.world.link.outbox ≤ 2)
      × (length x.server.1.outbox ≤ 5)
unfolding pending
exchange_bounded rs qs es =
    let x = run es (connected rs qs) in
    let i =
      run-IsSound (failures rs + failures qs) es (connected rs qs) (connected-IsSound rs qs) in
    (
      i.at_most,
      omega (arith, i.at_least),
      omega (arith, i.at_most),
      omega (arith, i.at_most, (Spaced-length x.server.1.outbox i.answers).0),
    )
