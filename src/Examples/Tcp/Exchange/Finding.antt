-- ===== src/Examples/Tcp/Exchange/Finding.antt =====
-- A message of examples/tcp that arrives at the client, whose handler is looked up.
use simple_message.Prelude.{
  ℕ, ◌≡◌, ◌⊎◌, inl, inr, refl, sym, ap, ◌∙◌, subst, List, [], ◌∷◌, none, some, nat_eq, arith,
}
use simple_message.Protocol.Decoder.{Message}
use simple_message.Connection.Request.{Handler}
use simple_message.Client.Dispatch.{find_handler, count_unknown}
use simple_message.Client.Dispatch.Interleaving.{Shared, idle, finds, calls, adds, removes}
use simple_message.Client.Dispatch.Interleaving
use simple_message.Client.Dispatch.Interleaving.Steps.{finds-some, finds-none}
use simple_message.Examples.Tcp.{Caller, Programs, ask_again, take_second, receive}
use simple_message.Examples.Tcp.Sends.{ones, in_hand, StartsOne, Spaced}
use simple_message.Examples.Tcp.Exchange.{Held, pending, to_fail, IsSound}

-- With the message in hand found its handler `h`
find_some :
    (lost : ℕ) (x : Programs) (m : Message) (ms : List Message) (h : Handler Caller)
    → x.client.hand ≡ none
    → x.server.1.outbox ≡ m ∷ ms
    → Held (some (m, h))
    → IsSound lost x
    → IsSound lost (record x {
      server = (x.server.0, record x.server.1 { outbox = ms });
      client = record x.client { hand = some (m, h) };
    })
unfolding pending to_fail
find_some lost x m ms h f e k i =
    let n = ap ones e in
    let held = ap (λ o. ones (in_hand o)) f in
    record {
      serves = i.serves;
      first = i.first;
      second = i.second;
      held = k;
      asks = i.asks;
      answers = (subst Spaced e i.answers).1;
      at_most = ground (arith, n, held, i.at_most);
      at_least = ground (arith, n, held, i.at_least);
    }

finds_some :
    (lost : ℕ) (x : Programs) (m : Message) (ms : List Message)
    → x.client.hand ≡ none
    → x.server.1.outbox ≡ m ∷ ms
    → (h : Handler Caller) → find_handler m.msg_id x.client.client ≡ some h
    → Held (some (m, h))
    → IsSound lost x
    → IsSound lost (record x {
      server = (x.server.0, record x.server.1 { outbox = ms });
      client = Interleaving.act 0 (finds m) x.client;
    })
finds_some lost x m ms f e h q k i =
    subst
      (λ c.
        IsSound lost
          (record x { server = (x.server.0, record x.server.1 { outbox = ms }); client = c }))
      (sym (finds-some 0 x.client m h f q)) (find_some lost x m ms h f e k i)

-- With no handler for it, which only happens for the number 2
find_none :
    (lost : ℕ) (x : Programs) (m : Message) (ms : List Message)
    → x.client.hand ≡ none
    → x.server.1.outbox ≡ m ∷ ms
    → m.msg_id ≡ 2
    → IsSound lost x
    → IsSound lost (record x {
      server = (x.server.0, record x.server.1 { outbox = ms });
      client = record x.client { client = count_unknown x.client.client };
    })
unfolding pending to_fail count_unknown find_handler
find_none lost x m ms f e k i =
    let n = ap ones e in
    record {
      serves = i.serves;
      first = i.first;
      second = i.second;
      held = i.held;
      asks = i.asks;
      answers = (subst Spaced e i.answers).1;
      at_most = ground (arith, n, k, i.at_most);
      at_least = ground (arith, n, k, i.at_least);
    }

-- A message found its handler, or none
found :
    (lost : ℕ) (x : Programs) (m : Message) (ms : List Message)
    → x.client.hand ≡ none
    → x.server.1.outbox ≡ m ∷ ms
    → (m.msg_id ≡ 1) ⊎ ((m.msg_id ≡ 2) × StartsOne ms)
    → IsSound lost x
    → IsSound lost (record x {
      server = (x.server.0, record x.server.1 { outbox = ms });
      client = Interleaving.act 0 (finds m) x.client;
    })
found lost x m ms f e (inl k) i =
    finds_some lost x m ms f e ask_again (ap (λ n. find_handler n x.client.client) k ∙ i.first)
      (inl (k, refl)) i
found lost x m ms f e (inr (k, s)) i = elim i.second [
  | inl q ↦
      subst
        (λ c.
          IsSound lost
            (record x { server = (x.server.0, record x.server.1 { outbox = ms }); client = c }))
        (sym (finds-none 0 x.client m f (ap (λ n. find_handler n x.client.client) k ∙ q)))
        (find_none lost x m ms f e k i)
  | inr q ↦
      finds_some lost x m ms f e take_second (ap (λ n. find_handler n x.client.client) k ∙ q)
        (inr (k, refl)) i
]

-- A message of the list is found its handler, at a client whose own is free.
pub find-IsSound :
    (lost : ℕ) (x : Programs) (ms : List Message)
    → x.client.hand ≡ none
    → x.server.1.outbox ≡ ms
    → IsSound lost x
    → IsSound lost (receive ms x)
unfolding receive
find-IsSound lost x [] h e i = i
find-IsSound lost x (m ∷ ms) h e i = found lost x m ms h e (subst Spaced e i.answers).0 i
