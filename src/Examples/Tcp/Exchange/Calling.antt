-- ===== src/Examples/Tcp/Exchange/Calling.antt =====
-- The client's handler of examples/tcp that is called.
use simple_message.Prelude.{
  ℕ, ◌≡◌, inl, inr, refl, sym, ap, ◌∙◌, subst, length, length-append, Option, none, some, nat_eq,
  arith,
}
use simple_message.Protocol.Wire.{All, All-append}
use simple_message.Protocol.Decoder.{Message}
use simple_message.Connection.Request.{Handler, Request, new_request}
use simple_message.Client.Dispatch.{find_handler, run_handler}
use simple_message.Client.Dispatch.Interleaving.{Shared, idle, finds, calls, adds, removes}
use simple_message.Client.Dispatch.Interleaving
use simple_message.Client.Dispatch.Interleaving.Steps.{calls-some, calls-none}
use simple_message.Examples.Tcp.{
  hello_from_client, Caller, Programs, text_message, ask_again, take_second,
}
use simple_message.Examples.Tcp.Sends.{ones, failures, in_hand, IsOne, Asks, ones-IsOne, one-Asks}
use simple_message.Examples.Tcp.Exchange.{Held, pending, to_fail, IsSound}

ask_again-Asks : (q : Request) (c : Caller) → Asks c.link (ask_again q c).1.link
unfolding ask_again
ask_again-Asks q c = one-Asks (text_message 1 hello_from_client) c.link refl

take_second-link : (q : Request) (c : Caller) → (take_second q c).1.link ≡ c.link
unfolding take_second
take_second-link q c = ground arith

-- The handler in hand has been called.
called :
    (lost : ℕ) (x : Programs) (m : Message) (h : Handler Caller)
    → x.client.hand ≡ some (m, h)
    → Held (some (m, h))
    → IsSound lost x
    → IsSound lost
        (record x { client = idle (run_handler 0 m h (x.client.client, x.client.world)) })
unfolding pending to_fail run_handler find_handler
called lost x m h e (inl (k, p)) i =
    let r = new_request 0 m.msg_id m.msg_data in
    let a =
      subst (λ g. Asks x.client.world.link (g r x.client.world).1.link) (sym p)
        (ask_again-Asks r x.client.world) in
    let l = ap length a.adds.grows ∙ length-append x.client.world.link.outbox a.adds.more in
    let n = ones-IsOne a.adds.more a.ones_only in
    let held = ap (λ o. ones (in_hand o)) e in
    record {
      serves = i.serves;
      first = i.first;
      second = i.second;
      held = tt;
      asks =
          subst (All IsOne) (sym a.adds.grows)
            (All-append IsOne x.client.world.link.outbox a.adds.more i.asks a.ones_only);
      answers = i.answers;
      at_most = ground (arith, n, l, k, held, a.adds.single, i.at_most);
      at_least = ground (arith, n, l, k, held, a.adds.paid, i.at_least);
    }
called lost x m h e (inr (k, p)) i =
    let r = new_request 0 m.msg_id m.msg_data in
    let same =
      subst (λ g. (g r x.client.world).1.link ≡ x.client.world.link) (sym p)
        (take_second-link r x.client.world) in
    let held = ap (λ o. ones (in_hand o)) e in
    let l = ap (λ k. length k.outbox) same in
    let f = ap (λ k. failures k.results) same in
    record {
      serves = i.serves;
      first = i.first;
      second = i.second;
      held = tt;
      asks = subst (λ k. All IsOne k.outbox) (sym same) i.asks;
      answers = i.answers;
      at_most = ground (arith, l, k, held, i.at_most);
      at_least = ground (arith, l, f, k, held, i.at_least);
    }

-- The handler in hand is called.
pub call-IsSound :
    (lost : ℕ) (x : Programs) (h : Option (Message × Handler Caller))
    → x.client.hand ≡ h
    → IsSound lost x
    → IsSound lost (record x { client = Interleaving.act 0 calls x.client })
call-IsSound lost x none e i =
    subst (λ c. IsSound lost (record x { client = c })) (sym (calls-none 0 x.client e)) i
call-IsSound lost x (some (m, h)) e i =
    subst (λ c. IsSound lost (record x { client = c })) (sym (calls-some 0 x.client m h e))
      (called lost x m h e (subst Held e i.held) i)
