-- ===== src/Examples/TestTcp/Closing.antt =====
-- Handler2 of examples/testtcp/client/main.go closes a connection once.
use simple_message.Prelude.{
  ℕ, ◌==◌, ◌≡◌, refl, sym, ◌∙◌, subst, Bool, true, false, ◌&&◌, List, [], ◌∷◌, Option, some,
  if◌then◌else◌, if-holds, insert, remove, nat_eq,
}
use simple_message.Errors.{Error}
use simple_message.Protocol.Decoder.{Message}
use simple_message.Client.Dispatch.{
  Client, new_client, with_handlers, with_max_data_len, handle_msg, add-handlers, drop-handlers,
}
use simple_message.Examples.Tcp.{MainPc, started, added, removed, flagged}
use simple_message.Examples.TestTcp.{
  Tested, Testing, HandlerEvent, arrives, main_steps, take_second, tested_client, untested,
  started_test, step_handlers, act_handlers, run_handlers,
}
use simple_message.Examples.TestTcp.Handled.{
  is_added, is_flagged, handlers_at, Waits, second-Waits, other-Waits,
}

-- The step of main after which each comes
abbrev next : MainPc → MainPc
next started = added
next added = removed
next removed = flagged
next flagged = flagged

-- The connections of the first message numbered 2 that arrives while main has added Handler2 and not
-- removed it
abbrev pub closes_at : MainPc → List HandlerEvent → List ℕ
closes_at p [] = []
closes_at p (main_steps ∷ es) = closes_at (next p) es
closes_at p (arrives conn m ∷ es) =
    let rest = closes_at p es in if is_added p && m.msg_id == 2 then conn ∷ [] else rest

-- A step of main that gives the client other handlers
given-Waits :
    (p p' : MainPc) (k k' : Client Tested) (c d : Tested) (seen : Bool) (closed : List ℕ)
    → is_flagged p ≡ is_flagged p'
    → Waits p k c seen closed
    → k'.handler ≡ some (handlers_at p')
    → d ≡ c
    → Waits p' k' d seen closed
given-Waits p p' k k' c d seen closed f w h same =
    subst (λ d. Waits p' k' d seen closed) (sym same)
      record {
        handlers = h;
        present = w.present ∙ f;
        once = w.once;
        all_closed = w.all_closed;
        calm = w.calm;
      }

main-Waits :
    (p : MainPc) (x : Testing) (seen : Bool) (closed : List ℕ)
    → x.main_pc ≡ p
    → Waits p x.client x.tested seen closed
    → let y = step_handlers p x in
      (y.main_pc ≡ next p) × Waits (next p) y.client y.tested seen closed
unfolding step_handlers insert remove
main-Waits started x seen closed e w =
    let (h, same) =
      add-handlers 0 2 take_second x.client x.tested (handlers_at started) w.handlers in
    (refl, given-Waits started added x.client _ x.tested _ seen closed refl w h same)
main-Waits added x seen closed e w =
    let (h, same) = drop-handlers 0 2 x.client x.tested (handlers_at added) w.handlers in
    (refl, given-Waits added removed x.client _ x.tested _ seen closed refl w h same)
main-Waits removed x seen closed e w = (
  refl,
  record {
    handlers = w.handlers;
    present = refl;
    once = w.once;
    all_closed = w.all_closed;
    calm = w.calm;
  },
)
main-Waits flagged x seen closed e w = (e, w)

main_steps-Waits :
    (p : MainPc) (x : Testing) (seen : Bool) (closed : List ℕ)
    → x.main_pc ≡ p
    → Waits p x.client x.tested seen closed
    → let y = act_handlers main_steps x in
      (y.main_pc ≡ next p) × Waits (next p) y.client y.tested seen closed
unfolding act_handlers
main_steps-Waits p x seen closed e w =
    subst
      (λ q.
        (let y = step_handlers q x in
          (y.main_pc ≡ next p) × Waits (next p) y.client y.tested seen closed))
      (sym e) (main-Waits p x seen closed e w)

-- Once Handler2 has run, a message closes no connection.
late-Waits :
    (p : MainPc) (conn : ℕ) (m : Message) (k : Client Tested) (c : Tested) (closed : List ℕ)
    (b : Bool)
    → (is_added p && m.msg_id == 2) ≡ b
    → Waits p k c true closed
    → Waits p (handle_msg conn m (k, c)).0 (handle_msg conn m (k, c)).1 true closed
late-Waits p conn m k c closed true e w = second-Waits p conn m k c true closed e w
late-Waits p conn m k c closed false e w = other-Waits p conn m k c true closed e w

closes_no_more :
    (es : List HandlerEvent) (p : MainPc) (x : Testing) (closed : List ℕ)
    → x.main_pc ≡ p
    → Waits p x.client x.tested true closed
    → let c = (run_handlers es x).tested in (c.closed ≡ closed) × (c.panicked ≡ false)
unfolding run_handlers act_handlers
closes_no_more [] p x closed e w = (w.all_closed, w.calm)
closes_no_more (main_steps ∷ es) p x closed e w =
    let (e', w') = main_steps-Waits p x true closed e w in closes_no_more es (next p) _ closed e' w'
closes_no_more (arrives conn m ∷ es) p x closed e w =
    closes_no_more es p _ closed e (late-Waits p conn m x.client x.tested closed _ refl w)

closes_first :
    (es : List HandlerEvent) (p : MainPc) (x : Testing)
    → x.main_pc ≡ p
    → Waits p x.client x.tested false []
    → let c = (run_handlers es x).tested in (c.closed ≡ closes_at p es) × (c.panicked ≡ false)
unfolding run_handlers act_handlers
closes_first [] p x e w = (w.all_closed, w.calm)
closes_first (main_steps ∷ es) p x e w =
    let (e', w') = main_steps-Waits p x false [] e w in closes_first es (next p) _ e' w'
closes_first (arrives conn m ∷ es) p x e w =
    let c = (run_handlers (arrives conn m ∷ es) x).tested in
    if-holds (λ l. (c.closed ≡ l) × (c.panicked ≡ false)) (is_added p && m.msg_id == 2)
      (λ second.
        closes_no_more es p _ (conn ∷ []) e
          (second-Waits p conn m x.client x.tested false [] second w))
      (λ other. closes_first es p _ e (other-Waits p conn m x.client x.tested false [] other w))

tested-Waits :
    (results : List (Option Error)) → Waits started tested_client (untested results) false []
unfolding tested_client new_client with_handlers with_max_data_len
tested-Waits results = record {
  handlers = refl;
  present = refl;
  once = refl;
  all_closed = refl;
  calm = refl;
}

-- Whatever messages arrive on whatever connections, however the steps of main come between them, and
-- whatever SendMsg returns, the client closes from within its handlers the connection of the first
-- message numbered 2 that arrives between AddHandler(2) and RemoveHandler(2), and no other: sync.Once
-- lets the connections that follow live. Handler2 does not panic, where handleMsg finds a handler and
-- calls it at one instant.
pub closes_once :
    (es : List HandlerEvent) (results : List (Option Error))
    → let c = (run_handlers es (started_test results)).tested in
      (c.closed ≡ closes_at started es) × (c.panicked ≡ false)
closes_once es results = closes_first es started (started_test results) refl (tested-Waits results)
