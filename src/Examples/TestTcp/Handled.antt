-- ===== src/Examples/TestTcp/Handled.antt =====
-- A message that reaches the client of examples/testtcp/client/main.go, wherever main is.
use native.Mathlib.Decide.{ℕ_discrete}
use simple_message.Prelude.{
  ℕ, ◌==◌, ◌≡◌, refl, sym, ◌∙◌, subst, Bool, true, false, ◌&&◌, List, [], ◌∷◌, ◌++◌, none, some,
  if◌then◌else◌, arith, lookup, nat_eq,
}
use simple_message.Protocol.Decoder.{Message}
use simple_message.Connection.Request.{Handler, Request, new_request}
use simple_message.Client.Dispatch.{Client, handle_msg, handle_msg-some, handle_msg-none}
use simple_message.Examples.Tcp.{MainPc, started, added, removed, flagged}
use simple_message.Examples.TestTcp.{Tested, ask_again, take_second}

abbrev pub is_added : MainPc → Bool
is_added started = false
is_added added = true
is_added removed = false
is_added flagged = false

abbrev pub is_flagged : MainPc → Bool
is_flagged started = false
is_flagged added = false
is_flagged removed = false
is_flagged flagged = true

abbrev pub handlers_at : MainPc → List (ℕ × Handler Tested)
handlers_at started = (1, ask_again) ∷ []
handlers_at added = (1, ask_again) ∷ (2, take_second) ∷ []
handlers_at removed = (1, ask_again) ∷ []
handlers_at flagged = (1, ask_again) ∷ []

-- The client's handlers are those that main has given it, HaveRemoveHandler2 says where main is, and
-- Handler2 has run or not.
pub record Waits (p : MainPc) (k : Client Tested) (c : Tested) (seen : Bool) (closed : List ℕ)
    : Type 0 where
  pub handlers : k.handler ≡ some (handlers_at p)
  pub present : c.have_remove_handler2 ≡ is_flagged p
  pub once : c.test_close_conn ≡ seen
  pub all_closed : c.closed ≡ closed
  pub calm : c.panicked ≡ false

-- A message whose handler is known leaves what the handler does.
handled-Waits :
    (p : MainPc) (conn : ℕ) (m : Message) (k : Client Tested) (c : Tested) (handle : Handler Tested)
    (seen seen' : Bool) (closed closed' : List ℕ)
    → Waits p k c seen closed
    → lookup m.msg_id (handlers_at p) ≡ some handle
    → (Waits p k c seen closed
        → let d = (handle (new_request conn m.msg_id m.msg_data) c).1 in Waits p k d seen' closed')
    → Waits p (handle_msg conn m (k, c)).0 (handle_msg conn m (k, c)).1 seen' closed'
handled-Waits p conn m k c handle seen seen' closed closed' w f step =
    let (same, called) = handle_msg-some conn m k c (handlers_at p) handle w.handlers f in
    let v = subst (λ d. Waits p k d seen' closed') (sym called) (step w) in
    record {
      handlers = same;
      present = v.present;
      once = v.once;
      all_closed = v.all_closed;
      calm = v.calm;
    }

unknown-Waits :
    (p : MainPc) (conn : ℕ) (m : Message) (k : Client Tested) (c : Tested) (seen : Bool)
    (closed : List ℕ)
    → Waits p k c seen closed
    → lookup m.msg_id (handlers_at p) ≡ none
    → Waits p (handle_msg conn m (k, c)).0 (handle_msg conn m (k, c)).1 seen closed
unknown-Waits p conn m k c seen closed w f =
    let (same, kept) = handle_msg-none conn m k c (handlers_at p) w.handlers f in
    let v = subst (λ d. Waits p k d seen closed) (sym kept) w in
    record {
      handlers = same;
      present = v.present;
      once = v.once;
      all_closed = v.all_closed;
      calm = v.calm;
    }

asks-Waits :
    (p : MainPc) (q : Request) (k : Client Tested) (c : Tested) (seen : Bool) (closed : List ℕ)
    → Waits p k c seen closed
    → Waits p k (ask_again q c).1 seen closed
unfolding ask_again
asks-Waits p q k c seen closed w = record {
  handlers = w.handlers;
  present = w.present;
  once = w.once;
  all_closed = w.all_closed;
  calm = w.calm;
}

-- The connections closed after a call of Handler2
abbrev pub closing : Bool → ℕ → List ℕ → List ℕ
closing true conn closed = closed
closing false conn closed = closed ++ conn ∷ []

takes-Waits :
    (q : Request) (k : Client Tested) (c : Tested) (seen : Bool) (closed : List ℕ)
    → Waits added k c seen closed
    → Waits added k (take_second q c).1 true (closing seen q.conn closed)
unfolding take_second
takes-Waits q k c seen closed w = ground (arith, w)

handler_found :
    (p : MainPc) (id : ℕ)
    → lookup id (handlers_at p) ≡ (
        if 1 == id
        then some ask_again
        else if 2 == id
        then (if is_added p then some take_second else none)
        else none)
unfolding lookup
handler_found started id = ground arith
handler_found added id = refl
handler_found removed id = ground arith
handler_found flagged id = ground arith

pub second-Waits :
    (p : MainPc) (conn : ℕ) (m : Message) (k : Client Tested) (c : Tested) (seen : Bool)
    (closed : List ℕ)
    → (is_added p && m.msg_id == 2) ≡ true
    → Waits p k c seen closed
    → Waits p
        (handle_msg conn m (k, c)).0
        (handle_msg conn m (k, c)).1
        true
        (closing seen conn closed)
unfolding new_request
second-Waits started conn m k c seen closed e w = ground (arith, e)
second-Waits added conn m k c seen closed e w =
    handled-Waits added conn m k c take_second seen true closed (closing seen conn closed) w
      (handler_found added m.msg_id ∙ ground (arith, e))
      (takes-Waits (new_request conn m.msg_id m.msg_data) k c seen closed)
second-Waits removed conn m k c seen closed e w = ground (arith, e)
second-Waits flagged conn m k c seen closed e w = ground (arith, e)

pub other-Waits :
    (p : MainPc) (conn : ℕ) (m : Message) (k : Client Tested) (c : Tested) (seen : Bool)
    (closed : List ℕ)
    → (is_added p && m.msg_id == 2) ≡ false
    → Waits p k c seen closed
    → Waits p (handle_msg conn m (k, c)).0 (handle_msg conn m (k, c)).1 seen closed
other-Waits p conn m k c seen closed n w = elim (ℕ_discrete m.msg_id 1) [
  | yes e ↦
      handled-Waits p conn m k c ask_again seen seen closed closed w
        (handler_found p m.msg_id ∙ ground (arith, e))
        (asks-Waits p (new_request conn m.msg_id m.msg_data) k c seen closed)
  | no o ↦
      unknown-Waits p conn m k c seen closed w (handler_found p m.msg_id ∙ ground (arith, n, o))
]
