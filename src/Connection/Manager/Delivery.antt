-- ===== src/Connection/Manager/Delivery.antt =====
-- Where each message of a call of sendMsg is: in the channel, with the sender, or written.
pub mod Wire
pub mod Guarantee
pub mod Progress
use simple_message.Prelude.{
  ℕ, ◌+◌, ◌≤◌, ◌≡◌, refl, Bool, true, false, List, [], ◌∷◌, ◌++◌, none, if◌then◌else◌, arith, ◌==◌,
  append_assoc, ap,
}
use simple_message.Connection.State.{
  Manager, SendPc, choosing, holding, SenderPc, idle, selecting, waiting, returned,
}
use simple_message.Connection.Manager.{
  Case, channel_case, call_send, select_send, step_send, leave_send, step_read, panic_read,
  leave_read, begin_stop, step_stop, close_connection,
}
use simple_message.Connection.Manager.Run.{Event, call, select, send, act}

unfoldable pub count : ℕ → List ℕ → ℕ
count i [] = 0
count i (x ∷ xs) = (if x == i then 1 else 0) + count i xs

pub count-append : (i : ℕ) (xs ys : List ℕ) → count i (xs ++ ys) ≡ count i xs + count i ys
unfolding count
count-append i [] ys = omega arith
count-append i (x ∷ xs) ys = ground (arith, count-append i xs ys)

pub count-one : (i j : ℕ) → count i (j ∷ []) ≡ (if j == i then 1 else 0)
unfolding count
count-one i j = omega arith

abbrev pub held : SendPc → List ℕ
held (holding i) = i ∷ []
held _ = []

abbrev pub alive : SendPc → Bool
alive choosing = true
alive (holding i) = true
alive _ = false

abbrev pub entered : SenderPc → Bool
entered idle = false
entered selecting = false
entered _ = true

pub record Books (h : Manager) : Type 0 where
  pub order : h.accepted ≡ h.served ++ (held h.send_pc ++ h.msg_chan)
  pub settled : alive h.send_pc ≡ true → h.served ≡ h.written
  pub clean : alive h.send_pc ≡ true → h.send_err ≡ none

pub record Sent (h : Manager) (i : ℕ) : Type 0 where
  pub once : count i h.accepted ≤ 1
  pub absent : entered (h.senders i) ≡ false → count i h.accepted ≡ 0
  pub waits : h.senders i ≡ waiting → count i h.accepted ≡ 1
  pub unmarked : count i h.served ≡ 0 → (h.bodies i).status ≡ false
  pub unacked : count i h.served ≡ 0 → (h.bodies i).acked ≡ false
  pub seen : alive h.send_pc ≡ true → 1 ≤ count i h.served → (h.bodies i).acked ≡ true
  pub good : (h.bodies i).acked ≡ true → (h.bodies i).error ≡ none → 1 ≤ count i h.written
  pub sent : h.senders i ≡ returned none → 1 ≤ count i h.written

pub record Inv (h : Manager) : Type 0 where
  pub books : Books h
  pub each : (i : ℕ) → Sent h i

pub count-order :
    (i : ℕ) (h : Manager)
    → Books h
    → count i h.accepted ≡ count i h.served + count i (held h.send_pc) + count i h.msg_chan
count-order i h b = omega (
  arith,
  ap (count i) b.order,
  count-append i h.served (held h.send_pc ++ h.msg_chan),
  count-append i (held h.send_pc) h.msg_chan,
)

-- The sender's message has not been acknowledged yet.
pub held-unmarked :
    (i : ℕ) (h : Manager) → Inv h → h.send_pc ≡ holding i → (h.bodies i).status ≡ false
unfolding count
held-unmarked i h v e =
    (v.each i).unmarked (ground (arith, count-order i h v.books, (v.each i).once, count-one i i))

step_send-Books :
    (h : Manager) (c : Case) (p : SendPc) → h.send_pc ≡ p → Inv h → Books (step_send c h)
unfolding step_send
step_send-Books h channel_case choosing e v = ground (arith, v.books)
step_send-Books h c (holding i) e v =
    ground (arith, v.books, held-unmarked i h v e, append_assoc {0} h.served (i ∷ []) h.msg_chan)
step_send-Books h _ _ e v = ground (arith, v.books)

select_send-Books : (h : Manager) (i : ℕ) (c : Case) → Books h → Books (select_send i c h)
unfolding select_send
select_send-Books h i channel_case b = ground (
  arith,
  append_assoc {0} h.served (held h.send_pc ++ h.msg_chan) (i ∷ []),
  append_assoc {0} (held h.send_pc) h.msg_chan (i ∷ []),
)
select_send-Books h i _ b = ground arith

pub act-Books : (e : Event) (h : Manager) → Inv h → Books (act e h)
unfolding act call_send leave_send step_read panic_read leave_read begin_stop step_stop
    close_connection
act-Books (select i c) h v = select_send-Books h i c v.books
act-Books (send c) h v = step_send-Books h c h.send_pc refl v
act-Books _ h v = ground (arith, v.books)

select_send-Sent :
    (h : Manager) (i : ℕ) (c : Case) (j : ℕ) → Inv h → Sent h j → Sent (select_send i c h) j
unfolding select_send
select_send-Sent h i channel_case j v s =
    ground (arith, s, v.each i, count-append j h.accepted (i ∷ []), count-one j i)
select_send-Sent h i _ j v s = ground (arith, s)

step_send-Sent :
    (h : Manager) (c : Case) (p : SendPc) (j : ℕ)
    → h.send_pc ≡ p
    → Inv h
    → Sent h j
    → Sent (step_send c h) j
unfolding step_send
step_send-Sent h channel_case choosing j e v s = ground (arith, s)
step_send-Sent h c (holding i) j e v s = ground (
  arith,
  s,
  v.books,
  held-unmarked i h v e,
  count-append j h.served (i ∷ []),
  count-append j h.written (i ∷ []),
  count-one j i,
)
step_send-Sent h _ _ j e v s = ground (arith, s)

pub act-Sent : (e : Event) (h : Manager) (j : ℕ) → Inv h → Sent h j → Sent (act e h) j
unfolding act call_send leave_send step_read panic_read leave_read begin_stop step_stop
    close_connection
act-Sent (select i c) h j v s = select_send-Sent h i c j v s
act-Sent (send c) h j v s = step_send-Sent h c h.send_pc j refl v s
act-Sent (call i m) h j v s = ground (arith, s, count-order i h v.books, ap (count j) v.books.order)
act-Sent _ h j v s = ground (arith, s)
