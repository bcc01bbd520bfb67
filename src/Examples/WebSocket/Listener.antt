-- ===== src/Examples/WebSocket/Listener.antt =====
-- examples/websocket/server.go: connections handed from HTTP handlers to Accept through a channel.
use simple_message.Prelude.{
  ◌⊎◌, inl, inr, Bool-cases, ℕ, ◌≤◌, ◌≡◌, refl, Bool, true, false, List, [], ◌∷◌, ◌++◌, Option,
  none, some, if◌then◌else◌, length, ltb, arith, append_assoc, length-append,
}
use simple_message.Errors.{Result, ok, err, panic, net_closed}

abbrev pub conn_chan_cap : ℕ
conn_chan_cap = 100

-- The channels: `conns` is what connChan holds, and the two flags are whether they are closed. The
-- last two fields record what handlers put into the channel, and what Accept took.
pub record Listener : Type 0 where
  pub closed : Bool
  pub close_chan_closed : Bool
  pub conn_chan_closed : Bool
  pub conns : List ℕ
  pub offered : List ℕ
  pub accepted : List ℕ

unfoldable pub new_listener : Listener
new_listener = record {
  closed = false;
  close_chan_closed = false;
  conn_chan_closed = false;
  conns = [];
  offered = [];
  accepted = [];
}

-- Close up to its close of closeChan: it holds the lock throughout, which handleWS and Accept do not
-- take.
unfoldable pub close_listener : Listener → Listener
close_listener l = if l.closed then l else record l { closed = true; close_chan_closed = true }

-- The end of that Close, which closes connChan once: later Closes return at `closed`.
unfoldable pub close_conn_chan : Listener → Listener
close_conn_chan l = if l.closed then record l { conn_chan_closed = true } else l

-- Which ready case a select takes
pub data Case : Type 0 where
  ctx_case chan_case close_case : Case

-- The first select of handleWS: `none` is a case that is not ready. A send on a closed channel is
-- ready, and panics.
unfoldable pub offer : Case → Bool → ℕ → Listener → Option (Result (Unit {0}) × Listener)
offer ctx_case ctx_done c l = if ctx_done then some (ok tt, l) else none
offer close_case ctx_done c l = if l.close_chan_closed then some (ok tt, l) else none
offer chan_case ctx_done c l =
    if l.conn_chan_closed
    then some (panic, l)
    else if ltb (length l.conns) conn_chan_cap
    then some (ok tt, record l { conns = l.conns ++ c ∷ []; offered = l.offered ++ c ∷ [] })
    else none

-- Accept: a receive from a closed channel that is empty fails.
unfoldable pub accept : Case → Listener → Option (Result ℕ × Listener)
accept ctx_case l = none
accept close_case l = if l.close_chan_closed then some (err net_closed, l) else none
accept chan_case l = elim l.conns [
  | [] ↦ if l.conn_chan_closed then some (err net_closed, l) else none
  | c ∷ rest ↦ some (ok c, record l { conns = rest; accepted = l.accepted ++ c ∷ [] })
]

pub data Event : Type 0 where
  offers : Case → Bool → ℕ → Event
  accepts : Case → Event
  closes ends_close : Event

after {ℓ} : {A : Type ℓ} → Listener → Option (Result A × Listener) → Listener
after l none = l
after l (some (r, l')) = l'

unfoldable pub act : Event → Listener → Listener
unfolding after
act (offers k d c) l = after l (offer k d c l)
act (accepts k) l = after l (accept k l)
act closes l = close_listener l
act ends_close l = close_conn_chan l

unfoldable pub run : List Event → Listener → Listener
unfolding act
run [] l = l
run (e ∷ es) l = run es (act e l)

pub record Inv (l : Listener) : Type 0 where
  pub order : l.offered ≡ l.accepted ++ l.conns
  pub together : l.close_chan_closed ≡ l.closed
  pub after_closed : (l.conn_chan_closed ≡ false) ⊎ (l.closed ≡ true)
  pub room : length l.conns ≤ conn_chan_cap

pub act-Inv : (e : Event) (l : Listener) → Inv l → Inv (act e l)
unfolding act offer accept close_listener close_conn_chan
act-Inv (offers chan_case d c) l i =
    ground
      (arith, i, append_assoc {0} l.accepted l.conns (c ∷ []), length-append {0} l.conns (c ∷ []))
act-Inv (offers ctx_case d c) l i = ground (arith, i)
act-Inv (offers close_case d c) l i = ground (arith, i)
act-Inv (accepts chan_case) l i = accept_chan l l.conns refl i
  where
    accept_chan :
        (l : Listener) (cs : List ℕ) → l.conns ≡ cs → Inv l → Inv (act (accepts chan_case) l)
    accept_chan l [] e i = ground (arith, i)
    accept_chan l (c ∷ cs) e i = ground (arith, i, append_assoc {0} l.accepted (c ∷ []) cs)
act-Inv (accepts ctx_case) l i = i
act-Inv (accepts close_case) l i = ground (arith, i)
act-Inv closes l i = ground (arith, i)
act-Inv ends_close l i = ground (arith, i)

pub run-Inv : (es : List Event) (l : Listener) → Inv l → Inv (run es l)
unfolding run
run-Inv [] l i = i
run-Inv (e ∷ es) l i = run-Inv es (act e l) (act-Inv e l i)

pub new-Inv : Inv new_listener
unfolding new_listener
new-Inv = ground arith

-- In every run Accept has returned the connections in the order in which handlers offered them,
-- each once, and the channel holds the others, at most its capacity; once the listener is closed
-- Accept can always return.
pub accept_order :
    (es : List Event)
    → let l = run es new_listener in
      (l.offered ≡ l.accepted ++ l.conns)
      × (length l.conns ≤ conn_chan_cap)
      × ((l.closed ≡ false) ⊎ (accept close_case l ≡ some (err net_closed, l)))
unfolding accept
accept_order es =
    let l = run es new_listener in
    let i = run-Inv es new_listener new-Inv in
    (
      i.order,
      i.room,
      elim (Bool-cases l.closed) [ inl c ↦ inr (ground (arith, i)) | inr c ↦ inl c ],
    )

-- Once Close has closed both channels a handler that has upgraded its connection may panic: the send on the
-- closed channel is ready beside the receive that would let it return.
offer_may_panic :
    (es : List Event) (ctx_done : Bool) (c : ℕ)
    → (run es new_listener).conn_chan_closed ≡ true
    → let l = run es new_listener in
      (offer chan_case ctx_done c l ≡ some (panic, l))
      × (offer close_case ctx_done c l ≡ some (ok tt, l))
unfolding offer
offer_may_panic es ctx_done c h =
    let i = run-Inv es new_listener new-Inv in (ground (arith, i), ground (arith, i))
