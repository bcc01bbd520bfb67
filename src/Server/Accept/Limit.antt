-- ===== src/Server/Accept/Limit.antt =====
-- The limit on connections, for any number of accept goroutines.
use simple_message.Prelude.{
  ℕ, ◌+◌, ◌^◌, ◌≤◌, ◌<◌, ◌≡◌, false, List, [], ◌∷◌, if◌then◌else◌, ltb, arith, leb,
}
use simple_message.Protocol.Wire.{All}
use simple_message.Server.Accept.{
  Server, new_server, start, stop_server, watch, over_limit, accept_conn, accept_error, refuse_conn,
  end_conn, finish, close_done, Event, starts, accepts, act, run,
}

-- The accept goroutines of a server
abbrev pub goroutines : Server → ℕ
goroutines s = s.accepting + s.rejecting + s.returned

-- `amount` goroutines at most, and a limit that leaves room for them in an int32
record Counted (amount max : ℕ) (s : Server) : Type 0 where
  limit : s.max_conn_count ≡ max
  few : goroutines s ≤ amount
  counted : s.conn_count ≡ s.active + s.rejecting
  bounded : s.active ≤ max
  fresh : s.started ≡ false → goroutines s ≡ 0

over_limit_lem :
    (max count : ℕ) → 0 < max → max < 2 ^ 31 → count < 2 ^ 31 → over_limit max count ≡ ltb max count
unfolding over_limit
over_limit_lem max count h m c = ground arith

abbrev pub Fits : ℕ → Event → Type 0
Fits amount (starts n) = (n ≤ amount) × (1 ≤ amount)
Fits amount _ = Unit

act-Counted :
    (amount max : ℕ)
    → 0 < max
    → max + amount < 2 ^ 31
    → (e : Event) (s : Server) → Fits amount e
    → Counted amount max s
    → Counted amount max (act e s)
unfolding act start stop_server watch accept_conn accept_error refuse_conn end_conn finish
    close_done
act-Counted amount max hm room accepts s f c =
    ground (arith, c, over_limit_lem max (s.conn_count + 1) hm)
act-Counted amount max hm room _ s f c = ground (arith, c)

run-Counted :
    (amount max : ℕ)
    → 0 < max
    → max + amount < 2 ^ 31
    → (es : List Event) (s : Server) → All (Fits amount) es
    → Counted amount max s
    → Counted amount max (run es s)
unfolding run
run-Counted amount max hm room [] s f c = c
run-Counted amount max hm room (e ∷ es) s f c =
    run-Counted amount max hm room es (act e s) f.1 (act-Counted amount max hm room e s f.0 c)

new-Counted : (amount max : ℕ) → Counted amount max (new_server max)
unfolding new_server
new-Counted amount max = omega arith

-- With a positive limit, whose sum with the number of accept goroutines is below 2 ^ 31, no run
-- ever handles more connections than the limit; the count of connections is that of those handled
-- and those about to be refused, and does not overflow.
pub active-le-limit :
    (amount max : ℕ) (es : List Event)
    → 0 < max
    → max + amount < 2 ^ 31
    → All (Fits amount) es
    → let s = run es (new_server max) in
      (s.active ≤ max) × (s.conn_count ≡ s.active + s.rejecting) × (s.conn_count < 2 ^ 31)
active-le-limit amount max es hm room f =
    let c = run-Counted amount max hm room es (new_server max) f (new-Counted amount max) in
    omega (arith, c.bounded, c.counted, c.few)

accept-cases :
    (amount max : ℕ)
    → 0 < max
    → max + amount < 2 ^ 31
    → (s : Server) → Counted amount max s
    → 0 < s.accepting
    → ((act accepts s).rejecting
        ≡ (if leb max (s.active + s.rejecting) then s.rejecting + 1 else s.rejecting))
      × ((act accepts s).active
          ≡ (if leb max (s.active + s.rejecting) then s.active else s.active + 1))
unfolding act accept_conn
accept-cases amount max hm room s c free =
    ground (arith, c, over_limit_lem max (s.conn_count + 1) hm)

-- Under the same conditions a connection that is accepted is refused exactly if as many as the
-- limit are handled or about to be refused, and handled otherwise.
refused_iff :
    (amount max : ℕ) (es : List Event)
    → 0 < max
    → max + amount < 2 ^ 31
    → All (Fits amount) es
    → 0 < (run es (new_server max)).accepting
    → let s = run es (new_server max) in
      let t = act accepts s in
      (t.rejecting ≡ (if leb max (s.active + s.rejecting) then s.rejecting + 1 else s.rejecting))
      × (t.active ≡ (if leb max (s.active + s.rejecting) then s.active else s.active + 1))
refused_iff amount max es hm room f free =
    let c = run-Counted amount max hm room es (new_server max) f (new-Counted amount max) in
    accept-cases amount max hm room (run es (new_server max)) c free
