-- ===== src/Server/Running/Connections.antt =====
-- What the connections of a server are like in a run, and what the run is to its users.
use simple_message.Prelude.{
  ◌<◌, ◌≤◌, ◌+◌, ◌^◌, sym, arith, ℕ, true, false, List, [], ◌∷◌, Option, inl, inr, ◌⊎◌, ◌≡◌, subst,
  Bool-cases,
}
use simple_message.Errors.{Error}
use simple_message.Protocol.Wire.{All}
use simple_message.Protocol.Decoder.{Decoder}
use simple_message.Server.Accept.{new_server}
use simple_message.Server.Accept
use simple_message.Server.Accept.Limit.{Fits, active-le-limit}
use simple_message.Server.Accept.Lifecycle.{final-done, done-canceled}
use simple_message.Server.Handling.{Handling, ended}
use simple_message.Server.Handling.Linked.{Over}
use simple_message.Server.Handling.Quitting.{Behind, overs-Behind}
use simple_message.Server.Running.{Conn, new_running, Event, run}
use simple_message.Server.Running.Invariant.{Place, Sound, Canceled, AtEnd, count}
use simple_message.Server.Running.Course.{run-IsSound, new-IsSound, Runs, run-Runs, Outer}

module _ {T : Type 0} where
  abbrev pub handlings : List (Conn T) → List (Handling T)
  handlings [] = []
  handlings (c ∷ cs) = c.handling ∷ handlings cs

  pub ended-Place : (c : Conn T) → AtEnd c → Sound c → Place ended c
  ended-Place c e s = subst (λ p. Place p c) e s.place

  pub handlings-Over : (cs : List (Conn T)) → All AtEnd cs → All Sound cs → All Over (handlings cs)
  handlings-Over [] e s = tt
  handlings-Over (c ∷ cs) e s = (
    record { at_end = e.0; linked = s.0.linked; closed = (ended-Place c e.0 s.0).1 },
    handlings-Over cs e.1 s.1,
  )

module _ {T : Type 0} (stop_and_wait : T → Option Error × T) (tasks : T) (d : Decoder) where
  -- In every run of a server done is closed at most once, and only when all is over: the server is
  -- then not running and its context has ended, every accept goroutine has returned, and of every
  -- connection that it let in ConnErr has been called, the socket and the manager's done are closed,
  -- and the goroutine has ended.
  pub done_after_all :
      (max : ℕ) (es : List Event)
      → let x = run stop_and_wait tasks d es (new_running max) in
        (x.server.panicked ≡ false)
        × ((x.server.done ≡ false)
            ⊎ ((x.server.running ≡ false)
                × (x.server.canceled ≡ true)
                × (x.server.accepting ≡ 0)
                × (x.server.rejecting ≡ 0)
                × All Behind (handlings x.conns)))
  done_after_all max es =
      let x = run stop_and_wait tasks d es (new_running max) in
      let i =
        run-IsSound stop_and_wait tasks d es (new_running max)
          (new-IsSound stop_and_wait tasks d max) in
      (
        i.serving.calm,
        elim (Bool-cases x.server.done) [
          | inl o ↦
              let last = final-done x.server o in
              inr (
                (i.serving.once o).0,
                done-canceled x.server i.serving o,
                (i.serving.ended last).0,
                (i.serving.ended last).1,
                overs-Behind _ (handlings-Over x.conns (i.follows.over last) i.follows.conns),
              )
          | inr o ↦ inl o
        ],
      )

  -- To Start, Stop and the accept goroutines a run of a server with its connections and their managers
  -- is a run of the server alone. What holds of each event from outside, and of accepting and of the
  -- end of a connection, holds of each event of that run. The connections that the server counts as
  -- handled are those whose goroutine has not subtracted them, and once its context has ended so have
  -- those of all managers.
  run-Server :
      (P : Accept.Event → Type 0)
      → P Accept.accepts × P Accept.ends
      → (max : ℕ) (es : List Event) → All (Outer P) es
      → let x = run stop_and_wait tasks d es (new_running max) in
        Runs P (new_server max) x.server
        × (x.server.active ≡ count x.conns)
        × (x.server.canceled ≡ true → All Canceled x.conns)
  run-Server P p max es o =
      let start = new-IsSound stop_and_wait tasks d max in
      let i = run-IsSound stop_and_wait tasks d es (new_running max) start in
      (
        run-Runs stop_and_wait tasks d P p es (new_running max) o start,
        i.follows.active,
        i.follows.context,
      )

  -- With a positive limit, whose sum with the number of accept goroutines is below 2 ^ 31, no run
  -- ever has more connections, of those let in, than the limit, but for those that wait only for
  -- their sockets to be closed; connCount is the number of these connections and of those that are
  -- about to be refused, and does not overflow.
  pub few_connections :
      (amount max : ℕ) (es : List Event)
      → 0 < max
      → max + amount < 2 ^ 31
      → All (Outer (Fits amount)) es
      → let x = run stop_and_wait tasks d es (new_running max) in
        (count x.conns ≤ max)
        × (x.server.conn_count ≡ count x.conns + x.server.rejecting)
        × (x.server.conn_count < 2 ^ 31)
  few_connections amount max es hm room f =
      let x = run stop_and_wait tasks d es (new_running max) in
      let ((fs, fit, same), active, c) = run-Server (Fits amount) (tt, tt) max es f in
      let l = active-le-limit amount max fs hm room fit in
      let (few, counted, bounded) =
        subst
          (λ s.
            (s.active ≤ max) × (s.conn_count ≡ s.active + s.rejecting) × (s.conn_count < 2 ^ 31))
          (sym same) l in
      omega (arith, few, counted, bounded, active)
