-- ===== src/Server/Running/Ending.antt =====
-- A server that was started comes to its end, and its connections with it.
use simple_message.Prelude.{
  ℕ, zero, suc, ◌<◌, true, List, [], ◌∷◌, Option, ◌≡◌, refl, sym, ap, ◌∙◌, subst, if◌then◌else◌,
  arith,
}
use native.Mathlib.Decide.{ℕ_discrete}
use simple_message.Errors.{Error}
use simple_message.Protocol.Wire.{All}
use simple_message.Protocol.Decoder.{Decoder}
use simple_message.Connection.Manager.Run
use simple_message.Server.Accept.{
  Server, Event, accept_fails, refuses, finishes, closes, accept_error, refuse_conn,
}
use simple_message.Server.Accept
use simple_message.Server.Accept.Lifecycle.{
  left_over, accept_fails-Lessens, refuses-Lessens, finishes-closes, final-done,
}
use simple_message.Server.Handling.Group.{linger, linger_all}
use simple_message.Server.Handling.Quitting.{Gone, OwnPair, Left, past_quits, overs-Left}
use simple_message.Server.Running.{
  Conn, Running, new_running, serves, manages, manage_at, cancel_conns, all_ended, outside,
  propagate, act, run,
}
use simple_message.Server.Running
use simple_message.Server.Running.Invariant.{Sound, AtEnd, count}
use simple_message.Server.Running.Outside.{propagate-server, all_ended-AtEnd}
use simple_message.Server.Running.Course.{IsSound, act-IsSound, run-IsSound, new-IsSound}
use simple_message.Server.Running.Connections.{handlings, handlings-Over, ended-Place}
use simple_message.Server.Running.Leaving.{IsOwn, Quiet, Idle, Can, first, next, idles, total}

module _ {T : Type 0} where
  -- The goroutines that have ended have been subtracted.
  ended-count : (cs : List (Conn T)) → All AtEnd cs → All Sound cs → count cs ≡ 0
  ended-count [] e s = refl
  ended-count (c ∷ cs) e s =
      let p = (ended-Place c e.0 s.0).0 in let r = ended-count cs e.1 s.1 in ground (arith, p, r)

  handlings-manage :
      (i : ℕ) (e : Run.Event) (cs : List (Conn T))
      → handlings (manage_at i e cs) ≡ linger i e (handlings cs)
  handlings-manage i e [] = refl
  handlings-manage zero e (c ∷ cs) = refl
  handlings-manage (suc i) e (c ∷ cs) = ap (λ xs. c.handling ∷ xs) (handlings-manage i e cs)

abbrev managing : List (ℕ × Run.Event) → List Running.Event
managing [] = []
managing ((i, e) ∷ ps) = manages i e ∷ managing ps

managing-IsOwn : (ps : List (ℕ × Run.Event)) → All OwnPair ps → All IsOwn (managing ps)
managing-IsOwn [] o = tt
managing-IsOwn (p ∷ ps) o = (o.0, managing-IsOwn ps o.1)

module _ {T : Type 0} (stop_and_wait : T → Option Error × T) (tasks : T) (d : Decoder) where
  -- What the managers do leaves the server alone.
  run-managing :
      (ps : List (ℕ × Run.Event)) (x : Running T)
      → let y = run stop_and_wait tasks d (managing ps) x in
        (y.server ≡ x.server) × (handlings y.conns ≡ linger_all ps (handlings x.conns))
  unfolding run act linger_all
  run-managing [] x = (refl, refl)
  run-managing ((i, e) ∷ ps) x =
      let (s, h) = run-managing ps (record x { conns = manage_at i e x.conns }) in
      (s, h ∙ ap (linger_all ps) (handlings-manage i e x.conns))

  -- The end of a server
  abbrev pub Ended : Running T → Type 0
  Ended x = (x.server.done ≡ true) × All Left (handlings x.conns)

  done_ends :
      (x : Running T)
      → IsSound stop_and_wait tasks d x
      → x.server.done ≡ true
      → Can stop_and_wait tasks d Ended x
  done_ends x i o =
      let over = handlings-Over x.conns (i.follows.over (final-done x.server o)) i.follows.conns in
      let (ps, own, gone) = past_quits (handlings x.conns) over in
      let (s, h) = run-managing ps x in
      let y = run stop_and_wait tasks d (managing ps) x in
      let j = run-IsSound stop_and_wait tasks d (managing ps) x i in
      let o' = ap (λ s. s.done) s ∙ o in
      (
        managing ps,
        managing-IsOwn ps own,
        (
          o',
          overs-Left (handlings y.conns)
              (handlings-Over y.conns (j.follows.over (final-done y.server o')) j.follows.conns)
              (subst (All Gone) (sym h) gone),
        ),
      )

  -- The goroutine of Start, behind the WaitGroups
  finishes_server :
      (x : Running T)
      → Idle stop_and_wait tasks d x
      → (act stop_and_wait tasks d (serves finishes) x).server ≡ Accept.act finishes x.server
  unfolding act
  finishes_server x i =
      propagate-server (record x { server = outside finishes x })
      ∙ ap (λ b. if b then Accept.act finishes x.server else x.server) i.ended

  closes_server :
      (y : Running T)
      → (act stop_and_wait tasks d (serves closes) y).server ≡ Accept.act closes y.server
  unfolding act
  closes_server y = propagate-server (record y { server = outside closes y })

  Idle-Can : (x : Running T) → Idle stop_and_wait tasks d x → Can stop_and_wait tasks d Ended x
  Idle-Can x i =
      let y = act stop_and_wait tasks d (serves finishes) x in
      let j = act-IsSound stop_and_wait tasks d (serves finishes) x i.sound in
      let a =
        i.sound.follows.active
        ∙ ended-count x.conns (all_ended-AtEnd x.conns i.ended) i.sound.follows.conns in
      let done =
        ap (λ s. s.done) (closes_server y ∙ ap (Accept.act closes) (finishes_server x i))
        ∙ finishes-closes x.server i.quiet.started i.sound.serving i.quiet.accepting
            i.quiet.rejecting a in
      next stop_and_wait tasks d Ended (serves finishes) x tt (
        next stop_and_wait tasks d Ended (serves closes) y tt
          (done_ends _ (act-IsSound stop_and_wait tasks d (serves closes) y j) done))

  Quiet-Can :
      (x : Running T)
      → IsSound stop_and_wait tasks d x
      → Quiet x.server
      → Can stop_and_wait tasks d Ended x
  Quiet-Can x i q =
      let (es, own, idle) = idles stop_and_wait tasks d (suc (total x.conns)) x (omega arith) i q in
      first stop_and_wait tasks d Ended es x own (Idle-Can _ idle)

  -- One accept goroutine returns from Accept with an error, or finishes a refusal.
  accepting_ends :
      (n : ℕ) (x : Running T)
      → left_over x.server < n
      → x.server.started ≡ true
      → IsSound stop_and_wait tasks d x
      → Can stop_and_wait tasks d Ended x
  unfolding act
  accepting_ends zero x h st i = absurd (omega (arith, h))
  accepting_ends (suc n) x h st i = elim (ℕ_discrete x.server.accepting 0) [
    | no a ↦
        let l = accept_fails-Lessens x.server a in
        let s = propagate-server (record x { server = outside accept_fails x }) in
        next stop_and_wait tasks d Ended (serves accept_fails) x tt (
          accepting_ends n _ (subst (λ t. left_over t < n) (sym s) (omega (arith, l.0, h)))
            (ap (λ t. t.started) s ∙ l.1 ∙ st)
            (act-IsSound stop_and_wait tasks d (serves accept_fails) x i))
    | yes a ↦ elim (ℕ_discrete x.server.rejecting 0) [
      | no r ↦
          let l = refuses-Lessens x.server r in
          let s = propagate-server (record x { server = outside refuses x }) in
          next stop_and_wait tasks d Ended (serves refuses) x tt (
            accepting_ends n _ (subst (λ t. left_over t < n) (sym s) (omega (arith, l.0, h)))
              (ap (λ t. t.started) s ∙ l.1 ∙ st)
              (act-IsSound stop_and_wait tasks d (serves refuses) x i))
      | yes r ↦ Quiet-Can x i (record {
        accepting = a;
        rejecting = r;
        started = st;
        canceled = i.serving.left (omega (arith, i.serving.manned st, a, r));
      })
    ]
  ]

  -- A server that was started can in every run still come to its end, by its own goroutines and those
  -- of its connections' managers, if Accept returns with an error and a handler that runs returns,
  -- and so do a Read and a Write on a closed socket: done is then closed, and of every connection
  -- that it let in ConnErr has been called, the socket and the manager's done are closed, and the
  -- goroutines have ended.
  pub can_end_server :
      (max : ℕ) (es : List Running.Event)
      → let x = run stop_and_wait tasks d es (new_running max) in
        x.server.started ≡ true
        → (fs : List Running.Event) × All IsOwn fs
          × (let y = run stop_and_wait tasks d fs x in
              (y.server.done ≡ true) × All Left (handlings y.conns))
  can_end_server max es st =
      let x = run stop_and_wait tasks d es (new_running max) in
      let i =
        run-IsSound stop_and_wait tasks d es (new_running max)
          (new-IsSound stop_and_wait tasks d max) in
      accepting_ends (suc (left_over x.server)) x (omega arith) st i
