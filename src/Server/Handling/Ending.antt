-- ===== src/Server/Handling/Ending.antt =====
-- A connection of server/handler.go whose context has ended comes to its end.
use simple_message.Prelude.{
  ◌≡◌, ◌≢◌, inl, inr, refl, sym, ap, ◌∙◌, subst, true, false, List, [], ◌∷◌, map, Option, none,
  arith, Option-cases,
}
use simple_message.Errors.{Error}
use simple_message.Protocol.Wire.{All}
use simple_message.Protocol.Stream.{Stream}
use simple_message.Protocol.Decoder.{Decoder}
use simple_message.Connection.State.{Manager, SendPc, ReadPc}
use simple_message.Connection.Manager.Run
use simple_message.Connection.Manager.Invariant.{Flags, act-Flags, new-Flags}
use simple_message.Connection.Manager.Stopping.{Quits}
use simple_message.Connection.Manager.Stopping
use simple_message.Connection.Manager.Stopping.Ending.{end_stop}
use simple_message.Connection.Shutdown.{stop_with_timeout}
use simple_message.Server.Handling.{
  ConnPc, waiting, stopping, reporting, closing, ended, Handling, handling, Event, manages, goes_on,
  after_stop, go_on, act, run,
}

-- The connection's own actions
abbrev pub IsOwn : Event → Type 0
IsOwn (manages e) = Stopping.IsOwn e
IsOwn goes_on = Unit

closes-Flags : (h : Manager) → Flags h → Flags (record h { socket_open = false })
closes-Flags h f = ground (arith, f)

-- What StopWithTimeout and ConnErr have left when the goroutine stands where it does
abbrev pub At : {T : Type 0} → ConnPc → Handling T → Type 0
At waiting x = x.done ≡ false
At stopping x = x.done ≡ false
At reporting x = x.done ≡ true
At closing x = (x.done ≡ true) × (x.reported ≢ none)
At ended x = (x.done ≡ true) × (x.reported ≢ none)

pub record IsSound {T : Type 0} (x : Handling T) : Type 0 where
  pub flags : Flags x.manager
  pub place : At x.pc x

At-manager :
    {T : Type 0} (p : ConnPc) (x : Handling T) (h : Manager)
    → At p x
    → At p (record x { manager = h })
At-manager waiting x h a = a
At-manager stopping x h a = a
At-manager reporting x h a = a
At-manager closing x h a = a
At-manager ended x h a = a

module _ {T : Type 0} (stop_and_wait : T → Option Error × T) where
  -- StopWithTimeout closes done, whatever StopAndWait answers, and does not panic.
  stopped :
      (x : Handling T)
      → x.done ≡ false
      → after_stop stop_and_wait (stop_with_timeout stop_and_wait x.tasks x.done) x
        ≡ record x { tasks = (stop_and_wait x.tasks).1; done = true; pc = reporting }
  unfolding after_stop stop_with_timeout
  stopped x d = ground (arith, d)

  go_on-IsSound :
      (p : ConnPc) (x : Handling T)
      → x.pc ≡ p
      → Flags x.manager
      → At p x
      → IsSound (go_on stop_and_wait p x)
  unfolding go_on
  go_on-IsSound waiting x e f a = elim (Option-cases x.manager.ctx_err) [
    | inl c ↦ ground (arith, c, e, f, a)
    | inr (r, c) ↦ ground (arith, c, f, a)
  ]
  go_on-IsSound stopping x e f a =
      subst IsSound (sym (stopped x a)) (record { flags = f; place = refl })
  go_on-IsSound reporting x e f a = record { flags = f; place = (a, λ z. cc) }
  go_on-IsSound closing x e f a = record { flags = closes-Flags x.manager f; place = a }
  go_on-IsSound ended x e f a = record { flags = f; place = subst (λ p. At p x) (sym e) a }

  pub act-IsSound : (e : Event) (x : Handling T) → IsSound x → IsSound (act stop_and_wait e x)
  unfolding act
  act-IsSound (manages e) x i = record {
    flags = act-Flags e x.manager i.flags;
    place = At-manager x.pc x (Run.act e x.manager) i.place;
  }
  act-IsSound goes_on x i = go_on-IsSound x.pc x refl i.flags i.place

  run-IsSound : (es : List Event) (x : Handling T) → IsSound x → IsSound (run stop_and_wait es x)
  unfolding run
  run-IsSound [] x i = i
  run-IsSound (e ∷ es) x i = run-IsSound es (act stop_and_wait e x) (act-IsSound e x i)

  -- The end: the connection's goroutine has ended, with ConnErr called and done closed, and so have
  -- those of its manager, with the socket closed.
  abbrev pub Finished : Handling T → Type 0
  Finished y =
      (y.pc ≡ ended)
      × (y.done ≡ true)
      × (y.reported ≢ none)
      × (y.manager.send_pc ≡ SendPc.gone)
      × (y.manager.read_pc ≡ ReadPc.gone)
      × (y.manager.socket_open ≡ false)

  abbrev pub Finishes : Handling T → Type 0
  Finishes x = (es : List Event) × All IsOwn es × Finished (run stop_and_wait es x)

  next : (x y : Handling T) → act stop_and_wait goes_on x ≡ y → Finishes y → Finishes x
  unfolding run
  next x y q f = let (es, own, d) = subst Finishes (sym q) f in (goes_on ∷ es, (tt, own), d)

  lift :
      (es : List Run.Event) (x : Handling T)
      → run stop_and_wait (map manages es) x ≡ record x { manager = Run.run es x.manager }
  unfolding run act Run.run
  lift [] x = refl
  lift (e ∷ es) x = lift es (record x { manager = Run.act e x.manager })

  lift-IsOwn : (es : List Run.Event) → All Stopping.IsOwn es → All IsOwn (map manages es)
  lift-IsOwn [] o = tt
  lift-IsOwn (e ∷ es) o = (o.0, lift-IsOwn es o.1)

  ended_finishes :
      (x : Handling T)
      → x.pc ≡ ended
      → (x.done ≡ true) × (x.reported ≢ none)
      → x.manager.ctx_err ≢ none
      → Flags x.manager
      → Finishes x
  ended_finishes x e (d, r) c f =
      let (es, own, s, g, o) = end_stop x.manager.stop_pc x.manager refl c f in
      (map manages es, lift-IsOwn es own, subst Finished (sym (lift es x)) (e, d, r, s, g, o))

  closing_finishes :
      (x : Handling T)
      → x.pc ≡ closing
      → (x.done ≡ true) × (x.reported ≢ none)
      → x.manager.ctx_err ≢ none
      → Flags x.manager
      → Finishes x
  unfolding act go_on
  closing_finishes x e a c f =
      next x _ (ap (λ p. go_on stop_and_wait p x) e)
        (ended_finishes _ refl a c (closes-Flags x.manager f))

  reporting_finishes :
      (x : Handling T)
      → x.pc ≡ reporting
      → x.done ≡ true
      → x.manager.ctx_err ≢ none
      → Flags x.manager
      → Finishes x
  unfolding act go_on
  reporting_finishes x e a c f =
      next x _ (ap (λ p. go_on stop_and_wait p x) e) (closing_finishes _ refl (a, λ z. cc) c f)

  stopping_finishes :
      (x : Handling T)
      → x.pc ≡ stopping
      → x.done ≡ false
      → x.manager.ctx_err ≢ none
      → Flags x.manager
      → Finishes x
  unfolding act go_on
  stopping_finishes x e a c f =
      next x _ (ap (λ p. go_on stop_and_wait p x) e ∙ stopped x a)
        (reporting_finishes _ refl refl c f)

  select_ends :
      (x : Handling T)
      → x.manager.ctx_err ≢ none
      → go_on stop_and_wait waiting x ≡ record x { pc = stopping }
  unfolding go_on
  select_ends x c = ground (arith, c)

  finishes :
      (p : ConnPc) (x : Handling T)
      → x.pc ≡ p
      → At p x
      → x.manager.ctx_err ≢ none
      → Flags x.manager
      → Finishes x
  unfolding act
  finishes waiting x e a c f =
      next x _ (ap (λ p. go_on stop_and_wait p x) e ∙ select_ends x c)
        (stopping_finishes _ refl a c f)
  finishes stopping x e a c f = stopping_finishes x e a c f
  finishes reporting x e a c f = reporting_finishes x e a c f
  finishes closing x e a c f = closing_finishes x e a c f
  finishes ended x e a c f = ended_finishes x e a c f

  -- In every run of a connection whose context has ended, because the server was stopped or the
  -- manager was, the goroutine of the connection and those of its manager can all still end, by their
  -- own actions: StopWithTimeout closes done, whatever StopAndWait answers, ConnErr is called, and the
  -- socket is closed. A handler that runs is to return, and a Read and a Write on the closed socket.
  pub can_end_handling :
      (d : Decoder) (s : Stream) (tasks : T) (es : List Event)
      → (run stop_and_wait es (handling d s tasks)).manager.ctx_err ≢ none
      → Finishes (run stop_and_wait es (handling d s tasks))
  can_end_handling d s tasks es c =
      let x = run stop_and_wait es (handling d s tasks) in
      let i =
        run-IsSound es (handling d s tasks) (record { flags = new-Flags d s; place = refl }) in
      finishes x.pc x refl i.place c i.flags
