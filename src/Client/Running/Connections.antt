-- ===== src/Client/Running/Connections.antt =====
-- What the connections of a client are like in a run, and what the run is to its users.
use simple_message.Prelude.{
  ℕ, Bool, true, List, [], ◌∷◌, ◌++◌, length, Option, none, some, ◌≡◌, ◌≢◌, refl, sym, ap, ◌∙◌,
  subst, if-holds,
}
use simple_message.Errors.{Error}
use simple_message.Protocol.Wire.{All}
use simple_message.Protocol.Stream.{Stream}
use simple_message.Protocol.Decoder.{Decoder}
use simple_message.Server.Handling.{Handling, handling, ConnPc, ended}
use simple_message.Server.Handling
use simple_message.Server.Handling.Quitting.{Behind, overs-Behind}
use simple_message.Client.Lifecycle.{Life, Phase, connected, dialing, new_life}
use simple_message.Client.Lifecycle
use simple_message.Client.Running.{
  Running, new_running, Event, lives, connects, manages, goes_on, lingers, outside, connect,
  go_on_current, hang_up, propagate, act, run,
}
use simple_message.Client.Running.Invariant.{Place, newest}
use simple_message.Client.Running.Course.{run-IsSound, new-IsSound}

module _ {T : Type 0} where
  -- The current connection is the one that dialAndRun waits for, and its context ends with the
  -- client's.
  abbrev pub IsCurrent : Option (Handling T) → Running T → Type 0
  IsCurrent none x = (j : ℕ) → x.life.phase ≢ connected j
  IsCurrent (some y) x =
      (x.life.phase ≡ connected (length x.past))
      × (x.life.canceled ≡ true → y.manager.ctx_err ≢ none)

  Place-IsCurrent : (c : Option (Handling T)) (x : Running T) → Place c x → IsCurrent c x
  Place-IsCurrent none x p = p
  Place-IsCurrent (some y) x p = (p.0, p.3)

module _ {T : Type 0} (stop_and_wait : T → Option Error × T) (tasks : T) (d : Decoder) where
  -- In every run a client has one connection at most: of every earlier one the socket and the
  -- manager's done are closed and ConnErr has been called. connPointer is the connection made last,
  -- dialAndRun waits exactly while there is a current one, and if the client's context has ended that
  -- of its manager has.
  pub one_connection :
      (action : Bool) (es : List Event)
      → let x = run stop_and_wait tasks d es (new_running action) in
        All Behind x.past
        × (x.life.conn_pointer ≡ newest x.current (length x.past))
        × IsCurrent x.current x
  one_connection action es =
      let x = run stop_and_wait tasks d es (new_running action) in
      let i =
        run-IsSound stop_and_wait tasks d es (new_running action)
          (new-IsSound stop_and_wait tasks d action) in
      (overs-Behind x.past i.over, i.pointer, Place-IsCurrent x.current x i.place)

  -- The life of a client with its connections, as one event of its goroutine or none
  Follows : Life → Life → Type 0
  Follows l k = (es : List Lifecycle.Event) × (k ≡ Lifecycle.run es l)

  Follows-none : (l : Life) → Follows l l
  unfolding Follows Lifecycle.run
  Follows-none l = ([], refl)

  Follows-one : (e : Lifecycle.Event) (l : Life) → Follows l (Lifecycle.act e l)
  unfolding Follows Lifecycle.run
  Follows-one e l = (e ∷ [], refl)

  outside-Follows : (e : Lifecycle.Event) (l : Life) → Follows l (outside e l)
  outside-Follows (Lifecycle.connects conn) l = Follows-none l
  outside-Follows Lifecycle.hangs_up l = Follows-none l
  outside-Follows Lifecycle.starts l = Follows-one Lifecycle.starts l
  outside-Follows Lifecycle.stops l = Follows-one Lifecycle.stops l
  outside-Follows Lifecycle.cancels l = Follows-one Lifecycle.cancels l
  outside-Follows Lifecycle.tests l = Follows-one Lifecycle.tests l
  outside-Follows Lifecycle.fails l = Follows-one Lifecycle.fails l
  outside-Follows Lifecycle.wakes l = Follows-one Lifecycle.wakes l
  outside-Follows Lifecycle.closes l = Follows-one Lifecycle.closes l

  propagate-life : (x : Running T) → (propagate x).life ≡ x.life
  unfolding propagate
  propagate-life x =
      if-holds (λ (y : Running T). y.life ≡ x.life) x.life.canceled (λ e. refl) (λ e. refl)

  propagate-Follows : (l : Life) (x : Running T) → Follows l x.life → Follows l (propagate x).life
  propagate-Follows l x f = subst (Follows l) (sym (propagate-life x)) f

  hang_up-Follows :
      (p : ConnPc) (z : Handling T) (x : Running T)
      → Follows x.life (hang_up stop_and_wait tasks d p z x).life
  unfolding hang_up
  hang_up-Follows ended z x = Follows-one Lifecycle.hangs_up x.life
  hang_up-Follows _ z x = Follows-none x.life

  go_on-Follows :
      (c : Option (Handling T)) (x : Running T)
      → Follows x.life (go_on_current stop_and_wait tasks d c x).life
  unfolding go_on_current
  go_on-Follows none x = Follows-none x.life
  go_on-Follows (some y) x =
      let z = Handling.act stop_and_wait Handling.goes_on y in hang_up-Follows z.pc z x

  connect-Follows :
      (s : Stream) (p : Phase) (x : Running T)
      → Follows x.life (connect stop_and_wait tasks d s p x).life
  unfolding connect
  connect-Follows s dialing x =
      let y : Running T = record x {
        life = Lifecycle.act (Lifecycle.connects (length x.past)) x.life;
        current = some (handling d s tasks);
      } in
      propagate-Follows x.life y (Follows-one (Lifecycle.connects (length x.past)) x.life)
  connect-Follows s _ x = Follows-none x.life

  act-Follows : (e : Event) (x : Running T) → Follows x.life (act stop_and_wait tasks d e x).life
  unfolding act
  act-Follows (lives e) x =
      propagate-Follows x.life (record x { life = outside e x.life }) (outside-Follows e x.life)
  act-Follows (connects s) x = connect-Follows s x.life.phase x
  act-Follows (manages e) x = Follows-none x.life
  act-Follows goes_on x = go_on-Follows x.current x
  act-Follows (lingers j e) x = Follows-none x.life

  life-append :
      (es fs : List Lifecycle.Event) (l : Life)
      → Lifecycle.run (es ++ fs) l ≡ Lifecycle.run fs (Lifecycle.run es l)
  unfolding Lifecycle.run
  life-append [] fs l = refl
  life-append (e ∷ es) fs l = life-append es fs (Lifecycle.act e l)

  run-Follows :
      (es : List Event) (x : Running T) → Follows x.life (run stop_and_wait tasks d es x).life
  unfolding run Follows Lifecycle.run
  run-Follows [] x = ([], refl)
  run-Follows (e ∷ es) x =
      let (fs, p) = act-Follows e x in
      let (gs, q) = run-Follows es (act stop_and_wait tasks d e x) in
      (fs ++ gs, q ∙ ap (Lifecycle.run gs) p ∙ sym (life-append fs gs x.life))

  -- To its users a client with its connections and their managers is what the client is on its own:
  -- in every run Start, Stop, IsStoped, the dials and done are those of a run of the goroutine of
  -- start with its users, in which a connection is a time that passes.
  pub run-Life :
      (action : Bool) (es : List Event)
      → (fs : List Lifecycle.Event) × ((run stop_and_wait tasks d es (new_running action)).life
          ≡ Lifecycle.run fs (new_life action))
  unfolding Follows
  run-Life action es = run-Follows es (new_running action)
