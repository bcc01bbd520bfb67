-- ===== src/Client/Running/Redialing.antt =====
-- A client dials again when its connection breaks.
use simple_message.Prelude.{
  suc, true, false, List, [], ◌∷◌, map, length, Option, some, none, ◌≡◌, refl, sym, ap, ◌∙◌, arith,
  subst, if-holds,
}
use simple_message.Errors.{Error}
use simple_message.Protocol.Wire.{All}
use simple_message.Protocol.Decoder.{Decoder}
use simple_message.Connection.Manager.Run
use simple_message.Connection.Manager.Stopping
use simple_message.Connection.Manager.Stopping.Breaking.{IsBroken, broken-Breaks}
use simple_message.Server.Handling.{Handling}
use simple_message.Server.Handling.Group.{manage}
use simple_message.Server.Handling.Quitting.{Behind, overs-Behind}
use simple_message.Client.Lifecycle.{Life, new_life, sleeping, dialing}
use simple_message.Client.Lifecycle
use simple_message.Client.Running.{
  Running, new_running, Event, lives, manages, outside, propagate, act, run,
}
use simple_message.Client.Running.Invariant.{Place, IsSound}
use simple_message.Client.Running.Course.{run-IsSound, new-IsSound}
use simple_message.Client.Running.Lifting.{run-manages}
use simple_message.Client.Running.Leaving.{IsOwn, Can, first}
use simple_message.Client.Running.Connections.{run-Life}
use simple_message.Client.Running.Hanging.{Hung, hangs}

managing-IsOwn : (es : List Run.Event) → All Stopping.IsOwn es → All IsOwn (map manages es)
managing-IsOwn [] o = tt
managing-IsOwn (e ∷ es) o = (o.0, managing-IsOwn es o.1)

new-has_action : (new_life true).has_action ≡ true
unfolding new_life
new-has_action = refl

module _ {T : Type 0} (stop_and_wait : T → Option Error × T) (tasks : T) (d : Decoder) where
  -- It is at a dial, one more than before, and has one more connection behind it.
  pub record Redials (x y : Running T) : Type 0 where
    pub none_left : y.current ≡ none
    pub at_dial : y.life.phase ≡ dialing
    pub dials : y.life.dials ≡ suc x.life.dials
    pub behind : All Behind y.past
    pub grows : length y.past ≡ suc (length x.past)

  wakes_up :
      (l : Life)
      → l.phase ≡ sleeping
      → l.canceled ≡ false
      → l.has_action ≡ true
      → let k = outside Lifecycle.tests (outside Lifecycle.wakes l) in
        (k.phase ≡ dialing)
        × (k.dials ≡ suc l.dials)
        × (k.canceled ≡ false)
        × ((outside Lifecycle.wakes l).canceled ≡ false)
  unfolding Lifecycle.act Lifecycle.step
  wakes_up l p c a = ground (arith, p, c, a)

  uncanceled : (x : Running T) → x.life.canceled ≡ false → propagate x ≡ x
  unfolding propagate
  uncanceled x c =
      if-holds (λ (y : Running T). y ≡ x) x.life.canceled (λ e. absurd (cc)) (λ e. refl)

  two_lives :
      (y : Running T)
      → (outside Lifecycle.wakes y.life).canceled ≡ false
      → (outside Lifecycle.tests (outside Lifecycle.wakes y.life)).canceled ≡ false
      → run stop_and_wait tasks d (lives Lifecycle.wakes ∷ lives Lifecycle.tests ∷ []) y
        ≡ record y { life = outside Lifecycle.tests (outside Lifecycle.wakes y.life) }
  unfolding run act
  two_lives y a b =
      let l = outside Lifecycle.wakes y.life in
      ap (act stop_and_wait tasks d (lives Lifecycle.tests)) (uncanceled (record y { life = l }) a)
      ∙ uncanceled (record y { life = outside Lifecycle.tests l }) b

  Hung-Redials :
      (x y : Running T)
      → Hung x y
      → IsSound y
      → x.life.canceled ≡ false
      → x.life.has_action ≡ true
      → Can stop_and_wait tasks d (Redials x) y
  Hung-Redials x y h i c a =
      let (p, n, canceled, before) =
        wakes_up y.life (ap (λ l. l.phase) h.life) (ap (λ l. l.canceled) h.life ∙ c)
          (ap (λ l. l.has_action) h.life ∙ a) in
      (
        lives Lifecycle.wakes ∷ lives Lifecycle.tests ∷ [],
        (tt, (tt, tt)),
        subst (Redials x) (sym (two_lives y before canceled)) (record {
          none_left = h.none_left;
          at_dial = p;
          dials = n ∙ ap (λ l. suc l.dials) h.life;
          behind = overs-Behind y.past i.over;
          grows = h.grows;
        }),
      )

  -- In every run, if the manager of a client's connection has begun to end, because the connection
  -- broke or was closed from within a handler, the client, if it has not been stopped, can always come
  -- to its next dial, by its own actions and those of the manager, if a handler that runs returns, and so do
  -- the Write that is under way, whose socket is still open if only Close was called, and a Read on a
  -- closed socket: the connection is then behind it, with the socket and done closed and ConnErr
  -- called.
  pub can_redial :
      (es : List Event) (y : Handling T)
      → let x = run stop_and_wait tasks d es (new_running true) in
        x.current ≡ some y
        → IsBroken y.manager
        → x.life.canceled ≡ false
        → (fs : List Event) × All IsOwn fs × Redials x (run stop_and_wait tasks d fs x)
  can_redial es y e b c =
      let x = run stop_and_wait tasks d es (new_running true) in
      let i =
        run-IsSound stop_and_wait tasks d es (new_running true)
          (new-IsSound stop_and_wait tasks d true) in
      let p : Place (some y) x = subst (λ c. Place c x) e i.place in
      let (gs, own, ctx) = broken-Breaks y.manager b p.1.handled.flags in
      let x' = run stop_and_wait tasks d (map manages gs) x in
      let same = run-manages stop_and_wait tasks d gs y x e own in
      let j = run-IsSound stop_and_wait tasks d (map manages gs) x i in
      let (hs, owns, h) =
        hangs stop_and_wait tasks d x' (manage (Run.run gs) y) (ap (λ w. w.current) same) ctx j in
      let k = run-IsSound stop_and_wait tasks d hs x' j in
      let z = run stop_and_wait tasks d hs x' in
      let g = subst (λ w. Hung w z) same h in
      let (fs, l) = run-Life stop_and_wait tasks d true es in
      let action =
        ap (λ l. l.has_action) l ∙ Lifecycle.run-has_action fs (new_life true) ∙ new-has_action in
      first stop_and_wait tasks d (Redials x) (map manages gs) x (managing-IsOwn gs own) (
        first stop_and_wait tasks d (Redials x) hs x' owns (
          Hung-Redials x z (record { none_left = g.none_left; life = g.life; grows = g.grows }) k c
            action))
