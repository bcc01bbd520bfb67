-- ===== src/Client/Running/Course.antt =====
-- Runs of a client with its connections.
use simple_message.Prelude.{
  ℕ, Bool, List, [], ◌∷◌, length, Option, none, some, ◌≡◌, ◌≢◌, refl, ap, ◌∙◌, arith, subst,
}
use simple_message.Errors.{Error}
use simple_message.Protocol.Stream.{Stream}
use simple_message.Protocol.Decoder.{Decoder}
use simple_message.Connection.Manager.Invariant.{new-Flags}
use simple_message.Server.Handling.{
  ConnPc, Handling, handling, waiting, stopping, reporting, closing, ended,
}
use simple_message.Server.Handling
use simple_message.Server.Handling.Ending.{IsSound as Handled, act-IsSound as act-Handled}
use simple_message.Server.Handling.Going.{Goes, goes_on-Goes}
use simple_message.Client.Lifecycle.{
  Life, Phase, new_life, dialing, connected, resting, checking, sleeping, returned,
}
use simple_message.Client.Lifecycle
use simple_message.Client.Running.{
  Running, new_running, Event, lives, connects, manages, goes_on, lingers, connect, hang_up,
  go_on_current, act, run,
}
use simple_message.Client.Running.Invariant.{newest, Place, IsSound}
use simple_message.Client.Running.Preserving.{
  propagate-IsSound, lives-IsSound, manages-IsSound, lingers-IsSound,
}

hangs-IsSound :
    (l : Life) (n : ℕ)
    → Lifecycle.IsSound l
    → l.phase ≡ connected n
    → Lifecycle.IsSound (Lifecycle.act Lifecycle.hangs_up l)
      × ((Lifecycle.act Lifecycle.hangs_up l).conn_pointer ≡ l.conn_pointer)
      × ((j : ℕ) → (Lifecycle.act Lifecycle.hangs_up l).phase ≢ connected j)
unfolding Lifecycle.act Lifecycle.step
hangs-IsSound l n i e =
    (Lifecycle.act-IsSound Lifecycle.hangs_up l i, ground (arith, e), λ j. ground (arith, e))

dials-IsSound :
    (l : Life) (n : ℕ)
    → Lifecycle.IsSound l
    → l.phase ≡ dialing
    → let k = Lifecycle.act (Lifecycle.connects n) l in
      Lifecycle.IsSound k × (k.conn_pointer ≡ some n) × (k.phase ≡ connected n)
unfolding Lifecycle.act Lifecycle.step
dials-IsSound l n i e =
    (Lifecycle.act-IsSound (Lifecycle.connects n) l i, ground (arith, e), ground (arith, e))

module _ {T : Type 0} (stop_and_wait : T → Option Error × T) (tasks : T) (d : Decoder) where
  stays-IsSound :
      (y z : Handling T) (x : Running T)
      → z.pc ≢ ended
      → x.current ≡ some y
      → Place (some y) x
      → Handled z
      → Goes y z
      → IsSound x
      → IsSound (record x { current = some z })
  stays-IsSound y z x n c p h g i = record {
    lively = i.lively;
    place = (p.0, record { handled = h; context = g.context }, n, λ t. g.kept (p.3 t));
    over = i.over;
    pointer = i.pointer ∙ ap (λ c. newest c (length x.past)) c;
  }

  hang_up-IsSound :
      (p : ConnPc) (y z : Handling T) (x : Running T)
      → z.pc ≡ p
      → x.current ≡ some y
      → Place (some y) x
      → Handled z
      → Goes y z
      → IsSound x
      → IsSound (hang_up stop_and_wait tasks d p z x)
  unfolding hang_up
  hang_up-IsSound ended y z x e c p h g i =
      let (lively, same, apart) = hangs-IsSound x.life (length x.past) i.lively p.0 in
      record {
        lively = lively;
        place = apart;
        over = (
          record {
            at_end = e;
            linked = record { handled = h; context = g.context };
            closed = g.closed e;
          },
          i.over,
        );
        pointer = same ∙ i.pointer ∙ ap (λ c. newest c (length x.past)) c;
      }
  hang_up-IsSound waiting y z x e c p h g i = stays-IsSound y z x (λ f. ground arith) c p h g i
  hang_up-IsSound stopping y z x e c p h g i = stays-IsSound y z x (λ f. ground arith) c p h g i
  hang_up-IsSound reporting y z x e c p h g i = stays-IsSound y z x (λ f. ground arith) c p h g i
  hang_up-IsSound closing y z x e c p h g i = stays-IsSound y z x (λ f. ground arith) c p h g i

  go_on-IsSound :
      (c : Option (Handling T)) (x : Running T)
      → x.current ≡ c
      → IsSound x
      → IsSound (go_on_current stop_and_wait tasks d c x)
  unfolding go_on_current
  go_on-IsSound none x e i = i
  go_on-IsSound (some y) x e i =
      let p : Place (some y) x = subst (λ c. Place c x) e i.place in
      let z = Handling.act stop_and_wait Handling.goes_on y in
      hang_up-IsSound z.pc y z x refl e p (act-Handled stop_and_wait Handling.goes_on y p.1.handled)
        (goes_on-Goes stop_and_wait y p.1.context p.2) i

  connect-IsSound :
      (s : Stream) (p : Phase) (x : Running T)
      → x.life.phase ≡ p
      → IsSound x
      → IsSound (connect stop_and_wait tasks d s p x)
  unfolding connect
  connect-IsSound s dialing x e i =
      let (lively, pointer, phase) = dials-IsSound x.life (length x.past) i.lively e in
      let y : Running T = record x {
        life = Lifecycle.act (Lifecycle.connects (length x.past)) x.life;
        current = some (handling d s tasks);
      } in
      propagate-IsSound y (record {
        lively = lively;
        place = (
          phase,
          record {
            handled = record { flags = new-Flags d s; place = refl };
            context = λ n. absurd (n refl);
          },
          λ n. cc,
        );
        over = i.over;
        pointer = pointer;
      })
  connect-IsSound s _ x e i = i

  pub act-IsSound :
      (e : Event) (x : Running T) → IsSound x → IsSound (act stop_and_wait tasks d e x)
  unfolding act
  act-IsSound (lives e) x i = lives-IsSound e x i
  act-IsSound (connects s) x i = connect-IsSound s x.life.phase x refl i
  act-IsSound (manages e) x i = manages-IsSound e x i
  act-IsSound goes_on x i = go_on-IsSound x.current x refl i
  act-IsSound (lingers j e) x i = lingers-IsSound j e x i

  pub run-IsSound :
      (es : List Event) (x : Running T) → IsSound x → IsSound (run stop_and_wait tasks d es x)
  unfolding run
  run-IsSound [] x i = i
  run-IsSound (e ∷ es) x i = run-IsSound es (act stop_and_wait tasks d e x) (act-IsSound e x i)

  pub new-IsSound : (action : Bool) → IsSound (new_running {T = T} action)
  unfolding new_life
  new-IsSound action = record {
    lively = Lifecycle.new-IsSound action;
    place = λ j e. cc;
    over = tt;
    pointer = refl;
  }
