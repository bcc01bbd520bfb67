-- ===== src/Client/Running/Leaving.antt =====
-- A client without a current connection comes to its end, if its context has ended.
use simple_message.Prelude.{
  ℕ, true, List, [], ◌∷◌, ◌++◌, map, Option, none, ◌≡◌, refl, sym, ap, ◌∙◌, subst, if-holds,
}
use simple_message.Errors.{Error}
use simple_message.Protocol.Wire.{All, All-append}
use simple_message.Protocol.Decoder.{Decoder}
use simple_message.Connection.Manager.Run
use simple_message.Connection.Manager.Stopping
use simple_message.Server.Handling.Group.{linger_all}
use simple_message.Server.Handling.Quitting.{Gone, OwnPair, past_quits, cancel-Gone}
use simple_message.Client.Lifecycle.{connected, Life}
use simple_message.Client.Lifecycle
use simple_message.Client.Lifecycle.Ending.{IsQuiet, ends_alone}
use simple_message.Client.Running.{
  Running, Event, lives, connects, manages, goes_on, lingers, cancel_current, outside, propagate,
  act, run,
}
use simple_message.Client.Running.Invariant.{Place, IsSound}
use simple_message.Client.Running.Course.{run-IsSound}
use simple_message.Client.Running.Lifting.{lingering, run-lingers, run-append}

-- The client's own actions, those of its managers, the return of a handler, and the failure of a dial
abbrev pub IsOwn : Event → Type 0
IsOwn (lives e) = IsQuiet e
IsOwn (connects s) = ⊥
IsOwn (manages e) = Stopping.IsOwn e
IsOwn goes_on = Unit
IsOwn (lingers i e) = Stopping.IsOwn e

lingering-IsOwn : (ps : List (ℕ × Run.Event)) → All OwnPair ps → All IsOwn (lingering ps)
lingering-IsOwn [] o = tt
lingering-IsOwn (p ∷ ps) o = (o.0, lingering-IsOwn ps o.1)

lives-IsOwn : (es : List Lifecycle.Event) → All IsQuiet es → All IsOwn (map lives es)
lives-IsOwn [] o = tt
lives-IsOwn (e ∷ es) o = (o.0, lives-IsOwn es o.1)

quiet-outside : (e : Lifecycle.Event) (l : Life) → IsQuiet e → outside e l ≡ Lifecycle.act e l
quiet-outside Lifecycle.hangs_up l q = absurd q
quiet-outside (Lifecycle.connects n) l q = absurd q
quiet-outside _ l q = refl

module _ {T : Type 0} (stop_and_wait : T → Option Error × T) (tasks : T) (d : Decoder) where
  abbrev pub Ended : ℕ → Running T → Type 0
  Ended n y = (y.life.done ≡ true) × (y.life.dials ≡ n) × (y.current ≡ none) × All Gone y.past

  -- The client can come where `P` holds.
  abbrev pub Can : (Running T → Type 0) → Running T → Type 0
  Can P x = (es : List Event) × All IsOwn es × P (run stop_and_wait tasks d es x)

  pub first :
      (P : Running T → Type 0) (es : List Event) (x : Running T)
      → All IsOwn es
      → Can P (run stop_and_wait tasks d es x)
      → Can P x
  first P es x o (fs, own, e) = (
    es ++ fs,
    All-append IsOwn es fs o own,
    subst P (sym (run-append stop_and_wait tasks d es fs x)) e,
  )

  -- It can come to its end with no more dials than `n`.
  abbrev pub CanEnd : ℕ → Running T → Type 0
  CanEnd n = Can (Ended n)

  -- Where there is no connection
  record Alone (l : Life) (x : Running T) : Type 0 where
    life : x.life ≡ l
    none_left : x.current ≡ none
    gone : All Gone x.past

  propagate-Alone : (l : Life) (x : Running T) → Alone l x → Alone l (propagate x)
  unfolding propagate
  propagate-Alone l x a =
      if-holds (Alone l) x.life.canceled
        (λ e. record {
          life = a.life;
          none_left = ap cancel_current a.none_left;
          gone = cancel-Gone x.past a.gone;
        })
        (λ e. a)

  run-Alone :
      (es : List Lifecycle.Event) (l : Life) (x : Running T)
      → All IsQuiet es
      → Alone l x
      → Alone (Lifecycle.run es l) (run stop_and_wait tasks d (map lives es) x)
  unfolding act run Lifecycle.run
  run-Alone [] l x q a = a
  run-Alone (e ∷ es) l x q a =
      run-Alone es (Lifecycle.act e l) (act stop_and_wait tasks d (lives e) x) q.1 (
        propagate-Alone (Lifecycle.act e l) (record x { life = outside e x.life })
          (record {
            life = ap (outside e) a.life ∙ quiet-outside e l q.0;
            none_left = a.none_left;
            gone = a.gone;
          }))

  alone_ends :
      (x : Running T)
      → x.current ≡ none
      → IsSound x
      → x.life.canceled ≡ true
      → x.life.started ≡ true
      → All Gone x.past
      → CanEnd x.life.dials x
  alone_ends x n i c s g =
      let (es, quiet, done, same) =
        ends_alone x.life x.life.phase refl (subst (λ c. Place c x) n i.place) c s i.lively in
      let a = run-Alone es x.life x quiet (record { life = refl; none_left = n; gone = g }) in
      (
        map lives es,
        lives-IsOwn es quiet,
        (ap (λ l. l.done) a.life ∙ done, ap (λ l. l.dials) a.life ∙ same, a.none_left, a.gone),
      )

  pub idle_ends :
      (x : Running T)
      → x.current ≡ none
      → IsSound x
      → x.life.canceled ≡ true
      → x.life.started ≡ true
      → CanEnd x.life.dials x
  idle_ends x n i c s =
      let (ps, own, gone) = past_quits x.past i.over in
      let same = run-lingers stop_and_wait tasks d ps x in
      let y : Running T = record x { past = linger_all ps x.past } in
      first (Ended x.life.dials) (lingering ps) x (lingering-IsOwn ps own) (
        subst (CanEnd x.life.dials) (sym same) (
          alone_ends y n (subst IsSound same (run-IsSound stop_and_wait tasks d (lingering ps) x i))
            c s gone))
