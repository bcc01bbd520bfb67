-- ===== src/Server/Running/Course.antt =====
-- Runs of a server with its connections.
use simple_message.Prelude.{
  ℕ, List, [], ◌∷◌, Option, ◌≡◌, refl, sym, ap, ◌∙◌, subst, arith, inl, inr, ◌⊎◌,
}
use simple_message.Errors.{Error}
use simple_message.Protocol.Wire.{All}
use simple_message.Protocol.Decoder.{Decoder}
use simple_message.Server.Accept.{Server, new_server, accept_conn, end_conn, over_limit, add32}
use simple_message.Server.Accept
use simple_message.Server.Accept.Lifecycle.{
  final, IsSound as Serves, act-IsSound as act-Serves, new-IsSound as new-Serves,
}
use simple_message.Server.Running.{
  Running, Event, new_running, serves, accepts, manages, goes_on, propagate, outside, admit,
  step_at, act, run,
}
use simple_message.Server.Running.Invariant.{Follows, manages-Follows}
use simple_message.Server.Running.Stepping.{Moves, step_at-Moves}
use simple_message.Server.Running.Admitting.{admit-Nearly, admit-Tracks}
use simple_message.Server.Running.Outside.{
  Nearly, propagate-Follows, propagate-server, all_ended-AtEnd, outside-Apart, Tracks,
  outside-Tracks,
}

stepped-final : (s t : Server) → (t ≡ s) ⊎ (t ≡ Accept.act Accept.ends s) → final t ≡ final s
unfolding Accept.act end_conn
stepped-final s t e = elim e [ inl q ↦ ap final q | inr q ↦ ground (arith, q) ]

stepped-canceled :
    (s t : Server) → (t ≡ s) ⊎ (t ≡ Accept.act Accept.ends s) → t.canceled ≡ s.canceled
unfolding Accept.act end_conn
stepped-canceled s t e = elim e [ inl q ↦ ap (λ s. s.canceled) q | inr q ↦ ground (arith, q) ]

tracks-Serves : (P : Accept.Event → Type 0) (s t : Server) → Tracks P s t → Serves s → Serves t
tracks-Serves P s t r i = elim r [
  | inl e ↦ subst Serves (sym e) i
  | inr (f, p, e) ↦ subst Serves (sym e) (act-Serves f s i)
]

-- A run of the server alone, of whose events `P` holds, leads from one to the other.
abbrev pub Runs : (Accept.Event → Type 0) → Server → Server → Type 0
Runs P s t = (fs : List Accept.Event) × All P fs × (t ≡ Accept.run fs s)

one_event : (P : Accept.Event → Type 0) (s t u : Server) → Tracks P s t → Runs P t u → Runs P s u
unfolding Accept.run
one_event P s t u r (fs, all, q) = elim r [
  | inl e ↦ (fs, all, q ∙ ap (Accept.run fs) e)
  | inr (f, p, e) ↦ (f ∷ fs, (p, all), q ∙ ap (Accept.run fs) e)
]

-- `P` holds of what is done to the server from outside.
abbrev pub Outer : (Accept.Event → Type 0) → Event → Type 0
Outer P (serves e) = P e
Outer P (accepts s) = Unit
Outer P (manages i e) = Unit
Outer P (goes_on i) = Unit

module _ {T : Type 0} (stop_and_wait : T → Option Error × T) (tasks : T) (d : Decoder) where
  tracked :
      (P : Accept.Event → Type 0) (s : Server) (x y : Running T)
      → y.server ≡ x.server
      → Tracks P s x.server
      → Tracks P s y.server
  tracked P s x y e t = subst (Tracks P s) (sym e) t

  moved :
      (i : ℕ) (x : Running T)
      → Follows x
      → let (t, ds) = step_at stop_and_wait i x.conns x.server in
        Moves stop_and_wait x.conns x.server t ds
  moved i x f = step_at-Moves stop_and_wait i x.conns x.server f.conns

  act-Tracks :
      (P : Accept.Event → Type 0)
      → P Accept.accepts × P Accept.ends
      → (e : Event) (x : Running T) → Outer P e
      → Follows x
      → Tracks P x.server (act stop_and_wait tasks d e x).server
  unfolding act
  act-Tracks P p (serves e) x o f =
      let y : Running T = record x { server = outside e x } in
      tracked P x.server y (propagate y) (propagate-server y) (outside-Tracks P e x o)
  act-Tracks P p (accepts s) x o f =
      let y = admit stop_and_wait tasks d x.server.accepting s x in
      tracked P x.server y (propagate y) (propagate-server y)
        (admit-Tracks stop_and_wait tasks d P p.0 x.server.accepting s x)
  act-Tracks P p (manages i e) x o f = inl refl
  act-Tracks P p (goes_on i) x o f = elim (moved i x f).same [
    | inl s ↦ inl s
    | inr s ↦ inr (Accept.ends, p.1, s)
  ]

  any_Outer : (e : Event) → Outer (λ f. Unit) e
  any_Outer (serves e) = tt
  any_Outer (accepts s) = tt
  any_Outer (manages i e) = tt
  any_Outer (goes_on i) = tt

  outside-Nearly :
      (e : Accept.Event) (x : Running T) → Follows x → Nearly (record x { server = outside e x })
  outside-Nearly e x f =
      let a = outside-Apart e x in
      record {
        active = a.active ∙ f.active;
        conns = f.conns;
        over = λ o. elim (a.done o) [ inl z ↦ f.over z | inr z ↦ all_ended-AtEnd x.conns z ];
      }

  act-Follows :
      (e : Event) (x : Running T)
      → Serves x.server
      → Follows x
      → Follows (act stop_and_wait tasks d e x)
  unfolding act
  act-Follows (serves e) x i f = propagate-Follows _ (outside-Nearly e x f)
  act-Follows (accepts s) x i f =
      propagate-Follows _ (admit-Nearly stop_and_wait tasks d x.server.accepting s x refl i f)
  act-Follows (manages i e) x _ f = manages-Follows i e x f
  act-Follows (goes_on i) x _ f =
      let m = moved i x f in
      record {
        active = omega (arith, m.active 0 (omega (arith, f.active)));
        conns = m.sound;
        context = λ c. m.canceled (f.context (sym (stepped-canceled x.server _ m.same) ∙ c));
        over = λ o. m.over (f.over (sym (stepped-final x.server _ m.same) ∙ o));
      }

  pub record IsSound (x : Running T) : Type 0 where
    pub serving : Serves x.server
    pub follows : Follows x

  pub act-IsSound :
      (e : Event) (x : Running T) → IsSound x → IsSound (act stop_and_wait tasks d e x)
  act-IsSound e x i = record {
    serving =
        tracks-Serves (λ f. Unit) x.server _
          (act-Tracks (λ f. Unit) (tt, tt) e x (any_Outer e) i.follows) i.serving;
    follows = act-Follows e x i.serving i.follows;
  }

  pub run-IsSound :
      (es : List Event) (x : Running T) → IsSound x → IsSound (run stop_and_wait tasks d es x)
  unfolding run
  run-IsSound [] x i = i
  run-IsSound (e ∷ es) x i = run-IsSound es (act stop_and_wait tasks d e x) (act-IsSound e x i)

  pub new-IsSound : (max : ℕ) → IsSound (new_running max)
  unfolding new_server
  new-IsSound max = record {
    serving = new-Serves max;
    follows = record { active = refl; conns = tt; context = λ c. tt; over = λ o. tt };
  }

  pub run-Runs :
      (P : Accept.Event → Type 0)
      → P Accept.accepts × P Accept.ends
      → (es : List Event) (x : Running T) → All (Outer P) es
      → IsSound x
      → Runs P x.server (run stop_and_wait tasks d es x).server
  unfolding run Accept.run
  run-Runs P p [] x o i = ([], tt, refl)
  run-Runs P p (e ∷ es) x o i =
      let y = act stop_and_wait tasks d e x in
      one_event P x.server y.server _ (act-Tracks P p e x o.0 i.follows)
        (run-Runs P p es y o.1 (act-IsSound e x i))
