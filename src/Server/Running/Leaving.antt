-- ===== src/Server/Running/Leaving.antt =====
-- The goroutines of a server's connections end, once its context has.
use simple_message.Prelude.{
  ℕ, zero, suc, ◌+◌, ◌<◌, true, false, List, [], ◌∷◌, ◌++◌, Option, ◌≡◌, refl, sym, subst,
  if◌then◌else◌, arith, if-holds, inl, inr, Bool-cases,
}
use simple_message.Errors.{Error}
use simple_message.Protocol.Wire.{All, All-append}
use simple_message.Protocol.Decoder.{Decoder}
use simple_message.Connection.Manager.Stopping
use simple_message.Server.Accept.{Server, end_conn}
use simple_message.Server.Accept
use simple_message.Server.Accept.Lifecycle.{IsClosing}
use simple_message.Server.Handling.{ConnPc, ended}
use simple_message.Server.Handling.Going.{to_go, goes_on-to_go}
use simple_message.Server.Running.{
  Conn, Running, Event, serves, accepts, manages, goes_on, subtracts, has_ended, all_ended,
  step_conn, step_at, act, run,
}
use simple_message.Server.Running.Invariant.{Sound, Canceled}
use simple_message.Server.Running.Stepping.{subtracts-true, step_at-Moves}
use simple_message.Server.Running.Course.{IsSound, act-IsSound}

-- The actions of the server's goroutines and of its connections' managers, with a failing Accept and
-- the return of a handler
abbrev pub IsOwn : Event → Type 0
IsOwn (serves e) = IsClosing e
IsOwn (accepts s) = ⊥
IsOwn (manages i e) = Stopping.IsOwn e
IsOwn (goes_on i) = Unit

-- The server when no connection is accepted any more
pub record Quiet (s : Server) : Type 0 where
  pub accepting : s.accepting ≡ 0
  pub rejecting : s.rejecting ≡ 0
  pub started : s.started ≡ true
  pub canceled : s.canceled ≡ true

ends-Quiet : (s : Server) → Quiet s → Quiet (Accept.act Accept.ends s)
unfolding Accept.act end_conn
ends-Quiet s q = ground (arith, q)

left-pc : (p : ConnPc) → has_ended p ≡ false → (n : ℕ) × (to_go p ≡ suc n)
left-pc ConnPc.waiting e = (3, refl)
left-pc ConnPc.stopping e = (2, refl)
left-pc ConnPc.reporting e = (1, refl)
left-pc ConnPc.closing e = (0, refl)
left-pc ended e = absurd (cc)

module _ {T : Type 0} where
  -- The actions left to a goroutine
  abbrev work : Conn T → ℕ
  work c = to_go c.handling.pc + (if c.counted then 1 else 0)

  abbrev pub total : List (Conn T) → ℕ
  total [] = 0
  total (c ∷ cs) = work c + total cs

module _ {T : Type 0} (stop_and_wait : T → Option Error × T) where
  step-work :
      (c : Conn T)
      → Sound c
      → Canceled c
      → has_ended c.handling.pc ≡ false
      → work (step_conn stop_and_wait c) < work c
  unfolding step_conn
  step-work c s n e =
      if-holds (λ (z : Conn T). work z < work c) (subtracts c.handling.pc c.counted)
        (λ t. let r = (subtracts-true c.handling.pc c.counted t).1 in ground (arith, r))
        (λ t.
          let (k, left) = left-pc c.handling.pc e in
          let less = goes_on-to_go stop_and_wait c.handling k s.linked.handled.place n left in
          omega (arith, less, left))

  -- Where a goroutine has not ended, one can go on.
  step-total :
      (cs : List (Conn T)) (s : Server)
      → All Sound cs
      → All Canceled cs
      → all_ended cs ≡ false
      → (i : ℕ) × (total (step_at stop_and_wait i cs s).1 < total cs)
  unfolding step_at
  step-total [] s a n e = absurd (cc)
  step-total (c ∷ cs) s a n e = elim (Bool-cases (has_ended c.handling.pc)) [
    | inl h ↦
        let (i, less) = step-total cs s a.1 n.1 (ground (arith, e, h)) in
        (suc i, omega (arith, less))
    | inr h ↦ (0, omega (arith, step-work c a.0 n.0 h))
  ]

module _ {T : Type 0} (stop_and_wait : T → Option Error × T) (tasks : T) (d : Decoder) where
  -- The server can come where `P` holds.
  abbrev pub Can : (Running T → Type 0) → Running T → Type 0
  Can P x = (es : List Event) × All IsOwn es × P (run stop_and_wait tasks d es x)

  run-append :
      (es fs : List Event) (x : Running T)
      → run stop_and_wait tasks d (es ++ fs) x
        ≡ run stop_and_wait tasks d fs (run stop_and_wait tasks d es x)
  unfolding run
  run-append [] fs x = refl
  run-append (e ∷ es) fs x = run-append es fs (act stop_and_wait tasks d e x)

  pub first :
      (P : Running T → Type 0) (es : List Event) (x : Running T)
      → All IsOwn es
      → Can P (run stop_and_wait tasks d es x)
      → Can P x
  first P es x o (fs, own, e) =
      (es ++ fs, All-append IsOwn es fs o own, subst P (sym (run-append es fs x)) e)

  pub next :
      (P : Running T → Type 0) (e : Event) (x : Running T)
      → IsOwn e
      → Can P (act stop_and_wait tasks d e x)
      → Can P x
  unfolding run
  next P e x o (fs, own, p) = (e ∷ fs, (o, own), p)

  pub here : (P : Running T → Type 0) (x : Running T) → P x → Can P x
  unfolding run
  here P x p = ([], tt, p)

  -- All goroutines that the WaitGroups wait for have ended.
  pub record Idle (x : Running T) : Type 0 where
    pub sound : IsSound stop_and_wait tasks d x
    pub quiet : Quiet x.server
    pub ended : all_ended x.conns ≡ true

  goes-Quiet :
      (i : ℕ) (x : Running T)
      → IsSound stop_and_wait tasks d x
      → Quiet x.server
      → Quiet (act stop_and_wait tasks d (goes_on i) x).server
  unfolding act
  goes-Quiet i x s q =
      let m = step_at-Moves stop_and_wait i x.conns x.server s.follows.conns in
      elim m.same [
        | inl e ↦ subst Quiet (sym e) q
        | inr e ↦ subst Quiet (sym e) (ends-Quiet x.server q)
      ]

  pub idles :
      (n : ℕ) (x : Running T)
      → total x.conns < n
      → IsSound stop_and_wait tasks d x
      → Quiet x.server
      → Can Idle x
  unfolding act
  idles zero x l s q = absurd (omega (arith, l))
  idles (suc n) x l s q = elim (Bool-cases (all_ended x.conns)) [
    | inl e ↦ here Idle x (record { sound = s; quiet = q; ended = e })
    | inr e ↦
        let (i, less) =
          step-total stop_and_wait x.conns x.server s.follows.conns (s.follows.context q.canceled)
            e in
        let y = act stop_and_wait tasks d (goes_on i) x in
        next Idle (goes_on i) x tt (
          idles n y (omega (arith, l, less)) (act-IsSound stop_and_wait tasks d (goes_on i) x s)
            (goes-Quiet i x s q))
  ]
