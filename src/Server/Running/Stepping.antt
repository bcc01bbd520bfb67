-- ===== src/Server/Running/Stepping.antt =====
-- One action of the goroutine of a connection, and what it changes of the server.
use simple_message.Prelude.{
  ℕ, zero, suc, ◌+◌, Bool, true, false, List, [], ◌∷◌, Option, none, ◌≡◌, ◌≢◌, refl, sym, ap, ◌∙◌,
  subst, if◌then◌else◌, arith, if-holds, inl, inr, ◌⊎◌,
}
use simple_message.Errors.{Error}
use simple_message.Protocol.Wire.{All}
use simple_message.Server.Accept.{Server, end_conn, ends}
use simple_message.Server.Accept
use simple_message.Server.Handling.{
  ConnPc, Handling, waiting, stopping, reporting, closing, ended, goes_on,
}
use simple_message.Server.Handling
use simple_message.Server.Handling.Ending.{act-IsSound as act-Handled}
use simple_message.Server.Handling.Going.{goes_on-Goes, Next, goes_on-Next, stays_ended}
use simple_message.Server.Handling.Linked.{Linked}
use simple_message.Server.Running.{Conn, subtracts, step_conn, step_at}
use simple_message.Server.Running.Invariant.{Place, Sound, Canceled, AtEnd, count}

pub subtracts-true : (p : ConnPc) (b : Bool) → subtracts p b ≡ true → (p ≡ closing) × (b ≡ true)
subtracts-true closing b e = (refl, e)
subtracts-true _ b e = absurd (cc)

module _ {T : Type 0} (stop_and_wait : T → Option Error × T) where
  goes_on-Linked :
      (p : ConnPc) (y : Handling T)
      → y.pc ≡ p
      → Linked y
      → Linked (Handling.act stop_and_wait goes_on y)
  goes_on-Linked ended y e l = subst Linked (sym (stays_ended stop_and_wait y e)) l
  goes_on-Linked p y e l = record {
    handled = act-Handled stop_and_wait goes_on y l.handled;
    context = (goes_on-Goes stop_and_wait y l.context (λ f. absurd (cc))).context;
  }

  goes_on-ctx :
      (p : ConnPc) (y : Handling T)
      → y.pc ≡ p
      → Linked y
      → y.manager.ctx_err ≢ none
      → (Handling.act stop_and_wait goes_on y).manager.ctx_err ≢ none
  goes_on-ctx ended y e l n =
      subst (λ z. z.manager.ctx_err ≢ none) (sym (stays_ended stop_and_wait y e)) n
  goes_on-ctx p y e l n = (goes_on-Goes stop_and_wait y l.context (λ f. absurd (cc))).kept n

  -- `Place` where the goroutine has come to `r`
  come-Place :
      {q r : ConnPc} (c : Conn T) (z : Handling T)
      → q ≡ r
      → Place r (record c { handling = z })
      → Place q (record c { handling = z })
  come-Place c z e l = subst (λ q. Place q (record c { handling = z })) (sym e) l

  Next-Place :
      (p q : ConnPc) (c : Conn T) (z : Handling T)
      → Next p q
      → Place p c
      → subtracts p c.counted ≡ false
      → (q ≡ ended → z.manager.socket_open ≡ false)
      → Place q (record c { handling = z })
  Next-Place waiting q c z n l s o = elim n [
    | inl e ↦ come-Place c z e l
    | inr e ↦ come-Place c z e l
  ]
  Next-Place stopping q c z n l s o = come-Place c z n l
  Next-Place reporting q c z n l s o = come-Place c z n tt
  Next-Place closing q c z n l s o = come-Place c z n (s, o n)
  Next-Place ended q c z n l s o = come-Place c z n (l.0, o n)

  goes_on-closed :
      (p : ConnPc) (c : Conn T)
      → c.handling.pc ≡ p
      → Linked c.handling
      → Place p c
      → let z = Handling.act stop_and_wait goes_on c.handling in
        z.pc ≡ ended → z.manager.socket_open ≡ false
  goes_on-closed ended c e l q f =
      subst (λ z. z.manager.socket_open ≡ false) (sym (stays_ended stop_and_wait c.handling e)) q.1
  goes_on-closed p c e l q f =
      (goes_on-Goes stop_and_wait c.handling l.context (λ f. absurd (cc))).closed f

  pub step-Sound : (c : Conn T) → Sound c → Sound (step_conn stop_and_wait c)
  unfolding step_conn Handling.act
  step-Sound c s =
      if-holds Sound (subtracts c.handling.pc c.counted)
        (λ e. record {
          linked = s.linked;
          place =
              subst (λ p. Place p (record c { counted = false }))
                (sym (subtracts-true c.handling.pc c.counted e).0) tt;
        })
        (λ e. record {
          linked = goes_on-Linked c.handling.pc c.handling refl s.linked;
          place =
              (let z = Handling.act stop_and_wait goes_on c.handling in
                Next-Place c.handling.pc z.pc c z
                  (goes_on-Next stop_and_wait c.handling s.linked.handled.place) s.place e
                  (goes_on-closed c.handling.pc c refl s.linked s.place));
        })

  step-Canceled : (c : Conn T) → Sound c → Canceled c → Canceled (step_conn stop_and_wait c)
  unfolding step_conn
  step-Canceled c s n =
      if-holds Canceled (subtracts c.handling.pc c.counted) (λ e. n)
        (λ e. goes_on-ctx c.handling.pc c.handling refl s.linked n)

  step-AtEnd : (c : Conn T) → AtEnd c → AtEnd (step_conn stop_and_wait c)
  unfolding step_conn
  step-AtEnd c a =
      if-holds AtEnd (subtracts c.handling.pc c.counted) (λ e. a)
        (λ e. ap (λ z. z.pc) (stays_ended stop_and_wait c.handling a) ∙ a)

  -- The count of the server falls with the connection's.
  step-active :
      (k n : ℕ) (c : Conn T) (s : Server)
      → s.active ≡ k + ((if c.counted then 1 else 0) + n)
      → (if subtracts c.handling.pc c.counted then end_conn s else s).active
        ≡ k + ((if (step_conn stop_and_wait c).counted then 1 else 0) + n)
  unfolding step_conn end_conn
  step-active k n c s e = ground (arith, e, subtracts-true c.handling.pc c.counted)

  -- The server when a connection has moved from `cs` to `ds`
  pub record Moves (cs : List (Conn T)) (s t : Server) (ds : List (Conn T)) : Type 0 where
    pub sound : All Sound ds
    pub canceled : All Canceled cs → All Canceled ds
    pub over : All AtEnd cs → All AtEnd ds
    pub active : (k : ℕ) → s.active ≡ k + count cs → t.active ≡ k + count ds
    pub same : (t ≡ s) ⊎ (t ≡ Accept.act ends s)

  step_server-same :
      (b : Bool) (s : Server)
      → ((if b then end_conn s else s) ≡ s) ⊎ ((if b then end_conn s else s) ≡ Accept.act ends s)
  unfolding Accept.act
  step_server-same true s = inr refl
  step_server-same false s = inl refl

  pub step_at-Moves :
      (i : ℕ) (cs : List (Conn T)) (s : Server)
      → All Sound cs
      → let (t, ds) = step_at stop_and_wait i cs s in Moves cs s t ds
  unfolding step_at
  step_at-Moves i [] s a = record {
    sound = tt;
    canceled = λ n. n;
    over = λ n. n;
    active = λ k e. e;
    same = inl refl;
  }
  step_at-Moves zero (c ∷ cs) s a = record {
    sound = (step-Sound c a.0, a.1);
    canceled = λ n. (step-Canceled c a.0 n.0, n.1);
    over = λ n. (step-AtEnd c n.0, n.1);
    active = λ k e. step-active k (count cs) c s e;
    same = step_server-same (subtracts c.handling.pc c.counted) s;
  }
  step_at-Moves (suc i) (c ∷ cs) s a =
      let m = step_at-Moves i cs s a.1 in
      record {
        sound = (a.0, m.sound);
        canceled = λ n. (n.0, m.canceled n.1);
        over = λ n. (n.0, m.over n.1);
        active = λ k e.
            let r = m.active (k + (if c.counted then 1 else 0)) (omega (arith, e)) in
            omega (arith, r);
        same = m.same;
      }
