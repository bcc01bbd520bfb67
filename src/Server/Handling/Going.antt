-- ===== src/Server/Handling/Going.antt =====
-- One action of the goroutine of a connection: what is known of the manager's context and the socket
-- where it stands.
use simple_message.Prelude.{
  ℕ, suc, ◌⊎◌, ap, ◌≡◌, ◌≢◌, refl, false, Option, none, arith, inl, inr, Option-cases,
}
use simple_message.Errors.{Error}
use simple_message.Connection.Shutdown.{stop_with_timeout}
use simple_message.Server.Handling.Ending.{At}
use simple_message.Server.Handling.{
  ConnPc, Handling, waiting, stopping, reporting, closing, ended, go_on, after_stop, goes_on, act,
}

module _ {T : Type 0} where
  pub record Goes (y z : Handling T) : Type 0 where
    pub context : z.pc ≢ waiting → z.manager.ctx_err ≢ none
    pub kept : y.manager.ctx_err ≢ none → z.manager.ctx_err ≢ none
    pub closed : z.pc ≡ ended → z.manager.socket_open ≡ false

module _ {T : Type 0} (stop_and_wait : T → Option Error × T) where
  go_on-Goes :
      (p : ConnPc) (y : Handling T)
      → y.pc ≡ p
      → (y.pc ≢ waiting → y.manager.ctx_err ≢ none)
      → p ≢ ended
      → Goes y (go_on stop_and_wait p y)
  unfolding go_on after_stop stop_with_timeout
  go_on-Goes waiting y e c n = elim (Option-cases y.manager.ctx_err) [
    | inl e₀ ↦ ground (arith, e₀)
    | inr (r, e₁) ↦ ground (arith, e₁)
  ]
  go_on-Goes stopping y e c n = ground arith
  go_on-Goes reporting y e c n = ground arith
  go_on-Goes closing y e c n = ground arith
  go_on-Goes ended y e c n = absurd (n refl)

  pub goes_on-Goes :
      (y : Handling T)
      → (y.pc ≢ waiting → y.manager.ctx_err ≢ none)
      → y.pc ≢ ended
      → Goes y (act stop_and_wait goes_on y)
  unfolding act
  goes_on-Goes y c n = go_on-Goes y.pc y refl c n

-- The actions that are left to the goroutine
abbrev pub to_go : ConnPc → ℕ
to_go waiting = 4
to_go stopping = 3
to_go reporting = 2
to_go closing = 1
to_go ended = 0

module _ {T : Type 0} (stop_and_wait : T → Option Error × T) where
  go_on-to_go :
      (p : ConnPc) (y : Handling T) (n : ℕ)
      → y.pc ≡ p
      → At p y
      → y.manager.ctx_err ≢ none
      → to_go p ≡ suc n
      → to_go (go_on stop_and_wait p y).pc ≡ n
  unfolding go_on after_stop stop_with_timeout
  go_on-to_go waiting y n e a c t = ground (arith, c, t)
  go_on-to_go stopping y n e a c t = ground (arith, a, t)
  go_on-to_go reporting y n e a c t = ground arith
  go_on-to_go closing y n e a c t = ground arith
  go_on-to_go ended y n e a c t = absurd (omega arith)

  -- Once the context has ended, every action brings the goroutine nearer to its end.
  pub goes_on-to_go :
      (y : Handling T) (n : ℕ)
      → At y.pc y
      → y.manager.ctx_err ≢ none
      → to_go y.pc ≡ suc n
      → to_go (act stop_and_wait goes_on y).pc ≡ n
  unfolding act
  goes_on-to_go y n a c t = go_on-to_go y.pc y n refl a c t

-- Where the goroutine stands after an action
abbrev pub Next : ConnPc → ConnPc → Type 0
Next waiting q = (q ≡ waiting) ⊎ (q ≡ stopping)
Next stopping q = q ≡ reporting
Next reporting q = q ≡ closing
Next closing q = q ≡ ended
Next ended q = q ≡ ended

module _ {T : Type 0} (stop_and_wait : T → Option Error × T) where
  pub stays_ended : (y : Handling T) → y.pc ≡ ended → act stop_and_wait goes_on y ≡ y
  unfolding act go_on
  stays_ended y e = ap (λ p. go_on stop_and_wait p y) e

  go_on-Next :
      (p : ConnPc) (y : Handling T) → y.pc ≡ p → At p y → Next p (go_on stop_and_wait p y).pc
  unfolding go_on after_stop stop_with_timeout
  go_on-Next waiting y e a = elim (Option-cases y.manager.ctx_err) [
    | inl n ↦ inl (ground (arith, n, e))
    | inr (r, n) ↦ inr (ground (arith, n))
  ]
  go_on-Next stopping y e a = ground (arith, a)
  go_on-Next reporting y e a = refl
  go_on-Next closing y e a = refl
  go_on-Next ended y e a = e

  pub goes_on-Next : (y : Handling T) → At y.pc y → Next y.pc (act stop_and_wait goes_on y).pc
  unfolding act
  goes_on-Next y a = go_on-Next y.pc y refl a
