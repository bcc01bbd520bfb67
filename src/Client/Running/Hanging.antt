-- ===== src/Client/Running/Hanging.antt =====
-- The connection of a client whose manager's context has ended is behind it before long.
use simple_message.Prelude.{
  ℕ, zero, suc, [], ◌∷◌, length, Option, none, some, ◌≡◌, ◌≢◌, refl, sym, ap, ◌∙◌, arith, subst,
}
use simple_message.Errors.{Error}
use simple_message.Protocol.Decoder.{Decoder}
use simple_message.Server.Handling.{Handling, ConnPc, ended}
use simple_message.Server.Handling
use simple_message.Server.Handling.Going.{goes_on-Goes, to_go, goes_on-to_go}
use simple_message.Client.Lifecycle.{connected, sleeping, Life}
use simple_message.Client.Lifecycle
use simple_message.Client.Running.{Running, goes_on, go_on_current, hang_up, act, run}
use simple_message.Client.Running.Invariant.{Place, IsSound}
use simple_message.Client.Running.Course.{act-IsSound}
use simple_message.Client.Running.Leaving.{Can}

to_go-ended : (p : ConnPc) → to_go p ≡ 0 → p ≡ ended
to_go-ended ended t = refl
to_go-ended _ t = absurd (omega arith)

-- The client `y` has the connections of `x` behind it.
pub record Hung {T : Type 0} (x y : Running T) : Type 0 where
  pub none_left : y.current ≡ none
  pub life : y.life ≡ record x.life { phase = sleeping }
  pub grows : length y.past ≡ suc (length x.past)

module _ {T : Type 0} (stop_and_wait : T → Option Error × T) (tasks : T) (d : Decoder) where
  hang_up-Hung :
      (x : Running T) (z : Handling T) (p : ConnPc)
      → to_go p ≡ 0
      → x.life.phase ≡ connected (length x.past)
      → Hung x (hang_up stop_and_wait tasks d p z x)
  unfolding hang_up Lifecycle.act Lifecycle.step
  hang_up-Hung x z ended t e = record { none_left = refl; life = ground (arith, e); grows = refl }
  hang_up-Hung x z _ t e = absurd (omega arith)

  hang_up-stays :
      (x : Running T) (z : Handling T) (p : ConnPc) (n : ℕ)
      → to_go p ≡ suc n
      → hang_up stop_and_wait tasks d p z x ≡ record x { current = some z }
  unfolding hang_up
  hang_up-stays x z ended n t = absurd (omega arith)
  hang_up-stays x z _ n t = refl

  go_on-hang_up :
      (x : Running T) (y : Handling T)
      → x.current ≡ some y
      → let z = Handling.act stop_and_wait Handling.goes_on y in
        act stop_and_wait tasks d goes_on x ≡ hang_up stop_and_wait tasks d z.pc z x
  unfolding act go_on_current
  go_on-hang_up x y e = ap (λ c. go_on_current stop_and_wait tasks d c x) e

  hangs_in :
      (n : ℕ) (x : Running T) (y : Handling T)
      → to_go y.pc ≡ n
      → x.current ≡ some y
      → y.manager.ctx_err ≢ none
      → IsSound x
      → Can stop_and_wait tasks d (Hung x) x
  unfolding run
  hangs_in zero x y t e c i =
      let p : Place (some y) x = subst (λ c. Place c x) e i.place in
      absurd (p.2 (to_go-ended y.pc t))
  hangs_in (suc zero) x y t e c i =
      let p : Place (some y) x = subst (λ c. Place c x) e i.place in
      let z = Handling.act stop_and_wait Handling.goes_on y in
      let left = goes_on-to_go stop_and_wait y 0 p.1.handled.place c t in
      (
        goes_on ∷ [],
        (tt, tt),
        subst (Hung x) (sym (go_on-hang_up x y e)) (hang_up-Hung x z z.pc left p.0),
      )
  hangs_in (suc (suc n)) x y t e c i =
      let p : Place (some y) x = subst (λ c. Place c x) e i.place in
      let z = Handling.act stop_and_wait Handling.goes_on y in
      let left = goes_on-to_go stop_and_wait y (suc n) p.1.handled.place c t in
      let same = go_on-hang_up x y e ∙ hang_up-stays x z z.pc n left in
      let (es, own, h) =
        hangs_in (suc n) (record x { current = some z }) z left refl
          ((goes_on-Goes stop_and_wait y p.1.context p.2).kept c)
          (subst IsSound same (act-IsSound stop_and_wait tasks d goes_on x i)) in
      (
        goes_on ∷ es,
        (tt, own),
        subst (λ w. Hung x (run stop_and_wait tasks d es w)) (sym same)
            (record { none_left = h.none_left; life = h.life; grows = h.grows }),
      )

  pub hangs :
      (x : Running T) (y : Handling T)
      → x.current ≡ some y
      → y.manager.ctx_err ≢ none
      → IsSound x
      → Can stop_and_wait tasks d (Hung x) x
  hangs x y e c i = hangs_in (to_go y.pc) x y refl e c i
