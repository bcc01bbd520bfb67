-- ===== src/Server/Running/Admitting.antt =====
-- A connection that the listener gives to an accept goroutine.
use simple_message.Prelude.{
  ℕ, zero, suc, ◌+◌, true, false, Option, ◌≡◌, refl, sym, ◌∙◌, arith, if-holds, inl, inr,
}
use simple_message.Errors.{Error}
use simple_message.Protocol.Stream.{Stream}
use simple_message.Protocol.Decoder.{Decoder}
use simple_message.Connection.Manager.Invariant.{new-Flags}
use simple_message.Server.Accept.{Server, new_server, accept_conn, end_conn, over_limit, add32}
use simple_message.Server.Accept
use simple_message.Server.Accept.Lifecycle.{final, IsSound as Serves}
use simple_message.Server.Handling.{handling}
use simple_message.Server.Running.{Running, admit}
use simple_message.Server.Running.Invariant.{Sound, Follows}
use simple_message.Server.Running.Outside.{Nearly, Tracks}

-- What Accept does with the goroutine to which it returns a connection
accept-kept : (s : Server) (n : ℕ) → s.accepting ≡ suc n → final (accept_conn s) ≡ final s
unfolding accept_conn over_limit
accept-kept s n e = ground (arith, e)

accept-refuses :
    (s : Server) (n : ℕ)
    → s.accepting ≡ suc n
    → over_limit s.max_conn_count (add32 s.conn_count 1) ≡ true
    → (accept_conn s).active ≡ s.active
unfolding accept_conn
accept-refuses s n e o = ground (arith, e, o)

accept-admits :
    (s : Server) (n : ℕ)
    → s.accepting ≡ suc n
    → over_limit s.max_conn_count (add32 s.conn_count 1) ≡ false
    → (accept_conn s).active ≡ 1 + s.active
unfolding accept_conn
accept-admits s n e o = ground (arith, e, o)

module _ {T : Type 0} (stop_and_wait : T → Option Error × T) (tasks : T) (d : Decoder) where
  new-Sound :
      (s : Stream) → Sound {T = T} (record { handling = handling d s tasks; counted = true })
  new-Sound s = record {
    linked = record {
      handled = record { flags = new-Flags d s; place = refl };
      context = λ n. absurd (n refl);
    };
    place = refl;
  }

  pub admit-Nearly :
      (n : ℕ) (s : Stream) (x : Running T)
      → x.server.accepting ≡ n
      → Serves x.server
      → Follows x
      → Nearly (admit stop_and_wait tasks d n s x)
  unfolding admit
  admit-Nearly zero s x e i f = record { active = f.active; conns = f.conns; over = f.over }
  admit-Nearly (suc n) s x e i f =
      let kept = accept-kept x.server n e in
      if-holds Nearly (over_limit x.server.max_conn_count (add32 x.server.conn_count 1))
        (λ o. record {
          active = accept-refuses x.server n e o ∙ f.active;
          conns = f.conns;
          over = λ z. f.over (sym kept ∙ z);
        })
        (λ o. record {
          active = omega (arith, accept-admits x.server n e o, f.active);
          conns = (new-Sound s, f.conns);
          over = λ z. absurd (omega (arith, (i.ended (sym kept ∙ z)).0, e));
        })

  pub admit-Tracks :
      (P : Accept.Event → Type 0)
      → P Accept.accepts
      → (n : ℕ) (s : Stream) (x : Running T)
      → Tracks P x.server (admit stop_and_wait tasks d n s x).server
  unfolding admit Accept.act
  admit-Tracks P p zero s x = inl refl
  admit-Tracks P p (suc n) s x =
      if-holds (λ (y : Running T). Tracks P x.server y.server)
        (over_limit x.server.max_conn_count (add32 x.server.conn_count 1))
        (λ o. inr (Accept.accepts, p, refl)) (λ o. inr (Accept.accepts, p, refl))
