-- ===== src/Server/Running/Outside.antt =====
-- What happens to a server outside its connections, and reaches them by its context.
use simple_message.Prelude.{
  true, List, [], ◌∷◌, ◌≡◌, refl, sym, ◌∙◌, arith, if-holds, inl, inr, ◌⊎◌,
}
use simple_message.Protocol.Wire.{All}
use simple_message.Server.Accept.{
  Server, new_server, accept_conn, start, stop_server, watch, accept_error, refuse_conn, close_done,
  finish, over_limit, add32,
}
use simple_message.Server.Accept
use simple_message.Server.Accept.Lifecycle.{final}
use simple_message.Server.Handling.{ConnPc, ended}
use simple_message.Server.Accept.Lifecycle.{final}
use simple_message.Server.Handling.Linked.{canceled_ctx, act-Keeps}
use simple_message.Server.Running.{Conn, Running, propagate, all_ended, has_ended, outside}
use simple_message.Server.Running.Invariant.{
  Sound, Canceled, AtEnd, count, Follows, manage-Sound, cancel-All, count-cancel,
}

has_ended-pc : (p : ConnPc) → has_ended p ≡ true → p ≡ ended
has_ended-pc ended e = refl
has_ended-pc _ e = absurd (cc)

finish-active : (s : Server) → (Accept.act Accept.finishes s).active ≡ s.active
unfolding Accept.act finish
finish-active s = ground arith

-- One event of a server, of which `P` holds, or none
abbrev pub Tracks : (Accept.Event → Type 0) → Server → Server → Type 0
Tracks P s t = (t ≡ s) ⊎ ((e : Accept.Event) × P e × (t ≡ Accept.act e s))

module _ {T : Type 0} where
  -- While the end of the server's context may not have reached the managers
  pub record Nearly (x : Running T) : Type 0 where
    pub active : x.server.active ≡ count x.conns
    pub conns : All Sound x.conns
    pub over : final x.server ≡ true → All AtEnd x.conns

  pub propagate-Follows : (x : Running T) → Nearly x → Follows (propagate x)
  unfolding propagate
  propagate-Follows x n =
      if-holds Follows x.server.canceled
        (λ e. record {
          active = n.active ∙ sym (count-cancel x.conns);
          conns = cancel-All Sound Sound (manage-Sound _ (act-Keeps _)) x.conns n.conns;
          context = λ c.
              cancel-All Sound Canceled (λ y s. canceled_ctx y.handling.manager) x.conns n.conns;
          over = λ o. cancel-All AtEnd AtEnd (λ y a. a) x.conns (n.over o);
        })
        (λ e. record {
          active = n.active;
          conns = n.conns;
          context = λ c. absurd (cc);
          over = n.over;
        })

  pub propagate-server : (x : Running T) → (propagate x).server ≡ x.server
  unfolding propagate
  propagate-server x =
      if-holds (λ (y : Running T). y.server ≡ x.server) x.server.canceled (λ e. refl) (λ e. refl)

  pub all_ended-AtEnd : (cs : List (Conn T)) → all_ended cs ≡ true → All AtEnd cs
  all_ended-AtEnd [] e = tt
  all_ended-AtEnd (c ∷ cs) e =
      (has_ended-pc c.handling.pc (ground (arith, e)), all_ended-AtEnd cs (ground (arith, e)))

  -- What an event outside the connections leaves
  pub record Apart (x : Running T) (t : Server) : Type 0 where
    pub active : t.active ≡ x.server.active
    pub done : final t ≡ true → (final x.server ≡ true) ⊎ (all_ended x.conns ≡ true)

  pub outside-Apart : (e : Accept.Event) (x : Running T) → Apart x (outside e x)
  unfolding Accept.act start stop_server watch accept_error refuse_conn close_done
  outside-Apart Accept.accepts x = record { active = refl; done = inl }
  outside-Apart Accept.ends x = record { active = refl; done = inl }
  outside-Apart Accept.finishes x =
      if-holds (Apart x) (all_ended x.conns)
        (λ e. record { active = finish-active x.server; done = λ o. inr e })
        (λ e. record { active = refl; done = inl })
  outside-Apart _ x = record { active = ground arith; done = λ o. inl (ground (arith, o)) }

  pub outside-Tracks :
      (P : Accept.Event → Type 0) (e : Accept.Event) (x : Running T)
      → P e
      → Tracks P x.server (outside e x)
  outside-Tracks P Accept.accepts x p = inl refl
  outside-Tracks P Accept.ends x p = inl refl
  outside-Tracks P Accept.finishes x p =
      if-holds (Tracks P x.server) (all_ended x.conns) (λ e. inr (Accept.finishes, p, refl))
        (λ e. inl refl)
  outside-Tracks P e x p = inr (e, p, refl)
