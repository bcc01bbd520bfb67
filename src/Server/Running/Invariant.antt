-- ===== src/Server/Running/Invariant.antt =====
-- What holds of a server's connections at every moment of a run.
use simple_message.Prelude.{
  ℕ, zero, suc, ◌+◌, true, false, List, [], ◌∷◌, none, ◌≡◌, ◌≢◌, refl, if◌then◌else◌, arith,
}
use simple_message.Protocol.Wire.{All}
use simple_message.Connection.Manager.Run
use simple_message.Connection.State.{Manager}
use simple_message.Server.Accept.Lifecycle.{final}
use simple_message.Server.Handling.{ConnPc, waiting, stopping, reporting, closing, ended}
use simple_message.Server.Handling.Group.{inner, manage, cancel_manager}
use simple_message.Server.Handling.Linked.{Linked, Keeps, inner-Keeps, manage-Linked}
use simple_message.Server.Running.{Conn, Running, manage_conn, cancel_conns, manage_at}

-- Where the goroutine of a connection has subtracted it, and closed the socket
abbrev pub Place : {T : Type 0} → ConnPc → Conn T → Type 0
Place waiting c = c.counted ≡ true
Place stopping c = c.counted ≡ true
Place reporting c = c.counted ≡ true
Place closing c = Unit
Place ended c = (c.counted ≡ false) × (c.handling.manager.socket_open ≡ false)

pub record Sound {T : Type 0} (c : Conn T) : Type 0 where
  pub linked : Linked c.handling
  pub place : Place c.handling.pc c

abbrev pub Canceled : {T : Type 0} → Conn T → Type 0
Canceled c = c.handling.manager.ctx_err ≢ none

abbrev pub AtEnd : {T : Type 0} → Conn T → Type 0
AtEnd c = c.handling.pc ≡ ended

module _ {T : Type 0} where
  -- The connections that are still counted
  abbrev pub count : List (Conn T) → ℕ
  count [] = 0
  count (c ∷ cs) = (if c.counted then 1 else 0) + count cs

  -- What a run of the server keeps, beside what the server keeps alone
  pub record Follows (x : Running T) : Type 0 where
    pub active : x.server.active ≡ count x.conns
    pub conns : All Sound x.conns
    pub context : x.server.canceled ≡ true → All Canceled x.conns
    pub over : final x.server ≡ true → All AtEnd x.conns

  manage-Place :
      (f : Manager → Manager) (k : Keeps f) (p : ConnPc) (c : Conn T)
      → Place p c
      → Place p (manage_conn (manage f) c)
  manage-Place f k waiting c a = a
  manage-Place f k stopping c a = a
  manage-Place f k reporting c a = a
  manage-Place f k closing c a = a
  manage-Place f k ended c a = (a.0, (k.lasts c.handling.manager).socket a.1)

  pub manage-Sound :
      (f : Manager → Manager) → Keeps f → (c : Conn T) → Sound c → Sound (manage_conn (manage f) c)
  manage-Sound f k c s = record {
    linked = manage-Linked f k c.handling s.linked;
    place = manage-Place f k c.handling.pc c s.place;
  }

  -- What holds of all connections is kept by an event of one manager.
  pub manage_at-All :
      (P : Conn T → Type 0) (e : Run.Event)
      → ((c : Conn T) → P c → P (manage_conn (manage (inner e)) c))
      → (i : ℕ) (cs : List (Conn T)) → All P cs
      → All P (manage_at i e cs)
  manage_at-All P e k i [] a = tt
  manage_at-All P e k zero (c ∷ cs) a = (k c a.0, a.1)
  manage_at-All P e k (suc i) (c ∷ cs) a = (a.0, manage_at-All P e k i cs a.1)

  pub cancel-All :
      (P Q : Conn T → Type 0)
      → ((c : Conn T) → P c → Q (manage_conn cancel_manager c))
      → (cs : List (Conn T)) → All P cs
      → All Q (cancel_conns cs)
  cancel-All P Q k [] a = tt
  cancel-All P Q k (c ∷ cs) a = (k c a.0, cancel-All P Q k cs a.1)

  pub count-manage :
      (i : ℕ) (e : Run.Event) (cs : List (Conn T)) → count (manage_at i e cs) ≡ count cs
  count-manage i e [] = refl
  count-manage zero e (c ∷ cs) = refl
  count-manage (suc i) e (c ∷ cs) = omega (arith, count-manage i e cs)

  pub count-cancel : (cs : List (Conn T)) → count (cancel_conns cs) ≡ count cs
  count-cancel [] = refl
  count-cancel (c ∷ cs) = omega (arith, count-cancel cs)

  pub manages-Follows :
      (i : ℕ) (e : Run.Event) (x : Running T)
      → Follows x
      → Follows (record x { conns = manage_at i e x.conns })
  manages-Follows i e x f = record {
    active = omega (arith, f.active, count-manage i e x.conns);
    conns = manage_at-All Sound e (manage-Sound (inner e) (inner-Keeps e)) i x.conns f.conns;
    context = λ c.
        manage_at-All Canceled e (λ y n. ((inner-Keeps e).lasts y.handling.manager).ctx n) i x.conns
          (f.context c);
    over = λ o. manage_at-All AtEnd e (λ y a. a) i x.conns (f.over o);
  }
