-- ===== src/Server/Handling/Linked.antt =====
-- What holds of a connection and its manager at every moment, and lasts through what the manager and
-- its context do.
use simple_message.Prelude.{arith, ℕ, zero, suc, false, List, [], ◌∷◌, map, none, ◌≡◌, ◌≢◌}
use simple_message.Errors.{canceled}
use simple_message.Protocol.Wire.{All}
use simple_message.Connection.State.{Manager}
use simple_message.Connection.Manager.Run
use simple_message.Connection.Manager.Invariant.{Flags, act-Flags}
use simple_message.Connection.Manager.Lasting.{Lasts, act-Lasts}
use simple_message.Server.Handling.{ConnPc, Handling, waiting, stopping, reporting, closing, ended}
use simple_message.Server.Handling.Ending.{IsSound as Handled, At}
use simple_message.Server.Handling.Group.{inner, manage, cancel_manager, linger}

-- A connection and its manager, wherever their goroutines stand
pub record Linked {T : Type 0} (x : Handling T) : Type 0 where
  pub handled : Handled x
  pub context : x.pc ≢ waiting → x.manager.ctx_err ≢ none

-- A connection whose goroutine has ended
pub record Over {T : Type 0} (x : Handling T) : Type 0 where
  pub at_end : x.pc ≡ ended
  pub linked : Linked x
  pub closed : x.manager.socket_open ≡ false

-- A manager that goes on, and keeps what lasts
pub record Keeps (f : Manager → Manager) : Type 0 where
  pub flags : (h : Manager) → Flags h → Flags (f h)
  pub lasts : (h : Manager) → Lasts h (f h)

pub act-Keeps : (e : Run.Event) → Keeps (Run.act e)
act-Keeps e = record { flags = act-Flags e; lasts = act-Lasts e }

-- The end of a context that a manager is given
pub canceled_ctx : (h : Manager) → (Run.act (Run.cancel canceled) h).ctx_err ≢ none
unfolding Run.act
canceled_ctx h = ground arith

pub inner-Keeps : (e : Run.Event) → Keeps (inner e)
inner-Keeps (Run.cancel e) = record {
  flags = λ h f. f;
  lasts = λ h. record { ctx = λ n. n; socket = λ o. o };
}
inner-Keeps _ = act-Keeps _

module _ {T : Type 0} (f : Manager → Manager) (k : Keeps f) where
  manage-At : (p : ConnPc) (x : Handling T) → At p x → At p (manage f x)
  manage-At waiting x a = a
  manage-At stopping x a = a
  manage-At reporting x a = a
  manage-At closing x a = a
  manage-At ended x a = a

  pub manage-Linked : (x : Handling T) → Linked x → Linked (manage f x)
  manage-Linked x l = record {
    handled = record {
      flags = k.flags x.manager l.handled.flags;
      place = manage-At x.pc x l.handled.place;
    };
    context = λ n. (k.lasts x.manager).ctx (l.context n);
  }

  pub manage-Over : (x : Handling T) → Over x → Over (manage f x)
  manage-Over x o = record {
    at_end = o.at_end;
    linked = manage-Linked x o.linked;
    closed = (k.lasts x.manager).socket o.closed;
  }

module _ {T : Type 0} where
  pub cancel_all-Over : (xs : List (Handling T)) → All Over xs → All Over (map cancel_manager xs)
  cancel_all-Over [] a = tt
  cancel_all-Over (x ∷ xs) a =
      (manage-Over (Run.act (Run.cancel canceled)) (act-Keeps _) x a.0, cancel_all-Over xs a.1)

  pub linger-Over :
      (i : ℕ) (e : Run.Event) (xs : List (Handling T)) → All Over xs → All Over (linger i e xs)
  linger-Over i e [] a = tt
  linger-Over zero e (x ∷ xs) a = (manage-Over (inner e) (inner-Keeps e) x a.0, a.1)
  linger-Over (suc i) e (x ∷ xs) a = (a.0, linger-Over i e xs a.1)
