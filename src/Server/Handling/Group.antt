-- ===== src/Server/Handling/Group.antt =====
-- The managers of several connections, whose contexts are made from that of one client or server.
use simple_message.Prelude.{ℕ, zero, suc, List, [], ◌∷◌}
use simple_message.Errors.{canceled}
use simple_message.Connection.State.{Manager}
use simple_message.Connection.Manager.Run
use simple_message.Server.Handling.{Handling}

-- The context of a manager ends with that of the client or server, and not for another reason from
-- outside.
abbrev pub inner : Run.Event → Manager → Manager
inner (Run.cancel e) h = h
inner e h = Run.act e h

module _ {T : Type 0} where
  abbrev pub manage : (Manager → Manager) → Handling T → Handling T
  manage f x = record x { manager = f x.manager }

  abbrev pub cancel_manager : Handling T → Handling T
  cancel_manager x = manage (Run.act (Run.cancel canceled)) x

  -- An event of the manager of the `i`-th connection
  abbrev pub linger : ℕ → Run.Event → List (Handling T) → List (Handling T)
  linger i e [] = []
  linger zero e (x ∷ xs) = manage (inner e) x ∷ xs
  linger (suc i) e (x ∷ xs) = x ∷ linger i e xs

  unfoldable pub linger_all : List (ℕ × Run.Event) → List (Handling T) → List (Handling T)
  linger_all [] xs = xs
  linger_all ((i, e) ∷ ps) xs = linger_all ps (linger i e xs)
