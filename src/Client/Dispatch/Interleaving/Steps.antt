-- ===== src/Client/Dispatch/Interleaving/Steps.antt =====
-- The two parts of handleMsg of client/client.go, by what is found and what is in hand.
use simple_message.Prelude.{
  ℕ, ◌≡◌, refl, List, Option, none, some, arith, ◌==◌, if◌then◌else◌, Option-cases, inl, inr,
  nat_eq, lookup-insert, lookup-remove,
}
use simple_message.Protocol.Decoder.{Message}
use simple_message.Connection.Request.{Handler}
use simple_message.Client.Dispatch.{
  Client, add_handler, remove_handler, recovered, find_handler, count_unknown, run_handler,
}
use simple_message.Client.Dispatch.Interleaving.{
  Shared, idle, finds, calls, adds, removes, begin, find_next, call_found, act,
}

module _ {W : Type 0} (conn : ℕ) (s : Shared W) (m : Message) where
  pub finds-some :
      (h : Handler W)
      → s.hand ≡ none
      → find_handler m.msg_id s.client ≡ some h
      → act conn (finds m) s ≡ record s { hand = some (m, h) }
  unfolding act find_next begin
  finds-some h e f = ground arith

  pub finds-none :
      s.hand ≡ none
      → find_handler m.msg_id s.client ≡ none
      → act conn (finds m) s ≡ record s { client = count_unknown s.client }
  unfolding act find_next begin
  finds-none e f = ground arith

  pub calls-some :
      (h : Handler W)
      → s.hand ≡ some (m, h)
      → act conn calls s ≡ idle (run_handler conn m h (s.client, s.world))
  unfolding act call_found
  calls-some h e = ground arith

pub calls-none : {W : Type 0} (conn : ℕ) (s : Shared W) → s.hand ≡ none → act conn calls s ≡ s
unfolding act call_found
calls-none conn s e = ground arith

-- What is found after AddHandler, where something was found before, and after RemoveHandler
module _ {W : Type 0} (conn : ℕ) where
  adds_to :
      (hs : List (ℕ × Handler W)) (id j : ℕ) (h : Handler W) (c : Client W)
      → c.handler ≡ some hs
      → find_handler j (recovered (add_handler id h c) c)
        ≡ (if id == j then some h else find_handler j c)
  unfolding find_handler add_handler recovered
  adds_to hs id j h c e = rw (e, add_handler) (lookup-insert id j h hs)

  pub adds-find :
      (id j k : ℕ) (h g : Handler W) (s : Shared W)
      → find_handler k s.client ≡ some g
      → find_handler j (act conn (adds id h) s).client
        ≡ (if id == j then some h else find_handler j s.client)
  unfolding act find_handler
  adds-find id j k h g s f = elim (Option-cases s.client.handler) [
    | inl e ↦ absurd (ground (arith, e, f))
    | inr (hs, e) ↦ adds_to hs id j h s.client e
  ]

  removes_from :
      (o : Option (List (ℕ × Handler W))) (id j : ℕ) (c : Client W)
      → c.handler ≡ o
      → find_handler j (remove_handler id c) ≡ (if id == j then none else find_handler j c)
  unfolding find_handler remove_handler
  removes_from none id j c e = ground (arith, e)
  removes_from (some hs) id j c e = rw (e, remove_handler) (lookup-remove id j hs)

  pub removes-find :
      (id j : ℕ) (s : Shared W)
      → find_handler j (act conn (removes id) s).client
        ≡ (if id == j then none else find_handler j s.client)
  unfolding act
  removes-find id j s = removes_from s.client.handler id j s.client refl
