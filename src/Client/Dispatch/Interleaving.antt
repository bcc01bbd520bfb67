-- ===== src/Client/Dispatch/Interleaving.antt =====
-- handleMsg, AddHandler and RemoveHandler of client/client.go at the same time: the goroutine that
-- reads finds a handler under the lock and calls it when it has given the lock back, and others may
-- add and remove handlers in between.
use simple_message.Prelude.{ℕ, ◌≡◌, refl, sym, ap, ◌∙◌, List, [], ◌∷◌, Option, none, some, arith}
use simple_message.Protocol.Decoder.{Message}
use simple_message.Connection.Request.{Handler}
use simple_message.Client.Dispatch.{
  Client, add_handler, remove_handler, recovered, find_handler, count_unknown, run_handler,
  handle_msg, Command, add, drop_handler, receive, obey, obey_all,
}
pub mod Steps
pub mod Removal

-- `hand` is the message whose handler was found and is not called yet.
pub record Shared (W : Type 0) : Type 0 where
  pub client : Client W
  pub world : W
  pub hand : Option (Message × Handler W)

abbrev pub idle : {W : Type 0} → Client W × W → Shared W
idle (c, w) = record { client = c; world = w; hand = none }

-- `finds m` and `calls` are the two parts of handleMsg, for one goroutine.
pub data Event (W : Type 0) : Type 0 where
  finds : Message → Event W
  calls : Event W
  adds : ℕ → Handler W → Event W
  removes : ℕ → Event W

module _ {W : Type 0} (conn : ℕ) where
  begin : Message → Option (Handler W) → Shared W → Shared W
  begin m none s = record s { client = count_unknown s.client }
  begin m (some h) s = record s { hand = some (m, h) }

  -- `finds` where a message is in hand, and `calls` where none is, change nothing.
  find_next : Message → Option (Message × Handler W) → Shared W → Shared W
  unfolding begin
  find_next m none s = begin m (find_handler m.msg_id s.client) s
  find_next m (some x) s = s

  call_found : Option (Message × Handler W) → Shared W → Shared W
  call_found none s = s
  call_found (some (m, h)) s = idle (run_handler conn m h (s.client, s.world))

  unfoldable pub act : Event W → Shared W → Shared W
  unfolding find_next call_found recovered
  act (finds m) s = find_next m s.hand s
  act calls s = call_found s.hand s
  act (adds id h) s = record s { client = recovered (add_handler id h s.client) s.client }
  act (removes id) s = record s { client = remove_handler id s.client }

  unfoldable pub run : List (Event W) → Shared W → Shared W
  unfolding act
  run [] s = s
  run (e ∷ es) s = run es (act e s)

  -- What the state comes to when the handler in hand has been called
  unfoldable pub settled : Shared W → Client W × W
  settled s = elim s.hand [
    | none ↦ (s.client, s.world)
    | some (m, h) ↦ run_handler conn m h (s.client, s.world)
  ]

  -- The commands in the order in which they take the lock
  commands_of : Event W → Option (Message × Handler W) → List (Command W) → List (Command W)
  commands_of (finds m) none ks = receive m ∷ ks
  commands_of (finds m) (some x) ks = ks
  commands_of calls x ks = ks
  commands_of (adds id h) x ks = add id h ∷ ks
  commands_of (removes id) x ks = drop_handler id ∷ ks

  unfoldable pub locked : List (Event W) → Shared W → List (Command W)
  unfolding commands_of
  locked [] s = []
  locked (e ∷ es) s = commands_of e s.hand (locked es (act e s))

  -- Adding or removing a handler does not touch what a call does.
  add_run :
      (id : ℕ) (g : Handler W) (m : Message) (h : Handler W) (c : Client W) (w : W)
      → run_handler conn m h (recovered (add_handler id g c) c, w)
        ≡ obey conn (add id g) (run_handler conn m h (c, w))
  unfolding run_handler obey add_handler recovered
  add_run id g m h c w = ground arith

  remove_run :
      (id : ℕ) (m : Message) (h : Handler W) (c : Client W) (w : W)
      → run_handler conn m h (remove_handler id c, w)
        ≡ obey conn (drop_handler id) (run_handler conn m h (c, w))
  unfolding run_handler obey remove_handler
  remove_run id m h c w = ground arith

  find_settled :
      (m : Message) (s : Shared W)
      → s.hand ≡ none
      → settled (find_next m none s) ≡ handle_msg conn m (s.client, s.world)
  unfolding settled find_next begin handle_msg
  find_settled m s e = ground arith

  none_settled : (s : Shared W) → s.hand ≡ none → settled s ≡ (s.client, s.world)
  unfolding settled
  none_settled s e = ground arith

  some_settled :
      (s : Shared W) (m : Message) (h : Handler W)
      → s.hand ≡ some (m, h)
      → settled s ≡ run_handler conn m h (s.client, s.world)
  unfolding settled
  some_settled s m h e = rw (e, settled) refl

  act_settled :
      (e : Event W) (s : Shared W) (x : Option (Message × Handler W))
      → s.hand ≡ x
      → settled (act e s) ≡ obey_all conn (commands_of e x []) (settled s)
  unfolding act settled obey_all commands_of obey
  act_settled (finds m) s none e =
      ap (λ x. settled (find_next m x s)) e
      ∙ find_settled m s e
      ∙ ap (handle_msg conn m) (sym (none_settled s e))
  act_settled (finds m) s (some x) e = rw (e, act) refl
  act_settled calls s none e = rw (e, act) refl
  act_settled calls s (some (m, h)) e =
      ap (λ x. settled (call_found x s)) e ∙ sym (some_settled s m h e)
  act_settled (adds id g) s none e = rw (e, settled) refl
  act_settled (adds id g) s (some (m, h)) e = rw (e, settled) (add_run id g m h s.client s.world)
  act_settled (removes id) s none e = rw (e, settled) refl
  act_settled (removes id) s (some (m, h)) e = rw (e, settled) (remove_run id m h s.client s.world)

  obey_commands :
      (e : Event W) (x : Option (Message × Handler W)) (ks : List (Command W)) (p : Client W × W)
      → obey_all conn (commands_of e x ks) p
        ≡ obey_all conn ks (obey_all conn (commands_of e x []) p)
  unfolding obey_all commands_of
  obey_commands (finds m) none ks p = refl
  obey_commands (finds m) (some x) ks p = refl
  obey_commands calls x ks p = refl
  obey_commands (adds id h) x ks p = refl
  obey_commands (removes id) x ks p = refl

  run_settled :
      (es : List (Event W)) (s : Shared W)
      → settled (run es s) ≡ obey_all conn (locked es s) (settled s)
  unfolding run locked obey_all
  run_settled [] s = refl
  run_settled (e ∷ es) s =
      run_settled es (act e s)
      ∙ ap (obey_all conn (locked es (act e s))) (act_settled e s s.hand refl)
      ∙ sym (obey_commands e s.hand (locked es (act e s)) (settled s))

  -- When no handler is about to be called, the client and the handlers' state are what the commands
  -- lead to one after the other, a message, AddHandler and RemoveHandler each at the moment at which
  -- it took the lock: handleMsg does not have to hold the lock while a handler runs.
  pub linearizable :
      (c : Client W) (w : W) (es : List (Event W))
      → (run es (idle (c, w))).hand ≡ none
      → let s = run es (idle (c, w)) in
        (s.client, s.world) ≡ obey_all conn (locked es (idle (c, w))) (c, w)
  unfolding settled
  linearizable c w es e = sym (none_settled (run es (idle (c, w))) e) ∙ run_settled es (idle (c, w))
