-- ===== src/Client/Dispatch.antt =====
-- client/client.go: options, AddHandler, RemoveHandler, handleMsg and SendMsg.
use simple_message.Prelude.{
  ◌≡◌, refl, ℕ, List, [], ◌∷◌, Option, none, some, lookup, insert, remove, nat_eq, length,
}
use simple_message.Errors.{Result, ok, err, panic, Error, conn_failed}
use simple_message.Protocol.Decoder.{Message, default_max_data_len}
use simple_message.Connection.Request.{Handler, new_request}
use simple_message.Stats.{
  HandlerStats, new_handler_stats, add_success_bytes, add_failed_bytes, inc_unknown_msg,
}
pub mod Counting
pub mod NilMap
pub mod Interleaving
pub mod Agreement

pub record Client (W : Type 0) : Type 0 where
  -- `none` is a nil map
  pub handler : Option (List (ℕ × Handler W))
  pub max_data_len : ℕ
  pub stats : HandlerStats
  -- connPointer: the connection of the last dial that succeeded
  pub conn_pointer : Option ℕ

abbrev pub ClientOption : Type 0 → Type 0
ClientOption W = Client W → Client W

-- The counters after the handler's return
count_result : Message → Option Error → HandlerStats → HandlerStats
count_result m none s = add_success_bytes s m.msg_id (length m.msg_data)
count_result m (some e) s = add_failed_bytes s m.msg_id (length m.msg_data)

module _ {W : Type 0} where
  unfoldable pub with_max_data_len : ℕ → ClientOption W
  with_max_data_len n c = record c { max_data_len = n }

  -- maps.Clone keeps a nil map nil.
  unfoldable pub with_handlers : Option (List (ℕ × Handler W)) → ClientOption W
  with_handlers hs c = record c { handler = hs }

  apply_options : List (ClientOption W) → Client W → Client W
  apply_options [] c = c
  apply_options (o ∷ os) c = apply_options os (o c)

  unfoldable pub new_client : List (ClientOption W) → Client W
  unfolding apply_options
  new_client opts = apply_options opts (record {
    handler = some [];
    max_data_len = default_max_data_len;
    stats = new_handler_stats;
    conn_pointer = none;
  })

  -- A write to a nil map panics.
  unfoldable pub add_handler : ℕ → Handler W → Client W → Result (Client W)
  add_handler id h c = elim c.handler [
    | none ↦ panic
    | some hs ↦ ok (record c { handler = some (insert id h hs) })
  ]

  unfoldable pub remove_handler : ℕ → Client W → Client W
  remove_handler id c = elim c.handler [
    | none ↦ c
    | some hs ↦ record c { handler = some (remove id hs) }
  ]

  -- The part of handleMsg that holds the lock, and finds nothing in a nil map
  unfoldable pub find_handler : ℕ → Client W → Option (Handler W)
  find_handler id c = elim c.handler [ none ↦ none | some hs ↦ lookup id hs ]

  -- The part behind it, for a number without a handler
  unfoldable pub count_unknown : Client W → Client W
  count_unknown c = record c { stats = inc_unknown_msg c.stats }

  -- and for one with a handler
  unfoldable pub run_handler : ℕ → Message → Handler W → Client W × W → Client W × W
  unfolding count_result
  run_handler conn m handle (c, w) =
      let (e, w') = handle (new_request conn m.msg_id m.msg_data) w in
      (record c { stats = count_result m e c.stats }, w')

  unfoldable pub handle_msg : ℕ → Message → Client W × W → Client W × W
  unfolding find_handler count_unknown run_handler
  handle_msg conn m (c, w) = elim (find_handler m.msg_id c) [
    | none ↦ (count_unknown c, w)
    | some handle ↦ run_handler conn m handle (c, w)
  ]

  -- One message whose handler is known, and one that has none
  pub handle_msg-some :
      (conn : ℕ) (m : Message) (c : Client W) (w : W) (hs : List (ℕ × Handler W))
      (handle : Handler W)
      → c.handler ≡ some hs
      → lookup m.msg_id hs ≡ some handle
      → ((handle_msg conn m (c, w)).0.handler ≡ some hs)
        × ((handle_msg conn m (c, w)).1 ≡ (handle (new_request conn m.msg_id m.msg_data) w).1)
  unfolding handle_msg find_handler run_handler
  handle_msg-some conn m c w hs handle e f = rw (e, f, handle_msg) (e, refl)

  pub handle_msg-none :
      (conn : ℕ) (m : Message) (c : Client W) (w : W) (hs : List (ℕ × Handler W))
      → c.handler ≡ some hs
      → lookup m.msg_id hs ≡ none
      → ((handle_msg conn m (c, w)).0.handler ≡ some hs) × ((handle_msg conn m (c, w)).1 ≡ w)
  unfolding handle_msg find_handler count_unknown
  handle_msg-none conn m c w hs e f = rw (e, f, handle_msg) (e, refl)

  -- SendMsg and SendMsgContext; `send` is that of a connection, over the state `S`.
  unfoldable pub send_msg_context :
      {S : Type 0}
      → (ℕ → Message → S → Option Error × S)
      → Client W
      → Message
      → S
      → Option Error × S
  send_msg_context send c m s = elim c.conn_pointer [
    | none ↦ (some conn_failed, s)
    | some conn ↦ send conn m s
  ]

-- What a client's user and its connection do to it
pub data Command (W : Type 0) : Type 0 where
  add : ℕ → Handler W → Command W
  drop_handler : ℕ → Command W
  receive : Message → Command W

module _ {W : Type 0} where
  -- A panic of AddHandler gives back the lock and leaves the client as it was.
  recovered : Result (Client W) → Client W → Client W
  recovered (ok c') c = c'
  recovered (err e) c = c
  recovered panic c = c

  unfoldable pub obey : ℕ → Command W → Client W × W → Client W × W
  unfolding add_handler remove_handler recovered
  obey conn (add id h) (c, w) = (recovered (add_handler id h c) c, w)
  obey conn (drop_handler id) (c, w) = (remove_handler id c, w)
  obey conn (receive m) p = handle_msg conn m p

  -- AddHandler and RemoveHandler, when the client has a map
  pub add-handlers :
      (conn id : ℕ) (h : Handler W) (c : Client W) (w : W) (hs : List (ℕ × Handler W))
      → c.handler ≡ some hs
      → ((obey conn (add id h) (c, w)).0.handler ≡ some (insert id h hs))
        × ((obey conn (add id h) (c, w)).1 ≡ w)
  unfolding obey add_handler recovered
  add-handlers conn id h c w hs e = rw (e, add_handler) (refl, refl)

  pub drop-handlers :
      (conn id : ℕ) (c : Client W) (w : W) (hs : List (ℕ × Handler W))
      → c.handler ≡ some hs
      → ((obey conn (drop_handler id) (c, w)).0.handler ≡ some (remove id hs))
        × ((obey conn (drop_handler id) (c, w)).1 ≡ w)
  unfolding obey remove_handler
  drop-handlers conn id c w hs e = rw (e, remove_handler) (refl, refl)

  unfoldable pub obey_all : ℕ → List (Command W) → Client W × W → Client W × W
  unfolding obey
  obey_all conn [] p = p
  obey_all conn (k ∷ ks) p = obey_all conn ks (obey conn k p)
