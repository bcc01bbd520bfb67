-- ===== src/Server/Dispatch.antt =====
-- server/server.go, the options, and server/handler.go, handleMsg.
pub mod Counting
pub mod Reading
pub mod Images
use simple_message.Prelude.{ℕ, ◌≡◌, refl, List, [], ◌∷◌, Option, none, some, lookup, nat_eq, length}
use simple_message.Errors.{Error}
use simple_message.Protocol.Decoder.{Message, default_max_data_len}
use simple_message.Connection.Request.{Handler, new_request}
use simple_message.Stats.{
  HandlerStats, new_handler_stats, add_success_bytes, add_failed_bytes, inc_unknown_msg,
}

-- What the options set, and the statistics; `W` is the state that handlers share.
pub record Server (W : Type 0) : Type 0 where
  pub handler : List (ℕ × Handler W)
  pub max_data_len : ℕ
  pub max_conn_count : ℕ
  pub stats : HandlerStats

abbrev pub ServerOption : Type 0 → Type 0
ServerOption W = Server W → Server W

-- The counters after the handler's return
count_result : Message → Option Error → HandlerStats → HandlerStats
count_result m none s = add_success_bytes s m.msg_id (length m.msg_data)
count_result m (some e) s = add_failed_bytes s m.msg_id (length m.msg_data)

module _ {W : Type 0} where
  unfoldable pub with_max_data_len : ℕ → ServerOption W
  with_max_data_len n s = record s { max_data_len = n }

  unfoldable pub with_max_conn_count : ℕ → ServerOption W
  with_max_conn_count n s = record s { max_conn_count = n }

  unfoldable pub with_handlers : List (ℕ × Handler W) → ServerOption W
  with_handlers hs s = record s { handler = hs }

  apply_options : List (ServerOption W) → Server W → Server W
  apply_options [] s = s
  apply_options (o ∷ os) s = apply_options os (o s)

  unfoldable pub new_server : List (ServerOption W) → Server W
  unfolding apply_options
  new_server opts = apply_options opts (record {
    handler = [];
    max_data_len = default_max_data_len;
    max_conn_count = 0;
    stats = new_handler_stats;
  })

  unfoldable pub handle_msg : ℕ → Message → Server W × W → Server W × W
  unfolding count_result
  handle_msg conn m (s, w) = elim (lookup m.msg_id s.handler) [
    | none ↦ (record s { stats = inc_unknown_msg s.stats }, w)
    | some handle ↦
        let (e, w') = handle (new_request conn m.msg_id m.msg_data) w in
        (record s { stats = count_result m e s.stats }, w')
  ]

  unfoldable pub handle_msgs : ℕ → List Message → Server W × W → Server W × W
  unfolding handle_msg
  handle_msgs conn [] s = s
  handle_msgs conn (m ∷ ms) s = handle_msgs conn ms (handle_msg conn m s)

  -- One message whose handler is known
  pub handle_msg-some :
      (conn : ℕ) (m : Message) (s : Server W) (w : W) (handle : Handler W)
      → lookup m.msg_id s.handler ≡ some handle
      → ((handle_msg conn m (s, w)).0.handler ≡ s.handler)
        × ((handle_msg conn m (s, w)).1 ≡ (handle (new_request conn m.msg_id m.msg_data) w).1)
  unfolding handle_msg
  handle_msg-some conn m s w handle e = rw (e, handle_msg) (refl, refl)

  pub handle_msg-none :
      (conn : ℕ) (m : Message) (s : Server W) (w : W)
      → lookup m.msg_id s.handler ≡ none
      → ((handle_msg conn m (s, w)).0.handler ≡ s.handler) × ((handle_msg conn m (s, w)).1 ≡ w)
  unfolding handle_msg
  handle_msg-none conn m s w e = rw (e, handle_msg) (refl, refl)
