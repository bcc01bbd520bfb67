-- ===== src/Server/Dispatch/Reading.antt =====
-- The loop of read with the server's handleMsg: from the bytes of a connection to the statistics.
use simple_message.Prelude.{
  ◌*◌, ◌==◌, if◌then◌else◌, ℕ, ◌<◌, ◌≤◌, ◌≡◌, ◌%◌, refl, ap, ◌∙◌, List, [], ◌∷◌, ◌++◌, some, length,
}
use simple_message.Errors.{Error, err}
use simple_message.Protocol.Wire.{AreBytes, All}
use simple_message.Protocol.Stream.{Stream}
use simple_message.Protocol.Stream.View.{view}
use simple_message.Protocol.Decoder.{Message, Decoder, unmarshal, new_decoder}
use simple_message.Connection.ReadLoop.{read, handle_all, frames, read_total}
use simple_message.Stats.{new_handler_stats, get_statistic, get_unknown_msg, u64_mod}
use simple_message.Stats.Totals.{totals}
use simple_message.Server.Dispatch.{Server, handle_msg, handle_msgs}
use simple_message.Server.Dispatch.Counting.{account_all, handle_msgs-account}

-- NewHandlerManager makes the connection's Decoder of the server's limit, where 0 is the default.
abbrev pub decoder_of : {W : Type 0} → Server W → Decoder
decoder_of s = new_decoder s.max_data_len

-- The limit that WithMaxDataLen sets, where 0 is 2 MB
abbrev pub limit_of : {W : Type 0} → Server W → ℕ
limit_of s = if s.max_data_len == 0 then 1024 * 1024 * 2 else s.max_data_len

module _ {W : Type 0} (conn : ℕ) where
  handle_all-msgs :
      (ms : List Message) (p : Server W × W)
      → handle_all (handle_msg conn) ms p ≡ handle_msgs conn ms p
  unfolding handle_msgs
  handle_all-msgs [] p = refl
  handle_all-msgs (m ∷ ms) p = handle_all-msgs ms (handle_msg conn m p)

  -- The messages `ms` are what a connection's bytes have come to.
  abbrev pub Served : Server W → W → List Message → Server W × W → Type 0
  Served s w ms p =
      let a = account_all conn s.handler ms (record { log = []; misses = 0; world = w }) in
      (p.1 ≡ a.world)
      × ((id : ℕ) → get_statistic p.0.stats id ≡ totals id a.log)
      × (get_unknown_msg p.0.stats ≡ a.misses % u64_mod)

  -- A server with new statistics reads a connection until Unmarshal fails, with fuel for one message
  -- more than there are bytes, in whatever pieces the bytes come. They are then the frames of
  -- messages, none above the server's limit or, where that is 0, above 2 MB, and what was left for the
  -- Unmarshal that failed. For each of these messages the handler of its number was called, once, in
  -- order and with its data, so that the handlers' state is the account's; GetStatistic gives for every
  -- number the packets and bytes whose handler returned nil and those whose handler did not, modulo
  -- 2 ^ 64, and GetUnknownMsg the messages without a handler.
  pub read-Served :
      (s : Server W) (w : W) (fuel : ℕ) (bs : Stream)
      → s.stats ≡ new_handler_stats
      → length (view bs).bytes < fuel
      → AreBytes (view bs).bytes
      → let d = decoder_of s in
        (ms : List Message) × (e : Error) × (p : Server W × W) × (last : Stream) × (read fuel d
            (handle_msg conn)
            (s, w)
            bs
          ≡ some (e, p, (unmarshal d last).1))
        × ((unmarshal d last).0 ≡ err e)
        × ((view bs).bytes ≡ frames ms ++ (view last).bytes)
        × All (λ m. length m.msg_data ≤ limit_of s) ms
        × Served s w ms p
  unfolding new_decoder
  read-Served s w fuel bs n h hb =
      let d = decoder_of s in
      let (ms, e, last, r, f, b, a) = read_total d (handle_msg conn) fuel (s, w) bs h hb in
      let q = handle_all-msgs ms (s, w) in
      (
        ms,
        e,
        handle_msgs conn ms (s, w),
        last,
        r ∙ ap (λ p. some (e, p, (unmarshal d last).1)) q,
        f,
        b,
        a,
        handle_msgs-account conn s ms w n,
      )
