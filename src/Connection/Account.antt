-- ===== src/Connection/Account.antt =====
-- What the statistics are to record of messages and their handlers' results, for the server's and
-- the client's handleMsg.
use simple_message.Prelude.{
  ℕ, suc, ◌≡◌, refl, Bool, true, false, List, [], ◌∷◌, Option, none, some, length, ◌%◌,
}
use simple_message.Errors.{Error}
use simple_message.Protocol.Decoder.{Message}
use simple_message.Connection.Request.{Handler}
use simple_message.Stats.{
  HandlerStats, new_handler_stats, inc_unknown_msg, add_bytes, get_or_create_statistic,
  get_statistic, get_unknown_msg, u64_mod,
}
use simple_message.Stats.Totals.{Call, totals}
use simple_message.Stats.Concurrent.{
  State, look_up, write, miss, Reach, start, next, get_statistic-totals,
}

abbrev pub is_nil : Option Error → Bool
is_nil none = true
is_nil (some e) = false

-- What is to be recorded of messages: the calls of AddBytes, the last one first, the number of
-- messages that no handler takes, and the state that the handlers leave.
pub record Account (W : Type 0) : Type 0 where
  pub log : List Call
  pub misses : ℕ
  pub world : W

module _ {W : Type 0} (conn : ℕ) where
  -- One message: the handler of its number is called once, on its number and data, and its result
  -- is recorded.
  unfoldable pub account : Option (Handler W) → Message → Account W → Account W
  account none m a = record a { misses = suc a.misses }
  account (some handle) m a =
      let (e, w) =
        handle (record { conn = conn; request_data = m.msg_data; msg_id = m.msg_id }) a.world in
      record {
        log = record { msg_id = m.msg_id; bytes = length m.msg_data; success = is_nil e } ∷ a.log;
        misses = a.misses;
        world = w;
      }

-- A call of AddBytes with nothing between its two parts
add_bytes-Reach :
    (s : State) (c : Call)
    → Reach s
    → Reach (record s { stats = add_bytes s.stats c.msg_id c.bytes c.success; log = c ∷ s.log })
unfolding add_bytes
add_bytes-Reach s c r =
    next (next r (look_up c))
      (write [] s.pending (get_or_create_statistic s.stats c.msg_id).0 c refl)

-- The statistics are those that some run of calls leads to.
pub record Kept (s : HandlerStats) {W : Type 0} (a : Account W) : Type 0 where
  pub pending : List (ℕ × Call)
  pub reach : Reach (record { stats = s; pending = pending; log = a.log; misses = a.misses })

-- Statistics that have counted nothing
pub new-Kept :
    {W : Type 0} (w : W) → Kept new_handler_stats (record { log = []; misses = 0; world = w })
new-Kept w = record { pending = []; reach = start }

module _ {W : Type 0} (conn : ℕ) (m : Message) (s : HandlerStats) (a : Account W)
    (k : Kept s a) where
  pub Kept-miss : Kept (inc_unknown_msg s) (account conn none m a)
  unfolding account
  Kept-miss = record { pending = k.pending; reach = next k.reach miss }

  pub Kept-call :
      (handle : Handler W)
      → let r =
          handle (record { conn = conn; request_data = m.msg_data; msg_id = m.msg_id }) a.world in
        Kept
          (add_bytes s m.msg_id (length m.msg_data) (is_nil r.0))
          (account conn (some handle) m a)
  unfolding account
  Kept-call handle =
      let r =
        handle (record { conn = conn; request_data = m.msg_data; msg_id = m.msg_id }) a.world in
      let c : Call = record {
        msg_id = m.msg_id;
        bytes = length m.msg_data;
        success = is_nil r.0;
      } in
      record { pending = k.pending; reach = add_bytes-Reach _ c k.reach }

-- Statistics that are kept give the account's totals.
pub Kept-totals :
    {W : Type 0} (s : HandlerStats) (a : Account W)
    → Kept s a
    → ((id : ℕ) → get_statistic s id ≡ totals id a.log) × (get_unknown_msg s ≡ a.misses % u64_mod)
Kept-totals s a k = (λ id. (get_statistic-totals k.reach id).0, (get_statistic-totals k.reach 0).1)
