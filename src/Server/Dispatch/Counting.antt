-- ===== src/Server/Dispatch/Counting.antt =====
-- The server's statistics against a record of what its handlers returned.
use simple_message.Prelude.{
  ℕ, ◌%◌, ◌≡◌, refl, List, [], ◌∷◌, Option, none, some, lookup, nat_eq, length, sym, inl, inr,
  Option-cases, subst,
}
use simple_message.Errors.{Error}
use simple_message.Protocol.Decoder.{Message}
use simple_message.Connection.Request.{Handler, new_request}
use simple_message.Stats.{
  HandlerStats, new_handler_stats, add_success_bytes, add_failed_bytes, get_statistic,
  get_unknown_msg, u64_mod, add_bytes,
}
use simple_message.Stats.Totals.{totals}
use simple_message.Connection.Account.{
  Account, account, is_nil, Kept, new-Kept, Kept-miss, Kept-call, Kept-totals,
}
use simple_message.Server.Dispatch.{Server, handle_msg, handle_msgs, count_result}

-- The account of messages, in order, with the same handlers in force
module _ {W : Type 0} (conn : ℕ) where
  unfoldable pub account_all : List (ℕ × Handler W) → List Message → Account W → Account W
  unfolding account
  account_all handlers [] a = a
  account_all handlers (m ∷ ms) a =
      account_all handlers ms (account conn (lookup m.msg_id handlers) m a)

count_result-add_bytes :
    (m : Message) (e : Option Error) (s : HandlerStats)
    → count_result m e s ≡ add_bytes s m.msg_id (length m.msg_data) (is_nil e)
unfolding count_result add_success_bytes add_failed_bytes
count_result-add_bytes m none s = refl
count_result-add_bytes m (some e) s = refl

module _ {W : Type 0} (conn : ℕ) where
  abbrev pub Follows : Server W × W → List (ℕ × Handler W) → Account W → Type 0
  Follows p handlers a = Kept p.0.stats a × (p.1 ≡ a.world) × (p.0.handler ≡ handlers)

  handle_msg-Kept :
      (m : Message) (s : Server W) (a : Account W)
      → Kept s.stats a
      → Follows
          (handle_msg conn m (s, a.world))
          s.handler
          (account conn (lookup m.msg_id s.handler) m a)
  unfolding handle_msg account new_request
  handle_msg-Kept m s a k = elim (Option-cases (lookup m.msg_id s.handler)) [
    | inl e ↦ rw (e, handle_msg, account) (Kept-miss conn m s.stats a k, refl, refl)
    | inr (handle, e) ↦
        let r =
          handle (record { conn = conn; request_data = m.msg_data; msg_id = m.msg_id }) a.world in
        rw (e, handle_msg, account, count_result-add_bytes m r.0 s.stats)
          (Kept-call conn m s.stats a k handle, refl, refl)
  ]

  pub handle_msg-Follows :
      (m : Message) (p : Server W × W) (hs : List (ℕ × Handler W)) (a : Account W)
      → Follows p hs a
      → Follows (handle_msg conn m p) hs (account conn (lookup m.msg_id hs) m a)
  handle_msg-Follows m p hs a (k, w, h) =
      subst (λ g. Follows (handle_msg conn m p) g (account conn (lookup m.msg_id g) m a)) h
        (subst
          (λ x.
            Follows (handle_msg conn m (p.0, x)) p.0.handler
              (account conn (lookup m.msg_id p.0.handler) m a))
          (sym w) (handle_msg-Kept m p.0 a k))

  handle_msgs-Follows :
      (ms : List Message) (p : Server W × W) (hs : List (ℕ × Handler W)) (a : Account W)
      → Follows p hs a
      → Follows (handle_msgs conn ms p) hs (account_all conn hs ms a)
  unfolding handle_msgs account_all
  handle_msgs-Follows [] p hs a f = f
  handle_msgs-Follows (m ∷ ms) p hs a f =
      handle_msgs-Follows ms (handle_msg conn m p) hs (account conn (lookup m.msg_id hs) m a)
        (handle_msg-Follows m p hs a f)

  -- A server with new statistics that handles messages: GetStatistic gives the totals of the account,
  -- and GetUnknownMsg its misses.
  pub handle_msgs-account :
      (s : Server W) (ms : List Message) (w : W)
      → s.stats ≡ new_handler_stats
      → let (t, w') = handle_msgs conn ms (s, w) in
        let a = account_all conn s.handler ms (record { log = []; misses = 0; world = w }) in
        (w' ≡ a.world)
        × ((id : ℕ) → get_statistic t.stats id ≡ totals id a.log)
        × (get_unknown_msg t.stats ≡ a.misses % u64_mod)
  handle_msgs-account s ms w e =
      let a : Account W = record { log = []; misses = 0; world = w } in
      let k : Kept s.stats a = rw e (new-Kept w) in
      let (k', w', h) = handle_msgs-Follows ms (s, w) s.handler a (k, refl, refl) in
      let (counted, unknown) = Kept-totals _ _ k' in (w', counted, unknown)
