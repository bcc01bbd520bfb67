-- ===== src/Client/Dispatch/Counting.antt =====
-- The client's statistics against an account of what the handlers in force returned.
use simple_message.Prelude.{
  ℕ, ◌%◌, ◌≡◌, refl, List, [], ◌∷◌, Option, none, some, if◌then◌else◌, ◌==◌, lookup, nat_eq,
  lookup-insert, lookup-remove, sym, subst, inl, inr, Option-cases, length, arith,
}
use simple_message.Errors.{Error}
use simple_message.Protocol.Decoder.{Message}
use simple_message.Connection.Request.{Handler, new_request}
use simple_message.Stats.{
  HandlerStats, new_handler_stats, get_statistic, get_unknown_msg, u64_mod, add_bytes,
  add_success_bytes, add_failed_bytes,
}
use simple_message.Stats.Totals.{totals}
use simple_message.Connection.Account.{
  Account, account, is_nil, Kept, new-Kept, Kept-miss, Kept-call, Kept-totals,
}
use simple_message.Client.Dispatch.{
  find_handler, add_handler, remove_handler, recovered, Client, handle_msg, Command, add,
  drop_handler, receive, obey, obey_all, count_result,
}

-- The handlers in force, as a function; `none` is a nil map.
abbrev pub Handlers : Type 0 → Type 0
Handlers W = Option (ℕ → Option (Handler W))

abbrev pub known : {W : Type 0} → Handlers W → ℕ → Option (Handler W)
known none id = none
known (some f) id = f id

assign : {W : Type 0} → ℕ → Option (Handler W) → Handlers W → Handlers W
assign id h none = none
assign id h (some f) = some (λ j. if id == j then h else f j)

-- The handlers of a client
unfoldable pub handlers_of : {W : Type 0} → Client W → Handlers W
handlers_of c = elim c.handler [ none ↦ none | some hs ↦ some (λ id. lookup id hs) ]

-- The handlers in force and the account, after a command
module _ {W : Type 0} (conn : ℕ) where
  unfoldable pub expect : Command W → Handlers W × Account W → Handlers W × Account W
  unfolding account assign
  expect (add id h) (f, a) = (assign id (some h) f, a)
  expect (drop_handler id) (f, a) = (assign id none f, a)
  expect (receive m) (f, a) = (f, account conn (known f m.msg_id) m a)

  unfoldable pub expect_all : List (Command W) → Handlers W × Account W → Handlers W × Account W
  unfolding expect
  expect_all [] x = x
  expect_all (k ∷ ks) x = expect_all ks (expect k x)

count_result-add_bytes :
    (m : Message) (e : Option Error) (s : HandlerStats)
    → count_result m e s ≡ add_bytes s m.msg_id (length m.msg_data) (is_nil e)
unfolding count_result add_success_bytes add_failed_bytes
count_result-add_bytes m none s = refl
count_result-add_bytes m (some e) s = refl

-- A map reads like the handlers in force.
abbrev Reads : {W : Type 0} → Option (List (ℕ × Handler W)) → Handlers W → Type 0
Reads none none = Unit
Reads none (some f) = ⊥
Reads (some hs) none = ⊥
Reads (some hs) (some f) = (id : ℕ) → lookup id hs ≡ f id

record Agrees {W : Type 0} (p : Client W × W) (x : Handlers W × Account W) : Type 0 where
  kept : Kept p.0.stats x.1
  world : p.1 ≡ x.1.world
  handlers : Reads p.0.handler x.0

found :
    {W : Type 0} (c : Client W) (m : Option (List (ℕ × Handler W))) (f : Handlers W) (id : ℕ)
    → c.handler ≡ m
    → Reads m f
    → find_handler id c ≡ known f id
unfolding find_handler
found c none none id e r = rw (e, find_handler)
found c none (some f) id e r = absurd r
found c (some hs) none id e r = absurd r
found c (some hs) (some f) id e r = rw (e, find_handler) (r id)

added :
    {W : Type 0} (c : Client W) (m : Option (List (ℕ × Handler W))) (f : Handlers W) (id : ℕ)
    (h : Handler W)
    → c.handler ≡ m
    → Reads m f
    → Reads (recovered (add_handler id h c) c).handler (assign id (some h) f)
unfolding add_handler recovered assign
added c none none id h e r = rw (e, add_handler) tt
added c none (some f) id h e r = absurd r
added c (some hs) none id h e r = absurd r
added c (some hs) (some f) id h e r =
    rw (e, add_handler) (λ j. ground (arith, lookup-insert id j h hs, r j))

removed :
    {W : Type 0} (c : Client W) (m : Option (List (ℕ × Handler W))) (f : Handlers W) (id : ℕ)
    → c.handler ≡ m
    → Reads m f
    → Reads (remove_handler id c).handler (assign id none f)
unfolding remove_handler assign
removed c none none id e r = rw (e, remove_handler, e) tt
removed c none (some f) id e r = absurd r
removed c (some hs) none id e r = absurd r
removed c (some hs) (some f) id e r =
    rw (e, remove_handler) (λ j. ground (arith, lookup-remove id j hs, r j))

own :
    {W : Type 0} (c : Client W) (m : Option (List (ℕ × Handler W)))
    → c.handler ≡ m
    → Reads c.handler (handlers_of c)
unfolding handlers_of
own c none e = rw (e, handlers_of) tt
own c (some hs) e = rw (e, handlers_of) (λ id. refl)

unstatted :
    {W : Type 0} (id : ℕ) (h : Handler W) (c : Client W)
    → ((recovered (add_handler id h c) c).stats ≡ c.stats) × ((remove_handler id c).stats ≡ c.stats)
unfolding add_handler remove_handler recovered
unstatted id h c = (ground arith, ground arith)

module _ {W : Type 0} (conn : ℕ) where
  receive-Agrees :
      (m : Message) (c : Client W) (f : Handlers W) (a : Account W)
      → Kept c.stats a
      → Reads c.handler f
      → Agrees (handle_msg conn m (c, a.world)) (expect conn (receive m) (f, a))
  unfolding handle_msg expect new_request
  receive-Agrees m c f a k h =
      let here = found c c.handler f m.msg_id refl h in
      elim (Option-cases (known f m.msg_id)) [
        | inl e ↦
            rw (here, handle_msg, e, expect)
              (record { kept = Kept-miss conn m c.stats a k; world = refl; handlers = h })
        | inr (handle, e) ↦
            let r =
              handle (record { conn = conn; request_data = m.msg_data; msg_id = m.msg_id })
                a.world in
            rw (here, handle_msg, e, expect, count_result-add_bytes m r.0 c.stats)
              (record { kept = Kept-call conn m c.stats a k handle; world = refl; handlers = h })
      ]

  obey-Agrees :
      (k : Command W) (p : Client W × W) (x : Handlers W × Account W)
      → Agrees p x
      → Agrees (obey conn k p) (expect conn k x)
  unfolding obey expect
  obey-Agrees (add id h) (c, w) (f, a) g = record {
    kept = rw (unstatted id h c).0 g.kept;
    world = g.world;
    handlers = added c c.handler f id h refl g.handlers;
  }
  obey-Agrees (drop_handler id) (c, w) (f, a) g = record {
    kept = rw (unstatted id (λ r w. (none, w)) c).1 g.kept;
    world = g.world;
    handlers = removed c c.handler f id refl g.handlers;
  }
  obey-Agrees (receive m) (c, w) (f, a) g =
      subst (λ v. Agrees (handle_msg conn m (c, v)) (expect conn (receive m) (f, a))) (sym g.world)
        (receive-Agrees m c f a g.kept g.handlers)

  obey_all-Agrees :
      (ks : List (Command W)) (p : Client W × W) (x : Handlers W × Account W)
      → Agrees p x
      → Agrees (obey_all conn ks p) (expect_all conn ks x)
  unfolding obey_all expect_all
  obey_all-Agrees [] p x g = g
  obey_all-Agrees (k ∷ ks) p x g =
      obey_all-Agrees ks (obey conn k p) (expect conn k x) (obey-Agrees k p x g)

  -- A client with new statistics gives each message to the handler that was last added for its
  -- number and not removed since, once and in order, so that the handlers' state is the account's.
  -- GetStatistic then gives for every number the packets and bytes whose handler returned nil and
  -- those whose handler did not, modulo 2 ^ 64, and GetUnknownMsg the messages without a handler.
  pub obey_all-account :
      (c : Client W) (ks : List (Command W)) (w : W)
      → c.stats ≡ new_handler_stats
      → let (t, w') = obey_all conn ks (c, w) in
        let a =
          (expect_all conn ks (handlers_of c, record { log = []; misses = 0; world = w })).1 in
        (w' ≡ a.world)
        × ((id : ℕ) → get_statistic t.stats id ≡ totals id a.log)
        × (get_unknown_msg t.stats ≡ a.misses % u64_mod)
  obey_all-account c ks w e =
      let x : Handlers W × Account W =
        (handlers_of c, record { log = []; misses = 0; world = w }) in
      let g =
        obey_all-Agrees ks (c, w) x
          (record { kept = rw e (new-Kept w); world = refl; handlers = own c c.handler refl }) in
      let (counted, unknown) = Kept-totals _ _ g.kept in (g.world, counted, unknown)
