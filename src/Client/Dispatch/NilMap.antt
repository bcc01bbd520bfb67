-- ===== src/Client/Dispatch/NilMap.antt =====
-- A client of client/client.go whose map of handlers is nil.
use simple_message.Prelude.{ℕ, ◌≡◌, refl, ap, ◌∙◌, List, [], ◌∷◌, ◌++◌, none, arith}
use simple_message.Errors.{panic}
use simple_message.Connection.Request.{Handler}
use simple_message.Client.Dispatch.{
  Client, ClientOption, with_handlers, new_client, apply_options, add_handler, handle_msg, Command,
  add, drop_handler, receive, obey, obey_all,
}

module _ {W : Type 0} (conn : ℕ) where
  obey_nil :
      (k : Command W) (c : Client W) (w : W)
      → c.handler ≡ none
      → ((obey conn k (c, w)).0.handler ≡ none) × ((obey conn k (c, w)).1 ≡ w)
  unfolding obey handle_msg
  obey_nil (add id h) c w e = ground arith
  obey_nil (drop_handler id) c w e = ground arith
  obey_nil (receive m) c w e = ground arith

  obey_all_nil :
      (ks : List (Command W)) (c : Client W) (w : W)
      → c.handler ≡ none
      → ((obey_all conn ks (c, w)).0.handler ≡ none) × ((obey_all conn ks (c, w)).1 ≡ w)
  unfolding obey_all
  obey_all_nil [] c w e = (e, refl)
  obey_all_nil (k ∷ ks) c w e =
      let (e', v) = obey_nil k c w e in
      let (last, world) = obey_all_nil ks (obey conn k (c, w)).0 (obey conn k (c, w)).1 e' in
      (last, world ∙ v)

options_end :
    {W : Type 0} (opts : List (ClientOption W)) (o : ClientOption W) (c : Client W)
    → apply_options (opts ++ o ∷ []) c ≡ o (apply_options opts c)
unfolding apply_options
options_end [] o c = refl
options_end (p ∷ opts) o c = options_end opts o (p c)

-- A client that is made with a nil map of handlers, which its last option gives, keeps the nil map
-- whatever its user and its connection do: every AddHandler panics and no message reaches a
-- handler.
nil_handlers :
    {W : Type 0} (conn : ℕ) (opts : List (ClientOption W)) (ks : List (Command W)) (w : W)
    → let (c, v) = obey_all conn ks (new_client (opts ++ with_handlers none ∷ []), w) in
      ((id : ℕ) (h : Handler W) → add_handler id h c ≡ panic) × (v ≡ w)
unfolding new_client add_handler with_handlers
nil_handlers conn opts ks w =
    let c = new_client (opts ++ with_handlers none ∷ []) in
    let (e, v) =
      obey_all_nil conn ks c w (ap (λ d. d.handler) (options_end opts (with_handlers none) _)) in
    ((λ id h. rw (e, add_handler) refl), v)
