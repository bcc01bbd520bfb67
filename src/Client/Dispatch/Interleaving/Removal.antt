-- ===== src/Client/Dispatch/Interleaving/Removal.antt =====
-- A handler of client/client.go that was found and is not called yet, while handlers are added and
-- removed.
use simple_message.Prelude.{ℕ, ◌≡◌, refl, ap, ◌∙◌, List, [], ◌∷◌, none, some}
use simple_message.Protocol.Decoder.{Message}
use simple_message.Connection.Request.{Handler, new_request}
use simple_message.Protocol.Wire.{All}
use simple_message.Client.Dispatch.{find_handler, run_handler}
use simple_message.Client.Dispatch.Interleaving.{
  Shared, Event, finds, calls, adds, removes, act, run,
}
use simple_message.Client.Dispatch.Interleaving.Steps.{finds-some, calls-some}

module _ {W : Type 0} (conn : ℕ) where
  -- Everything but the call of the handler that was found
  abbrev pub IsOther : Event W → Type 0
  IsOther calls = ⊥
  IsOther _ = Unit

  other_keeps :
      (e : Event W) (s : Shared W) (x : Message × Handler W)
      → IsOther e
      → s.hand ≡ some x
      → ((act conn e s).hand ≡ some x) × ((act conn e s).world ≡ s.world)
  unfolding act
  other_keeps (finds m) s x o e = rw (e, act) (refl, refl)
  other_keeps calls s x o e = absurd o
  other_keeps (adds id h) s x o e = (e, refl)
  other_keeps (removes id) s x o e = (e, refl)

  others_keep :
      (es : List (Event W)) (s : Shared W) (x : Message × Handler W)
      → All IsOther es
      → s.hand ≡ some x
      → ((run conn es s).hand ≡ some x) × ((run conn es s).world ≡ s.world)
  unfolding run
  others_keep [] s x o e = (e, refl)
  others_keep (f ∷ es) s x o e =
      let (h, w) = other_keeps f s x o.0 e in
      let (h', w') = others_keep es (act conn f s) x o.1 h in (h', w' ∙ w)

  -- A handler that handleMsg has found is called, with the message for which it was found and on the
  -- handlers' state as it is then, whatever is added and removed before the call: it may begin to run
  -- after RemoveHandler of its number has returned.
  pub found_runs :
      (s : Shared W) (m : Message) (h : Handler W) (es : List (Event W))
      → s.hand ≡ none
      → find_handler m.msg_id s.client ≡ some h
      → All IsOther es
      → let t = act conn calls (run conn es (act conn (finds m) s)) in
        (t.world ≡ (h (new_request conn m.msg_id m.msg_data) s.world).1) × (t.hand ≡ none)
  unfolding run_handler
  found_runs s m h es e f o =
      let found = finds-some conn s m h e f in
      let (kept, w) = others_keep es (act conn (finds m) s) (m, h) o (ap (λ t. t.hand) found) in
      let called = calls-some conn (run conn es (act conn (finds m) s)) m h kept in
      (
        ap (λ t. t.world) called
            ∙ ap (λ x. (h (new_request conn m.msg_id m.msg_data) x).1)
                (w ∙ ap (λ t. t.world) found),
        ap (λ t. t.hand) called,
      )
