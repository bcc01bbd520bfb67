-- ===== src/Server/Handling/Quitting.antt =====
-- The managers of connections whose goroutines have ended come to their end.
use simple_message.Prelude.{
  ℕ, suc, true, false, List, [], ◌∷◌, ◌++◌, none, map, ◌≡◌, ◌≢◌, refl, sym, ap, ◌∙◌, subst,
}
use simple_message.Protocol.Wire.{All, All-append}
use simple_message.Connection.State.{Manager, SendPc, ReadPc}
use simple_message.Connection.Manager.Run
use simple_message.Connection.Manager.Stopping
use simple_message.Connection.Manager.Stopping.Ending.{end_stop}
use simple_message.Server.Handling.{Handling, ended}
use simple_message.Server.Handling
use simple_message.Server.Handling.Group.{inner, manage, cancel_manager, linger, linger_all}
use simple_message.Server.Handling.Linked.{Over}

-- An action of a manager's own is not the end of the context it was given.
pub own-inner : (e : Run.Event) (h : Manager) → Stopping.IsOwn e → inner e h ≡ Run.act e h
own-inner (Run.cancel e) h o = absurd o
own-inner _ h o = refl

-- The goroutines of a connection's manager have ended.
abbrev pub Gone : {T : Type 0} → Handling T → Type 0
Gone x = (x.manager.send_pc ≡ SendPc.gone) × (x.manager.read_pc ≡ ReadPc.gone)

abbrev at_first : List Run.Event → List (ℕ × Run.Event)
at_first [] = []
at_first (e ∷ es) = (0, e) ∷ at_first es

abbrev behind : List (ℕ × Run.Event) → List (ℕ × Run.Event)
behind [] = []
behind ((i, e) ∷ ps) = (suc i, e) ∷ behind ps

abbrev pub OwnPair : ℕ × Run.Event → Type 0
OwnPair p = Stopping.IsOwn p.1

at_first-own : (es : List Run.Event) → All Stopping.IsOwn es → All OwnPair (at_first es)
at_first-own [] o = tt
at_first-own (e ∷ es) o = (o.0, at_first-own es o.1)

behind-own : (ps : List (ℕ × Run.Event)) → All OwnPair ps → All OwnPair (behind ps)
behind-own [] o = tt
behind-own (p ∷ ps) o = (o.0, behind-own ps o.1)

module _ {T : Type 0} where
  linger_all-append :
      (ps qs : List (ℕ × Run.Event)) (xs : List (Handling T))
      → linger_all (ps ++ qs) xs ≡ linger_all qs (linger_all ps xs)
  unfolding linger_all
  linger_all-append [] qs xs = refl
  linger_all-append ((i, e) ∷ ps) qs xs = linger_all-append ps qs (linger i e xs)

  linger_first :
      (es : List Run.Event) (x : Handling T) (xs : List (Handling T))
      → All Stopping.IsOwn es
      → linger_all (at_first es) (x ∷ xs) ≡ manage (Run.run es) x ∷ xs
  unfolding linger_all Run.run
  linger_first [] x xs o = refl
  linger_first (e ∷ es) x xs o =
      ap (λ h. linger_all (at_first es) (record x { manager = h } ∷ xs)) (own-inner e x.manager o.0)
      ∙ linger_first es (manage (Run.act e) x) xs o.1

  linger_behind :
      (ps : List (ℕ × Run.Event)) (x : Handling T) (xs : List (Handling T))
      → linger_all (behind ps) (x ∷ xs) ≡ x ∷ linger_all ps xs
  unfolding linger_all
  linger_behind [] x xs = refl
  linger_behind ((i, e) ∷ ps) x xs = linger_behind ps x (linger i e xs)

  abbrev pub Quit : List (Handling T) → Type 0
  Quit xs = (ps : List (ℕ × Run.Event)) × All OwnPair ps × All Gone (linger_all ps xs)

  Over-ctx : (x : Handling T) → Over x → x.manager.ctx_err ≢ none
  Over-ctx x o = o.linked.context (λ w. cc)

  -- The goroutines of all these managers end.
  pub past_quits : (xs : List (Handling T)) → All Over xs → Quit xs
  unfolding linger_all
  past_quits [] a = ([], tt, tt)
  past_quits (x ∷ xs) a =
      let (es, own, s, r, o) =
        end_stop x.manager.stop_pc x.manager refl (Over-ctx x a.0) a.0.linked.handled.flags in
      let (ps, owns, gone) = past_quits xs a.1 in
      (
        at_first es ++ behind ps,
        All-append OwnPair (at_first es) (behind ps) (at_first-own es own) (behind-own ps owns),
        subst (All Gone)
            (sym (
              linger_all-append (at_first es) (behind ps) (x ∷ xs)
              ∙ ap (linger_all (behind ps)) (linger_first es x xs own)
              ∙ linger_behind ps (manage (Run.run es) x) xs))
            ((s, r), gone),
      )

-- A connection that is behind the client or server: done is closed, ConnErr was called, the socket is closed,
-- and the manager's goroutines have ended.
abbrev pub Behind : {T : Type 0} → Handling T → Type 0
Behind x = (x.pc ≡ ended) × (x.done ≡ true) × (x.reported ≢ none) × (x.manager.socket_open ≡ false)

abbrev pub Left : {T : Type 0} → Handling T → Type 0
Left x = Behind x × Gone x

Over-Behind : {T : Type 0} (x : Handling T) → Over x → Behind x
Over-Behind x o =
    let p = subst (λ p. Handling.Ending.At p x) o.at_end o.linked.handled.place in
    (o.at_end, p.0, p.1, o.closed)

pub overs-Behind : {T : Type 0} (xs : List (Handling T)) → All Over xs → All Behind xs
overs-Behind [] a = tt
overs-Behind (x ∷ xs) a = (Over-Behind x a.0, overs-Behind xs a.1)

pub overs-Left : {T : Type 0} (xs : List (Handling T)) → All Over xs → All Gone xs → All Left xs
overs-Left [] a g = tt
overs-Left (x ∷ xs) a g = ((Over-Behind x a.0, g.0), overs-Left xs a.1 g.1)

pub cancel-Gone :
    {T : Type 0} (xs : List (Handling T)) → All Gone xs → All Gone (map cancel_manager xs)
unfolding Run.act
cancel-Gone [] g = tt
cancel-Gone (x ∷ xs) g = (g.0, cancel-Gone xs g.1)
