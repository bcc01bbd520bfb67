-- ===== src/Server/Dispatch/Images.antt =====
-- Two servers of server/handler.go whose handlers do the same on states of which one is an image of
-- the other.
use simple_message.Prelude.{
  ℕ, ◌≡◌, refl, sym, ap, ◌∙◌, List, [], ◌∷◌, Option, none, some, lookup, nat_eq, subst,
}
use simple_message.Protocol.Decoder.{Message}
use simple_message.Connection.Request.{Request, Handler, new_request}
use simple_message.Stats.{inc_unknown_msg}
use simple_message.Server.Dispatch.{Server, handle_msg, handle_msgs, count_result}

-- What handleMsg does, by what is found
module _ {W : Type 0} (conn : ℕ) (m : Message) (s : Server W) (w : W) where
  unknown :
      lookup m.msg_id s.handler ≡ none
      → handle_msg conn m (s, w) ≡ (record s { stats = inc_unknown_msg s.stats }, w)
  unfolding handle_msg
  unknown e = rw (e, handle_msg) refl

  known :
      (h : Handler W)
      → lookup m.msg_id s.handler ≡ some h
      → let r = h (new_request conn m.msg_id m.msg_data) w in
        handle_msg conn m (s, w) ≡ (record s { stats = count_result m r.0 s.stats }, r.1)
  unfolding handle_msg
  known h e = rw (e, handle_msg) refl

module _ {V W : Type 0} (image : W → V) where
  abbrev pub Same : Handler W → Handler V → Type 0
  Same h g = (q : Request) (w : W) → g q (image w) ≡ ((h q w).0, image (h q w).1)

  abbrev pub SameFound : Option (Handler W) → Option (Handler V) → Type 0
  SameFound none none = Unit
  SameFound (some h) (some g) = Same h g
  SameFound _ _ = ⊥

  pub record Follows (s : Server W) (w : W) (t : Server V) (v : V) : Type 0 where
    pub found : (id : ℕ) → SameFound (lookup id s.handler) (lookup id t.handler)
    pub state : v ≡ image w
    pub counted : t.stats ≡ s.stats

  abbrev Goes : Server W × W → Server V × V → Type 0
  Goes p q = Follows p.0 p.1 q.0 q.1

  both : {p p' : Server W × W} {q q' : Server V × V} → p ≡ p' → q ≡ q' → Goes p' q' → Goes p q
  both {p} {p'} {q} {q'} e f g = subst (λ x. Goes x q) (sym e) (subst (Goes p') (sym f) g)

  module _ (conn : ℕ) where
    handle_found :
        (m : Message) (s : Server W) (w : W) (t : Server V) (v : V) (o : Option (Handler W))
        (p : Option (Handler V))
        → lookup m.msg_id s.handler ≡ o
        → lookup m.msg_id t.handler ≡ p
        → SameFound o p
        → Follows s w t v
        → Goes (handle_msg conn m (s, w)) (handle_msg conn m (t, v))
    handle_found m s w t v none none e f r l =
        both (unknown conn m s w e) (unknown conn m t v f)
          (record { found = l.found; state = l.state; counted = ap inc_unknown_msg l.counted })
    handle_found m s w t v (some h) (some g) e f r l =
        let q = new_request conn m.msg_id m.msg_data in
        let same : g q v ≡ ((h q w).0, image (h q w).1) = ap (g q) l.state ∙ r q w in
        both (known conn m s w h e) (known conn m t v g f) (record {
          found = l.found;
          state = ap (λ x. x.1) same;
          counted =
              ap (λ x. count_result m x.0 t.stats) same ∙ ap (count_result m (h q w).0) l.counted;
        })
    handle_found m s w t v (some h) none e f r l = absurd r
    handle_found m s w t v none (some g) e f r l = absurd r

    -- Any messages
    pub handle_msgs-Follows :
        (ms : List Message) (p : Server W × W) (q : Server V × V)
        → Follows p.0 p.1 q.0 q.1
        → Follows
            (handle_msgs conn ms p).0
            (handle_msgs conn ms p).1
            (handle_msgs conn ms q).0
            (handle_msgs conn ms q).1
    unfolding handle_msgs
    handle_msgs-Follows [] p q l = l
    handle_msgs-Follows (m ∷ ms) (s, w) (t, v) l =
        handle_msgs-Follows ms (handle_msg conn m (s, w)) (handle_msg conn m (t, v)) (
          handle_found m s w t v (lookup m.msg_id s.handler) (lookup m.msg_id t.handler) refl refl
            (l.found m.msg_id) l)
