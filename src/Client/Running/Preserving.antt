-- ===== src/Client/Running/Preserving.antt =====
-- Every event of a client's run keeps what holds of its connections.
use simple_message.Prelude.{
  ℕ, zero, suc, false, List, [], ◌∷◌, map, length, Option, none, some, ◌≡◌, ◌≢◌, refl, sym, ap, ◌∙◌,
  arith, if-holds,
}
use simple_message.Errors.{canceled}
use simple_message.Protocol.Wire.{All}
use simple_message.Connection.Manager.Run
use simple_message.Server.Handling.{Handling, ended}
use simple_message.Server.Handling.Group.{inner, cancel_manager, linger}
use simple_message.Server.Handling.Linked.{
  canceled_ctx, Linked, Over, act-Keeps, inner-Keeps, manage-Linked, cancel_all-Over, linger-Over,
}
use simple_message.Client.Lifecycle.{
  Life, Phase, new_life, dialing, connected, resting, checking, sleeping, returned,
}
use simple_message.Client.Lifecycle
use simple_message.Client.Running.{Running, cancel_current, propagate, manage_current, outside}
use simple_message.Client.Running.Invariant.{newest, Place, IsSound}

-- An event outside dialAndRun leaves it alone.
outside-IsSound :
    (e : Lifecycle.Event) (l : Life) → Lifecycle.IsSound l → Lifecycle.IsSound (outside e l)
outside-IsSound (Lifecycle.connects conn) l i = i
outside-IsSound Lifecycle.hangs_up l i = i
outside-IsSound Lifecycle.starts l i = Lifecycle.act-IsSound Lifecycle.starts l i
outside-IsSound Lifecycle.stops l i = Lifecycle.act-IsSound Lifecycle.stops l i
outside-IsSound Lifecycle.cancels l i = Lifecycle.act-IsSound Lifecycle.cancels l i
outside-IsSound Lifecycle.tests l i = Lifecycle.act-IsSound Lifecycle.tests l i
outside-IsSound Lifecycle.fails l i = Lifecycle.act-IsSound Lifecycle.fails l i
outside-IsSound Lifecycle.wakes l i = Lifecycle.act-IsSound Lifecycle.wakes l i
outside-IsSound Lifecycle.closes l i = Lifecycle.act-IsSound Lifecycle.closes l i

record Apart (l k : Life) : Type 0 where
  same : k.conn_pointer ≡ l.conn_pointer
  stays : (j : ℕ) → l.phase ≡ connected j → k.phase ≡ connected j
  back : (j : ℕ) → k.phase ≡ connected j → l.phase ≡ connected j

outside-Apart : (e : Lifecycle.Event) (l : Life) → Lifecycle.IsSound l → Apart l (outside e l)
unfolding Lifecycle.act Lifecycle.step Lifecycle.start Lifecycle.stop
outside-Apart (Lifecycle.connects conn) l i = record {
  same = refl;
  stays = λ j e. e;
  back = λ j e. e;
}
outside-Apart _ l i = record {
  same = ground arith;
  stays = λ j e. ground (arith, i);
  back = λ j e. ground (arith, i);
}

module _ {T : Type 0} where
  -- What holds of a client while the end of its context may not have reached its managers
  abbrev pub Nearby : Option (Handling T) → Running T → Type 0
  Nearby none x = (j : ℕ) → x.life.phase ≢ connected j
  Nearby (some y) x = (x.life.phase ≡ connected (length x.past)) × Linked y × (y.pc ≢ ended)

  pub record Nearly (x : Running T) : Type 0 where
    pub lively : Lifecycle.IsSound x.life
    pub place : Nearby x.current x
    pub over : All Over x.past
    pub pointer : x.life.conn_pointer ≡ newest x.current (length x.past)

  length-cancel : (xs : List (Handling T)) → length (map cancel_manager xs) ≡ length xs
  length-cancel [] = refl
  length-cancel (x ∷ xs) = ap suc (length-cancel xs)

  newest-cancel :
      (c : Option (Handling T)) (xs : List (Handling T))
      → newest (cancel_current c) (length (map cancel_manager xs)) ≡ newest c (length xs)
  newest-cancel none xs = ap (newest {T = T} none) (length-cancel xs)
  newest-cancel (some y) xs = ap some (length-cancel xs)

  canceled-Place :
      (c : Option (Handling T)) (x : Running T)
      → Nearby c x
      → Place
          (cancel_current c)
          (record x { current = cancel_current c; past = map cancel_manager x.past })
  canceled-Place none x n = n
  canceled-Place (some y) x n = (
    n.0 ∙ ap connected (sym (length-cancel x.past)),
    manage-Linked (Run.act (Run.cancel canceled)) (act-Keeps _) y n.1,
    n.2,
    λ _. canceled_ctx y.manager,
  )

  Nearby-Place :
      (c : Option (Handling T)) (x : Running T) → x.life.canceled ≡ false → Nearby c x → Place c x
  Nearby-Place none x e n = n
  Nearby-Place (some y) x e n = (n.0, n.1, n.2, λ t. absurd (cc))

  pub propagate-IsSound : (x : Running T) → Nearly x → IsSound (propagate x)
  unfolding propagate
  propagate-IsSound x n =
      if-holds IsSound x.life.canceled
        (λ e. record {
          lively = n.lively;
          place = canceled-Place x.current x n.place;
          over = cancel_all-Over x.past n.over;
          pointer = n.pointer ∙ sym (newest-cancel x.current x.past);
        })
        (λ e. record {
          lively = n.lively;
          place = Nearby-Place x.current x e n.place;
          over = n.over;
          pointer = n.pointer;
        })

  pub Place-Nearby : (c : Option (Handling T)) (x : Running T) → Place c x → Nearby c x
  Place-Nearby none x p = p
  Place-Nearby (some y) x p = (p.0, p.1, p.2)

  outside-Nearby :
      (c : Option (Handling T)) (x : Running T) (l : Life)
      → Apart x.life l
      → Place c x
      → Nearby c (record x { life = l })
  outside-Nearby none x l a p = λ j e. p j (a.back j e)
  outside-Nearby (some y) x l a p = (a.stays (length x.past) p.0, p.1, p.2)

  pub lives-IsSound :
      (e : Lifecycle.Event) (x : Running T)
      → IsSound x
      → IsSound (propagate (record x { life = outside e x.life }))
  lives-IsSound e x i =
      let a = outside-Apart e x.life i.lively in
      propagate-IsSound _ (record {
        lively = outside-IsSound e x.life i.lively;
        place = outside-Nearby x.current x (outside e x.life) a i.place;
        over = i.over;
        pointer = a.same ∙ i.pointer;
      })

  managed-Place :
      (e : Run.Event) (c : Option (Handling T)) (x : Running T)
      → Place c x
      → Place (manage_current e c) (record x { current = manage_current e c })
  managed-Place e none x p = p
  managed-Place e (some y) x p = (
    p.0,
    manage-Linked (inner e) (inner-Keeps e) y p.1,
    p.2,
    λ t. ((inner-Keeps e).lasts y.manager).ctx (p.3 t),
  )

  managed-newest :
      (e : Run.Event) (c : Option (Handling T)) (n : ℕ) → newest (manage_current e c) n ≡ newest c n
  managed-newest e none n = refl
  managed-newest e (some y) n = refl

  pub manages-IsSound :
      (e : Run.Event) (x : Running T)
      → IsSound x
      → IsSound (record x { current = manage_current e x.current })
  manages-IsSound e x i = record {
    lively = i.lively;
    place = managed-Place e x.current x i.place;
    over = i.over;
    pointer = i.pointer ∙ sym (managed-newest e x.current (length x.past));
  }

  length-linger :
      (j : ℕ) (e : Run.Event) (xs : List (Handling T)) → length (linger j e xs) ≡ length xs
  length-linger j e [] = refl
  length-linger zero e (x ∷ xs) = refl
  length-linger (suc j) e (x ∷ xs) = ap suc (length-linger j e xs)

  lingered-Place :
      (c : Option (Handling T)) (x : Running T) (ys : List (Handling T))
      → length ys ≡ length x.past
      → Place c x
      → Place c (record x { past = ys })
  lingered-Place none x ys e p = p
  lingered-Place (some y) x ys e p = (p.0 ∙ ap connected (sym e), p.1, p.2, p.3)

  pub lingers-IsSound :
      (j : ℕ) (e : Run.Event) (x : Running T)
      → IsSound x
      → IsSound (record x { past = linger j e x.past })
  lingers-IsSound j e x i =
      let same = length-linger j e x.past in
      record {
        lively = i.lively;
        place = lingered-Place x.current x (linger j e x.past) same i.place;
        over = linger-Over j e x.past i.over;
        pointer = i.pointer ∙ ap (newest x.current) (sym same);
      }
