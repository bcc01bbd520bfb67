-- ===== src/Client/Running/Lifting.antt =====
-- Events of the managers of a client's connections, as runs of the client.
use simple_message.Prelude.{ℕ, List, [], ◌∷◌, ◌++◌, Option, some, map, ◌≡◌, refl, ap, ◌∙◌, arith}
use simple_message.Errors.{Error}
use simple_message.Protocol.Wire.{All}
use simple_message.Protocol.Decoder.{Decoder}
use simple_message.Connection.Manager.Run
use simple_message.Connection.Manager.Stopping
use simple_message.Server.Handling.{Handling}
use simple_message.Server.Handling.Group.{manage, linger, linger_all}
use simple_message.Server.Handling.Quitting.{own-inner}
use simple_message.Client.Running.{Running, Event, manages, manage_current, lingers, act, run}

abbrev pub lingering : List (ℕ × Run.Event) → List Event
lingering [] = []
lingering ((i, e) ∷ ps) = lingers i e ∷ lingering ps

module _ {T : Type 0} (stop_and_wait : T → Option Error × T) (tasks : T) (d : Decoder) where
  pub run-lingers :
      (ps : List (ℕ × Run.Event)) (x : Running T)
      → run stop_and_wait tasks d (lingering ps) x ≡ record x { past = linger_all ps x.past }
  unfolding run act linger_all
  run-lingers [] x = refl
  run-lingers ((i, e) ∷ ps) x = run-lingers ps (record x { past = linger i e x.past })

  pub run-manages :
      (es : List Run.Event) (y : Handling T) (x : Running T)
      → x.current ≡ some y
      → All Stopping.IsOwn es
      → run stop_and_wait tasks d (map manages es) x
        ≡ record x { current = some (manage (Run.run es) y) }
  unfolding run act Run.run
  run-manages [] y x e o = ground (arith, e)
  run-manages (f ∷ es) y x e o =
      let same = ap (λ h. some (record y { manager = h })) (own-inner f y.manager o.0) in
      run-manages es (manage (Run.act f) y) (record x { current = manage_current f x.current })
        (ap (manage_current f) e ∙ same) o.1

  pub run-append :
      (es fs : List Event) (x : Running T)
      → run stop_and_wait tasks d (es ++ fs) x
        ≡ run stop_and_wait tasks d fs (run stop_and_wait tasks d es x)
  unfolding run
  run-append [] fs x = refl
  run-append (e ∷ es) fs x = run-append es fs (act stop_and_wait tasks d e x)
