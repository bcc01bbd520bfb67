-- ===== src/Client/Running/Ending.antt =====
-- A client whose context has ended comes to its end, and its connections with it.
use simple_message.Prelude.{Bool, true, List, Option, none, some, ◌≡◌, refl, ap, ◌∙◌, subst}
use simple_message.Errors.{Error}
use simple_message.Protocol.Wire.{All}
use simple_message.Protocol.Decoder.{Decoder}
use simple_message.Server.Handling.{Handling}
use simple_message.Server.Handling.Quitting.{Left, overs-Left}
use simple_message.Client.Running.{Running, new_running, Event, run}
use simple_message.Client.Running.Invariant.{Place, IsSound}
use simple_message.Client.Running.Course.{run-IsSound, new-IsSound}
use simple_message.Client.Running.Leaving.{Ended, IsOwn, CanEnd, first, idle_ends}
use simple_message.Client.Running.Hanging.{hangs}

module _ {T : Type 0} (stop_and_wait : T → Option Error × T) (tasks : T) (d : Decoder) where
  ends :
      (c : Option (Handling T)) (x : Running T)
      → x.current ≡ c
      → IsSound x
      → x.life.canceled ≡ true
      → x.life.started ≡ true
      → CanEnd stop_and_wait tasks d x.life.dials x
  ends none x e i c s = idle_ends stop_and_wait tasks d x e i c s
  ends (some y) x e i c s =
      let p : Place (some y) x = subst (λ c. Place c x) e i.place in
      let (es, own, h) = hangs stop_and_wait tasks d x y e (p.3 c) i in
      let y = run stop_and_wait tasks d es x in
      first stop_and_wait tasks d (Ended stop_and_wait tasks d x.life.dials) es x own (
        subst (λ n. CanEnd stop_and_wait tasks d n y) (ap (λ l. l.dials) h.life)
          (idle_ends stop_and_wait tasks d y h.none_left (run-IsSound stop_and_wait tasks d es x i)
            (ap (λ l. l.canceled) h.life ∙ c) (ap (λ l. l.started) h.life ∙ s)))

  -- A client that was started and whose context has ended, by Stop or from outside, can in every run
  -- still come to its end, with no further dial and by its own actions and those of its managers, if
  -- a dial that is under way fails, a handler that runs returns, and so do a Read and a Write on a
  -- closed socket: done is then closed, and of every connection that it has had ConnErr has been
  -- called, the socket and the manager's done are closed, and the goroutines have ended.
  pub can_end_running :
      (action : Bool) (es : List Event)
      → let x = run stop_and_wait tasks d es (new_running action) in
        x.life.started ≡ true
        → x.life.canceled ≡ true
        → (fs : List Event) × All IsOwn fs
          × (let y = run stop_and_wait tasks d fs x in
              (y.life.done ≡ true)
              × (y.life.dials ≡ x.life.dials)
              × (y.current ≡ none)
              × All Left y.past)
  can_end_running action es s c =
      let x = run stop_and_wait tasks d es (new_running action) in
      let i =
        run-IsSound stop_and_wait tasks d es (new_running action)
          (new-IsSound stop_and_wait tasks d action) in
      let (fs, own, (done, dials, n, gone)) = ends x.current x refl i c s in
      let j = run-IsSound stop_and_wait tasks d fs x i in
      (fs, own, (done, dials, n, overs-Left _ j.over gone))
