-- ===== src/Connection/Shutdown.antt =====
-- The ways to stop a HandlerManager from outside, in connection/handler.go. Package taskgo, a copy
-- of another project's, is a parameter: StopAndWait gives an error if tasks are left when the time
-- is over.
use simple_message.Prelude.{Bool, true, false, Option, none, some, if◌then◌else◌, ◌≡◌, arith}
use simple_message.Errors.{Error, Result, ok, panic}

-- Whether the done channel is closed, beside the task manager's state. Closing it twice panics.
module _ {T : Type 0} (stop_and_wait : T → Option Error × T) where
  close_done : T → Bool → Result (Unit {0}) × T × Bool
  close_done t true = (panic, t, true)
  close_done t false = (ok tt, t, true)

  -- With panicOnTimeout, and without
  unfoldable pub stop_task_with_timeout : Bool → T → Bool → Result (Unit {0}) × T × Bool
  unfolding close_done
  stop_task_with_timeout panic_on_timeout t done =
      let (e, t') = stop_and_wait t in
      elim e [
        | none ↦ close_done t' done
        | some e ↦ if panic_on_timeout then (panic, t', done) else close_done t' done
      ]

  -- useTaskgo is set.
  unfoldable pub must_stop_with_timeout : T → Bool → Result (Unit {0}) × T × Bool
  unfolding stop_task_with_timeout
  must_stop_with_timeout = stop_task_with_timeout true

  unfoldable pub stop_with_timeout : T → Bool → Result (Unit {0}) × T × Bool
  unfolding stop_task_with_timeout
  stop_with_timeout = stop_task_with_timeout false

  -- StopWithTimeout closes the done channel once, whether or not tasks are left running, and panics
  -- if it is called again, whatever the task manager answers.
  stop_with_timeout_twice :
      (t : T)
      → let (r, u, done) = stop_with_timeout t false in
        (r ≡ ok tt) × (done ≡ true) × ((stop_with_timeout u done).0 ≡ panic)
  unfolding stop_with_timeout
  stop_with_timeout_twice t = ground arith
