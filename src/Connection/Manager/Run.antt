-- ===== src/Connection/Manager/Run.antt =====
-- Runs of a manager: events in any order, one at a time.
use simple_message.Prelude.{ℕ, List, [], ◌∷◌, Option, none, some, if◌then◌else◌, update}
use simple_message.Errors.{Error}
use simple_message.Protocol.Stream.{fail}
use simple_message.Protocol.Decoder.{Message}
use simple_message.Connection.State.{Manager}
use simple_message.Connection.Manager.{
  Case, call_send, select_send, step_send, leave_send, step_read, panic_read, leave_read,
  begin_stop, step_stop, close_connection,
}

pub data Event : Type 0 where
  -- callers of sendMsg
  call : ℕ → Message → Event
  select : ℕ → Case → Event
  -- the goroutines of the manager
  send : Case → Event
  exit_send read exit_read : Event
  -- handleMsg panics
  panics_read : Event
  -- Stop, the actions of its body, and Connection.Close, from anywhere
  stop next_stop close : Event
  -- a caller's context ends, the context that the manager was given ends
  expire : ℕ → Error → Event
  cancel : Error → Event
  -- what the next Writes do, and a Read that fails on a closed socket
  faults : List (Option (ℕ × Error)) → Event
  break_read : Error → Event

first_error : Option Error → Error → Option Error
first_error none e = some e
first_error (some d) e = some d

-- An event that cannot happen where the manager stands changes nothing.
unfoldable pub act : Event → Manager → Manager
unfolding first_error
act (call i m) h = call_send i m h
act (select i c) h = select_send i c h
act (send c) h = step_send c h
act exit_send h = leave_send h
act read h = step_read h
act exit_read h = leave_read h
act panics_read h = panic_read h
act stop h = begin_stop h
act next_stop h = step_stop h
act close h = close_connection h
act (expire i e) h = record h {
  caller_ctx = update h.caller_ctx i (first_error (h.caller_ctx i) e);
}
act (cancel e) h = record h { ctx_err = first_error h.ctx_err e }
act (faults fs) h = record h { writer = record { sent = h.writer.sent; faults = fs } }
act (break_read e) h = if h.socket_open then h else record h { stream = fail e ∷ h.stream }

unfoldable pub run : List Event → Manager → Manager
unfolding act
run [] h = h
run (e ∷ es) h = run es (act e h)

-- What every event keeps holds throughout a run.
pub run-keeps :
    (P : Manager → Type 0)
    → ((e : Event) (h : Manager) → P h → P (act e h))
    → (es : List Event) (h : Manager) → P h
    → P (run es h)
unfolding run
run-keeps P keep [] h p = p
run-keeps P keep (e ∷ es) h p = run-keeps P keep es (act e h) (keep e h p)
