-- ===== src/Connection/Manager/Lasting.antt =====
-- What lasts through a run of a manager.
use simple_message.Prelude.{ℕ, ◌≡◌, ◌≢◌, false, none, arith}
use simple_message.Connection.State.{Manager}
use simple_message.Connection.Manager.{
  Case, conn_case, ctx_case, channel_case, call_send, select_send, step_send, leave_send, step_read,
  leave_read, panic_read, begin_stop, step_stop, close_connection,
}
use simple_message.Connection.Manager.Run

-- What no action of a manager undoes: its context has ended, and its socket is closed.
pub record Lasts (h g : Manager) : Type 0 where
  pub ctx : h.ctx_err ≢ none → g.ctx_err ≢ none
  pub socket : h.socket_open ≡ false → g.socket_open ≡ false

select-Lasts : (h : Manager) (i : ℕ) (c : Case) → Lasts h (select_send i c h)
unfolding select_send
select-Lasts h i conn_case = ground arith
select-Lasts h i ctx_case = ground arith
select-Lasts h i channel_case = ground arith

send-Lasts : (h : Manager) (c : Case) → Lasts h (step_send c h)
unfolding step_send
send-Lasts h conn_case = ground arith
send-Lasts h ctx_case = ground arith
send-Lasts h channel_case = ground arith

pub act-Lasts : (e : Run.Event) (h : Manager) → Lasts h (Run.act e h)
unfolding Run.act call_send leave_send step_read panic_read leave_read begin_stop step_stop
    close_connection
act-Lasts (Run.select i c) h = select-Lasts h i c
act-Lasts (Run.send c) h = send-Lasts h c
act-Lasts _ h = ground arith
