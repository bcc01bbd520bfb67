-- ===== src/Connection/Manager/Invariant.antt =====
-- What holds of a manager's flags at every moment of a run.
use simple_message.Prelude.{
  ℕ, ◌≤◌, ◌≡◌, ◌≢◌, ◌⊎◌, refl, Bool, true, false, List, [], ◌∷◌, Option, none, length, arith,
  length-append,
}
use simple_message.Errors.{Error}
use simple_message.Protocol.Stream.{Stream}
use simple_message.Protocol.Decoder.{Decoder}
use simple_message.Connection.State.{
  Manager, SendPc, ReadPc, StopPc, not_begun, recorded, socket_closed, finished,
  new_handler_manager, msg_chan_cap,
}
use simple_message.Connection.Manager.{
  Case, conn_case, ctx_case, channel_case, call_send, select_send, step_send, leave_send, step_read,
  leave_read, panic_read, begin_stop, step_stop, close_connection,
}
use simple_message.Connection.Manager.Run.{Event, select, send, act, run, run-keeps}

abbrev closes_conn : StopPc → Bool
closes_conn not_begun = false
closes_conn recorded = false
closes_conn _ = true

abbrev closes_socket : StopPc → Bool
closes_socket socket_closed = true
closes_socket finished = true
closes_socket _ = false

pub record Flags (h : Manager) : Type 0 where
  pub noted : h.stop_pc ≢ not_begun → h.err_once ≡ true
  pub error_noted : h.err_once ≡ true → h.error ≢ none
  pub conn : closes_conn h.stop_pc ≡ true → h.conn_done ≡ true
  pub socket : closes_socket h.stop_pc ≡ true → h.socket_open ≡ false
  pub ctx : h.stop_pc ≡ finished → h.ctx_err ≢ none
  pub send_gone : h.send_pc ≡ SendPc.gone → h.stop_pc ≡ finished
  pub read_gone : h.read_pc ≡ ReadPc.gone → h.stop_pc ≡ finished
  pub room : length h.msg_chan ≤ msg_chan_cap

select_send-Flags : (h : Manager) (i : ℕ) (c : Case) → Flags h → Flags (select_send i c h)
unfolding select_send
select_send-Flags h i conn_case f = ground arith
select_send-Flags h i ctx_case f = ground arith
select_send-Flags h i channel_case f = ground (arith, length-append {0} h.msg_chan (i ∷ []))

step_send-Flags : (h : Manager) (c : Case) → Flags h → Flags (step_send c h)
unfolding step_send
step_send-Flags h conn_case f = ground arith
step_send-Flags h ctx_case f = ground arith
step_send-Flags h channel_case f = ground arith

pub act-Flags : (e : Event) (h : Manager) → Flags h → Flags (act e h)
unfolding act call_send leave_send step_read panic_read leave_read begin_stop step_stop
    close_connection
act-Flags (select i c) h f = select_send-Flags h i c f
act-Flags (send c) h f = step_send-Flags h c f
act-Flags _ h f = ground arith

pub new-Flags : (d : Decoder) (s : Stream) → Flags (new_handler_manager d s)
unfolding new_handler_manager
new-Flags d s = ground arith

pub run-Flags :
    (d : Decoder) (s : Stream) (es : List Event) → Flags (run es (new_handler_manager d s))
run-Flags d s es = run-keeps Flags act-Flags es (new_handler_manager d s) (new-Flags d s)

-- When the goroutine of send or that of read has ended, the manager is shut down: the connection's
-- context is canceled, the socket closed, the manager's context ended and Err is not nil.
pub stop_complete :
    (d : Decoder) (s : Stream) (es : List Event)
    → ((run es (new_handler_manager d s)).send_pc ≡ SendPc.gone)
      ⊎ ((run es (new_handler_manager d s)).read_pc ≡ ReadPc.gone)
    → let h = run es (new_handler_manager d s) in
      (h.conn_done ≡ true) × (h.socket_open ≡ false) × (h.ctx_err ≢ none) × (h.error ≢ none)
stop_complete d s es e = let f = run-Flags d s es in ground (arith, f)

act-error :
    (e : Event) (h : Manager) (x : Option Error)
    → (h.err_once ≡ true) × (h.error ≡ x)
    → ((act e h).err_once ≡ true) × ((act e h).error ≡ x)
unfolding act call_send leave_send step_read panic_read leave_read begin_stop step_stop
    close_connection select_send step_send
act-error (select i conn_case) h x k = ground arith
act-error (select i ctx_case) h x k = ground arith
act-error (select i channel_case) h x k = ground arith
act-error (send conn_case) h x k = ground arith
act-error (send ctx_case) h x k = ground arith
act-error (send channel_case) h x k = ground arith
act-error _ h x k = ground arith

-- The first error is kept: once Err has one, no event of any run replaces it.
first_error_kept : (h : Manager) (es : List Event) → h.err_once ≡ true → (run es h).error ≡ h.error
first_error_kept h es once =
    (run-keeps (λ g. (g.err_once ≡ true) × (g.error ≡ h.error)) (λ e g. act-error e g h.error) es h
      (once, refl)).1
