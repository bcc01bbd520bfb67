-- ===== src/Connection/Manager.antt =====
-- Connection.sendMsg, and the goroutines of HandlerManager: connection/connection.go and
-- connection/handler.go. An event is one atomic action of one of them, or of their environment; a run
-- is any list of events.
pub mod Run
pub mod Invariant
pub mod Delivery
pub mod Reading
pub mod Stopping
pub mod Lasting
use simple_message.Prelude.{
  ℕ, ◌+◌, true, false, [], ◌∷◌, ◌++◌, Option, none, some, if◌then◌else◌, length, ltb, update,
}
use simple_message.Errors.{Error, Result, ok, err, panic, is_close, canceled}
use simple_message.Protocol.Stream.{Stream}
use simple_message.Protocol.Decoder.{Message, marshal, unmarshal}
use simple_message.Connection.State.{
  Manager, choosing, conn_closed, finished, gone, handling, holding, idle, leaving, msg_chan_cap,
  not_begun, reading, recorded, returned, selecting, socket_closed, waiting,
}
use simple_message.Connection.MessageBody.{new_message_body, get_message, ack_message}

-- Which ready case a select takes; one that is not ready cannot be taken.
pub data Case : Type 0 where
  conn_case ctx_case channel_case : Case

-- sendMsg up to its first select
unfoldable pub call_send : ℕ → Message → Manager → Manager
unfolding new_message_body
call_send i m h = elim (h.senders i) [
  | idle ↦ record h {
    bodies = update h.bodies i (new_message_body m);
    senders = update h.senders i selecting;
  }
  | _ ↦ h
]

return_send : ℕ → Option Error → Manager → Manager
return_send i r h = record h { senders = update h.senders i (returned r) }

-- The cases of both selects that give up
give_up : ℕ → Case → Manager → Manager
unfolding return_send
give_up i conn_case h = if h.conn_done then return_send i (some is_close) h else h
give_up i ctx_case h = elim (h.caller_ctx i) [ none ↦ h | some e ↦ return_send i (some e) h ]
give_up i channel_case h = h

enter_chan : ℕ → Manager → Manager
enter_chan i h =
    if ltb (length h.msg_chan) msg_chan_cap
    then record h {
      senders = update h.senders i waiting;
      msg_chan = h.msg_chan ++ i ∷ [];
      accepted = h.accepted ++ i ∷ [];
    }
    else h

take_ack : ℕ → Manager → Manager
unfolding return_send
take_ack i h = if (h.bodies i).acked then return_send i (h.bodies i).error h else h

first_select : ℕ → Case → Manager → Manager
unfolding enter_chan give_up
first_select i channel_case h = enter_chan i h
first_select i c h = give_up i c h

second_select : ℕ → Case → Manager → Manager
unfolding take_ack give_up
second_select i channel_case h = take_ack i h
second_select i c h = give_up i c h

-- The select at which a call of sendMsg stands
unfoldable pub select_send : ℕ → Case → Manager → Manager
unfolding first_select second_select
select_send i c h = elim (h.senders i) [
  | selecting ↦ first_select i c h
  | waiting ↦ second_select i c h
  | _ ↦ h
]

unfoldable pub merr : Error → Manager → Manager
merr e h = if h.err_once then h else record h { error = some e; err_once = true }

-- The select of send
select_next : Case → Manager → Manager
select_next conn_case h = if h.conn_done then record h { send_pc = leaving } else h
select_next channel_case h = elim h.msg_chan [
  | [] ↦ h
  | i ∷ rest ↦ record h { msg_chan = rest; send_pc = holding i }
]
select_next ctx_case h = elim h.ctx_err [ none ↦ h | some e ↦ record h { send_pc = leaving } ]

-- What send does after AckMessage: its variable `err` keeps its value if the callback was not run.
check_err : ℕ → Manager → Manager
unfolding merr
check_err i h = elim h.send_err [
  | none ↦ record h { send_pc = choosing; served = h.served ++ i ∷ [] }
  | some e ↦ merr e (record h { send_pc = leaving; served = h.served ++ i ∷ [] })
]

after_ack : ℕ → Option (Result (Unit {0})) → Manager → Manager
unfolding check_err
after_ack i none h = check_err i h
after_ack i (some (ok u)) h =
    check_err i (record h { send_err = none; written = h.written ++ i ∷ [] })
after_ack i (some (err e)) h = check_err i (record h { send_err = some e })
after_ack i (some panic) h = record h { send_pc = leaving; served = h.served ++ i ∷ [] }

-- AckMessage with Marshal as its callback
acknowledge : ℕ → Manager → Manager
unfolding after_ack ack_message get_message
acknowledge i h =
    let m = get_message (h.bodies i) in
    let (b, r, w) = ack_message (h.bodies i) (marshal h.decoder m.msg_id m.msg_data) h.writer in
    after_ack i r (record h { bodies = update h.bodies i b; writer = w })

-- One action of send, but its deferred stop. The Write of a message is the action that it ends: while
-- it blocks, nothing happens here.
unfoldable pub step_send : Case → Manager → Manager
unfolding select_next acknowledge
step_send c h = elim h.send_pc [
  | choosing ↦ select_next c h
  | holding i ↦ acknowledge i h
  | leaving ↦ h
  | gone ↦ h
]

-- Once.Do of stop, for the caller that comes first
unfoldable pub begin_stop : Manager → Manager
unfolding merr
begin_stop h = elim h.stop_pc [
  | not_begun ↦ merr is_close (record h { stop_pc = recorded })
  | _ ↦ h
]

-- The next action of the body of stop
unfoldable pub step_stop : Manager → Manager
step_stop h = elim h.stop_pc [
  | not_begun ↦ h
  | recorded ↦ record h { conn_done = true; stop_pc = conn_closed }
  | conn_closed ↦ record h { socket_open = false; stop_pc = socket_closed }
  | socket_closed ↦ record h {
    ctx_err = elim h.ctx_err [ none ↦ some canceled | some e ↦ some e ];
    stop_pc = finished;
  }
  | finished ↦ h
]

-- The deferred stop of send: begins it, waits for it, and ends the goroutine.
unfoldable pub leave_send : Manager → Manager
unfolding begin_stop
leave_send h = elim h.send_pc [
  | leaving ↦ elim h.stop_pc [
    | not_begun ↦ begin_stop h
    | finished ↦ record h { send_pc = gone }
    | _ ↦ h
  ]
  | _ ↦ h
]

-- The loop of read: one Unmarshal
unmarshal_next : Result Message × Stream → Manager → Manager
unfolding merr
unmarshal_next (ok m, t) h = record h { stream = t; read_pc = handling m }
unmarshal_next (err e, t) h = merr e (record h { stream = t; read_pc = leaving })
unmarshal_next (panic, t) h = record h { stream = t; read_pc = leaving }

-- One action of read, but its deferred stop: Unmarshal, or the return of handleMsg
unfoldable pub step_read : Manager → Manager
unfolding unmarshal_next
step_read h = elim h.read_pc [
  | reading ↦ unmarshal_next (unmarshal h.decoder h.stream) h
  | handling m ↦ record h { read_pc = reading; handled = h.handled ++ m ∷ [] }
  | leaving ↦ h
  | gone ↦ h
]

-- handleMsg panics: the deferred stop of read runs, and taskgo recovers.
unfoldable pub panic_read : Manager → Manager
panic_read h = elim h.read_pc [
  | handling m ↦ record h { read_pc = leaving; handled = h.handled ++ m ∷ [] }
  | _ ↦ h
]

unfoldable pub leave_read : Manager → Manager
unfolding begin_stop
leave_read h = elim h.read_pc [
  | leaving ↦ elim h.stop_pc [
    | not_begun ↦ begin_stop h
    | finished ↦ record h { read_pc = gone }
    | _ ↦ h
  ]
  | _ ↦ h
]

-- Connection.Close
unfoldable pub close_connection : Manager → Manager
close_connection h = record h { conn_done = true }
