-- ===== src/Connection/State.antt =====
-- The state of a connection and its HandlerManager, connection/connection.go and
-- connection/handler.go, with the goroutines of the manager and the callers of sendMsg.
use simple_message.Prelude.{ℕ, Bool, true, false, List, [], Option, none}
use simple_message.Errors.{Error}
use simple_message.Protocol.Stream.{Stream}
use simple_message.Protocol.Decoder.{Message, Decoder, Writer}
use simple_message.Connection.MessageBody.{MessageBody, new_message_body}

-- Capacity of msgChan
abbrev pub msg_chan_cap : ℕ
msg_chan_cap = 256

-- A call of sendMsg: not yet made, at its first select, at the second, or back with its result.
pub data SenderPc : Type 0 where
  idle selecting waiting : SenderPc
  returned : Option Error → SenderPc

-- The goroutine of send: at its select, with a message received, past its return with
-- `defer h.stop()` to run, or ended.
pub data SendPc : Type 0 where
  choosing : SendPc
  holding : ℕ → SendPc
  leaving : SendPc
  gone : SendPc

-- The goroutine of read: in Unmarshal, in handleMsg, past its return, or ended.
pub data ReadPc : Type 0 where
  reading : ReadPc
  handling : Message → ReadPc
  leaving : ReadPc
  gone : ReadPc

-- The body of stop, run once: not begun, or after merr, after conn.Close, after
-- readWriteCloser.Close, after cancel.
pub data StopPc : Type 0 where
  not_begun recorded conn_closed socket_closed finished : StopPc

-- The `i`-th call of sendMsg has the body `bodies i`, and the context of its caller has the error
-- `caller_ctx i`. `ctx_err` is the error of the manager's context, `conn_done` whether that of the
-- connection is canceled. The last four fields record the run: the calls whose message entered the
-- channel, those that the sender has dealt with, those whose Write succeeded, the messages handled.
pub record Manager : Type 0 where
  pub decoder : Decoder
  pub bodies : ℕ → MessageBody
  pub senders : ℕ → SenderPc
  pub caller_ctx : ℕ → Option Error
  pub msg_chan : List ℕ
  pub conn_done : Bool
  pub ctx_err : Option Error
  pub socket_open : Bool
  pub error : Option Error
  pub err_once : Bool
  pub send_pc : SendPc
  pub send_err : Option Error
  pub read_pc : ReadPc
  pub stop_pc : StopPc
  pub stream : Stream
  pub writer : Writer
  pub accepted : List ℕ
  pub served : List ℕ
  pub written : List ℕ
  pub handled : List Message

abbrev pub blank : Message
blank = record { msg_id = 0; msg_data = [] }

-- NewHandlerManager
unfoldable pub new_handler_manager : Decoder → Stream → Manager
unfolding new_message_body
new_handler_manager d s = record {
  decoder = d;
  bodies = λ _. new_message_body blank;
  senders = λ _. idle;
  caller_ctx = λ _. none;
  msg_chan = [];
  conn_done = false;
  ctx_err = none;
  socket_open = true;
  error = none;
  err_once = false;
  send_pc = choosing;
  send_err = none;
  read_pc = reading;
  stop_pc = not_begun;
  stream = s;
  writer = record { sent = []; faults = [] };
  accepted = [];
  served = [];
  written = [];
  handled = [];
}
