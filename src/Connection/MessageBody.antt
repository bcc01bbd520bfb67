-- ===== src/Connection/MessageBody.antt =====
-- connection/message_body.go: a queued message and its acknowledgement.
use simple_message.Prelude.{Bool, true, false, Option, none, some, if◌then◌else◌}
use simple_message.Errors.{Error, Result, ok, err, panic}
use simple_message.Protocol.Decoder.{Message}

-- `acked` is whether ackChan is closed.
pub record MessageBody : Type 0 where
  pub message : Message
  pub error : Option Error
  pub acked : Bool
  pub status : Bool

unfoldable pub new_message_body : Message → MessageBody
new_message_body m = record { message = m; error = none; acked = false; status = false }

unfoldable pub get_message : MessageBody → Message
get_message b = b.message

-- Done returns ackChan: what a receive on it finds.
unfoldable pub is_done : MessageBody → Bool
is_done b = b.acked

-- What `m.err = t(); close(m.ackChan)` makes of a body: a callback that panics leaves both undone.
unfoldable pub ack_with : MessageBody → Result (Unit {0}) → MessageBody
ack_with b (ok u) = record b { error = none; acked = true }
ack_with b (err e) = record b { error = some e; acked = true }
ack_with b panic = b

-- AckMessage: the compare-and-swap lets one caller through, who runs the callback over the state
-- `W`. The result is the callback's, `none` where it was not run.
unfoldable pub ack_message :
    {W : Type 0}
    → MessageBody
    → (W → Result (Unit {0}) × W)
    → W
    → MessageBody × Option (Result (Unit {0})) × W
unfolding ack_with
ack_message b t w =
    if b.status
    then (b, none, w)
    else let (r, w') = t w in (ack_with (record b { status = true }) r, some r, w')
