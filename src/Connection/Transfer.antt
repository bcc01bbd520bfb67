-- ===== src/Connection/Transfer.antt =====
-- From SendMsg at one end to the handlers at the other: a HandlerManager of connection/handler.go
-- that sends, and the loop of read of one that receives.
pub mod Ends
use mathlib.Core.List.{flatten}
use simple_message.Prelude.{
  ℕ, suc, ◌+◌, ◌<◌, ◌≤◌, ◌≡◌, refl, ap, ◌∙◌, true, List, [], ◌∷◌, ◌++◌, some, length, map,
  append-nil, arith,
}
use simple_message.Protocol.Wire.{u32_mod, All}
use simple_message.Protocol.Stream.{Stream}
use simple_message.Protocol.Stream.View.{view}
use simple_message.Protocol.Decoder.{Message, Decoder, read_len}
use simple_message.Protocol.Decoder.RoundTrip.{buffer_of-frame}
use simple_message.Connection.MessageBody.{MessageBody}
use simple_message.Connection.State.{Manager, new_handler_manager}
use simple_message.Connection.Manager.Run.{Event, run}
use simple_message.Connection.Manager.Delivery.{alive}
use simple_message.Connection.Manager.Delivery.Wire.{buffers}
use simple_message.Connection.Manager.Delivery.Guarantee.{run-Ledger}
use simple_message.Connection.ReadLoop.{read, handle_all, frames, IsSendable, read-frames}

-- The messages whose Write succeeded, in order
abbrev pub sent_messages : Manager → List Message
sent_messages h = map (λ i. (h.bodies i).message) h.written

-- A message whose number is a uint32, whose frame's length is one, and which the receiver allows
abbrev pub Fits : Decoder → Message → Type 0
Fits e m =
    (m.msg_id < u32_mod)
    × (read_len + length m.msg_data < u32_mod)
    × (length m.msg_data ≤ e.max_data_len)

buffers-frames :
    (e : Decoder) (bodies : ℕ → MessageBody) (xs : List ℕ)
    → All (Fits e) (map (λ i. (bodies i).message) xs)
    → flatten (buffers bodies xs) ≡ frames (map (λ i. (bodies i).message) xs)
unfolding flatten
buffers-frames e bodies [] f = refl
buffers-frames e bodies (x ∷ xs) f =
    rw (buffer_of-frame (bodies x).message f.0.1, buffers-frames e bodies xs f.1) refl

Fits-IsSendable :
    {W : Type 0} (e : Decoder) (handle : Message → W → W) (ms : List Message)
    → All (Fits e) ms
    → All (IsSendable e handle) ms
Fits-IsSendable e handle [] f = tt
Fits-IsSendable e handle (m ∷ ms) f = (omega (arith, f.0), Fits-IsSendable e handle ms f.1)

length-map : {A B : Type 0} (f : A → B) (xs : List A) → length (map f xs) ≡ length xs
length-map f [] = refl
length-map f (x ∷ xs) = ap suc (length-map f xs)

-- What a sender that lives has written is the frames of those messages.
pub wire-frames :
    (d e : Decoder) (s : Stream) (es : List Event)
    → alive (run es (new_handler_manager d s)).send_pc ≡ true
    → All (Fits e) (sent_messages (run es (new_handler_manager d s)))
    → flatten (run es (new_handler_manager d s)).writer.sent
      ≡ frames (sent_messages (run es (new_handler_manager d s)))
wire-frames d e s es a f =
    let h = run es (new_handler_manager d s) in
    let (rest, torn, split) = (run-Ledger d s es).on_wire in
    let whole : h.writer.sent ≡ buffers h.bodies h.written =
      split.wire
      ∙ ap (◌++◌ (buffers h.bodies h.written)) (split.clean a)
      ∙ append-nil (buffers h.bodies h.written) in
    ap flatten whole ∙ buffers-frames e h.bodies h.written f

-- Whatever run a sending manager makes, while its sender lives: a reader to whom the bytes arrive
-- that it has written, in any pieces, handles exactly the messages whose Write succeeded, each once
-- and in the order of the Writes, and then ends with what stops its stream. The numbers and the
-- lengths of the frames are to be uint32s, the data within the reader's limit, and the fuel more
-- than there are messages.
transfer :
    {W : Type 0} (d e : Decoder) (s t : Stream) (es : List Event) (fuel : ℕ)
    (handle : Message → W → W) (w : W)
    → alive (run es (new_handler_manager d s)).send_pc ≡ true
    → All (Fits e) (sent_messages (run es (new_handler_manager d s)))
    → (view t).bytes ≡ flatten (run es (new_handler_manager d s)).writer.sent
    → length (run es (new_handler_manager d s)).written < fuel
    → let ms = sent_messages (run es (new_handler_manager d s)) in
      (u : Stream) × (read fuel e handle w t ≡ some ((view t).stop, handle_all handle ms w, u))
transfer d e s t es fuel handle w a f b n =
    let h = run es (new_handler_manager d s) in
    read-frames e handle (sent_messages h) fuel w t
      (omega (arith, n, length-map (λ i. (h.bodies i).message) h.written))
      (Fits-IsSendable e handle (sent_messages h) f) (b ∙ wire-frames d e s es a f)
