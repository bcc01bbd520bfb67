-- ===== src/Connection/Transfer/Ends.antt =====
-- Two ends of a connection, each a HandlerManager of connection/handler.go that runs on its own.
use mathlib.Core.List.{flatten}
use simple_message.Prelude.{
  sym, ap, append_assoc, ℕ, ◌<◌, ◌≤◌, ◌≡◌, refl, ◌∙◌, true, List, [], ◌∷◌, ◌++◌, length, arith,
}
use simple_message.Errors.{eof}
use simple_message.Protocol.Wire.{AreBytes, u32_mod, All}
use simple_message.Protocol.Stream.{Stream}
use simple_message.Protocol.Stream.View.{View, view}
use simple_message.Protocol.Decoder.{Message, Decoder}
use simple_message.Protocol.Decoder.RoundTrip.{frame, decode-frame}
use simple_message.Connection.State.{new_handler_manager}
use simple_message.Connection.Manager.Run.{Event, run}
use simple_message.Connection.Manager.Delivery.{alive}
use simple_message.Connection.Manager.Reading.{Small, in_hand, run_reads, frame-ne-nil}
use simple_message.Connection.ReadLoop.{frames}
use simple_message.Connection.Transfer.{sent_messages, Fits, wire-frames}

-- A message that one decoder can read
abbrev Valid : Decoder → Message → Type 0
Valid e m =
    (m.msg_id < u32_mod) × (length m.msg_data < u32_mod) × (length m.msg_data ≤ e.max_data_len)

-- Two frames at the head of the same bytes are of the same message.
frame_unique :
    (e : Decoder) (m n : Message) (a b : List ℕ)
    → Valid e m
    → Valid e n
    → frame m ++ a ≡ frame n ++ b
    → (m ≡ n) × (a ≡ b)
frame_unique e m n a b v u q =
    let w : View = record { bytes = frame m ++ a; stop = eof; after = [] } in
    let p = decode-frame e.max_data_len m a w v.0 v.1 v.2 refl in
    let r = decode-frame e.max_data_len n b w u.0 u.1 u.2 q in (cc (sym p ∙ r), cc (sym p ∙ r))

-- What was read of frames, with anything behind, is a beginning of their messages.
frames_prefix :
    (e : Decoder) (ms ns : List Message) (rest : List ℕ)
    → All (Valid e) ms
    → All (Valid e) ns
    → frames ns ≡ frames ms ++ rest
    → (more : List Message) × (ns ≡ ms ++ more)
frames_prefix e [] ns rest v u q = (ns, refl)
frames_prefix e (m ∷ ms) [] rest v u q =
    absurd (frame-ne-nil m (frames ms ++ rest) (q ∙ append_assoc (frame m) (frames ms) rest))
frames_prefix e (m ∷ ms) (n ∷ ns) rest v u q =
    let (same, behind) =
      frame_unique e n m (frames ns) (frames ms ++ rest) u.0 v.0
        (q ∙ append_assoc (frame m) (frames ms) rest) in
    let (more, p) = frames_prefix e ms ns rest v.1 u.1 behind in (more, λ i. same i ∷ p i)

Fits-Valid : (e : Decoder) (ms : List Message) → All (Fits e) ms → All (Valid e) ms
Fits-Valid e [] f = tt
Fits-Valid e (m ∷ ms) f = (omega (arith, f.0), Fits-Valid e ms f.1)

Small-Valid :
    (e : Decoder) (ms : List Message)
    → e.max_data_len < u32_mod
    → All (Small e) ms
    → All (Valid e) ms
Small-Valid e [] l f = tt
Small-Valid e (m ∷ ms) l f = (omega (arith, f.0), Small-Valid e ms l f.1)

-- Whatever run a sending manager makes, while its sender lives, and whatever run a manager makes at
-- which a beginning of the bytes has arrived, with anything else that happens to either: what the receiver has given to its
-- handleMsg is a beginning of the messages whose Write succeeded at the sender, in the order of the
-- Writes, none lost, repeated or changed. The numbers and the frames' lengths are to be uint32s, the
-- data within the receiver's limit, and that limit a uint32.
pub seen_of_sent :
    (d e : Decoder) (s t : Stream) (es fs : List Event) (late : List ℕ)
    → e.max_data_len < u32_mod
    → alive (run es (new_handler_manager d s)).send_pc ≡ true
    → All (Fits e) (sent_messages (run es (new_handler_manager d s)))
    → AreBytes (view t).bytes
    → flatten (run es (new_handler_manager d s)).writer.sent ≡ (view t).bytes ++ late
    → let h = run fs (new_handler_manager e t) in
      (more : List Message) × (sent_messages (run es (new_handler_manager d s))
        ≡ (h.handled ++ in_hand h.read_pc) ++ more)
seen_of_sent d e s t es fs late l a f c b =
    let h = run es (new_handler_manager d s) in
    let g = run fs (new_handler_manager e t) in
    let (rest, split, small) = run_reads e t fs c in
    let got = g.handled ++ in_hand g.read_pc in
    frames_prefix e got (sent_messages h) (rest ++ late) (Small-Valid e got l small)
      (Fits-Valid e (sent_messages h) f)
      (sym (wire-frames d e s es a f)
        ∙ b
        ∙ ap (λ xs. xs ++ late) split
        ∙ append_assoc (frames got) rest late)
