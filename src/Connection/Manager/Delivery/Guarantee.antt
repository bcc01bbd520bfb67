-- ===== src/Connection/Manager/Delivery/Guarantee.antt =====
-- What a caller of sendMsg may rely on, in every run of a manager.
use simple_message.Prelude.{
  ◌⊎◌, inl, inr, Bool-cases, length, false, ◌≤◌, ℕ, ◌≡◌, refl, List, [], ◌++◌, none, arith,
  append_assoc, ap, ◌∙◌,
}
use simple_message.Protocol.Stream.{Stream}
use simple_message.Protocol.Decoder.{Decoder}
use simple_message.Connection.State.{msg_chan_cap, Manager, returned, new_handler_manager}
use simple_message.Connection.Manager.Run.{Event, act, run, run-keeps}
use simple_message.Connection.Manager.Invariant.{Flags, act-Flags, new-Flags}
use simple_message.Connection.Manager.Delivery.{
  Inv, count, count-append, count-order, alive, held, act-Books, act-Sent,
}
use simple_message.Connection.Manager.Delivery.Wire.{Wire, buffers, act-Wire}

pub record Ledger (h : Manager) : Type 0 where
  pub flags : Flags h
  pub inv : Inv h
  pub on_wire : Wire h

pub act-Ledger : (e : Event) (h : Manager) → Ledger h → Ledger (act e h)
act-Ledger e h l = record {
  flags = act-Flags e h l.flags;
  inv = record { books = act-Books e h l.inv; each = λ i. act-Sent e h i l.inv (l.inv.each i) };
  on_wire = act-Wire e h l.inv l.on_wire;
}

new-Ledger : (d : Decoder) (s : Stream) → Ledger (new_handler_manager d s)
unfolding new_handler_manager count
new-Ledger d s = record {
  flags = new-Flags d s;
  inv = record {
    books = record { order = refl; settled = λ _. refl; clean = λ _. refl };
    each = λ i. ground arith;
  };
  on_wire = ([], [], ground arith);
}

pub run-Ledger :
    (d : Decoder) (s : Stream) (es : List Event) → Ledger (run es (new_handler_manager d s))
run-Ledger d s es = run-keeps Ledger act-Ledger es (new_handler_manager d s) (new-Ledger d s)

delivered : (h : Manager) (i : ℕ) → Ledger h → h.senders i ≡ returned none → count i h.written ≡ 1
delivered h i l e =
    let (rest, torn, s) = l.on_wire in
    omega (
      arith,
      count-order i h l.inv.books,
      (l.inv.each i).once,
      (l.inv.each i).sent e,
      ap (count i) s.written,
      count-append i h.written rest,
    )

-- A call of SendMsg that returned nil had its message written exactly once, in every run.
pub send-delivers :
    (d : Decoder) (s : Stream) (es : List Event) (i : ℕ)
    → (run es (new_handler_manager d s)).senders i ≡ returned none
    → count i (run es (new_handler_manager d s)).written ≡ 1
send-delivers d s es i e = delivered (run es (new_handler_manager d s)) i (run-Ledger d s es) e

-- In every run no message enters the channel twice and the channel is within its capacity, messages
-- are written in the order in which they entered it, and the connection was given their buffers in
-- this order and nothing else, but for what one failed Write left, after which nothing is written.
pub written_in_order :
    (d : Decoder) (s : Stream) (es : List Event)
    → let h = run es (new_handler_manager d s) in
      ((i : ℕ) → count i h.accepted ≤ 1)
      × (length h.msg_chan ≤ msg_chan_cap)
      × (rest : List ℕ) × (h.accepted ≡ h.written ++ rest)
      × (torn : List (List ℕ)) × (h.writer.sent ≡ buffers h.bodies h.written ++ torn)
      × ((alive h.send_pc ≡ false) ⊎ (torn ≡ []))
written_in_order d s es =
    let h = run es (new_handler_manager d s) in
    let l = run-Ledger d s es in
    let (rest, torn, w) = l.on_wire in
    (
      λ i. (l.inv.each i).once,
      l.flags.room,
      rest ++ (held h.send_pc ++ h.msg_chan),
      l.inv.books.order
          ∙ ap (λ t. t ++ (held h.send_pc ++ h.msg_chan)) w.written
          ∙ append_assoc h.written rest (held h.send_pc ++ h.msg_chan),
      torn,
      w.wire,
      elim (Bool-cases (alive h.send_pc)) [ inl a ↦ inr (w.clean a) | inr a ↦ inl a ],
    )
