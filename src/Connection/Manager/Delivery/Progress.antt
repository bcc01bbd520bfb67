-- ===== src/Connection/Manager/Delivery/Progress.antt =====
-- No caller of sendMsg waits for ever on the manager.
use simple_message.Prelude.{
  ℕ, zero, suc, ◌+◌, ◌*◌, ◌<◌, ◌≡◌, ◌≢◌, refl, true, false, List, [], ◌∷◌, Option, some, length,
  arith, ◌∙◌, inl, inr, Bool-cases,
}
use simple_message.Errors.{Error, is_close}
use simple_message.Protocol.Wire.{All}
use simple_message.Protocol.Stream.{Stream}
use simple_message.Protocol.Decoder.{Decoder}
use simple_message.Connection.State.{
  Manager, SendPc, choosing, holding, leaving, gone, waiting, returned, StopPc, not_begun, recorded,
  new_handler_manager,
}
use simple_message.Connection.Manager.{
  conn_case, channel_case, select_send, step_send, leave_send, step_stop,
}
use simple_message.Connection.Manager.Run.{Event, select, send, exit_send, next_stop, act, run}
use simple_message.Connection.Manager.Invariant.{Flags}
use simple_message.Connection.Manager.Delivery.{Inv, count, count-order}
use simple_message.Connection.Manager.Delivery.Guarantee.{Ledger, act-Ledger, run-Ledger}

-- The actions of the sender's goroutine, of the body of stop, and of the caller `i` itself
abbrev pub IsOwn : ℕ → Event → Type 0
IsOwn i (select j c) = i ≡ j
IsOwn i (send c) = Unit
IsOwn i exit_send = Unit
IsOwn i next_stop = Unit
IsOwn i _ = ⊥

abbrev pub Returns : ℕ → Manager → Type 0
Returns i h =
    (es : List Event) × All (IsOwn i) es × (r : Option Error) × ((run es h).senders i ≡ returned r)

after : (i : ℕ) (e : Event) (h : Manager) → IsOwn i e → Returns i (act e h) → Returns i h
unfolding run
after i e h own (es, owns, r, q) = (e ∷ es, (own, owns), r, q)

when_done : (i : ℕ) (h : Manager) → h.senders i ≡ waiting → h.conn_done ≡ true → Returns i h
unfolding run select_send
when_done i h w d = (select i conn_case ∷ [], (refl, tt), some is_close, ground arith)

when_acked : (i : ℕ) (h : Manager) → h.senders i ≡ waiting → (h.bodies i).acked ≡ true → Returns i h
unfolding run select_send
when_acked i h w a = (select i channel_case ∷ [], (refl, tt), (h.bodies i).error, ground arith)

-- The sender is past its return: its deferred stop closes the connection.
when_recorded : (i : ℕ) (h : Manager) → h.stop_pc ≡ recorded → h.senders i ≡ waiting → Returns i h
unfolding act step_stop
when_recorded i h e w = after i next_stop h tt (when_done i _ (ground arith) (ground arith))

when_leaving :
    (i : ℕ) (h : Manager) (p : StopPc)
    → h.stop_pc ≡ p
    → h.send_pc ≡ leaving
    → Flags h
    → h.senders i ≡ waiting
    → Returns i h
unfolding act leave_send
when_leaving i h not_begun e l f w =
    after i exit_send h tt (when_recorded i _ (ground arith) (ground arith))
when_leaving i h recorded e l f w = when_recorded i h e w
when_leaving i h _ e l f w = when_done i h w (ground (arith, f))

-- What the sender has to do before the channel is empty
abbrev work : SendPc → List ℕ → ℕ
work (holding i) c = 1 + 2 * length c
work _ c = 2 * length c

-- A step of a sender that has something to do
send_holding :
    (h : Manager) (i j : ℕ)
    → h.send_pc ≡ holding j
    → let g = act (send channel_case) h in
      (work g.send_pc g.msg_chan < work h.send_pc h.msg_chan) × (g.senders i ≡ h.senders i)
unfolding act step_send
send_holding h i j e = ground arith

send_choosing :
    (h : Manager) (i j : ℕ) (rest : List ℕ)
    → h.send_pc ≡ choosing
    → h.msg_chan ≡ j ∷ rest
    → let g = act (send channel_case) h in
      (work g.send_pc g.msg_chan < work h.send_pc h.msg_chan) × (g.senders i ≡ h.senders i)
unfolding act step_send
send_choosing h i j rest e q = ground arith

-- A message that is neither acknowledged nor with the sender is in the channel.
waits_in_chan :
    (i : ℕ) (h : Manager)
    → Inv h
    → h.senders i ≡ waiting
    → (h.bodies i).acked ≡ false
    → h.send_pc ≡ choosing
    → h.msg_chan ≢ []
unfolding count
waits_in_chan i h v w a e q =
    let s = v.each i in ground (arith, s.waits w, s.seen, count-order i h v.books)

-- A caller that waits returns, if it does from every state in which the sender has less to do.
module _ (i : ℕ) (h : Manager) (l : Ledger h) (w : h.senders i ≡ waiting)
    (less_work : (g : Manager)
      → work g.send_pc g.msg_chan < work h.send_pc h.msg_chan
      → Ledger g
      → g.senders i ≡ waiting
      → Returns i g) where
  one_send :
      (work (act (send channel_case) h).send_pc (act (send channel_case) h).msg_chan
          < work h.send_pc h.msg_chan)
        × ((act (send channel_case) h).senders i ≡ h.senders i)
      → Returns i h
  one_send (less, same) =
      after i (send channel_case) h tt
        (less_work (act (send channel_case) h) less (act-Ledger (send channel_case) h l) (same ∙ w))

  unacked :
      (p : SendPc) (c : List ℕ)
      → h.send_pc ≡ p
      → h.msg_chan ≡ c
      → (h.bodies i).acked ≡ false
      → Returns i h
  unacked (holding j) c e q a = one_send (send_holding h i j e)
  unacked choosing (j ∷ rest) e q a = one_send (send_choosing h i j rest e q)
  unacked choosing [] e q a = absurd (waits_in_chan i h l.inv w a e q)
  unacked leaving c e q a = when_leaving i h h.stop_pc refl e l.flags w
  unacked gone c e q a = when_done i h w (ground (arith, l.flags))

  wait_over : Returns i h
  wait_over = elim (Bool-cases (h.bodies i).acked) [
    | inl done ↦ when_acked i h w done
    | inr more ↦ unacked h.send_pc h.msg_chan refl refl more
  ]

returns :
    (n i : ℕ) (h : Manager)
    → work h.send_pc h.msg_chan < n
    → Ledger h
    → h.senders i ≡ waiting
    → Returns i h
returns zero i h b l w = absurd (omega arith)
returns (suc n) i h b l w =
    wait_over i h l w (λ g less ledger wait. returns n i g (omega arith) ledger wait)

-- In every run a call of SendMsg that waits for its acknowledgement can still return, by actions
-- of the manager's own goroutines and the caller alone, if the Write that is under way returns, and so
-- do those of the messages before the caller's and its own: nobody has to close the connection, end a
-- context or stop the manager for it then, and it does not matter whether these Writes fail. A Write
-- that blocks is one that has not returned; the caller waits for it, or for the connection's end.
pub waiting_returns :
    (d : Decoder) (s : Stream) (es : List Event) (i : ℕ)
    → (run es (new_handler_manager d s)).senders i ≡ waiting
    → Returns i (run es (new_handler_manager d s))
waiting_returns d s es i w =
    let h = run es (new_handler_manager d s) in
    returns (suc (work h.send_pc h.msg_chan)) i h (omega arith) (run-Ledger d s es) w
