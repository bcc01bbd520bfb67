-- ===== src/Connection/Manager/Stopping/Ending.antt =====
-- A manager of connection/handler.go whose context has ended comes to its end.
use simple_message.Prelude.{ℕ, ◌≡◌, ◌≢◌, ◌⊎◌, inl, inr, refl, none, arith}
use simple_message.Connection.State.{
  Manager, SendPc, choosing, holding, StopPc, not_begun, recorded, conn_closed, socket_closed,
  finished,
}
use simple_message.Connection.Manager.{ctx_case, begin_stop, step_send, leave_send}
use simple_message.Connection.Manager.Run.{Event, send, exit_send, act}
use simple_message.Connection.Manager.Invariant.{Flags, act-Flags}
use simple_message.Connection.Manager.Stopping.{Quits, after, quit_stop}

-- The manager's context has ended and nobody has called stop.
record Ending (h : Manager) : Type 0 where
  flags : Flags h
  ended : h.ctx_err ≢ none
  waits : h.stop_pc ≡ not_begun

act-Ending :
    (e : Event) (h : Manager)
    → ((act e h).stop_pc ≡ not_begun) × ((act e h).ctx_err ≢ none)
    → Ending h
    → Ending (act e h)
act-Ending e h (s, c) o = record { flags = act-Flags e h o.flags; ended = c; waits = s }

begins_stop :
    (h : Manager) → h.send_pc ≡ SendPc.leaving → Ending h → (act exit_send h).stop_pc ≢ not_begun
unfolding act leave_send begin_stop
begins_stop h e o = ground (arith, e, o.waits)

ends_send :
    (h : Manager)
    → h.send_pc ≡ choosing
    → Ending h
    → let g = act (send ctx_case) h in
      (g.send_pc ≡ SendPc.leaving) × (g.stop_pc ≡ not_begun) × (g.ctx_err ≢ none)
unfolding act step_send
ends_send h e o = ground (arith, e, o.waits, o.ended)

writes_last :
    (h : Manager) (i : ℕ)
    → h.send_pc ≡ holding i
    → Ending h
    → let g = act (send ctx_case) h in
      ((g.send_pc ≡ choosing) ⊎ (g.send_pc ≡ SendPc.leaving))
      × (g.stop_pc ≡ not_begun)
      × (g.ctx_err ≢ none)
unfolding act step_send
writes_last h i e o = ground (arith, e, o.waits, o.ended)

leaving_quits : (h : Manager) → h.send_pc ≡ SendPc.leaving → Ending h → Quits h
leaving_quits h e o =
    after exit_send h tt
      (quit_stop _ (act exit_send h) refl (begins_stop h e o) (act-Flags exit_send h o.flags))

choosing_quits : (h : Manager) → h.send_pc ≡ choosing → Ending h → Quits h
choosing_quits h e o =
    let (p, s, c) = ends_send h e o in
    after (send ctx_case) h tt (leaving_quits _ p (act-Ending (send ctx_case) h (s, c) o))

end_send : (p : SendPc) (h : Manager) → h.send_pc ≡ p → Ending h → Quits h
end_send SendPc.gone h e o = absurd (ground (arith, o.flags, e, o.waits))
end_send SendPc.leaving h e o = leaving_quits h e o
end_send choosing h e o = choosing_quits h e o
end_send (holding i) h e o =
    let (p, s, c) = writes_last h i e o in
    let o' = act-Ending (send ctx_case) h (s, c) o in
    after (send ctx_case) h tt
      (elim p [ inl c ↦ choosing_quits _ c o' | inr l ↦ leaving_quits _ l o' ])

-- Also where stop has not begun: send does not wait for more messages once the context has ended.
pub end_stop : (p : StopPc) (h : Manager) → h.stop_pc ≡ p → h.ctx_err ≢ none → Flags h → Quits h
end_stop not_begun h e c f = end_send h.send_pc h refl (record { flags = f; ended = c; waits = e })
end_stop recorded h e c f = quit_stop recorded h e (λ z. cc) f
end_stop conn_closed h e c f = quit_stop conn_closed h e (λ z. cc) f
end_stop socket_closed h e c f = quit_stop socket_closed h e (λ z. cc) f
end_stop finished h e c f = quit_stop finished h e (λ z. cc) f
