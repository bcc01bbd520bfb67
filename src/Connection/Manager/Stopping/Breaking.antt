-- ===== src/Connection/Manager/Stopping/Breaking.antt =====
-- A connection that breaks, or that is closed from within a handler, ends the context of its manager:
-- connection/handler.go, read, send and stop.
use simple_message.Prelude.{ℕ, ◌≡◌, ◌≢◌, ◌⊎◌, inl, inr, refl, ◌∙◌, true, List, [], ◌∷◌, none, arith}
use simple_message.Protocol.Wire.{All}
use simple_message.Connection.State.{Manager, SendPc, choosing, holding, ReadPc, not_begun}
use simple_message.Connection.Manager.{conn_case, step_send, leave_send, leave_read, begin_stop}
use simple_message.Connection.Manager.Run.{Event, send, exit_send, exit_read, act, run}
use simple_message.Connection.Manager.Invariant.{Flags, act-Flags}
use simple_message.Connection.Manager.Stopping.{IsOwn, quit_stop}

-- The connection was closed, or a goroutine is past its return, or stop has begun, or the context has
-- ended.
abbrev pub IsBroken : Manager → Type 0
IsBroken h =
    (h.conn_done ≡ true)
    ⊎ (h.read_pc ≡ ReadPc.leaving)
    ⊎ (h.send_pc ≡ SendPc.leaving)
    ⊎ (h.stop_pc ≢ not_begun)
    ⊎ (h.ctx_err ≢ none)

-- The context of the manager can end.
abbrev pub Breaks : Manager → Type 0
Breaks h = (es : List Event) × All IsOwn es × ((run es h).ctx_err ≢ none)

after : (e : Event) (h : Manager) → IsOwn e → Breaks (act e h) → Breaks h
unfolding run
after e h own (es, owns, c) = (e ∷ es, (own, owns), c)

run_on-Flags : (es : List Event) (h : Manager) → Flags h → Flags (run es h)
unfolding run
run_on-Flags [] h f = f
run_on-Flags (e ∷ es) h f = run_on-Flags es (act e h) (act-Flags e h f)

begun_breaks : (h : Manager) → h.stop_pc ≢ not_begun → Flags h → Breaks h
begun_breaks h n f =
    let (es, own, s, r, o) = quit_stop h.stop_pc h refl n f in
    let g = run_on-Flags es h f in (es, own, g.ctx (g.send_gone s))

read_begins : (h : Manager) → h.read_pc ≡ ReadPc.leaving → (act exit_read h).stop_pc ≢ not_begun
unfolding act leave_read begin_stop
read_begins h e = ground (arith, e)

send_begins : (h : Manager) → h.send_pc ≡ SendPc.leaving → (act exit_send h).stop_pc ≢ not_begun
unfolding act leave_send begin_stop
send_begins h e = ground (arith, e)

read_breaks : (h : Manager) → h.read_pc ≡ ReadPc.leaving → Flags h → Breaks h
read_breaks h e f =
    after exit_read h tt (begun_breaks _ (read_begins h e) (act-Flags exit_read h f))

send_breaks : (h : Manager) → h.send_pc ≡ SendPc.leaving → Flags h → Breaks h
send_breaks h e f =
    after exit_send h tt (begun_breaks _ (send_begins h e) (act-Flags exit_send h f))

choosing_leaves :
    (h : Manager)
    → h.send_pc ≡ choosing
    → h.conn_done ≡ true
    → (act (send conn_case) h).send_pc ≡ SendPc.leaving
unfolding act step_send
choosing_leaves h e c = ground (arith, e, c)

holding_goes :
    (h : Manager) (i : ℕ)
    → h.send_pc ≡ holding i
    → let g = act (send conn_case) h in
      ((g.send_pc ≡ choosing) ⊎ (g.send_pc ≡ SendPc.leaving)) × (g.conn_done ≡ h.conn_done)
unfolding act step_send
holding_goes h i e = ground (arith, e)

choosing_breaks : (h : Manager) → h.send_pc ≡ choosing → h.conn_done ≡ true → Flags h → Breaks h
choosing_breaks h e c f =
    after (send conn_case) h tt
      (send_breaks _ (choosing_leaves h e c) (act-Flags (send conn_case) h f))

closed_breaks : (p : SendPc) (h : Manager) → h.send_pc ≡ p → h.conn_done ≡ true → Flags h → Breaks h
unfolding run
closed_breaks SendPc.gone h e c f = ([], tt, f.ctx (f.send_gone e))
closed_breaks SendPc.leaving h e c f = send_breaks h e f
closed_breaks choosing h e c f = choosing_breaks h e c f
closed_breaks (holding i) h e c f =
    let (p, same) = holding_goes h i e in
    let g = act-Flags (send conn_case) h f in
    after (send conn_case) h tt
      (elim p [ inl q ↦ choosing_breaks _ q (same ∙ c) g | inr q ↦ send_breaks _ q g ])

pub broken-Breaks : (h : Manager) → IsBroken h → Flags h → Breaks h
unfolding run
broken-Breaks h (inl c) f = closed_breaks h.send_pc h refl c f
broken-Breaks h (inr (inl r)) f = read_breaks h r f
broken-Breaks h (inr (inr (inl s))) f = send_breaks h s f
broken-Breaks h (inr (inr (inr (inl n)))) f = begun_breaks h n f
broken-Breaks h (inr (inr (inr (inr c)))) f = ([], tt, c)
