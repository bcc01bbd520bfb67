-- ===== src/Connection/Manager/Stopping.antt =====
-- A stop that has begun comes to its end: connection/handler.go, stop, read and send.
use simple_message.Prelude.{ℕ, ◌≡◌, ◌≢◌, ◌⊎◌, inl, inr, refl, ◌∙◌, false, List, [], ◌∷◌, arith}
use simple_message.Errors.{net_closed}
use simple_message.Protocol.Wire.{All}
use simple_message.Protocol.Stream.{Stream, read_full, fill}
use simple_message.Protocol.Decoder.{Message, Decoder, unmarshal}
use simple_message.Connection.State.{
  Manager, SendPc, choosing, holding, ReadPc, reading, handling, StopPc, not_begun, recorded,
  conn_closed, socket_closed, finished, new_handler_manager,
}
use simple_message.Connection.Manager.{
  conn_case, step_send, leave_send, step_read, leave_read, step_stop,
}
use simple_message.Connection.Manager.Run.{
  Event, send, exit_send, read, exit_read, next_stop, break_read, act, run,
}
use simple_message.Connection.Manager.Invariant.{Flags, act-Flags, run-Flags}
pub mod Ending
pub mod Breaking

-- The actions of the manager's goroutines and of the body of stop, with the return of handleMsg, and
-- a Read that fails on the closed socket
abbrev pub IsOwn : Event → Type 0
IsOwn (send c) = Unit
IsOwn exit_send = Unit
IsOwn read = Unit
IsOwn exit_read = Unit
IsOwn next_stop = Unit
IsOwn (break_read e) = Unit
IsOwn _ = ⊥

abbrev pub Quits : Manager → Type 0
Quits h =
    (es : List Event) × All IsOwn es
    × ((run es h).send_pc ≡ SendPc.gone)
    × ((run es h).read_pc ≡ ReadPc.gone)
    × ((run es h).socket_open ≡ false)

after : (e : Event) (h : Manager) → IsOwn e → Quits (act e h) → Quits h
unfolding run
after e h own (es, owns, s, r, o) = (e ∷ es, (own, owns), s, r, o)

-- The stop is over, and one goroutine or both.
record Over (h : Manager) : Type 0 where
  flags : Flags h
  stopped : h.stop_pc ≡ finished

act-Over : (e : Event) (h : Manager) → (act e h).stop_pc ≡ finished → Over h → Over (act e h)
act-Over e h s o = record { flags = act-Flags e h o.flags; stopped = s }

-- One action of a goroutine once the stop is over
leaves_read :
    (h : Manager)
    → h.read_pc ≡ ReadPc.leaving
    → Over h
    → let g = act exit_read h in
      (g.read_pc ≡ ReadPc.gone) × (g.stop_pc ≡ finished) × (g.send_pc ≡ h.send_pc)
unfolding act leave_read
leaves_read h e o = ground (arith, e, o.stopped)

breaks_read :
    (h : Manager)
    → h.read_pc ≡ reading
    → Over h
    → let g = act read (act (break_read net_closed) h) in
      (g.read_pc ≡ ReadPc.leaving) × (g.stop_pc ≡ finished) × (g.send_pc ≡ h.send_pc)
unfolding act step_read unmarshal read_full fill
breaks_read h e o = ground (arith, e, o.stopped, o.flags)

break_stop : (h : Manager) → Over h → (act (break_read net_closed) h).stop_pc ≡ finished
unfolding act
break_stop h o = ground (arith, o.stopped)

returns_read :
    (h : Manager) (m : Message)
    → h.read_pc ≡ handling m
    → Over h
    → let g = act read h in (g.read_pc ≡ reading) × (g.stop_pc ≡ finished) × (g.send_pc ≡ h.send_pc)
unfolding act step_read
returns_read h m e o = ground (arith, e, o.stopped)

-- read ends, if it has not and send has.
read_over : (h : Manager) → h.read_pc ≡ ReadPc.gone → Over h → h.send_pc ≡ SendPc.gone → Quits h
unfolding run
read_over h e o g = ([], tt, g, e, o.flags.socket (ground (arith, o.stopped)))

leaving_over :
    (h : Manager) → h.read_pc ≡ ReadPc.leaving → Over h → h.send_pc ≡ SendPc.gone → Quits h
leaving_over h e o g =
    let (p, s, same) = leaves_read h e o in
    after exit_read h tt (read_over _ p (act-Over exit_read h s o) (same ∙ g))

reading_over : (h : Manager) → h.read_pc ≡ reading → Over h → h.send_pc ≡ SendPc.gone → Quits h
reading_over h e o g =
    let (p, s, same) = breaks_read h e o in
    let broken = act-Over (break_read net_closed) h (break_stop h o) o in
    after (break_read net_closed) h tt
      (after read _ tt (leaving_over _ p (act-Over read _ s broken) (same ∙ g)))

quit_read : (p : ReadPc) (h : Manager) → h.read_pc ≡ p → Over h → h.send_pc ≡ SendPc.gone → Quits h
quit_read ReadPc.gone h e o g = read_over h e o g
quit_read ReadPc.leaving h e o g = leaving_over h e o g
quit_read reading h e o g = reading_over h e o g
quit_read (handling m) h e o g =
    let (p, s, same) = returns_read h m e o in
    after read h tt (reading_over _ p (act-Over read h s o) (same ∙ g))

leaves_send :
    (h : Manager)
    → h.send_pc ≡ SendPc.leaving
    → Over h
    → let g = act exit_send h in (g.send_pc ≡ SendPc.gone) × (g.stop_pc ≡ finished)
unfolding act leave_send
leaves_send h e o = ground (arith, e, o.stopped)

chooses_send :
    (h : Manager)
    → h.send_pc ≡ choosing
    → Over h
    → let g = act (send conn_case) h in (g.send_pc ≡ SendPc.leaving) × (g.stop_pc ≡ finished)
unfolding act step_send
chooses_send h e o = ground (arith, e, o.stopped, o.flags)

writes_send :
    (h : Manager) (i : ℕ)
    → h.send_pc ≡ holding i
    → Over h
    → let g = act (send conn_case) h in
      ((g.send_pc ≡ choosing) ⊎ (g.send_pc ≡ SendPc.leaving)) × (g.stop_pc ≡ finished)
unfolding act step_send
writes_send h i e o = ground (arith, e, o.stopped)

send_over : (h : Manager) → h.send_pc ≡ SendPc.leaving → Over h → Quits h
send_over h e o =
    let (p, s) = leaves_send h e o in
    after exit_send h tt (quit_read _ _ refl (act-Over exit_send h s o) p)

choosing_over : (h : Manager) → h.send_pc ≡ choosing → Over h → Quits h
choosing_over h e o =
    let (p, s) = chooses_send h e o in
    after (send conn_case) h tt (send_over _ p (act-Over (send conn_case) h s o))

quit_send : (p : SendPc) (h : Manager) → h.send_pc ≡ p → Over h → Quits h
quit_send SendPc.gone h e o = quit_read h.read_pc h refl o e
quit_send SendPc.leaving h e o = send_over h e o
quit_send choosing h e o = choosing_over h e o
quit_send (holding i) h e o =
    let (p, s) = writes_send h i e o in
    let over = act-Over (send conn_case) h s o in
    after (send conn_case) h tt
      (elim p [ inl c ↦ choosing_over _ c over | inr l ↦ send_over _ l over ])

-- The next action of the body of stop
stop_next :
    (h : Manager)
    → (h.stop_pc ≡ recorded → (act next_stop h).stop_pc ≡ conn_closed)
      × (h.stop_pc ≡ conn_closed → (act next_stop h).stop_pc ≡ socket_closed)
      × (h.stop_pc ≡ socket_closed → (act next_stop h).stop_pc ≡ finished)
unfolding act step_stop
stop_next h = ground arith

finished_quits : (h : Manager) → h.stop_pc ≡ finished → Flags h → Quits h
finished_quits h e f = quit_send h.send_pc h refl (record { flags = f; stopped = e })

stop_once : (h : Manager) → Flags h → (Flags (act next_stop h) → Quits (act next_stop h)) → Quits h
stop_once h f q = after next_stop h tt (q (act-Flags next_stop h f))

socket_quits : (h : Manager) → h.stop_pc ≡ socket_closed → Flags h → Quits h
socket_quits h e f = stop_once h f (finished_quits _ ((stop_next h).2 e))

conn_quits : (h : Manager) → h.stop_pc ≡ conn_closed → Flags h → Quits h
conn_quits h e f = stop_once h f (socket_quits _ ((stop_next h).1 e))

pub quit_stop : (p : StopPc) (h : Manager) → h.stop_pc ≡ p → p ≢ not_begun → Flags h → Quits h
quit_stop not_begun h e n f = absurd (n refl)
quit_stop finished h e n f = finished_quits h e f
quit_stop socket_closed h e n f = socket_quits h e f
quit_stop conn_closed h e n f = conn_quits h e f
quit_stop recorded h e n f = stop_once h f (conn_quits _ ((stop_next h).0 e))

-- In every run in which stop has begun, whoever called it, the goroutines of read and send can both
-- still end, and the socket is then closed: by their own actions and those of stop, if a handler that
-- runs returns and a Read and a Write on the closed socket do.
can_quit :
    (d : Decoder) (s : Stream) (es : List Event)
    → (run es (new_handler_manager d s)).stop_pc ≢ not_begun
    → Quits (run es (new_handler_manager d s))
can_quit d s es n =
    let h = run es (new_handler_manager d s) in quit_stop h.stop_pc h refl n (run-Flags d s es)
