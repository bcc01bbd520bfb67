-- ===== src/Tests/Connection.antt =====
-- Runs of package connection.
use simple_message.Prelude.{
  ℕ, ◌≡◌, ◌≢◌, ◌≤◌, refl, true, false, List, [], ◌∷◌, ◌++◌, none, some, arith, inr, ◌⊎◌, length,
  string_eq, nat_eq,
}
use simple_message.Errors.{Error, err, other}
use simple_message.Protocol.Stream.{read_full, fill, Stream, chunk}
use simple_message.Protocol.Stream.View.{view}
use simple_message.Protocol.Wire.{All}
use simple_message.Protocol.Decoder.{Message, Decoder, marshal, unmarshal}
use simple_message.Connection.State.{new_handler_manager, msg_chan_cap}
use simple_message.Connection.Manager.{
  channel_case, call_send, select_send, step_send, step_read, leave_read, step_stop, begin_stop,
}
use simple_message.Connection.Manager.Run.{
  Event, call, select, send, read, exit_read, stop, next_stop, faults, run,
}
use simple_message.Connection.Manager.Invariant.{stop_complete}
use simple_message.Connection.Manager.Delivery.{count, alive}
use simple_message.Connection.Manager.Delivery.Wire.{buffers}
use simple_message.Connection.Manager.Delivery.Guarantee.{send-delivers, written_in_order}
use simple_message.Connection.Manager.Delivery.Progress.{Returns, waiting_returns}
use mathlib.Core.List.{flatten}
use simple_message.Protocol.Decoder.{write}
use simple_message.Connection.ReadLoop.{read as read_loop, handle_all, frames, read_total}
use simple_message.Connection.Manager.Reading.{Small, in_hand, run_reads}
use simple_message.Connection.Transfer.Ends.{seen_of_sent}

abbrev small : Decoder
small = record { max_data_len = 16 }

abbrev hello : Message
hello = record { msg_id = 258; msg_data = 104 ∷ 105 ∷ [] }

abbrev hello_bytes : List ℕ
hello_bytes = 0 ∷ 0 ∷ 1 ∷ 2 ∷ 0 ∷ 0 ∷ 0 ∷ 2 ∷ 104 ∷ 105 ∷ []

-- A message is queued, received, written and acknowledged.
abbrev sends_one : List Event
sends_one =
    call 0 hello
    ∷ select 0 channel_case
    ∷ send channel_case
    ∷ send channel_case
    ∷ select 0 channel_case
    ∷ []

send-delivers_example : count 0 (run sends_one (new_handler_manager small [])).written ≡ 1
unfolding run new_handler_manager select_send step_send call_send marshal
send-delivers_example = send-delivers small [] sends_one 0 refl

written_in_order_example :
    let h = run sends_one (new_handler_manager small []) in
    ((i : ℕ) → count i h.accepted ≤ 1)
    × (length h.msg_chan ≤ msg_chan_cap)
    × (rest : List ℕ) × (h.accepted ≡ h.written ++ rest)
    × (torn : List (List ℕ)) × (h.writer.sent ≡ buffers h.bodies h.written ++ torn)
    × ((alive h.send_pc ≡ false) ⊎ (torn ≡ []))
written_in_order_example = written_in_order small [] sends_one

-- Its frame arrives in two pieces.
abbrev frame_in_two : Stream
frame_in_two = chunk (0 ∷ 0 ∷ 1 ∷ 2 ∷ 0 ∷ []) ∷ chunk (0 ∷ 0 ∷ 2 ∷ 104 ∷ 105 ∷ []) ∷ []

abbrev keep : Message → List Message → List Message
keep m ms = m ∷ ms

-- The sender has the message, the peer is gone, and Stop is called.
abbrev stuck : List Event
stuck =
    faults (some (3, other 1) ∷ [])
    ∷ call 0 hello
    ∷ select 0 channel_case
    ∷ send channel_case
    ∷ stop
    ∷ []

waiting_returns_example : Returns 0 (run stuck (new_handler_manager small []))
unfolding run new_handler_manager select_send step_send call_send begin_stop
waiting_returns_example = waiting_returns small [] stuck 0 refl

-- The stream ends: read returns, and stops the manager.
abbrev ends : List Event
ends = read ∷ exit_read ∷ next_stop ∷ next_stop ∷ next_stop ∷ exit_read ∷ []

stop_complete_example :
    let h = run ends (new_handler_manager small []) in
    (h.conn_done ≡ true) × (h.socket_open ≡ false) × (h.ctx_err ≢ none) × (h.error ≢ none)
unfolding run new_handler_manager leave_read step_stop step_read unmarshal read_full fill
stop_complete_example = stop_complete small [] ends (inr refl)

-- Two frames in three pieces, and what a handler that keeps them gets
abbrev two_frames : Stream
two_frames =
    chunk (0 ∷ 0 ∷ 1 ∷ 2 ∷ 0 ∷ 0 ∷ [])
    ∷ chunk (0 ∷ 2 ∷ 104 ∷ 105 ∷ 0 ∷ [])
    ∷ chunk (0 ∷ 1 ∷ 2 ∷ 0 ∷ 0 ∷ 0 ∷ 2 ∷ 104 ∷ 105 ∷ [])
    ∷ []

read_total_example :
    (ms : List Message) × (e : Error) × (last : Stream) × (read_loop 21 small keep [] two_frames
      ≡ some (e, handle_all keep ms [], (unmarshal small last).1))
    × ((unmarshal small last).0 ≡ err e)
    × ((view two_frames).bytes ≡ frames ms ++ (view last).bytes)
    × All (λ m. length m.msg_data ≤ 16) ms
unfolding view
read_total_example = read_total small keep 21 [] two_frames (omega arith) (omega arith)

-- The first message is handled and the second is being read, when Stop is called.
abbrev reads_and_stops : List Event
reads_and_stops = read ∷ read ∷ read ∷ stop ∷ next_stop ∷ []

run_reads_example :
    let h = run reads_and_stops (new_handler_manager small two_frames) in
    (rest : List ℕ) × ((view two_frames).bytes ≡ frames (h.handled ++ in_hand h.read_pc) ++ rest)
    × All (Small small) (h.handled ++ in_hand h.read_pc)
unfolding view
run_reads_example = run_reads small two_frames reads_and_stops (omega arith)

seen_of_sent_example :
    let h = run (read ∷ []) (new_handler_manager small frame_in_two) in
    (more : List Message) × (hello ∷ [] ≡ (h.handled ++ in_hand h.read_pc) ++ more)
unfolding run new_handler_manager select_send step_send call_send marshal write view flatten
seen_of_sent_example =
    seen_of_sent small small [] frame_in_two sends_one (read ∷ []) [] (omega arith) refl
      (omega arith) (omega arith) refl

-- The same two frames, a piece for each byte of the first
abbrev two_frames_else : Stream
two_frames_else =
    chunk (0 ∷ [])
    ∷ chunk (0 ∷ 1 ∷ [])
    ∷ chunk []
    ∷ chunk (2 ∷ 0 ∷ 0 ∷ 0 ∷ 2 ∷ 104 ∷ 105 ∷ 0 ∷ 0 ∷ 1 ∷ 2 ∷ 0 ∷ 0 ∷ 0 ∷ 2 ∷ 104 ∷ 105 ∷ [])
    ∷ []
