-- ===== src/Examples/WebSocket/Conn/Carrying.antt =====
-- What Write of examples/websocket/conn.go at one end and Read at the other make of a stream of
-- bytes.
use mathlib.Core.List.{flatten}
use simple_message.Prelude.{
  ℕ, ◌≡◌, refl, sym, ap, ◌∙◌, subst, Bool, List, [], ◌∷◌, ◌++◌, Option, map, append_assoc,
  append-nil, arith,
}
use simple_message.Errors.{Error, ok, err, panic}
use simple_message.Examples.WebSocket.Conn.{message, Conn, new_websocket_conn, write, read_all}
use simple_message.Examples.WebSocket.Conn.Reading.{
  Prefix, pending, bytes_before_failure, read_all-Prefix,
}

-- Writes one after the other, each with what WriteMessage below returns: what the successful ones
-- wrote, and the connection.
unfoldable pub write_all : List (List ℕ × Option Error) → Conn → List (List ℕ) × Conn
unfolding write
write_all [] w = ([], w)
write_all ((p, r) ∷ ps) w =
    let (x, w') = write p r w in
    let (written, v) = write_all ps w' in
    (elim x [ ok n ↦ p ∷ written | err e ↦ written | panic ↦ written ], v)

written_sent :
    (ps : List (List ℕ × Option Error)) (w : Conn)
    → (write_all ps w).1.sent ≡ w.sent ++ (write_all ps w).0
unfolding write_all write
written_sent [] w = sym (append-nil w.sent)
written_sent ((p, r) ∷ ps) w =
    let rest = written_sent ps (write p r w).1 in
    ground (arith, rest, append_assoc {0} w.sent (p ∷ []) (write_all ps (write p r w).1).0)

messages_pending : (ms : List (List ℕ)) → pending (new_websocket_conn (map message ms)) ≡ flatten ms
unfolding pending bytes_before_failure new_websocket_conn flatten
messages_pending [] = refl
messages_pending (m ∷ ms) = ap (◌++◌ m) (messages_pending ms)

-- Between two connections: if what one end sent arrives, Reads of any sizes at the other give a
-- beginning of the bytes of the Writes that succeeded, in order, whichever Writes fail.
pub writes_carried :
    (is_close_error : Error → Bool) (ps : List (List ℕ × Option Error)) (ns : List ℕ)
    → let (written, w) = write_all ps (new_websocket_conn []) in
      Prefix is_close_error ns
        (flatten written)
        (read_all is_close_error ns (new_websocket_conn (map message w.sent))).0
unfolding new_websocket_conn
writes_carried is_close_error ps ns =
    let w = (write_all ps (new_websocket_conn [])).1 in
    let reader = new_websocket_conn (map message w.sent) in
    subst (λ bytes. Prefix is_close_error ns bytes (read_all is_close_error ns reader).0)
      (messages_pending w.sent ∙ ap flatten (written_sent ps (new_websocket_conn [])))
      (read_all-Prefix is_close_error ns reader)
