-- ===== src/Connection/Manager/Delivery/Wire.antt =====
-- What is on the wire: the buffers of the messages written, in the order of the channel.
use simple_message.Prelude.{
  ℕ, ◌≡◌, refl, true, List, [], ◌∷◌, ◌++◌, none, some, arith, append-nil, map, inl, inr, update,
}
use simple_message.Errors.{Result-cases}
use simple_message.Protocol.Decoder.{Message, marshal}
use simple_message.Protocol.Decoder.RoundTrip.{buffer_of, marshal_sent, marshal_torn}
use simple_message.Connection.MessageBody.{MessageBody, new_message_body}
use simple_message.Connection.State.{Manager, SendPc, choosing, holding}
use simple_message.Connection.Manager.{
  Case, conn_case, ctx_case, channel_case, call_send, select_send, step_send, leave_send, step_read,
  leave_read, panic_read, begin_stop, step_stop, close_connection,
}
use simple_message.Connection.Manager.Run.{Event, call, select, send, act}
use simple_message.Connection.Manager.Delivery.{
  Inv, count, count-append, count-order, held-unmarked, alive,
}

abbrev pub buffers : (ℕ → MessageBody) → List ℕ → List (List ℕ)
buffers bodies xs = map (λ i. buffer_of (bodies i).message) xs

-- `rest` was served and not written, `torn` is what failed Writes left: nothing while the sender is
-- alive.
pub record Split (h : Manager) (rest : List ℕ) (torn : List (List ℕ)) : Type 0 where
  pub written : h.served ≡ h.written ++ rest
  pub wire : h.writer.sent ≡ buffers h.bodies h.written ++ torn
  pub whole : alive h.send_pc ≡ true → rest ≡ []
  pub clean : alive h.send_pc ≡ true → torn ≡ []

abbrev pub Wire : Manager → Type 0
Wire h = (rest : List ℕ) × (torn : List (List ℕ)) × Split h rest torn

buffers-update :
    (f : ℕ → MessageBody) (i : ℕ) (b : MessageBody) (xs : List ℕ)
    → b.message ≡ (f i).message
    → buffers (update f i b) xs ≡ buffers f xs
buffers-update f i b [] e = refl
buffers-update f i b (x ∷ xs) e = ground (arith, buffers-update f i b xs e)

buffers-update_new :
    (f : ℕ → MessageBody) (i : ℕ) (b : MessageBody) (xs : List ℕ)
    → count i xs ≡ 0
    → buffers (update f i b) xs ≡ buffers f xs
unfolding count
buffers-update_new f i b [] e = refl
buffers-update_new f i b (x ∷ xs) e = ground (arith, buffers-update_new f i b xs)

buffers-append :
    (f : ℕ → MessageBody) (xs : List ℕ) (i : ℕ)
    → buffers f (xs ++ i ∷ []) ≡ buffers f xs ++ buffer_of (f i).message ∷ []
buffers-append f [] i = refl
buffers-append f (x ∷ xs) i = ground (arith, buffers-append f xs i)

-- One Marshal of the sender, by its result
holding-Wire :
    (h : Manager) (c : Case) (i : ℕ) → h.send_pc ≡ holding i → Inv h → Wire h → Wire (step_send c h)
unfolding step_send
holding-Wire h c i e v (rest, torn, s) =
    let m : Message = (h.bodies i).message in
    let (t, more) = marshal_torn h.decoder m h.writer in
    elim (Result-cases (marshal h.decoder m.msg_id m.msg_data h.writer).0) [
      | inl (u, r) ↦ (
        [],
        [],
        ground (
          arith,
          s,
          v.books,
          held-unmarked i h v e,
          more,
          marshal_sent h.decoder m h.writer r,
          buffers-update h.bodies i
              (record (h.bodies i) { error = none; acked = true; status = true })
              (h.written ++ i ∷ []) refl,
          buffers-append h.bodies h.written i,
          append-nil {0} h.written,
          append-nil {0} (h.written ++ i ∷ []),
          append-nil {0} (buffers h.bodies h.written),
          append-nil {0} (buffers h.bodies (h.written ++ i ∷ [])),
        ),
      )
      | inr (inl (d, r)) ↦ (
        i ∷ [],
        t,
        ground (
          arith,
          s,
          v.books,
          held-unmarked i h v e,
          more,
          buffers-update h.bodies i
              (record (h.bodies i) { error = some d; acked = true; status = true }) h.written refl,
          append-nil {0} h.written,
          append-nil {0} (buffers h.bodies h.written),
        ),
      )
      | inr (inr r) ↦ (
        i ∷ [],
        t,
        ground (
          arith,
          s,
          v.books,
          held-unmarked i h v e,
          more,
          buffers-update h.bodies i (record (h.bodies i) { status = true }) h.written refl,
          append-nil {0} h.written,
          append-nil {0} (buffers h.bodies h.written),
        ),
      )
    ]

step_send-Wire :
    (h : Manager) (c : Case) (p : SendPc) → h.send_pc ≡ p → Inv h → Wire h → Wire (step_send c h)
unfolding step_send
step_send-Wire h c (holding i) e v w = holding-Wire h c i e v w
step_send-Wire h channel_case choosing e v (rest, torn, s) = (rest, torn, ground (arith, s))
step_send-Wire h c _ e v (rest, torn, s) = (rest, torn, ground (arith, s))

call_send-Wire : (h : Manager) (i : ℕ) (m : Message) → Inv h → Wire h → Wire (call_send i m h)
unfolding call_send
call_send-Wire h i m v (rest, torn, s) = (
  rest,
  torn,
  ground (
    arith,
    s,
    v.each i,
    count-order i h v.books,
    count-append i h.written rest,
    buffers-update_new h.bodies i (new_message_body m) h.written,
  ),
)

pub act-Wire : (e : Event) (h : Manager) → Inv h → Wire h → Wire (act e h)
unfolding act select_send leave_send step_read panic_read leave_read begin_stop step_stop
    close_connection
act-Wire (call i m) h v w = call_send-Wire h i m v w
act-Wire (send c) h v w = step_send-Wire h c h.send_pc refl v w
act-Wire (select i conn_case) h v (rest, torn, s) = (rest, torn, ground (arith, s))
act-Wire (select i ctx_case) h v (rest, torn, s) = (rest, torn, ground (arith, s))
act-Wire (select i channel_case) h v (rest, torn, s) = (rest, torn, ground (arith, s))
act-Wire _ h v (rest, torn, s) = (rest, torn, ground (arith, s))
