-- ===== src/Connection/Manager/Reading.antt =====
-- What the goroutine of read has handled, at every moment of a run: connection/handler.go, read.
use simple_message.Prelude.{
  ℕ, ◌≤◌, ◌<◌, ◌≡◌, ◌≢◌, ◌⊎◌, refl, sym, ap, ◌∙◌, subst, Bool, true, false, List, [], ◌∷◌, ◌++◌,
  length, arith, append_assoc, append-nil, inl, inr,
}
use simple_message.Errors.{Result-cases, ok}
use simple_message.Protocol.Wire.{All-append, u32_mod, put_uint32, AreBytes, All}
use simple_message.Protocol.Stream.{Stream}
use simple_message.Protocol.Stream.View.{view}
use simple_message.Protocol.Decoder.{Message, Decoder, unmarshal}
use simple_message.Protocol.Decoder.RoundTrip.{frame, unmarshal-frame, AreBytes-split}
use simple_message.Connection.State.{Manager, ReadPc, reading, handling, new_handler_manager}
use simple_message.Connection.ReadLoop.{frames}
use simple_message.Connection.Manager.{
  Case, conn_case, ctx_case, channel_case, call_send, select_send, step_send, leave_send, step_read,
  leave_read, panic_read, begin_stop, step_stop, close_connection,
}
use simple_message.Connection.Manager.Run.{
  Event, select, send, read, exit_read, panics_read, break_read, act, run, run-keeps,
}

abbrev pub in_hand : ReadPc → List Message
in_hand (handling m) = m ∷ []
in_hand _ = []

-- Whether read goes on to call Unmarshal
abbrev reads_on : ReadPc → Bool
reads_on reading = true
reads_on (handling m) = true
reads_on _ = false

-- The messages that were given to handleMsg, the one that it has not returned from included
abbrev pub seen : Manager → List Message
seen h = h.handled ++ in_hand h.read_pc

-- A message that the reader can have got
abbrev pub Small : Decoder → Message → Type 0
Small d m = (length m.msg_data ≤ d.max_data_len) × (m.msg_id < u32_mod)

-- `rest` are the bytes behind the frames of what was seen. They are what the stream has still,
-- unless a Read failed on the closed socket.
record Progress (d : Decoder) (bytes : List ℕ) (h : Manager) (rest : List ℕ) : Type 0 where
  fixed : h.decoder ≡ d
  spelled : bytes ≡ frames (seen h) ++ rest
  ahead : reads_on h.read_pc ≡ true → ((view h.stream).bytes ≡ rest) ⊎ ((view h.stream).bytes ≡ [])
  left_over : AreBytes rest
  small : All (Small d) (seen h)

abbrev Reads : Decoder → List ℕ → Manager → Type 0
Reads d bytes h = (rest : List ℕ) × Progress d bytes h rest

-- What events of others leave alone
abbrev Unread : Manager → Manager → Type 0
Unread h h' =
    (h'.decoder ≡ h.decoder)
    × (h'.handled ≡ h.handled)
    × (h'.read_pc ≡ h.read_pc)
    × (h'.stream ≡ h.stream)

select-Unread : (i : ℕ) (c : Case) (h : Manager) → Unread h (select_send i c h)
unfolding select_send
select-Unread i conn_case h = ground arith
select-Unread i ctx_case h = ground arith
select-Unread i channel_case h = ground arith

send-Unread : (c : Case) (h : Manager) → Unread h (step_send c h)
unfolding step_send
send-Unread conn_case h = ground arith
send-Unread ctx_case h = ground arith
send-Unread channel_case h = ground arith

frames-append : (xs ys : List Message) → frames (xs ++ ys) ≡ frames xs ++ frames ys
frames-append [] ys = refl
frames-append (x ∷ xs) ys =
    ap (◌++◌ (frame x)) (frames-append xs ys) ∙ sym (append_assoc (frame x) (frames xs) (frames ys))

pub frame-ne-nil : (m : Message) (rest : List ℕ) → [] ≢ frame m ++ rest
unfolding frame put_uint32
frame-ne-nil m rest e = cc

seen-reading : (h : Manager) → h.read_pc ≡ reading → seen h ≡ h.handled
seen-reading h e = ap (λ q. h.handled ++ in_hand q) e ∙ append-nil h.handled

-- Unmarshal has read the frame of a message from what is left.
frame-Reads :
    (d : Decoder) (bytes : List ℕ) (h : Manager) (m : Message) (rest left : List ℕ) (s : Stream)
    → h.read_pc ≡ reading
    → Progress d bytes h rest
    → rest ≡ frame m ++ left
    → (view s).bytes ≡ left
    → Small d m
    → Progress d bytes (record h { stream = s; read_pc = handling m }) left
frame-Reads d bytes h m rest left s e p f v small =
    let before = seen-reading h e in
    record {
      fixed = p.fixed;
      spelled =
          p.spelled
          ∙ ap (λ ms. frames ms ++ rest) before
          ∙ ap (◌++◌ (frames h.handled)) f
          ∙ sym (append_assoc (frames h.handled) (frame m) left)
          ∙ ap (λ xs. (frames h.handled ++ xs) ++ left) (sym (append-nil (frame m)))
          ∙ ap (λ xs. xs ++ left) (sym (frames-append h.handled (m ∷ [])));
      ahead = λ _. inl v;
      left_over = (AreBytes-split (frame m) left (subst AreBytes f p.left_over)).1;
      small =
          All-append (Small d) h.handled (m ∷ []) (subst (All (Small d)) before p.small)
            (small, tt);
    }

unmarshal-Reads :
    (d : Decoder) (bytes : List ℕ) (h : Manager) (m : Message)
    → h.read_pc ≡ reading
    → (unmarshal h.decoder h.stream).0 ≡ ok m
    → Reads d bytes h
    → Reads d bytes (record h { stream = (unmarshal h.decoder h.stream).1; read_pc = handling m })
unmarshal-Reads d bytes h m e q (rest, p) =
    let left = (view (unmarshal h.decoder h.stream).1).bytes in
    elim (p.ahead (ap reads_on e)) [
      | inl a ↦
          let (f, short, id) =
            unmarshal-frame h.decoder h.stream m (subst AreBytes (sym a) p.left_over) q in
          (
            left,
            frame-Reads d bytes h m rest left (unmarshal h.decoder h.stream).1 e p (sym a ∙ f) refl
                (subst (λ x. Small x m) p.fixed (short, id)),
          )
      | inr a ↦
          let (f, _, _) = unmarshal-frame h.decoder h.stream m (subst AreBytes (sym a) tt) q in
          absurd (frame-ne-nil m left (sym a ∙ f))
    ]

-- The same messages, and a stream that is not read again or has failed
quiet-Reads :
    (d : Decoder) (bytes : List ℕ) (h h' : Manager)
    → h'.decoder ≡ h.decoder
    → seen h' ≡ seen h
    → (reads_on h'.read_pc ≡ true
        → (reads_on h.read_pc ≡ true) × ((h'.stream ≡ h.stream) ⊎ ((view h'.stream).bytes ≡ [])))
    → Reads d bytes h
    → Reads d bytes h'
quiet-Reads d bytes h h' a same on (rest, p) = (
  rest,
  record {
    fixed = a ∙ p.fixed;
    spelled = p.spelled ∙ ap (λ ms. frames ms ++ rest) (sym same);
    ahead = λ r. elim (on r).1 [ inl e ↦ rw e (p.ahead (on r).0) | inr e ↦ inr e ];
    left_over = p.left_over;
    small = subst (All (Small d)) (sym same) p.small;
  },
)

-- One action of read
step_read-Reads :
    (d : Decoder) (bytes : List ℕ) (h : Manager) (p : ReadPc)
    → h.read_pc ≡ p
    → Reads d bytes h
    → Reads d bytes (step_read h)
unfolding step_read
step_read-Reads d bytes h reading e r = elim (Result-cases (unmarshal h.decoder h.stream).0) [
  | inl (m, q) ↦ rw (e, step_read, q) (unmarshal-Reads d bytes h m e q r)
  | inr (inl (x, q)) ↦
      quiet-Reads d bytes h (step_read h) (ground arith) (ground arith) (λ z. ground arith) r
  | inr (inr q) ↦
      quiet-Reads d bytes h (step_read h) (ground arith) (ground arith) (λ z. ground arith) r
]
step_read-Reads d bytes h (handling m) e r =
    quiet-Reads d bytes h (step_read h) (ground arith)
      (ground (arith, append-nil {0} (h.handled ++ m ∷ []))) (λ z. ground arith) r
step_read-Reads d bytes h ReadPc.leaving e r =
    quiet-Reads d bytes h (step_read h) (ground arith) (ground arith) (λ z. ground arith) r
step_read-Reads d bytes h ReadPc.gone e r =
    quiet-Reads d bytes h (step_read h) (ground arith) (ground arith) (λ z. ground arith) r

panic_read-Reads :
    (d : Decoder) (bytes : List ℕ) (h : Manager) (p : ReadPc)
    → h.read_pc ≡ p
    → Reads d bytes h
    → Reads d bytes (panic_read h)
unfolding panic_read
panic_read-Reads d bytes h (handling m) e r =
    quiet-Reads d bytes h (panic_read h) (ground arith)
      (ground (arith, append-nil {0} (h.handled ++ m ∷ []))) (λ z. ground arith) r
panic_read-Reads d bytes h _ e r =
    quiet-Reads d bytes h (panic_read h) (ground arith) (ground arith) (λ z. ground arith) r

unread-Reads :
    (d : Decoder) (bytes : List ℕ) (h h' : Manager)
    → Unread h h'
    → Reads d bytes h
    → Reads d bytes h'
unread-Reads d bytes h h' (a, b, c, e) r =
    quiet-Reads d bytes h h' a
      (ap (λ xs. xs ++ in_hand h'.read_pc) b ∙ ap (λ q. h.handled ++ in_hand q) c)
      (λ z. (sym (ap reads_on c) ∙ z, inl e)) r

act-Reads :
    (d : Decoder) (bytes : List ℕ) (e : Event) (h : Manager)
    → Reads d bytes h
    → Reads d bytes (act e h)
unfolding act call_send leave_send leave_read begin_stop step_stop close_connection view
act-Reads d bytes (select i c) h r =
    unread-Reads d bytes h (select_send i c h) (select-Unread i c h) r
act-Reads d bytes (send c) h r = unread-Reads d bytes h (step_send c h) (send-Unread c h) r
act-Reads d bytes read h r = step_read-Reads d bytes h h.read_pc refl r
act-Reads d bytes panics_read h r = panic_read-Reads d bytes h h.read_pc refl r
act-Reads d bytes exit_read h r =
    quiet-Reads d bytes h (leave_read h) (ground arith) (ground arith) (λ z. ground arith) r
act-Reads d bytes (break_read e) h r =
    quiet-Reads d bytes h (act (break_read e) h) (ground arith) (ground arith) (λ z. ground arith) r
act-Reads d bytes e h r = unread-Reads d bytes h (act e h) (ground arith) r

-- In every run, with any senders, stops and failures beside it: what handleMsg was given are the
-- messages of the frames at the beginning of the bytes before the first failure, each once and in
-- order, the last one perhaps still being handled; no message's data is above the limit, and the
-- numbers are uint32s.
pub run_reads :
    (d : Decoder) (s : Stream) (es : List Event)
    → AreBytes (view s).bytes
    → let h = run es (new_handler_manager d s) in
      (rest : List ℕ) × ((view s).bytes ≡ frames (h.handled ++ in_hand h.read_pc) ++ rest)
      × All (Small d) (h.handled ++ in_hand h.read_pc)
unfolding new_handler_manager
run_reads d s es b =
    let new : Reads d (view s).bytes (new_handler_manager d s) = (
      (view s).bytes,
      record { fixed = refl; spelled = refl; ahead = λ _. inl refl; left_over = b; small = tt },
    ) in
    let (rest, p) =
      run-keeps (Reads d (view s).bytes) (act-Reads d (view s).bytes) es (new_handler_manager d s)
        new in
    (rest, p.spelled, p.small)
