-- ===== src/Examples/WebSocket/Conn/Reading.antt =====
-- What Read of examples/websocket/conn.go gives of the messages
use mathlib.Core.List.{flatten}
use simple_message.Prelude.{
  true, ◌⊎◌, ℕ, ◌≤◌, ◌≡◌, refl, sym, ap, ◌∙◌, Bool, false, List, [], ◌∷◌, ◌++◌, none, some, length,
  take, drop, ltb, arith, append_assoc, take-append-drop, length-take, drop_all, Option-cases, inl,
  inr, subst,
}
use simple_message.Errors.{Error, Result-cases, ok, err, eof}
use simple_message.Examples.WebSocket.Conn.{
  Incoming, message, failure, Conn, read_buffered, read_message, read, read_all,
}

-- Each piece within the buffer that it was read into
abbrev pub Within : List (List ℕ) → List ℕ → Type 0
Within [] ns = Unit
Within (b ∷ bs) [] = ⊥
Within (b ∷ bs) (n ∷ ns) = (length b ≤ n) × Within bs ns

-- The bytes that are still to be read before the next failure
unfoldable pub bytes_before_failure : List Incoming → List ℕ
bytes_before_failure [] = []
bytes_before_failure (message m ∷ rest) = m ++ bytes_before_failure rest
bytes_before_failure (failure e ∷ rest) = []

unfoldable pub pending : Conn → List ℕ
unfolding bytes_before_failure
pending w = w.read_buf ++ bytes_before_failure w.incoming

short_take : (n : ℕ) (m : List ℕ) → ltb (length (take n m)) (length m) ≡ false → drop n m ≡ []
short_take n m h = drop_all n m (ground (arith, length-take {0} n m))

length-take-le : (n : ℕ) (m : List ℕ) → length (take n m) ≤ n
length-take-le n m = omega (arith, length-take {0} n m)

-- What a read leaves, after bytes `b` of at most `n`
abbrev Yields : ℕ → Conn → List ℕ → Conn → Type 0
Yields n w b w' = (pending w ≡ b ++ pending w') × (length b ≤ n)

buffered-Yields :
    (n : ℕ) (w : Conn) (b : List ℕ) (w' : Conn)
    → read_buffered n w ≡ some (ok b, w')
    → Yields n w b w'
unfolding read_buffered pending
buffered-Yields n w b w' h = ground (
  arith,
  take-append-drop {0} n w.read_buf,
  length-take-le n w.read_buf,
  append_assoc {0} (take n w.read_buf) (drop n w.read_buf) (bytes_before_failure w.incoming),
)

-- The buffer is empty when ReadMessage is called.
unbuffered : (n : ℕ) (w : Conn) → read_buffered n w ≡ none → w.read_buf ≡ []
unfolding read_buffered
unbuffered n w h = ground arith

module _ (is_close_error : Error → Bool) where
  message-Yields :
      (n : ℕ) (incoming : List Incoming) (w : Conn) (b : List ℕ) (w' : Conn)
      → w.incoming ≡ incoming
      → w.read_buf ≡ []
      → read_message is_close_error n incoming w ≡ some (ok b, w')
      → Yields n w b w'
  unfolding read_message pending
  message-Yields n [] w b w' i e h = cc
  message-Yields n (failure x ∷ rest) w b w' i e h = ground arith
  message-Yields n (message m ∷ rest) w b w' i e h = ground (
    arith,
    take-append-drop {0} n m,
    length-take-le n m,
    short_take n m,
    append_assoc {0} (take n m) (drop n m) (bytes_before_failure rest),
  )

  read-Yields :
      (n : ℕ) (w : Conn) (b : List ℕ) (w' : Conn)
      → read is_close_error n w ≡ some (ok b, w')
      → Yields n w b w'
  unfolding read
  read-Yields n w b w' h = elim (Option-cases (read_buffered n w)) [
    | inl e ↦ message-Yields n w.incoming w b w' refl (unbuffered n w e) (ground (arith, e))
    | inr (r, e) ↦ buffered-Yields n w b w' (ground (arith, e))
  ]

  -- What reads gave is a beginning of `bytes`, each piece within its buffer.
  abbrev pub Prefix : List ℕ → List ℕ → List (List ℕ) → Type 0
  Prefix ns bytes pieces = (rest : List ℕ) × (bytes ≡ flatten pieces ++ rest) × Within pieces ns

  stopped : (ns : List ℕ) (w : Conn) (x : List (List ℕ)) → x ≡ [] → Prefix ns (pending w) x
  unfolding flatten
  stopped ns w x e =
      subst (Prefix ns (pending w)) (sym e)
        (let p : Prefix ns (pending w) [] = (pending w, refl, tt) in p)

  one_read :
      (n : ℕ) (ns : List ℕ) (w w' : Conn) (b : List ℕ)
      → read is_close_error n w ≡ some (ok b, w')
      → Prefix ns (pending w') (read_all is_close_error ns w').0
      → Prefix (n ∷ ns) (pending w) (read_all is_close_error (n ∷ ns) w).0
  unfolding flatten read_all
  one_read n ns w w' b e (rest, q, within) =
      let (yields, small) = read-Yields n w b w' e in
      rw (e, read_all)
        (
          rest,
          yields
              ∙ ap (◌++◌ b) q
              ∙ sym (append_assoc b (flatten (read_all is_close_error ns w').0) rest),
          (small, within),
        )

  -- Reads into buffers of any sizes give the bytes of the messages in order, with nothing lost,
  -- repeated or moved where one message ends and the next begins: what the successful reads gave is
  -- a beginning of the bytes before the next failure, and each piece is within its buffer.
  pub read_all-Prefix :
      (ns : List ℕ) (w : Conn) → Prefix ns (pending w) (read_all is_close_error ns w).0
  unfolding read_all
  read_all-Prefix [] w = stopped [] w [] refl
  read_all-Prefix (n ∷ ns) w = elim (Option-cases (read is_close_error n w)) [
    | inl e ↦ stopped (n ∷ ns) w (read_all is_close_error (n ∷ ns) w).0 (rw (e, read_all))
    | inr ((r, w'), e) ↦ elim (Result-cases r) [
      | inl (b, q) ↦ one_read n ns w w' b (e ∙ ap (λ x. some (x, w')) q) (read_all-Prefix ns w')
      | inr (inl (x, q)) ↦
          stopped (n ∷ ns) w (read_all is_close_error (n ∷ ns) w).0 (rw (e, read_all) (rw q))
      | inr (inr q) ↦
          stopped (n ∷ ns) w (read_all is_close_error (n ∷ ns) w).0 (rw (e, read_all) (rw q))
    ]
  ]

  buffered_again :
      (n m : ℕ) (w w' : Conn) (x : Error)
      → read_buffered n w ≡ some (err x, w')
      → read_buffered m w' ≡ some (err x, w')
  unfolding read_buffered
  buffered_again n m w w' x h = ground arith

  unclosed : (n : ℕ) (w : Conn) → read_buffered n w ≡ none → w.closed ≡ false
  unfolding read_buffered
  unclosed n w h = ground arith

  -- What a Read that failed with `x` leaves: every Read fails with the error that is kept.
  abbrev pub Failed : Error → Conn → Type 0
  Failed x w' =
      (y : Error) × ((x ≡ y) ⊎ ((x ≡ eof) × (is_close_error y ≡ true)))
      × ((m : ℕ) → read is_close_error m w' ≡ some (err y, w'))

  message-Failed :
      (n : ℕ) (incoming : List Incoming) (w w' : Conn) (x : Error)
      → w.closed ≡ false
      → read_message is_close_error n incoming w ≡ some (err x, w')
      → Failed x w'
  unfolding read_message read read_buffered
  message-Failed n [] w w' x c h = absurd (ground arith)
  message-Failed n (message b ∷ rest) w w' x c h = absurd (ground arith)
  message-Failed n (failure e ∷ rest) w w' x c h = (e, ground arith, λ m. ground arith)

  -- A Read that fails fails for good: every later Read, of any size, fails too, with the error that
  -- was kept and nothing changed. The first Read reports the same error, or io.EOF for one that is
  -- a normal closure.
  read_failure_kept :
      (n : ℕ) (w w' : Conn) (x : Error) → read is_close_error n w ≡ some (err x, w') → Failed x w'
  unfolding read
  read_failure_kept n w w' x h = elim (Option-cases (read_buffered n w)) [
    | inl e ↦ message-Failed n w.incoming w w' x (unclosed n w e) (ground (arith, e))
    | inr (r, e) ↦ (x, inl refl, λ m. rw (buffered_again n m w w' x (ground (arith, e)), read) refl)
  ]
