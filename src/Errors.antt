-- ===== src/Errors.antt =====
-- The error values of the packages, and what a Go call may come to.
use simple_message.Prelude.{ℕ, ◌≡◌, refl, ◌⊎◌, inl, inr}

-- `nil` is not among them: a call that returns no error has the result `ok`.
pub data Error : Type 0 where
  -- connection.ErrIsClose, client.ErrIsClose
  is_close : Error
  -- connection.ErrKeyNotFound
  key_not_found : Error
  -- client.ErrConn
  conn_failed : Error
  -- protocol.ErrDataLength, wrapped with the limit
  data_length : ℕ → Error
  -- io.EOF and io.ErrUnexpectedEOF
  eof unexpected_eof : Error
  -- io.ErrClosedPipe, net.ErrClosed
  closed_pipe net_closed : Error
  -- context.Canceled, context.DeadlineExceeded
  canceled deadline_exceeded : Error
  -- an error of the environment: of a socket, of a handler
  other : ℕ → Error

-- A call returns a value, returns an error, or panics.
pub data Result {ℓ} (A : Type ℓ) : Type ℓ where
  ok : A → Result A
  err : Error → Result A
  panic : Result A

pub Result-cases {ℓ} :
    {A : Type ℓ} (r : Result A) → ((a : A) × (r ≡ ok a)) ⊎ ((e : Error) × (r ≡ err e)) ⊎ (r ≡ panic)
Result-cases (ok a) = inl (a, refl)
Result-cases (err e) = inr (inl (e, refl))
Result-cases panic = inr (inr refl)
