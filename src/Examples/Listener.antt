-- ===== src/Examples/Listener.antt =====
-- The listener over net.Listener, in examples/tcp_auth/server/main.go and in
-- examples/tcp/server/main.go: which results of Accept are returned, and which are tried again.
use simple_message.Prelude.{ℕ, List, [], ◌∷◌, ◌++◌, Option, none, some, ◌≡◌, refl, ◌∙◌}
use simple_message.Errors.{Error, Result, ok, err}
use simple_message.Protocol.Wire.{All}

-- What Accept of the net.Listener gives: a connection, an error that is net.ErrClosed, one that is
-- temporary, or another.
pub data Outcome : Type 0 where
  connection : ℕ → Outcome
  closed : Error → Outcome
  temporary : Error → Outcome
  broken : Error → Outcome

-- Accept of examples/tcp_auth: the result and the outcomes that are left; `none` is a call that has
-- not returned when the outcomes are used up.
unfoldable pub accept_auth : List Outcome → Option (Result ℕ × List Outcome)
accept_auth [] = none
accept_auth (connection c ∷ rest) = some (ok c, rest)
accept_auth (closed e ∷ rest) = some (err e, rest)
accept_auth (temporary e ∷ rest) = accept_auth rest
accept_auth (broken e ∷ rest) = some (err e, rest)

-- Accept of examples/tcp, where an error of any other kind falls through to the next round
unfoldable pub accept_tcp : List Outcome → Option (Result ℕ × List Outcome)
accept_tcp [] = none
accept_tcp (connection c ∷ rest) = some (ok c, rest)
accept_tcp (closed e ∷ rest) = some (err e, rest)
accept_tcp (temporary e ∷ rest) = accept_tcp rest
accept_tcp (broken e ∷ rest) = accept_tcp rest

abbrev pub IsTemporary : Outcome → Type 0
IsTemporary (temporary e) = Unit
IsTemporary _ = ⊥

abbrev pub IsFailure : Outcome → Type 0
IsFailure (temporary e) = Unit
IsFailure (broken e) = Unit
IsFailure _ = ⊥

after_temporary :
    (failures : List Outcome) (o : Outcome) (rest : List Outcome)
    → All IsTemporary failures
    → accept_auth (failures ++ o ∷ rest) ≡ accept_auth (o ∷ rest)
unfolding accept_auth
after_temporary [] o rest t = refl
after_temporary (temporary e ∷ failures) o rest t = after_temporary failures o rest t.1
after_temporary (connection c ∷ failures) o rest t = absurd t.0
after_temporary (closed e ∷ failures) o rest t = absurd t.0
after_temporary (broken e ∷ failures) o rest t = absurd t.0

tcp_retries :
    (failures outcomes : List Outcome)
    → All IsFailure failures
    → accept_tcp (failures ++ outcomes) ≡ accept_tcp outcomes
unfolding accept_tcp
tcp_retries [] outcomes f = refl
tcp_retries (temporary e ∷ failures) outcomes f = tcp_retries failures outcomes f.1
tcp_retries (broken e ∷ failures) outcomes f = tcp_retries failures outcomes f.1
tcp_retries (connection c ∷ failures) outcomes f = absurd f.0
tcp_retries (closed e ∷ failures) outcomes f = absurd f.0

temporary-IsFailure : (failures : List Outcome) → All IsTemporary failures → All IsFailure failures
temporary-IsFailure [] t = tt
temporary-IsFailure (temporary e ∷ failures) t = (tt, temporary-IsFailure failures t.1)
temporary-IsFailure (connection c ∷ failures) t = absurd t.0
temporary-IsFailure (closed e ∷ failures) t = absurd t.0
temporary-IsFailure (broken e ∷ failures) t = absurd t.0

-- After any number of temporary errors an error that is not temporary is returned by the listener of
-- examples/tcp_auth, while that of examples/tcp tries again on it, and on any further failures that
-- are not net.ErrClosed, as long as no connection comes.
listeners_differ :
    (failures more : List Outcome) (e : Error) (rest : List Outcome)
    → All IsTemporary failures
    → All IsFailure more
    → (accept_auth (failures ++ broken e ∷ rest) ≡ some (err e, rest))
      × (accept_tcp (failures ++ broken e ∷ (more ++ rest)) ≡ accept_tcp rest)
unfolding accept_auth accept_tcp
listeners_differ failures more e rest t m = (
  after_temporary failures (broken e) rest t,
  tcp_retries failures (broken e ∷ (more ++ rest)) (temporary-IsFailure failures t)
      ∙ tcp_retries more rest m,
)
