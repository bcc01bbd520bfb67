-- ===== src/Client/Lifecycle/Ending.antt =====
-- The goroutine of client/client.go comes to its end.
use simple_message.Prelude.{ℕ, ◌≡◌, ◌≢◌, refl, Bool, true, List, [], ◌∷◌, arith, ◌∙◌}
use simple_message.Protocol.Wire.{All}
use simple_message.Client.Lifecycle.{
  Phase, Life, new_life, Event, act, run, IsSound, run-IsSound, new-IsSound, resting, checking,
  dialing, sleeping, returned, ended, connected, tests, fails, hangs_up, wakes, closes,
}

-- The goroutine's own actions while it is not in dialAndRun, and the failure of a dial
abbrev pub IsQuiet : Event → Type 0
IsQuiet tests = Unit
IsQuiet fails = Unit
IsQuiet wakes = Unit
IsQuiet closes = Unit
IsQuiet _ = ⊥

-- These, and the end of its connection
abbrev pub IsClosing : Event → Type 0
IsClosing hangs_up = Unit
IsClosing e = IsQuiet e

-- `done` is closed by such events, and none of them is a dial.
abbrev pub EndsBy : (Event → Type 0) → Life → Type 0
EndsBy P c = (es : List Event) × All P es × ((run es c).done ≡ true) × ((run es c).dials ≡ c.dials)

abbrev pub Ends : Life → Type 0
Ends = EndsBy IsClosing

after :
    (P : Event → Type 0) (e : Event) (c : Life)
    → P e
    → (act e c).dials ≡ c.dials
    → EndsBy P (act e c)
    → EndsBy P c
unfolding run
after P e c own same (es, owns, d, n) = (e ∷ es, (own, owns), d, n ∙ same)

from_returned : (c : Life) → c.phase ≡ returned → EndsBy IsQuiet c
unfolding run
from_returned c p = (closes ∷ [], (tt, tt), ground arith, ground arith)

from_checking : (c : Life) → c.phase ≡ checking → c.canceled ≡ true → EndsBy IsQuiet c
unfolding act
from_checking c p d = after IsQuiet tests c tt (ground arith) (from_returned _ (ground arith))

from_sleeping : (c : Life) → c.phase ≡ sleeping → c.canceled ≡ true → EndsBy IsQuiet c
unfolding act
from_sleeping c p d =
    after IsQuiet wakes c tt (ground arith) (from_checking _ (ground arith) (ground arith))

-- Where there is no connection
pub ends_alone :
    (c : Life) (p : Phase)
    → c.phase ≡ p
    → ((j : ℕ) → p ≢ connected j)
    → c.canceled ≡ true
    → c.started ≡ true
    → IsSound c
    → EndsBy IsQuiet c
unfolding act run
ends_alone c resting e n d s i = absurd (i.begun s e)
ends_alone c checking e n d s i = from_checking c e d
ends_alone c dialing e n d s i =
    after IsQuiet fails c tt (ground arith) (from_sleeping _ (ground arith) (ground arith))
ends_alone c (connected j) e n d s i = absurd (n j refl)
ends_alone c sleeping e n d s i = from_sleeping c e d
ends_alone c returned e n d s i = from_returned c e
ends_alone c ended e n d s i = ([], tt, i.past e, refl)

quiet-IsClosing : (e : Event) → IsQuiet e → IsClosing e
quiet-IsClosing hangs_up q = tt
quiet-IsClosing _ q = q

quiet_all : (es : List Event) → All IsQuiet es → All IsClosing es
quiet_all [] a = tt
quiet_all (e ∷ es) a = (quiet-IsClosing e a.0, quiet_all es a.1)

closing_ends : (c : Life) → EndsBy IsQuiet c → Ends c
closing_ends c (es, quiet, d, n) = (es, quiet_all es quiet, d, n)

pub from_phase :
    (c : Life) (p : Phase) → c.phase ≡ p → c.canceled ≡ true → c.started ≡ true → IsSound c → Ends c
unfolding act
from_phase c (connected conn) e d s i =
    after IsClosing hangs_up c tt (ground arith)
      (closing_ends _ (from_sleeping _ (ground arith) (ground arith)))
from_phase c p e d s i = closing_ends c (ends_alone c p e (λ j f. cc) d s i)

-- A client that was started and whose context is canceled, by Stop or from outside, can always
-- come to close done, once the dial, the connection or the sleep that it is in ends, with no
-- further dial.
can_end :
    (action : Bool) (es : List Event)
    → (run es (new_life action)).started ≡ true
    → (run es (new_life action)).canceled ≡ true
    → Ends (run es (new_life action))
can_end action es s d =
    let c = run es (new_life action) in
    from_phase c c.phase refl d s (run-IsSound es (new_life action) (new-IsSound action))
