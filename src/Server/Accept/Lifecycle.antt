-- ===== src/Server/Accept/Lifecycle.antt =====
-- From Start to the closing of done.
use simple_message.Prelude.{
  Bool, if◌then◌else◌, ◌⊎◌, ℕ, zero, suc, ◌+◌, ◌*◌, ◌≤◌, ◌<◌, ◌≡◌, ◌≢◌, true, false, List, [], ◌∷◌,
  arith, ◌∙◌,
}
use native.Mathlib.Decide.{ℕ_discrete}
use simple_message.Protocol.Wire.{All}
use simple_message.Server.Accept.{
  Server, new_server, start, stop_server, watch, accept_conn, accept_error, refuse_conn, end_conn,
  finish, close_done, Event, starts, accept_fails, refuses, ends, finishes, closes, act, run,
}

-- stop has found the server running, and done is closed or is about to be.
abbrev pub final : Server → Bool
final s = if s.done then true else s.closing

pub final-done : (s : Server) → s.done ≡ true → final s ≡ true
final-done s d = ground (arith, d)

pub record IsSound (s : Server) : Type 0 where
  pub unstarted :
      s.started ≡ false
      → (s.running ≡ false)
        × (s.done ≡ false)
        × (s.closing ≡ false)
        × (s.accepting ≡ 0)
        × (s.rejecting ≡ 0)
        × (s.active ≡ 0)
        × (s.returned ≡ 0)
  pub begun : s.started ≡ true → (s.running ≡ true) ⊎ (s.closing ≡ true) ⊎ (s.done ≡ true)
  pub once : s.done ≡ true → (s.running ≡ false) × (s.closing ≡ false)
  pub stopping : s.closing ≡ true → (s.running ≡ false) × (s.done ≡ false)
  pub manned : s.started ≡ true → 1 ≤ s.accepting + s.rejecting + s.returned
  pub left : 1 ≤ s.returned → s.canceled ≡ true
  pub ended : final s ≡ true → (s.accepting ≡ 0) × (s.rejecting ≡ 0) × (s.active ≡ 0)
  pub calm : s.panicked ≡ false

pub act-IsSound : (e : Event) (s : Server) → IsSound s → IsSound (act e s)
unfolding act start stop_server watch accept_conn accept_error refuse_conn end_conn finish
    close_done
act-IsSound (starts n) s i = ground (arith, i)
act-IsSound _ s i = ground (arith, i)

pub run-IsSound : (es : List Event) (s : Server) → IsSound s → IsSound (run es s)
unfolding run
run-IsSound [] s i = i
run-IsSound (e ∷ es) s i = run-IsSound es (act e s) (act-IsSound e s i)

pub new-IsSound : (max : ℕ) → IsSound (new_server max)
unfolding new_server
new-IsSound max = ground arith

-- What no event undoes
pub act-started : (e : Event) (s : Server) → s.started ≡ true → (act e s).started ≡ true
unfolding act start stop_server watch accept_conn accept_error refuse_conn end_conn finish
    close_done
act-started (starts n) s h = ground (arith, h)
act-started _ s h = ground (arith, h)

pub act-done : (e : Event) (s : Server) → s.done ≡ true → (act e s).done ≡ true
unfolding act start stop_server watch accept_conn accept_error refuse_conn end_conn finish
    close_done
act-done (starts n) s h = ground (arith, h)
act-done _ s h = ground (arith, h)

pub done-canceled : (s : Server) → IsSound s → s.done ≡ true → s.canceled ≡ true
done-canceled s i d = ground (arith, i)

-- The events by which a server comes to an end once Accept fails
abbrev pub IsClosing : Event → Type 0
IsClosing accept_fails = Unit
IsClosing refuses = Unit
IsClosing ends = Unit
IsClosing finishes = Unit
IsClosing closes = Unit
IsClosing _ = ⊥

abbrev pub Ends : Server → Type 0
Ends s = (es : List Event) × All IsClosing es × ((run es s).done ≡ true)

after : (e : Event) (s : Server) → IsClosing e → Ends (act e s) → Ends s
unfolding run
after e s c (es, cs, d) = (e ∷ es, (c, cs), d)

-- Goroutines left: a refusal goes back to Accept.
abbrev pub left_over : Server → ℕ
left_over s = s.accepting + (2 * s.rejecting) + s.active

-- An event of a goroutine that is left makes it less, and keeps `started`.
abbrev pub Lessens : Event → Server → Type 0
Lessens e s = (left_over (act e s) < left_over s) × ((act e s).started ≡ s.started)

pub accept_fails-Lessens : (s : Server) → s.accepting ≢ 0 → Lessens accept_fails s
unfolding act accept_error
accept_fails-Lessens s h = ground arith

pub refuses-Lessens : (s : Server) → s.rejecting ≢ 0 → Lessens refuses s
unfolding act refuse_conn
refuses-Lessens s h = ground arith

ends-Lessens : (s : Server) → s.active ≢ 0 → Lessens ends s
unfolding act end_conn
ends-Lessens s h = ground arith

pub finishes-closes :
    (s : Server)
    → s.started ≡ true
    → IsSound s
    → s.accepting ≡ 0
    → s.rejecting ≡ 0
    → s.active ≡ 0
    → (act closes (act finishes s)).done ≡ true
unfolding act finish close_done
finishes-closes s st i a r c = ground (arith, i)

pub ends_from : (n : ℕ) (s : Server) → left_over s < n → s.started ≡ true → IsSound s → Ends s
unfolding run
ends_from zero s h st i = absurd (omega arith)
ends_from (suc n) s h st i =
    let go : (e : Event) → IsClosing e → Lessens e s → Ends s = λ e c l.
      after e s c (ends_from n (act e s) (omega (arith, l.0)) (l.1 ∙ st) (act-IsSound e s i)) in
    elim (ℕ_discrete s.accepting 0) [
      | no a ↦ go accept_fails tt (accept_fails-Lessens s a)
      | yes a ↦ elim (ℕ_discrete s.rejecting 0) [
        | no r ↦ go refuses tt (refuses-Lessens s r)
        | yes r ↦ elim (ℕ_discrete s.active 0) [
          | no c ↦ go ends tt (ends-Lessens s c)
          | yes c ↦ (finishes ∷ closes ∷ [], (tt, (tt, tt)), finishes-closes s st i a r c)
        ]
      ]
    ]

-- A server that was started can always come to close done, by goroutines that return from Accept
-- with an error, finish a refusal or end their connection: no goroutine waits for another for ever.
can_finish :
    (max : ℕ) (es : List Event)
    → (run es (new_server max)).started ≡ true
    → Ends (run es (new_server max))
can_finish max es st =
    let s = run es (new_server max) in
    ends_from (suc (left_over s)) s (omega arith) st
      (run-IsSound es (new_server max) (new-IsSound max))
