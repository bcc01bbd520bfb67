-- ===== src/Client/Lifecycle.antt =====
-- client/client.go: Start, Stop, IsStoped, start and dialAndRun, as one goroutine and its users. An
-- event is one atomic action; a run is any list of events.
pub mod Ending
use simple_message.Prelude.{
  inl, inr, Bool-cases, ℕ, suc, ◌≡◌, ◌≢◌, ◌⊎◌, ◌↔◌, refl, Bool, true, false, List, [], ◌∷◌, Option,
  none, some, if◌then◌else◌, arith, ◌∙◌,
}

-- Where the goroutine of Start stands: not begun, at the test of the loop in start, in
-- DialContext, waiting for a connection to end, in SleepAtLeast, past start, or ended.
pub data Phase : Type 0 where
  resting checking dialing sleeping returned ended : Phase
  connected : ℕ → Phase

-- `has_action` is whether the action is set, `started` that of startOnce, and so whether cancel and
-- done are set; `dials` counts the calls of DialContext.
pub record Life : Type 0 where
  pub has_action : Bool
  pub started : Bool
  pub canceled : Bool
  pub done : Bool
  pub stoped : Bool
  pub conn_pointer : Option ℕ
  pub phase : Phase
  pub dials : ℕ

unfoldable pub new_life : Bool → Life
new_life action = record {
  has_action = action;
  started = false;
  canceled = false;
  done = false;
  stoped = false;
  conn_pointer = none;
  phase = resting;
  dials = 0;
}

unfoldable pub start : Life → Life
start c = if c.started then c else record c { started = true; stoped = false; phase = checking }

-- The context is canceled if there is one; the result is whether there is a done to wait for.
unfoldable pub stop : Life → Bool × Life
stop c = if c.started then (true, record c { canceled = true }) else (false, c)

unfoldable pub is_stoped : Life → Bool
is_stoped c = c.stoped

-- The head of the loop in start
test_loop : Life → Life
test_loop c =
    if c.has_action
    then if c.canceled
      then record c { stoped = true; phase = returned }
      else record c { phase = dialing; dials = suc c.dials }
    else record c { phase = returned }

pub data Event : Type 0 where
  starts stops cancels : Event
  -- the goroutine: the head of the loop, the result of DialContext, the end of the connection, the
  -- end of SleepAtLeast, the deferred close of done after start
  tests fails hangs_up wakes closes : Event
  connects : ℕ → Event

-- The goroutine's next action; an event that does not fit where it stands changes nothing.
unfoldable pub step : Event → Phase → Life → Life
unfolding test_loop
step tests checking c = test_loop c
step fails dialing c = record c { phase = sleeping }
step (connects conn) dialing c = record c { conn_pointer = some conn; phase = connected conn }
step hangs_up (connected conn) c = record c { phase = sleeping }
step wakes sleeping c = record c { phase = checking }
step closes returned c = record c { canceled = true; done = true; phase = ended }
step _ _ c = c

unfoldable pub act : Event → Life → Life
unfolding start stop step
act starts c = start c
act stops c = (stop c).1
act cancels c = if c.started then record c { canceled = true } else c
act e c = step e c.phase c

unfoldable pub run : List Event → Life → Life
unfolding act
run [] c = c
run (e ∷ es) c = run es (act e c)

pub record IsSound (c : Life) : Type 0 where
  pub resting_iff : c.started ≡ false → (c.phase ≡ resting) × (c.done ≡ false) × (c.stoped ≡ false)
  pub begun : c.started ≡ true → c.phase ≢ resting
  pub closed : c.done ≡ true → (c.phase ≡ ended) × (c.canceled ≡ true)
  pub past : c.phase ≡ ended → c.done ≡ true
  pub stoped_past :
      c.stoped ≡ true → (c.canceled ≡ true) × ((c.phase ≡ returned) ⊎ (c.phase ≡ ended))
  pub idle : c.has_action ≡ false → (c.dials ≡ 0) × (c.conn_pointer ≡ none)
  pub orderly : (c.phase ≡ returned) ⊎ (c.phase ≡ ended) → c.has_action ≡ true → c.stoped ≡ true
  pub undialed : c.has_action ≡ false → c.phase ≢ dialing

pub act-IsSound : (e : Event) (c : Life) → IsSound c → IsSound (act e c)
unfolding act
act-IsSound starts c i = ground (arith, i)
act-IsSound (connects conn) c i = ground (arith, i)
act-IsSound _ c i = ground (arith, i)

pub run-IsSound : (es : List Event) (c : Life) → IsSound c → IsSound (run es c)
unfolding run
run-IsSound [] c i = i
run-IsSound (e ∷ es) c i = run-IsSound es (act e c) (act-IsSound e c i)

pub new-IsSound : (action : Bool) → IsSound (new_life action)
unfolding new_life
new-IsSound action = ground arith

act-has_action : (e : Event) (c : Life) → (act e c).has_action ≡ c.has_action
unfolding act
act-has_action starts c = ground arith
act-has_action (connects conn) c = ground arith
act-has_action _ c = ground arith

pub run-has_action : (es : List Event) (c : Life) → (run es c).has_action ≡ c.has_action
unfolding run
run-has_action [] c = refl
run-has_action (e ∷ es) c = run-has_action es (act e c) ∙ act-has_action e c

-- In every run of a client with an action: Stop gives the done channel exactly if the client was
-- started; done is closed exactly when the goroutine has ended; IsStoped holds exactly from the
-- return of start on, and only after the context was canceled.
pub stoped_iff :
    (es : List Event)
    → let c = run es (new_life true) in
      ((stop c).0 ≡ c.started)
      × ((c.done ≡ true) ↔ (c.phase ≡ ended))
      × ((is_stoped c ≡ true) ↔ ((c.phase ≡ returned) ⊎ (c.phase ≡ ended)))
      × ((is_stoped c ≡ false) ⊎ (c.canceled ≡ true))
unfolding stop is_stoped new_life
stoped_iff es =
    let c = run es (new_life true) in
    let i = run-IsSound es (new_life true) (new-IsSound true) in
    (
      ground arith,
      ((λ d. (i.closed d).0), i.past),
      ((λ s. (i.stoped_past s).1), (λ p. i.orderly p (run-has_action es (new_life true)))),
      elim (Bool-cases c.stoped) [ inl s ↦ inr (i.stoped_past s).0 | inr s ↦ inl s ],
    )

-- A client without an action never dials and is never connected.
pub no_action_idle :
    (es : List Event) → let c = run es (new_life false) in (c.dials ≡ 0) × (c.conn_pointer ≡ none)
unfolding new_life
no_action_idle es =
    (run-IsSound es (new_life false) (new-IsSound false)).idle (run-has_action es (new_life false))
