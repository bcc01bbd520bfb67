-- ===== src/Client/Pace.antt =====
-- client/client.go, SleepAtLeast and the loop of start: when a client dials. Times are in
-- nanoseconds of the monotonic clock.
use simple_message.Prelude.{
  ℕ, ◌+◌, ◌-◌, ◌≤◌, ◌<◌, ◌≡◌, refl, Bool, false, List, [], ◌∷◌, Option, none, some, if◌then◌else◌,
  leb, ltb, arith, min, Bool-cases, inl, inr,
}
use simple_message.Protocol.Wire.{All}

abbrev pub second : ℕ
second = 1_000_000_000

-- When the context is done: never, or from a time on.
abbrev pub is_done : Option ℕ → ℕ → Bool
is_done none now = false
is_done (some t) now = leb t now

-- `<-ctx.Done()` of a context with a timeout: the time at which it returns
wait_done : Option ℕ → ℕ → ℕ → ℕ
wait_done none now timeout = now + timeout
wait_done (some t) now timeout = if leb t now then now else min t (now + timeout)

-- SleepAtLeast at the time `now`: the time at which it returns. A start that is later, which a
-- monotonic clock rules out, is not slept for.
unfoldable pub sleep_at_least : Option ℕ → ℕ → ℕ → ℕ → ℕ
unfolding wait_done
sleep_at_least ctx now start at_least =
    let elapsed = now - start in
    if ltb now start
    then now
    else if leb at_least elapsed
    then now
    else wait_done ctx now (at_least - elapsed)

-- The loop of start from the time `now` on, where the dials take the times of the list: the times
-- at which it dials, up to the end of the list or the first test at which the context is done. The
-- test, the clock's reading as dialStartAt, and the dial are taken to be at one time.
unfoldable pub dial_times : Option ℕ → ℕ → List ℕ → List ℕ
unfolding sleep_at_least
dial_times ctx now [] = []
dial_times ctx now (cost ∷ costs) =
    let rest = dial_times ctx (sleep_at_least ctx (now + cost) now second) costs in
    if is_done ctx now then [] else now ∷ rest

-- A list of times each of which is a second or more after the one before
abbrev pub Spaced : List ℕ → Type 0
Spaced [] = Unit
Spaced (t ∷ []) = Unit
Spaced (t ∷ u ∷ ts) = (t + second ≤ u) × Spaced (u ∷ ts)

abbrev pub Before : Option ℕ → ℕ → Type 0
Before none t = Unit
Before (some c) t = t < c

-- SleepAtLeast returns a second or more after the start, or when the context is done.
sleep_over :
    (ctx : Option ℕ) (now start : ℕ)
    → start ≤ now
    → is_done ctx (sleep_at_least ctx now start second) ≡ false
    → start + second ≤ sleep_at_least ctx now start second
unfolding sleep_at_least
sleep_over none now start h d = ground arith
sleep_over (some c) now start h d = ground arith

dial_times-head :
    (ctx : Option ℕ) (now : ℕ) (costs : List ℕ) (t : ℕ) (ts : List ℕ)
    → dial_times ctx now costs ≡ t ∷ ts
    → (t ≡ now) × (is_done ctx now ≡ false)
unfolding dial_times
dial_times-head ctx now [] t ts e = cc
dial_times-head ctx now (cost ∷ costs) t ts e = ground arith

dial_times-Spaced : (ctx : Option ℕ) (now : ℕ) (costs : List ℕ) → Spaced (dial_times ctx now costs)
unfolding dial_times
dial_times-Spaced ctx now [] = tt
dial_times-Spaced ctx now (cost ∷ costs) =
    let later : ℕ = sleep_at_least ctx (now + cost) now second in
    elim (Bool-cases (is_done ctx now)) [
      | inl done ↦ rw done tt
      | inr more ↦ rw more (
          prepend now (dial_times ctx later costs) (dial_times-Spaced ctx later costs) λ t ts e.
            let (at, open_) = dial_times-head ctx later costs t ts e in
            omega (arith, at, sleep_over ctx (now + cost) now (omega arith) open_))
    ]
  where
    prepend :
        (n : ℕ) (xs : List ℕ)
        → Spaced xs
        → ((t : ℕ) (ts : List ℕ) → xs ≡ t ∷ ts → n + second ≤ t)
        → Spaced (n ∷ xs)
    prepend n [] s f = tt
    prepend n (x ∷ xs) s f = (f x xs refl, s)

dial_times-Before :
    (ctx : Option ℕ) (now : ℕ) (costs : List ℕ) → All (Before ctx) (dial_times ctx now costs)
unfolding dial_times
dial_times-Before ctx now [] = tt
dial_times-Before none now (cost ∷ costs) = (tt, dial_times-Before none _ costs)
dial_times-Before (some c) now (cost ∷ costs) =
    let ih = dial_times-Before (some c) (sleep_at_least (some c) (now + cost) now second) costs in
    elim (Bool-cases (leb c now)) [ inl done ↦ rw done tt | inr more ↦ rw more (ground arith, ih) ]

-- However long its dials and connections take, a client never dials twice within a second, and it
-- dials only before its context is done, where a dial has the time of the test before it.
pub dial_times_paced :
    (ctx : Option ℕ) (now : ℕ) (costs : List ℕ)
    → Spaced (dial_times ctx now costs) × All (Before ctx) (dial_times ctx now costs)
dial_times_paced ctx now costs = (dial_times-Spaced ctx now costs, dial_times-Before ctx now costs)
