-- ===== src/Examples/TestTcp/Stopping.antt =====
-- What the test of examples/testtcp/server/main.go finds of Stop and IsRunning.
use simple_message.Prelude.{
  suc, if-holds, ◌≡◌, ◌≢◌, ◌⊎◌, refl, ap, ◌∙◌, true, false, List, [], ◌∷◌, map, arith, inl, inr,
  ◌++◌,
}
use simple_message.Protocol.Wire.{All, All-append}
use simple_message.Server.Accept.{new_server, start, stop_server}
use simple_message.Server.Accept
use simple_message.Server.Accept.Lifecycle.{
  final-done, IsClosing, IsSound as IsServing, act-IsSound as act-IsServing,
  new-IsSound as new-IsServing, run-IsSound as run-IsServing, act-started, act-done, ends_from,
  left_over,
}
use simple_message.Examples.TestTcp.{
  TestedServer, ServerTest, ServerEvent, serves, stops, receives, times_out, asks, started_server,
  test_server, act_server, run_server,
}

record IsTested (x : TestedServer) : Type 0 where
  sound : IsServing x.server
  begun : x.server.started ≡ true
  closed : (x.test ≡ ServerTest.examines) ⊎ (x.test ≡ ServerTest.passed) → x.server.done ≡ true
  not_found : x.test ≢ ServerTest.still_running

stop-IsServing : (s : Accept.Server) → IsServing s → IsServing (stop_server s)
unfolding Accept.act
stop-IsServing s i = act-IsServing Accept.stops s i

stop_server-started : (s : Accept.Server) → s.started ≡ true → (stop_server s).started ≡ true
unfolding stop_server
stop_server-started s h = ground (arith, h)

test-IsTested :
    (e : ServerEvent) (t : ServerTest) (x : TestedServer)
    → x.test ≡ t
    → IsTested x
    → IsTested (test_server e t x)
unfolding test_server
test-IsTested stops ServerTest.sleeps x t i = record {
  sound = stop-IsServing x.server i.sound;
  begun = stop_server-started x.server i.begun;
  closed = λ c. ground arith;
  not_found = λ c. cc;
}
test-IsTested receives ServerTest.selects x t i =
    if-holds IsTested x.server.done
      (λ d. record { sound = i.sound; begun = i.begun; closed = λ c. d; not_found = λ c. cc })
      (λ d. i)
test-IsTested times_out ServerTest.selects x t i = record {
  sound = i.sound;
  begun = i.begun;
  closed = λ c. ground arith;
  not_found = λ c. cc;
}
test-IsTested asks ServerTest.examines x t i =
    let d = i.closed (inl t) in
    if-holds IsTested x.server.running (λ r. absurd (ground (arith, i.sound, d, r)))
      (λ r. record { sound = i.sound; begun = i.begun; closed = λ c. d; not_found = λ c. cc })
test-IsTested _ _ x t i = i

act-IsTested : (e : ServerEvent) (x : TestedServer) → IsTested x → IsTested (act_server e x)
unfolding act_server
act-IsTested (serves e) x i = record {
  sound = act-IsServing e x.server i.sound;
  begun = act-started e x.server i.begun;
  closed = λ t. act-done e x.server (i.closed t);
  not_found = i.not_found;
}
act-IsTested stops x i = test-IsTested stops x.test x refl i
act-IsTested receives x i = test-IsTested receives x.test x refl i
act-IsTested times_out x i = test-IsTested times_out x.test x refl i
act-IsTested asks x i = test-IsTested asks x.test x refl i

run-IsTested : (es : List ServerEvent) (x : TestedServer) → IsTested x → IsTested (run_server es x)
unfolding run_server
run-IsTested [] x i = i
run-IsTested (e ∷ es) x i = run-IsTested es (act_server e x) (act-IsTested e x i)

start-IsServing : IsServing (start 16 (new_server 0))
unfolding Accept.act
start-IsServing = act-IsServing (Accept.starts 16) (new_server 0) (new-IsServing 0)

started-IsTested : IsTested started_server
unfolding started_server start new_server
started-IsTested = record {
  sound = start-IsServing;
  begun = refl;
  closed = λ c. ground arith;
  not_found = λ c. cc;
}

-- The server's goroutines that end, and what the test does behind its sleep
abbrev pub IsOwn : ServerEvent → Type 0
IsOwn (serves e) = IsClosing e
IsOwn receives = Unit
IsOwn asks = Unit
IsOwn _ = ⊥

serving-IsOwn : (es : List Accept.Event) → All IsClosing es → All IsOwn (map serves es)
serving-IsOwn [] a = tt
serving-IsOwn (e ∷ es) a = (a.0, serving-IsOwn es a.1)

run-serves :
    (es : List Accept.Event) (fs : List ServerEvent) (x : TestedServer)
    → run_server (map serves es ++ fs) x
      ≡ run_server fs (record x { server = Accept.run es x.server })
unfolding run_server act_server Accept.run
run-serves [] fs x = refl
run-serves (e ∷ es) fs x = run-serves es fs (record x { server = Accept.act e x.server })

passes :
    (x : TestedServer)
    → x.test ≡ ServerTest.selects
    → x.server.done ≡ true
    → IsServing x.server
    → (run_server (receives ∷ asks ∷ []) x).test ≡ ServerTest.passed
unfolding run_server act_server test_server
passes x t d i = ground (arith, t, d, i)

can_pass :
    (x : TestedServer)
    → x.test ≡ ServerTest.selects
    → IsTested x
    → (fs : List ServerEvent) × All IsOwn fs × ((run_server fs x).test ≡ ServerTest.passed)
can_pass x t i =
    let s = x.server in
    let (es, own, d) = ends_from (suc (left_over s)) s (omega arith) i.begun i.sound in
    let y : TestedServer = record x { server = Accept.run es s } in
    (
      map serves es ++ receives ∷ asks ∷ [],
      All-append IsOwn (map serves es) (receives ∷ asks ∷ []) (serving-IsOwn es own) (tt, (tt, tt)),
      ap (λ y. y.test) (run-serves es (receives ∷ asks ∷ []) x)
          ∙ passes y t d (run-IsServing es s i.sound),
    )

-- In every run of examples/testtcp/server/main.go the test of Stop, if it does not time out, finds the
-- server stopped: it never panics because IsRunning holds once done is closed; when it has passed,
-- every accept goroutine has returned and every connection has been subtracted from connCount; and
-- while it waits it can always come to pass, by goroutines that return from Accept with an error and
-- connections that end.
pub stop_tested :
    (es : List ServerEvent)
    → let x = run_server es started_server in
      (x.test ≢ ServerTest.still_running)
      × (x.test ≡ ServerTest.passed
          → (x.server.running ≡ false)
            × (x.server.accepting ≡ 0)
            × (x.server.rejecting ≡ 0)
            × (x.server.active ≡ 0))
      × (x.test ≡ ServerTest.selects
          → (fs : List ServerEvent) × All IsOwn fs × ((run_server fs x).test ≡ ServerTest.passed))
stop_tested es =
    let x = run_server es started_server in
    let i = run-IsTested es started_server started-IsTested in
    (
      i.not_found,
      λ p.
          let d = i.closed (inr p) in
          let (a, r, c) = i.sound.ended (final-done x.server d) in ((i.sound.once d).0, a, r, c),
      λ s. can_pass x s i,
    )
