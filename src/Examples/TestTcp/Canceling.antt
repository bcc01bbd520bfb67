-- ===== src/Examples/TestTcp/Canceling.antt =====
-- What the test of examples/testtcp/client/main.go finds of IsStoped, after it has canceled the
-- client's context.
use simple_message.Prelude.{
  if-holds, ◌≡◌, ◌≢◌, ◌⊎◌, refl, ap, ◌∙◌, true, List, [], ◌∷◌, map, arith, inr, ◌++◌,
}
use simple_message.Protocol.Wire.{All, All-append}
use simple_message.Client.Lifecycle.{Life, is_stoped, new_life, returned, ended}
use simple_message.Client.Lifecycle
use simple_message.Examples.TestTcp.{
  asks, TestedLife, ClientTest, ClientEvent, lives, cancels, started_client, test_client,
  act_client, run_client,
}
use simple_message.Client.Lifecycle.Ending.{IsClosing as IsLifeClosing, from_phase}

record IsStopping (x : TestedLife) : Type 0 where
  sound : Lifecycle.IsSound x.life
  begun : x.life.started ≡ true
  action : x.life.has_action ≡ true
  canceled_by : x.test ≢ ClientTest.sleeps → x.life.canceled ≡ true
  stopped : x.test ≡ ClientTest.passed → is_stoped x.life ≡ true

-- What no event of a started client undoes
record Lasts (l k : Life) : Type 0 where
  started : k.started ≡ true
  action : k.has_action ≡ l.has_action
  canceled : l.canceled ≡ true → k.canceled ≡ true
  stoped : is_stoped l ≡ true → is_stoped k ≡ true

act-Lasts : (e : Lifecycle.Event) (l : Life) → l.started ≡ true → Lasts l (Lifecycle.act e l)
unfolding Lifecycle.act Lifecycle.start Lifecycle.stop Lifecycle.step is_stoped
act-Lasts Lifecycle.starts l s = ground (arith, s)
act-Lasts (Lifecycle.connects n) l s = ground (arith, s)
act-Lasts _ l s = ground (arith, s)

lives-IsStopping :
    (e : Lifecycle.Event) (x : TestedLife)
    → IsStopping x
    → IsStopping (record x { life = Lifecycle.act e x.life })
lives-IsStopping e x i =
    let l = act-Lasts e x.life i.begun in
    record {
      sound = Lifecycle.act-IsSound e x.life i.sound;
      begun = l.started;
      action = l.action ∙ i.action;
      canceled_by = λ t. l.canceled (i.canceled_by t);
      stopped = λ t. l.stoped (i.stopped t);
    }

cancels-canceled :
    (l : Life) → l.started ≡ true → (Lifecycle.act Lifecycle.cancels l).canceled ≡ true
unfolding Lifecycle.act
cancels-canceled l s = ground (arith, s)

test-IsStopping :
    (e : ClientEvent) (t : ClientTest) (x : TestedLife)
    → x.test ≡ t
    → IsStopping x
    → IsStopping (test_client e t x)
unfolding test_client
test-IsStopping cancels ClientTest.sleeps x t i =
    let j = lives-IsStopping Lifecycle.cancels x i in
    record {
      sound = j.sound;
      begun = j.begun;
      action = j.action;
      canceled_by = λ n. cancels-canceled x.life i.begun;
      stopped = λ c. absurd (cc);
    }
test-IsStopping asks ClientTest.waits x t i =
    let c = i.canceled_by (λ s. cc) in
    if-holds IsStopping (is_stoped x.life)
      (λ s. record {
        sound = i.sound;
        begun = i.begun;
        action = i.action;
        canceled_by = λ n. c;
        stopped = λ p. s;
      })
      (λ s. record {
        sound = i.sound;
        begun = i.begun;
        action = i.action;
        canceled_by = λ n. c;
        stopped = λ p. absurd (cc);
      })
test-IsStopping _ _ x t i = i

act-IsStopping : (e : ClientEvent) (x : TestedLife) → IsStopping x → IsStopping (act_client e x)
unfolding act_client
act-IsStopping (lives e) x i = lives-IsStopping e x i
act-IsStopping cancels x i = test-IsStopping cancels x.test x refl i
act-IsStopping asks x i = test-IsStopping asks x.test x refl i

run-IsStopping :
    (es : List ClientEvent) (x : TestedLife) → IsStopping x → IsStopping (run_client es x)
unfolding run_client
run-IsStopping [] x i = i
run-IsStopping (e ∷ es) x i = run-IsStopping es (act_client e x) (act-IsStopping e x i)

start-IsSound : Lifecycle.IsSound (Lifecycle.start (new_life true))
unfolding Lifecycle.act
start-IsSound = Lifecycle.act-IsSound Lifecycle.starts (new_life true) (Lifecycle.new-IsSound true)

started-IsStopping : IsStopping started_client
unfolding started_client Lifecycle.start new_life
started-IsStopping = record {
  sound = start-IsSound;
  begun = refl;
  action = refl;
  canceled_by = λ n. absurd (n refl);
  stopped = λ p. absurd (cc);
}

-- The client's own actions, and the test
abbrev pub IsOwn : ClientEvent → Type 0
IsOwn (lives e) = IsLifeClosing e
IsOwn cancels = ⊥
IsOwn asks = Unit

lives-IsOwn : (es : List Lifecycle.Event) → All IsLifeClosing es → All IsOwn (map lives es)
lives-IsOwn [] a = tt
lives-IsOwn (e ∷ es) a = (a.0, lives-IsOwn es a.1)

run-lives :
    (es : List Lifecycle.Event) (fs : List ClientEvent) (x : TestedLife)
    → run_client (map lives es ++ fs) x
      ≡ run_client fs (record x { life = Lifecycle.run es x.life })
unfolding run_client act_client Lifecycle.run
run-lives [] fs x = refl
run-lives (e ∷ es) fs x = run-lives es fs (record x { life = Lifecycle.act e x.life })

passes :
    (x : TestedLife)
    → x.test ≡ ClientTest.waits
    → is_stoped x.life ≡ true
    → (run_client (asks ∷ []) x).test ≡ ClientTest.passed
unfolding run_client act_client test_client
passes x t s = ground (arith, t, s)

done-stoped :
    (l : Life) → Lifecycle.IsSound l → l.has_action ≡ true → l.done ≡ true → is_stoped l ≡ true
unfolding is_stoped
done-stoped l i a d = i.orderly (inr (i.closed d).0) a

can_pass :
    (x : TestedLife)
    → x.test ≡ ClientTest.waits
    → IsStopping x
    → (fs : List ClientEvent) × All IsOwn fs × ((run_client fs x).test ≡ ClientTest.passed)
can_pass x t i =
    let l = x.life in
    let (es, own, d, n) = from_phase l l.phase refl (i.canceled_by (λ s. cc)) i.begun i.sound in
    let k = Lifecycle.run es l in
    (
      map lives es ++ asks ∷ [],
      All-append IsOwn (map lives es) (asks ∷ []) (lives-IsOwn es own) (tt, tt),
      ap (λ y. y.test) (run-lives es (asks ∷ []) x)
          ∙ passes (record x { life = k }) t
              (done-stoped k (Lifecycle.run-IsSound es l i.sound)
                (Lifecycle.run-has_action es l ∙ i.action) d),
    )

-- In every run of examples/testtcp/client/main.go the test of IsStoped passes only if start has
-- returned, after the context was canceled; and while the test sleeps the client can always come to
-- where it passes, by its own actions, if the dial or the connection that it is in ends. How long that
-- takes is not bounded by the second that the test sleeps.
pub cancel_tested :
    (es : List ClientEvent)
    → let x = run_client es started_client in
      (x.test ≡ ClientTest.passed
        → (x.life.canceled ≡ true) × ((x.life.phase ≡ returned) ⊎ (x.life.phase ≡ ended)))
      × (x.test ≡ ClientTest.waits
          → (fs : List ClientEvent) × All IsOwn fs × ((run_client fs x).test ≡ ClientTest.passed))
unfolding is_stoped
cancel_tested es =
    let x = run_client es started_client in
    let i = run-IsStopping es started_client started-IsStopping in
    (λ p. i.sound.stoped_past (i.stopped p), λ t. can_pass x t i)
