-- ===== src/Tests/Client.antt =====
-- Runs of package client.
use simple_message.Prelude.{
  map, lookup, remove, ℕ, ◌*◌, ◌≡◌, ◌⊎◌, ◌↔◌, ◌+◌, ◌%◌, ◌^◌, refl, true, false, List, [], ◌∷◌, none,
  some, nat_eq,
}
use simple_message.Protocol.Wire.{All}
use simple_message.Protocol.Decoder.{Message}
use simple_message.Connection.Request.{Handler}
use simple_message.Stats.{get_statistic, get_unknown_msg}
use simple_message.Stats.Totals.{totals}
use simple_message.Client.Dispatch.{
  Client, new_client, with_handlers, remove_handler, find_handler, run_handler, Command, add,
  drop_handler, receive, obey_all,
}
use simple_message.Client.Dispatch.Counting.{expect_all, handlers_of, obey_all-account}
use simple_message.Server.Dispatch
use simple_message.Client.Dispatch.Agreement.{same_dispatch}
use simple_message.Client.Dispatch.Interleaving
use simple_message.Client.Dispatch.Interleaving.{
  Shared, idle, finds, calls, removes, locked, linearizable,
}
use simple_message.Client.Dispatch.Interleaving.Removal.{found_runs}
use simple_message.Client.Lifecycle.{
  Event, starts, stops, tests, fails, connects, wakes, returned, ended, new_life, run, stop,
  is_stoped, stoped_iff,
}
use simple_message.Client.Pace.{
  dial_times, Spaced, Before, second, sleep_at_least, dial_times_paced,
}

-- A dial that fails, one that succeeds, and Stop while connected
abbrev stopped_late : List Event
stopped_late = starts ∷ tests ∷ fails ∷ wakes ∷ tests ∷ connects 5 ∷ stops ∷ []

stoped_iff_example :
    let c = run stopped_late (new_life true) in
    ((stop c).0 ≡ c.started)
    × ((c.done ≡ true) ↔ (c.phase ≡ ended))
    × ((is_stoped c ≡ true) ↔ ((c.phase ≡ returned) ⊎ (c.phase ≡ ended)))
    × ((is_stoped c ≡ false) ⊎ (c.canceled ≡ true))
stoped_iff_example = stoped_iff stopped_late

-- A dial that fails at once, a connection of three seconds, and a context that ends after four
dials_in_time :
    dial_times (some (4 + 4 * second)) 4 (0 ∷ 3 * second ∷ 0 ∷ []) ≡ 4 ∷ (4 + second) ∷ []
unfolding dial_times sleep_at_least
dials_in_time = refl

dial_times_paced_example :
    let ts = dial_times (some (5 * second)) 4 (0 ∷ 3 * second ∷ 0 ∷ []) in
    Spaced ts × All (Before (some (5 * second))) ts
dial_times_paced_example = dial_times_paced (some (5 * second)) 4 (0 ∷ 3 * second ∷ 0 ∷ [])

abbrev counts : Handler ℕ
counts r n = (none, n + 1)

abbrev message_of : ℕ → Message
message_of id = record { msg_id = id; msg_data = 1 ∷ [] }

abbrev added_and_removed : List (Command ℕ)
added_and_removed =
    receive (message_of 7)
    ∷ add 7 counts
    ∷ receive (message_of 7)
    ∷ drop_handler 7
    ∷ receive (message_of 7)
    ∷ []

abbrev fresh : Client ℕ
fresh = new_client []

obey_all-account_example :
    let (t, n) = obey_all 0 added_and_removed (fresh, 0) in
    let a =
      (expect_all 0 added_and_removed
        (handlers_of fresh, record { log = []; misses = 0; world = 0 })).1 in
    (n ≡ a.world)
    × ((id : ℕ) → get_statistic t.stats id ≡ totals id a.log)
    × (get_unknown_msg t.stats ≡ a.misses % 2 ^ 64)
unfolding new_client
obey_all-account_example = obey_all-account 0 fresh added_and_removed 0 refl

-- A client with a handler for 7, whose message finds it; RemoveHandler runs before the call.
abbrev with_seven : Client ℕ
with_seven = new_client (with_handlers (some ((7, counts) ∷ [])) ∷ [])

abbrev removed_between : List (Interleaving.Event ℕ)
removed_between = finds (message_of 7) ∷ removes 7 ∷ calls ∷ finds (message_of 7) ∷ []

linearizable_example :
    let s = Interleaving.run 0 removed_between (idle (with_seven, 0)) in
    (s.client, s.world)
    ≡ obey_all 0 (locked 0 removed_between (idle (with_seven, 0))) (with_seven, 0)
unfolding Interleaving.run Interleaving.act new_client with_handlers find_handler run_handler
    remove_handler lookup remove
linearizable_example = linearizable 0 with_seven 0 removed_between refl

found_runs_example :
    let s = idle (with_seven, 0) in
    let t =
      Interleaving.act 0 calls
        (Interleaving.run 0 (removes 7 ∷ []) (Interleaving.act 0 (finds (message_of 7)) s)) in
    (t.world ≡ 1) × (t.hand ≡ none)
unfolding new_client with_handlers find_handler lookup
found_runs_example =
    found_runs 0 (idle (with_seven, 0)) (message_of 7) counts (removes 7 ∷ []) refl refl (tt, tt)

abbrev one_handler : List (ℕ × Handler ℕ)
one_handler = (7, counts) ∷ []

same_dispatch_example :
    let ms = message_of 7 ∷ message_of 8 ∷ [] in
    let (s, v) =
      Dispatch.handle_msgs 0 ms
        (Dispatch.new_server (Dispatch.with_handlers one_handler ∷ []), 0) in
    let (c, u) =
      obey_all 0 (map receive ms) (new_client (with_handlers (some one_handler) ∷ []), 0) in
    (v ≡ u) × (c.stats ≡ s.stats)
same_dispatch_example = same_dispatch 0 one_handler (message_of 7 ∷ message_of 8 ∷ []) 0
