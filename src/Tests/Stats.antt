-- ===== src/Tests/Stats.antt =====
-- Runs of stats/stats.go.
use simple_message.Prelude.{lookup, insert, ◌≡◌, refl, true, [], ◌∷◌}
use simple_message.Stats.{
  new_handler_stats, get_statistic, get_unknown_msg, get_or_create_statistic, add_success_bytes,
  write_statistic, add_failed_bytes, inc_unknown_msg,
}
use simple_message.Stats.Totals.{Call, totals}
use simple_message.Stats.Concurrent.{
  State, Reach, start, next, look_up, write, miss, get_statistic-totals,
}

add_bytes_failed :
    (get_statistic (add_failed_bytes (add_success_bytes new_handler_stats 7 5) 7 3) 7).failed_bytes
    ≡ 3
unfolding get_statistic add_failed_bytes add_success_bytes new_handler_stats lookup insert
add_bytes_failed = refl

unknown_counted : get_unknown_msg (inc_unknown_msg new_handler_stats) ≡ 1
unfolding get_unknown_msg inc_unknown_msg new_handler_stats
unknown_counted = refl

-- Two calls for one number, each with its pointer before either writes
abbrev first_call : Call
first_call = record { msg_id = 7; bytes = 5; success = true }

abbrev second_call : Call
second_call = record { msg_id = 7; bytes = 3; success = true }

abbrev both_found : State
both_found =
    let s = (get_or_create_statistic new_handler_stats 7).1 in
    record {
      stats = (get_or_create_statistic s 7).1;
      pending =
          ((get_or_create_statistic s 7).0, second_call)
          ∷ ((get_or_create_statistic new_handler_stats 7).0, first_call)
          ∷ [];
      log = [];
      misses = 0;
    }

both_found-Reach : Reach both_found
both_found-Reach = next (next start (look_up first_call)) (look_up second_call)

-- Both write, the second caller first, and one message is unknown.
abbrev both_done : State
both_done =
    let s =
      write_statistic both_found.stats
        (get_or_create_statistic (get_or_create_statistic new_handler_stats 7).1 7).0 3 true in
    let t = write_statistic s (get_or_create_statistic new_handler_stats 7).0 5 true in
    record {
      stats = inc_unknown_msg t;
      pending = [];
      log = first_call ∷ second_call ∷ [];
      misses = 1;
    }

both_done-Reach : Reach both_done
both_done-Reach =
    next
      (next (next both_found-Reach (write [] _ _ second_call refl)) (write [] [] _ first_call refl))
      miss

get_statistic-totals_example :
    (get_statistic both_done.stats 7 ≡ totals 7 (first_call ∷ second_call ∷ []))
    × (get_unknown_msg both_done.stats ≡ 1)
get_statistic-totals_example = get_statistic-totals both_done-Reach 7
