-- ===== src/Stats.antt =====
-- stats/stats.go: counters of handled messages, by message number.
pub mod Totals
pub mod Concurrent
use simple_message.Prelude.{
  ℕ, ◌+◌, ◌%◌, ◌^◌, Bool, true, false, List, [], none, some, if◌then◌else◌, lookup, insert, update,
  nat_eq,
}

-- An int64 counter is kept as its bit pattern, and wraps like a uint64.
abbrev pub u64_mod : ℕ
u64_mod = 2 ^ 64

pub record HandlerStatistic : Type 0 where
  pub msg_id : ℕ
  pub success_packet : ℕ
  pub success_bytes : ℕ
  pub failed_packet : ℕ
  pub failed_bytes : ℕ

-- The map holds pointers: `heap` is what they point to, and `next` the first unused address.
pub record HandlerStats : Type 0 where
  pub unknown_msg : ℕ
  pub statistic : List (ℕ × ℕ)
  pub heap : ℕ → HandlerStatistic
  pub next : ℕ

abbrev pub zero_statistic : ℕ → HandlerStatistic
zero_statistic id = record {
  msg_id = id;
  success_packet = 0;
  success_bytes = 0;
  failed_packet = 0;
  failed_bytes = 0;
}

unfoldable pub new_handler_stats : HandlerStats
new_handler_stats = record {
  unknown_msg = 0;
  statistic = [];
  heap = λ _. zero_statistic 0;
  next = 0;
}

-- A copy of the counters, all zero for a number with none
unfoldable pub get_statistic : HandlerStats → ℕ → HandlerStatistic
get_statistic s id = elim (lookup id s.statistic) [ none ↦ zero_statistic id | some p ↦ s.heap p ]

-- The pointer for a number, made and stored if there is none
unfoldable pub get_or_create_statistic : HandlerStats → ℕ → ℕ × HandlerStats
get_or_create_statistic s id = elim (lookup id s.statistic) [
  | some p ↦ (p, s)
  | none ↦ (
    s.next,
    record s {
      statistic = insert id s.next s.statistic;
      heap = update s.heap s.next (zero_statistic id);
      next = s.next + 1;
    },
  )
]

-- The part of AddBytes that holds the lock of one HandlerStatistic
unfoldable pub add_to : HandlerStatistic → ℕ → Bool → HandlerStatistic
add_to c bytes success =
    if success
    then record c {
      success_packet = (c.success_packet + 1) % u64_mod;
      success_bytes = (c.success_bytes + bytes) % u64_mod;
    }
    else record c {
      failed_packet = (c.failed_packet + 1) % u64_mod;
      failed_bytes = (c.failed_bytes + bytes) % u64_mod;
    }

unfoldable pub write_statistic : HandlerStats → ℕ → ℕ → Bool → HandlerStats
unfolding add_to
write_statistic s p bytes success = record s {
  heap = update s.heap p (add_to (s.heap p) bytes success);
}

unfoldable pub add_bytes : HandlerStats → ℕ → ℕ → Bool → HandlerStats
unfolding get_or_create_statistic write_statistic
add_bytes s id bytes success =
    let (p, t) = get_or_create_statistic s id in write_statistic t p bytes success

unfoldable pub add_success_bytes : HandlerStats → ℕ → ℕ → HandlerStats
unfolding add_bytes
add_success_bytes s id bytes = add_bytes s id bytes true

unfoldable pub add_failed_bytes : HandlerStats → ℕ → ℕ → HandlerStats
unfolding add_bytes
add_failed_bytes s id bytes = add_bytes s id bytes false

unfoldable pub get_unknown_msg : HandlerStats → ℕ
get_unknown_msg s = s.unknown_msg

unfoldable pub inc_unknown_msg : HandlerStats → HandlerStats
inc_unknown_msg s = record s { unknown_msg = (s.unknown_msg + 1) % u64_mod }
