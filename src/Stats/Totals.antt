-- ===== src/Stats/Totals.antt =====
-- What the counters are to hold: totals over a log of calls.
use simple_message.Prelude.{
  ℕ, ◌+◌, ◌%◌, ◌≡◌, Bool, true, false, List, [], ◌∷◌, if◌then◌else◌, ◌==◌, ◌&&◌, not, arith, refl,
}
use simple_message.Stats.{HandlerStatistic, u64_mod, add_to, zero_statistic}

-- A call of AddBytes
pub record Call : Type 0 where
  pub msg_id : ℕ
  pub bytes : ℕ
  pub success : Bool

abbrev same : Bool → Bool → Bool
same true b = b
same false b = not b

-- How many calls of the log are for a number and a result, and their bytes together
unfoldable pub packets : ℕ → Bool → List Call → ℕ
packets id ok [] = 0
packets id ok (c ∷ log) = (if c.msg_id == id && same ok c.success then 1 else 0) + packets id ok log

unfoldable pub bytes_of : ℕ → Bool → List Call → ℕ
bytes_of id ok [] = 0
bytes_of id ok (c ∷ log) =
    (if c.msg_id == id && same ok c.success then c.bytes else 0) + bytes_of id ok log

unfoldable pub totals : ℕ → List Call → HandlerStatistic
totals id log = record {
  msg_id = id;
  success_packet = packets id true log % u64_mod;
  success_bytes = bytes_of id true log % u64_mod;
  failed_packet = packets id false log % u64_mod;
  failed_bytes = bytes_of id false log % u64_mod;
}

pub totals_empty : (id : ℕ) → totals id [] ≡ zero_statistic id
unfolding totals packets bytes_of
totals_empty id = refl

pub totals_cons :
    (id : ℕ) (c : Call) (log : List Call)
    → totals id (c ∷ log)
      ≡ (if c.msg_id == id then add_to (totals id log) c.bytes c.success else totals id log)
unfolding totals packets bytes_of add_to
totals_cons id c log = ground arith
