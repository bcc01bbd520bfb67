-- ===== src/Stats/Concurrent.antt =====
-- AddBytes and IncUnknownMsg called by any number of goroutines: each call of AddBytes takes the
-- lock of the map, then that of one counter, and others may come between.
use simple_message.Prelude.{
  ℕ, suc, ◌%◌, ◌<◌, ◌≡◌, refl, List, [], ◌∷◌, ◌++◌, none, some, lookup, insert, lookup-insert,
  nat_eq, arith, Option-cases, inl, inr, subst,
}
use simple_message.Protocol.Wire.{All}
use simple_message.Stats.{
  HandlerStats, new_handler_stats, get_statistic, get_or_create_statistic, write_statistic,
  inc_unknown_msg, u64_mod, get_unknown_msg,
}
use simple_message.Stats.Totals.{Call, totals, totals_cons, totals_empty}

-- The statistics, the calls that have their pointer and not yet written, and, for the statements,
-- the calls that have returned, the last one first, and the number of unknown messages.
pub record State : Type 0 where
  pub stats : HandlerStats
  pub pending : List (ℕ × Call)
  pub log : List Call
  pub misses : ℕ

abbrev pub initial : State
initial = record { stats = new_handler_stats; pending = []; log = []; misses = 0 }

pub data Step (s : State) : State → Type 0 where
  look_up :
      (c : Call)
      → Step s (record s {
        stats = (get_or_create_statistic s.stats c.msg_id).1;
        pending = ((get_or_create_statistic s.stats c.msg_id).0, c) ∷ s.pending;
      })
  write :
      (before after : List (ℕ × Call)) (p : ℕ) (c : Call)
      → s.pending ≡ before ++ (p, c) ∷ after
      → Step s (record s {
        stats = write_statistic s.stats p c.bytes c.success;
        pending = before ++ after;
        log = c ∷ s.log;
      })
  miss : Step s (record s { stats = inc_unknown_msg s.stats; misses = suc s.misses })

pub data Reach : State → Type 0 where
  start : Reach initial
  next : {s t : State} → Reach s → Step s t → Reach t

abbrev Holds : List (ℕ × ℕ) → ℕ × Call → Type 0
Holds m (p, c) = lookup c.msg_id m ≡ some p

record Inv (s : State) : Type 0 where
  bound : (id p : ℕ) → lookup id s.stats.statistic ≡ some p → p < s.stats.next
  owner : (id p : ℕ) → lookup id s.stats.statistic ≡ some p → (s.stats.heap p).msg_id ≡ id
  agrees : (id : ℕ) → get_statistic s.stats id ≡ totals id s.log
  held : All (Holds s.stats.statistic) s.pending
  counted : s.stats.unknown_msg ≡ s.misses % u64_mod

All-middle :
    (m : List (ℕ × ℕ)) (xs ys : List (ℕ × Call)) (p : ℕ × Call)
    → All (Holds m) (xs ++ p ∷ ys)
    → Holds m p × All (Holds m) (xs ++ ys)
All-middle m [] ys p h = h
All-middle m (x ∷ xs) ys p h = let (a, b) = All-middle m xs ys p h.1 in (a, (h.0, b))

-- A new pointer leaves those of the other numbers.
All-insert :
    (m : List (ℕ × ℕ)) (id q : ℕ) (xs : List (ℕ × Call))
    → lookup id m ≡ none
    → All (Holds m) xs
    → All (Holds (insert id q m)) xs
All-insert m id q [] e h = tt
All-insert m id q ((p, c) ∷ xs) e h =
    (ground (arith, lookup-insert id c.msg_id q m), All-insert m id q xs e h.1)

write-Inv :
    (s : State) (before after : List (ℕ × Call)) (p : ℕ) (c : Call)
    → Inv s
    → s.pending ≡ before ++ (p, c) ∷ after
    → Inv (record s {
      stats = write_statistic s.stats p c.bytes c.success;
      pending = before ++ after;
      log = c ∷ s.log;
    })
unfolding write_statistic get_statistic
write-Inv s before after p c i e =
    let (mine, rest) =
      All-middle s.stats.statistic before after (p, c)
        (subst (All (Holds s.stats.statistic)) e i.held) in
    record {
      bound = i.bound;
      owner = λ id q l. ground (arith, i.owner id q l);
      agrees = λ id. ground (
        arith,
        i.agrees id,
        i.agrees c.msg_id,
        totals_cons id c s.log,
        i.owner id p,
        i.owner c.msg_id p mine,
      );
      held = rest;
      counted = i.counted;
    }

look_up-Inv :
    (s : State) (c : Call)
    → Inv s
    → Inv (record s {
      stats = (get_or_create_statistic s.stats c.msg_id).1;
      pending = ((get_or_create_statistic s.stats c.msg_id).0, c) ∷ s.pending;
    })
unfolding get_or_create_statistic get_statistic
look_up-Inv s c i = elim (Option-cases (lookup c.msg_id s.stats.statistic)) [
  | inl e ↦
      rw (e, get_or_create_statistic)
        (record {
          bound = λ id p l.
              ground
                (arith, i.bound id p, lookup-insert c.msg_id id s.stats.next s.stats.statistic);
          owner = λ id p l. ground (
            arith,
            i.owner id p,
            i.bound id p,
            lookup-insert c.msg_id id s.stats.next s.stats.statistic,
          );
          agrees = λ id. elim (Option-cases (lookup id s.stats.statistic)) [
            | inl free ↦
                ground
                  (arith, i.agrees id, lookup-insert c.msg_id id s.stats.next s.stats.statistic)
            | inr (q, l) ↦ ground (
              arith,
              i.agrees id,
              i.bound id q l,
              lookup-insert c.msg_id id s.stats.next s.stats.statistic,
            )
          ];
          held = (
            ground (arith, lookup-insert c.msg_id c.msg_id s.stats.next s.stats.statistic),
            All-insert s.stats.statistic c.msg_id s.stats.next s.pending e i.held,
          );
          counted = i.counted;
        })
  | inr (p, e) ↦
      rw (e, get_or_create_statistic)
        (record {
          bound = i.bound;
          owner = i.owner;
          agrees = i.agrees;
          held = (e, i.held);
          counted = i.counted;
        })
]

Step-Inv : {s t : State} → Step s t → Inv s → Inv t
unfolding inc_unknown_msg get_statistic
Step-Inv {s} (look_up c) i = look_up-Inv s c i
Step-Inv {s} (write before after p c e) i = write-Inv s before after p c i e
Step-Inv miss i = record {
  bound = i.bound;
  owner = i.owner;
  agrees = i.agrees;
  held = i.held;
  counted = omega (arith, i.counted);
}

Reach-Inv : {s : State} → Reach s → Inv s
unfolding new_handler_stats get_statistic lookup
Reach-Inv start = record {
  bound = λ id p l. cc;
  owner = λ id p l. cc;
  agrees = λ id. ground (arith, totals_empty id);
  held = tt;
  counted = refl;
}
Reach-Inv (next r st) = Step-Inv st (Reach-Inv r)

-- However the calls of any number of goroutines interleave, GetStatistic gives for every message
-- number the packets and bytes of the calls of AddBytes that have returned, by result, modulo
-- 2 ^ 64, and GetUnknownMsg the number of unknown messages; no update is lost or misplaced.
pub get_statistic-totals :
    {s : State}
    → Reach s
    → (id : ℕ)
    → (get_statistic s.stats id ≡ totals id s.log) × (get_unknown_msg s.stats ≡ s.misses % u64_mod)
unfolding get_unknown_msg
get_statistic-totals r id = ((Reach-Inv r).agrees id, (Reach-Inv r).counted)
