-- ===== src/Sessions/Runs.antt =====
-- Concrete calls on a registry, and the theorems at concrete inputs.
use poker_eye_v.Prelude.{
  ◌≡◌, refl, subst, true, false, [], ◌∷◌, arith, string_key, pair_key, pair_same, String-discrete,
}
use poker_eye_v.Dict
use poker_eye_v.Sessions.{
  TableLease, SessionRegistry, new_registry, open_number, open_new, open_table, sort, insert,
  close_table,
}
use poker_eye_v.Sessions.Numbers.{contains}
use poker_eye_v.Sessions.Invariant.{IsSound}
use poker_eye_v.Sessions.Opening.{opens, closes, step, run, registry_run-IsSound}
use poker_eye_v.Sessions.Retiring.{closed_lease_refused}

abbrev first : TableLease
first = record { device_id = "d1"; table_id = "t1"; generation = 1; number = 1 }

abbrev opened : SessionRegistry
opened = record {
  generations = (("d1", "t1"), 1) ∷ (("d1", "t2"), 1) ∷ [];
  leases =
      (("d1", "t1"), first)
      ∷ (("d1", "t2"), record { device_id = "d1"; table_id = "t2"; generation = 1; number = 2 })
      ∷ [];
  free = ("d1", []) ∷ [];
  next = ("d1", 3) ∷ [];
}

two_tables : run new_registry (opens "d1" "t1" ∷ opens "d1" "t2" ∷ []) ≡ opened
unfolding run step open_table open_new open_number Dict.get Dict.put String-discrete pair_same
two_tables = refl

-- The number of a closed table is used again, with the next generation.
used_again : (open_table (close_table opened first).0 "d1" "t3").1.number ≡ 1
unfolding close_table open_table open_new open_number sort insert Dict.get Dict.put Dict.remove
    String-discrete pair_same
used_again = refl

new_registry-IsSound : IsSound new_registry
unfolding Dict.get contains
new_registry-IsSound = record {
  leased = λ d t l e. absurd (cc e);
  apart = λ d t u l m e f q. absurd (cc e);
  ascending = λ d. tt;
  below = λ d n e. absurd (cc e);
  started = λ d. omega arith;
  filled = λ d n h k e. absurd (omega arith);
}

registry_run-IsSound_example : IsSound (run new_registry (opens "d1" "t1" ∷ closes first ∷ []))
registry_run-IsSound_example =
    registry_run-IsSound new_registry (opens "d1" "t1" ∷ closes first ∷ []) new_registry-IsSound

opened-IsSound : IsSound opened
opened-IsSound = subst IsSound two_tables (
    registry_run-IsSound new_registry (opens "d1" "t1" ∷ opens "d1" "t2" ∷ []) new_registry-IsSound)

closed : (close_table opened first).1 ≡ true
unfolding close_table Dict.get String-discrete pair_same
closed = refl

closed_lease_refused_example :
    let later = run (close_table opened first).0 (opens "d1" "t1" ∷ []) in
    close_table later first ≡ (later, false)
closed_lease_refused_example =
    closed_lease_refused opened first (opens "d1" "t1" ∷ []) opened-IsSound closed
