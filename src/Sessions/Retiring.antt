-- ===== src/Sessions/Retiring.antt =====
-- A lease that was closed stays refused, whatever is opened and closed after it.
use poker_eye_v.Prelude.{
  ℕ, ◌+◌, ◌≤◌, ◌≡◌, ◌≢◌, refl, String, true, false, some, List, [], ◌∷◌, arith, string_key,
  pair_key,
}
use poker_eye_v.Dict
use poker_eye_v.Dict.{get-put, get-remove, get-remove_self}
use poker_eye_v.Sessions.{TableLease, SessionRegistry, generation_of, open_number, close_table}
use poker_eye_v.Sessions.Invariant.{IsSound, open_table-cases}
use poker_eye_v.Sessions.Closing.{closed, close_table-cases}
use poker_eye_v.Sessions.Opening.{Call, opens, closes, step, run}

-- A lease that no longer counts: another one, or none, stands under its table, and the table's
-- generation is not below its own.
record IsRetired (l : TableLease) (r : SessionRegistry) : Type 0 where
  gone : Dict.get r.leases (l.device_id, l.table_id) ≢ some l
  passed : l.generation ≤ generation_of r (l.device_id, l.table_id)

number-IsRetired :
    (l : TableLease) (r : SessionRegistry) (device table : String) (n : ℕ) (ns : List ℕ)
    → IsRetired l r
    → IsRetired l (open_number r device table n ns).0
unfolding open_number
number-IsRetired l r device table n ns v =
    let key : String × String = (l.device_id, l.table_id) in
    let g = generation_of r (device, table) + 1 in
    record {
      gone = λ e. ground (
        arith,
        get-put r.leases (device, table) (open_number r device table n ns).1 key,
        v.gone,
        v.passed,
      );
      passed = ground (arith, get-put r.generations (device, table) g key, v.passed);
    }

closed-IsRetired :
    (l m : TableLease) (r : SessionRegistry) → IsRetired l r → IsRetired l (closed r m)
closed-IsRetired l m r v = record {
  gone = λ e.
      ground
        (arith, get-remove r.leases (m.device_id, m.table_id) (l.device_id, l.table_id), v.gone);
  passed = v.passed;
}

step-IsRetired :
    (l : TableLease) (r : SessionRegistry) (c : Call) → IsRetired l r → IsRetired l (step r c)
unfolding step
step-IsRetired l r (opens device table) v =
    open_table-cases (λ x. IsRetired l x.0) r device table (λ m e. v)
      (λ n ns e f. number-IsRetired l r device table n ns v)
      (λ e f. number-IsRetired l r device table _ [] v)
step-IsRetired l r (closes m) v =
    close_table-cases (λ x. IsRetired l x.0) r m v (λ e. closed-IsRetired l m r v)

run-IsRetired :
    (l : TableLease) (r : SessionRegistry) (cs : List Call) → IsRetired l r → IsRetired l (run r cs)
unfolding run
run-IsRetired l r [] v = v
run-IsRetired l r (c ∷ cs) v = run-IsRetired l (step r c) cs (step-IsRetired l r c v)

IsRetired-refused :
    (l : TableLease) (r : SessionRegistry) → IsRetired l r → close_table r l ≡ (r, false)
IsRetired-refused l r v = close_table-cases (λ x. x ≡ (r, false)) r l refl (λ e. absurd (v.gone e))

close-IsRetired :
    (r : SessionRegistry) (l : TableLease)
    → IsSound r
    → (close_table r l).1 ≡ true
    → IsRetired l (close_table r l).0
close-IsRetired r l v =
    close_table-cases (λ x. x.1 ≡ true → IsRetired l x.0) r l (λ e. absurd (cc e))
      (λ e f. record {
        gone = λ g. ground (arith, get-remove_self r.leases (l.device_id, l.table_id));
        passed = omega (arith, (v.leased l.device_id l.table_id l e).current);
      })

-- Once a lease has closed its table it closes nothing any more: whatever is opened and closed after
-- that, the table again included, it is refused and changes nothing.
pub closed_lease_refused :
    (r : SessionRegistry) (l : TableLease) (cs : List Call)
    → IsSound r
    → (close_table r l).1 ≡ true
    → let later = run (close_table r l).0 cs in close_table later l ≡ (later, false)
closed_lease_refused r l cs v done =
    IsRetired-refused l _ (run-IsRetired l _ cs (close-IsRetired r l v done))
