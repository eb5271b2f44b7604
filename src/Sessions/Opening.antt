-- ===== src/Sessions/Opening.antt =====
-- Which number a table gets, and which leases still count after any calls.
use poker_eye_v.Prelude.{
  ℕ, ◌+◌, ◌≤◌, ◌<◌, ◌≡◌, ◌⊎◌, refl, subst, String, true, false, some, List, [], ◌∷◌, arith,
  string_key, pair_key, Bool-cases, inl, inr,
}
use poker_eye_v.Dict
use poker_eye_v.Dict.{get-put, get-put_self, get-remove, get-remove_self}
use poker_eye_v.Sessions.{
  TableLease, SessionRegistry, free_of, generation_of, open_number, open_table, close_table,
}
use poker_eye_v.Sessions.Numbers.{contains, Above, contains-Above, contains-nil}
use poker_eye_v.Sessions.Invariant.{
  Holds, IsSound, free-IsTaken, next-IsTaken, open_table-cases, open_table-IsSound,
}
use poker_eye_v.Sessions.Closing.{close_table-IsSound}

pub data Call : Type 0 where
  opens : String → String → Call
  closes : TableLease → Call

unfoldable pub step : SessionRegistry → Call → SessionRegistry
step r (opens device table) = (open_table r device table).0
step r (closes l) = (close_table r l).0

unfoldable pub run : SessionRegistry → List Call → SessionRegistry
run r [] = r
run r (c ∷ cs) = run (step r c) cs

step-IsSound : (r : SessionRegistry) (c : Call) → IsSound r → IsSound (step r c)
unfolding step
step-IsSound r (opens device table) v = open_table-IsSound r device table v
step-IsSound r (closes l) v = close_table-IsSound r l v

-- After any calls each lease stands under its table with the table's last generation, no two tables
-- of a device share a number, and the numbers below a device's next one are those of its tables and
-- the free ones, which stand in ascending order.
pub registry_run-IsSound : (r : SessionRegistry) (cs : List Call) → IsSound r → IsSound (run r cs)
unfolding run
registry_run-IsSound r [] v = v
registry_run-IsSound r (c ∷ cs) v = registry_run-IsSound (step r c) cs (step-IsSound r c v)

-- The number is the lowest that no table of the device has.
abbrev pub IsLowest : SessionRegistry → String → ℕ → Type 0
IsLowest r device n =
    (1 ≤ n) × (Holds r device n → ⊥) × ((m : ℕ) → 1 ≤ m → m < n → Holds r device m)

abbrev IsOpened : SessionRegistry → String → String → SessionRegistry × TableLease → Type 0
IsOpened r device table (s, l) =
    ((Dict.get r.leases (device, table) ≡ some l) × (s ≡ r))
    ⊎ (IsLowest r device l.number
        × (l.generation ≡ generation_of r (device, table) + 1)
        × (Dict.get s.leases (device, table) ≡ some l))

opened :
    (r : SessionRegistry) (device table : String) (n : ℕ) (ns : List ℕ)
    → IsLowest r device n
    → IsOpened r device table (open_number r device table n ns)
unfolding open_number
opened r device table n ns low = inr (low, refl, get-put_self r.leases (device, table) _)

below_free :
    (r : SessionRegistry) (device : String) (n : ℕ) (ns : List ℕ)
    → IsSound r
    → free_of r device ≡ n ∷ ns
    → (m : ℕ) → 1 ≤ m
    → m < n
    → contains (free_of r device) m ≡ false
below_free r device n ns v e m h k = elim (Bool-cases (contains (free_of r device) m)) [
  | inl c ↦
      let order : Above 1 (n ∷ ns) = subst (Above 1) e (v.ascending device) in
      let low =
        contains-Above n (n ∷ ns) m (omega arith, order.1)
          (subst (λ ms. contains ms m ≡ true) e c) in
      absurd (omega arith)
  | inr c ↦ c
]

-- Opening a table returns the lease that it has, and changes nothing; a table without a lease gets
-- the lowest number that no table of the device has, and the next generation.
pub open_table_lem :
    (r : SessionRegistry) (device table : String)
    → IsSound r
    → let (s, l) = open_table r device table in
      ((Dict.get r.leases (device, table) ≡ some l) × (s ≡ r))
      ⊎ (IsLowest r device l.number
          × (l.generation ≡ generation_of r (device, table) + 1)
          × (Dict.get s.leases (device, table) ≡ some l))
open_table_lem r device table v =
    open_table-cases (IsOpened r device table) r device table (λ l e. inl (e, refl))
      (λ n ns e f.
        let w = free-IsTaken r device n ns v f in
        opened r device table n ns (
          w.positive,
          λ (t, l, g, q). w.unheld t l g q,
          λ m h k.
              v.filled device m h (omega (arith, w.inside)) (below_free r device n ns v f m h k),
        ))
      (λ e f.
        let w = next-IsTaken r device v f in
        opened r device table _ [] (
          w.positive,
          λ (t, l, g, q). w.unheld t l g q,
          λ m h k. v.filled device m h k (contains-nil (free_of r device) m f),
        ))
