-- ===== src/Sessions/Invariant.antt =====
-- What holds of the registry after any calls: the numbers below a device's next one are free or
-- held by exactly one of its tables.
use poker_eye_v.Prelude.{
  ℕ, ◌+◌, ◌≤◌, ◌<◌, ◌≡◌, ◌≢◌, max, refl, String, true, false, none, some, List, [], ◌∷◌, arith,
  string_key, pair_key, Option-cases, ◌⊎◌, inl, inr, ite, subst, String-discrete, ℕ_discrete, ◌==◌,
  if◌then◌else◌,
}
use poker_eye_v.Dict
use poker_eye_v.Dict.{Dict, get-put, get-put_self, get-remove, get-remove_self}
use poker_eye_v.Sessions.{
  TableLease, SessionRegistry, free_of, next_of, generation_of, open_number, open_new, open_table,
}
use poker_eye_v.Sessions.Numbers.{contains, Above, Above-weaken, contains-Above}

List-cases {ℓ} : {A : Type ℓ} (xs : List A) → (xs ≡ []) ⊎ ((x : A) × (ys : List A) × (xs ≡ x ∷ ys))
List-cases [] = inl refl
List-cases (x ∷ xs) = inr (x, xs, refl)

-- The lease stands under its own key, with a number that was handed out and the last generation.
pub record IsLease (r : SessionRegistry) (d t : String) (l : TableLease) : Type 0 where
  pub device : l.device_id ≡ d
  pub table : l.table_id ≡ t
  pub positive : 1 ≤ l.number
  pub below : l.number < next_of r d
  pub unfree : contains (free_of r d) l.number ≡ false
  pub current : generation_of r (d, t) ≡ l.generation

-- Some table of the device has the number.
abbrev pub Holds : SessionRegistry → String → ℕ → Type 0
Holds r d n = (t : String) × (l : TableLease) × (Dict.get r.leases (d, t) ≡ some l) × (l.number ≡ n)

pub record IsSound (r : SessionRegistry) : Type 0 where
  pub leased : (d t : String) (l : TableLease) → Dict.get r.leases (d, t) ≡ some l → IsLease r d t l
  pub apart :
      (d t u : String) (l m : TableLease)
      → Dict.get r.leases (d, t) ≡ some l
      → Dict.get r.leases (d, u) ≡ some m
      → l.number ≡ m.number
      → t ≡ u
  pub ascending : (d : String) → Above 1 (free_of r d)
  pub below : (d : String) (n : ℕ) → contains (free_of r d) n ≡ true → n < next_of r d
  pub started : (d : String) → 1 ≤ next_of r d
  pub filled :
      (d : String) (n : ℕ)
      → 1 ≤ n
      → n < next_of r d
      → contains (free_of r d) n ≡ false
      → Holds r d n

-- What opening takes: a number that no table of the device holds, which leaves `rest` free below
-- `bound`.
pub record IsTaken (r : SessionRegistry) (device : String) (number : ℕ) (rest : List ℕ) (bound : ℕ)
    : Type 0 where
  pub positive : 1 ≤ number
  pub inside : number < bound
  pub grown : next_of r device ≤ bound
  pub gone : contains rest number ≡ false
  pub ascending : Above 1 rest
  pub rest_below : (n : ℕ) → contains rest n ≡ true → n < bound
  pub kept : (n : ℕ) → n ≢ number → contains rest n ≡ contains (free_of r device) n
  pub only : (n : ℕ) → n < bound → n ≢ number → n < next_of r device
  pub unheld :
      (t : String) (l : TableLease) → Dict.get r.leases (device, t) ≡ some l → l.number ≢ number

module _ (r : SessionRegistry) (device table : String) (number : ℕ) (rest : List ℕ) (bound : ℕ)
    (v : IsSound r) (absent : Dict.get r.leases (device, table) ≡ none)
    (w : IsTaken r device number rest bound) where
  abbrev after : SessionRegistry
  after = (open_number r device table number rest).0

  abbrev lease : TableLease
  lease = (open_number r device table number rest).1

  after-free : (d : String) → free_of after d ≡ ite (String-discrete device d) rest (free_of r d)
  unfolding open_number
  after-free d = ground (arith, get-put r.free device rest d)

  after-leases :
      (d t : String)
      → Dict.get after.leases (d, t)
        ≡ ite (pair_key.same (device, table) (d, t)) (some lease) (Dict.get r.leases (d, t))
  unfolding open_number
  after-leases d t = get-put r.leases (device, table) lease (d, t)

  after-lease :
      (lease.device_id ≡ device)
      × (lease.table_id ≡ table)
      × (lease.number ≡ number)
      × (generation_of after (device, table) ≡ lease.generation)
  unfolding open_number
  after-lease = (
    refl,
    refl,
    refl,
    ground (arith, get-put_self r.generations (device, table) lease.generation),
  )

  after-generation :
      (d t : String)
      → ◌≢◌ {A = String × String} (device, table) (d, t)
      → generation_of after (d, t) ≡ generation_of r (d, t)
  unfolding open_number
  after-generation d t n =
      ground (arith, get-put r.generations (device, table) lease.generation (d, t))

  old_holder : (d : String) (n : ℕ) → Holds r d n → Holds after d n
  old_holder d n (t, l, e, q) = (t, l, ground (arith, after-leases d t, absent), q)

  module _
      (nexts : (d : String)
        → next_of after d ≡ ite (String-discrete device d) bound (next_of r d)) where
    open-IsLease :
        (d t : String) (l : TableLease)
        → Dict.get after.leases (d, t) ≡ some l
        → IsLease after d t l
    open-IsLease d t l e = elim (pair_key.same (device, table) (d, t)) [
      | yes p ↦ record {
        device = ground (arith, p, after-leases d t, after-lease);
        table = ground (arith, p, after-leases d t, after-lease);
        positive = ground (arith, p, after-leases d t, after-lease, w.positive);
        below = ground (arith, p, after-leases d t, after-lease, w.inside, nexts d);
        unfree = ground (arith, p, after-leases d t, after-lease, w.gone, after-free d);
        current = ground (arith, p, after-leases d t, after-lease);
      }
      | no n ↦
          let old = v.leased d t l (ground (arith, after-leases d t)) in
          record {
            device = old.device;
            table = old.table;
            positive = old.positive;
            below = ground (arith, nexts d, old.below, w.grown);
            unfree =
                ground (
                  arith,
                  after-leases d t,
                  after-free d,
                  old.unfree,
                  w.kept l.number,
                  w.unheld t l,
                );
            current = ground (arith, after-generation d t n, old.current);
          }
    ]

    open-apart :
        (d t u : String) (l m : TableLease)
        → Dict.get after.leases (d, t) ≡ some l
        → Dict.get after.leases (d, u) ≡ some m
        → l.number ≡ m.number
        → t ≡ u
    open-apart d t u l m e f q = ground (
      arith,
      after-leases d t,
      after-leases d u,
      after-lease,
      v.apart d t u l m,
      w.unheld t l,
      w.unheld u m,
    )

    open-filled :
        (d : String) (n : ℕ)
        → 1 ≤ n
        → n < next_of after d
        → contains (free_of after d) n ≡ false
        → Holds after d n
    open-filled d n h k f = elim (String-discrete device d) [
      | yes p ↦ elim (ℕ_discrete n number) [
        | yes q ↦
            (table, lease, ground (arith, p, after-leases d table), ground (arith, after-lease))
        | no q ↦ old_holder d n (
            v.filled d n h (ground (arith, p, nexts d, w.only n))
              (ground (arith, p, after-free d, w.kept n)))
      ]
      | no q ↦
          old_holder d n (v.filled d n h (ground (arith, nexts d)) (ground (arith, after-free d)))
    ]

    open-IsSound : IsSound after
    open-IsSound = record {
      leased = open-IsLease;
      apart = open-apart;
      ascending = λ d. ground (arith, after-free d, v.ascending d, w.ascending);
      below = λ d n e. ground (arith, nexts d, after-free d, v.below d n, w.rest_below n);
      started = λ d. ground (arith, nexts d, v.started d, w.grown);
      filled = open-filled;
    }

contains-cons :
    (ms : List ℕ) (n k : ℕ) (ns : List ℕ)
    → ms ≡ n ∷ ns
    → contains ms k ≡ (if n == k then true else contains ns k)
unfolding contains
contains-cons ms n k ns e = ground (arith, e)

-- A free number is taken, the lowest one.
pub free-IsTaken :
    (r : SessionRegistry) (device : String) (n : ℕ) (ns : List ℕ)
    → IsSound r
    → free_of r device ≡ n ∷ ns
    → IsTaken r device n ns (next_of r device)
free-IsTaken r device n ns v e =
    let order : Above 1 (n ∷ ns) = subst (Above 1) e (v.ascending device) in
    let member = λ (k : ℕ). contains-cons (free_of r device) n k ns e in
    record {
      positive = order.0;
      inside = v.below device n (ground (arith, member n));
      grown = omega arith;
      gone = ground (arith, contains-Above (n + 1) ns n, order.1);
      ascending = Above-weaken 1 (n + 1) ns (omega arith) order.1;
      rest_below = λ k m. v.below device k (ground (arith, member k));
      kept = λ k q. ground (arith, member k);
      only = λ k h q. h;
      unheld = λ t l f q. ground (arith, member n, (v.leased device t l f).unfree);
    }

-- With nothing free the next number is taken.
pub next-IsTaken :
    (r : SessionRegistry) (device : String)
    → IsSound r
    → free_of r device ≡ []
    → IsTaken r device (next_of r device) [] (next_of r device + 1)
unfolding contains
next-IsTaken r device v e = record {
  positive = v.started device;
  inside = omega arith;
  grown = omega arith;
  gone = refl;
  ascending = tt;
  rest_below = λ n m. cc;
  kept = λ n q. ground (arith, e);
  only = λ n h q. omega arith;
  unheld = λ t l f q. ground (arith, (v.leased device t l f).below);
}

-- What `open_table` does: the lease that is there, or the lowest free number, or the next one.
module _ {ℓ} (P : SessionRegistry × TableLease → Type ℓ) (r : SessionRegistry)
    (device table : String)
    (again : (l : TableLease) → Dict.get r.leases (device, table) ≡ some l → P (r, l))
    (lowest : (n : ℕ) (ns : List ℕ)
      → Dict.get r.leases (device, table) ≡ none
      → free_of r device ≡ n ∷ ns
      → P (open_number r device table n ns))
    (following : Dict.get r.leases (device, table) ≡ none
      → free_of r device ≡ []
      → P (open_number r device table (next_of r device) [])) where
  open_new-cases : Dict.get r.leases (device, table) ≡ none → P (open_new r device table)
  unfolding open_new
  open_new-cases e = elim (List-cases (free_of r device)) [
    | inl f ↦ rw (f, open_new) (following e f)
    | inr (n, ns, f) ↦ rw (f, open_new) (lowest n ns e f)
  ]

  pub open_table-cases : P (open_table r device table)
  unfolding open_table
  open_table-cases = elim (Option-cases (Dict.get r.leases (device, table))) [
    | inl e ↦ rw (e, open_table) (open_new-cases e)
    | inr (l, e) ↦ rw (e, open_table) (again l e)
  ]

nexts_free :
    (r : SessionRegistry) (device table : String) (n : ℕ) (ns : List ℕ)
    → n < next_of r device
    → (d : String)
    → next_of (open_number r device table n ns).0 d
      ≡ ite (String-discrete device d) (next_of r device) (next_of r d)
unfolding open_number
nexts_free r device table n [] h d =
    ground (arith, get-put r.next device (max (next_of r device) (n + 1)) d)
nexts_free r device table n (m ∷ ms) h d = ground arith

nexts_next :
    (r : SessionRegistry) (device table : String) (d : String)
    → next_of (open_number r device table (next_of r device) []).0 d
      ≡ ite (String-discrete device d) (next_of r device + 1) (next_of r d)
unfolding open_number
nexts_next r device table d =
    ground (arith, get-put r.next device (max (next_of r device) (next_of r device + 1)) d)

pub open_table-IsSound :
    (r : SessionRegistry) (device table : String)
    → IsSound r
    → IsSound (open_table r device table).0
open_table-IsSound r device table v =
    open_table-cases (λ x. IsSound x.0) r device table (λ l e. v)
      (λ n ns e f.
        let w = free-IsTaken r device n ns v f in
        open-IsSound r device table n ns _ v e w (nexts_free r device table n ns w.inside))
      (λ e f.
        open-IsSound r device table _ [] _ v e (next-IsTaken r device v f)
          (nexts_next r device table))
