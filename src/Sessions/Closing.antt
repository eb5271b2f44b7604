-- ===== src/Sessions/Closing.antt =====
-- Closing a table gives its number back, and only the exact lease closes it.
use poker_eye_v.Prelude.{
  ℕ, ◌≤◌, ◌<◌, ◌≡◌, ap, String, Bool, true, false, Option, none, some, [], ◌∷◌, ◌++◌, arith,
  string_key, pair_key, Bool-cases, inl, inr, ite, String-discrete,
}
use poker_eye_v.Dict
use poker_eye_v.Dict.{get-put, get-remove}
use poker_eye_v.Sessions.{
  TableLease, SessionRegistry, free_of, next_of, sort, same_lease, is_held, close_table,
}
use poker_eye_v.Sessions.Numbers.{contains, contains-sort_append, Above-sort_append}
use poker_eye_v.Sessions.Invariant.{IsLease, Holds, IsSound}

same_lease-eq : (a b : TableLease) → same_lease a b ≡ true → a ≡ b
same_lease-eq a b e = ground arith

abbrev pub closed : SessionRegistry → TableLease → SessionRegistry
closed r l = record r {
  leases = Dict.remove r.leases (l.device_id, l.table_id);
  free = Dict.put r.free l.device_id (sort (free_of r l.device_id ++ l.number ∷ []));
}

module _ (r : SessionRegistry) (l : TableLease) (v : IsSound r)
    (held : Dict.get r.leases (l.device_id, l.table_id) ≡ some l) where
  abbrev mine : IsLease r l.device_id l.table_id l
  mine = v.leased l.device_id l.table_id l held

  closed-free :
      (d : String)
      → free_of (closed r l) d
        ≡ ite
            (String-discrete l.device_id d)
            (sort (free_of r l.device_id ++ l.number ∷ []))
            (free_of r d)
  closed-free d =
      ground (arith, get-put r.free l.device_id (sort (free_of r l.device_id ++ l.number ∷ [])) d)

  closed-leases :
      (d t : String)
      → Dict.get (closed r l).leases (d, t)
        ≡ ite (pair_key.same (l.device_id, l.table_id) (d, t)) none (Dict.get r.leases (d, t))
  closed-leases d t = get-remove r.leases (l.device_id, l.table_id) (d, t)

  close-IsLease :
      (d t : String) (m : TableLease)
      → Dict.get (closed r l).leases (d, t) ≡ some m
      → IsLease (closed r l) d t m
  close-IsLease d t m e =
      let old = v.leased d t m (ground (arith, closed-leases d t)) in
      record {
        device = old.device;
        table = old.table;
        positive = old.positive;
        below = old.below;
        unfree = ground (
          arith,
          closed-leases d t,
          closed-free d,
          old.unfree,
          contains-sort_append (free_of r l.device_id) l.number m.number,
          v.apart d t l.table_id m l,
          held,
        );
        current = old.current;
      }

  close-filled :
      (d : String) (n : ℕ)
      → 1 ≤ n
      → n < next_of r d
      → contains (free_of (closed r l) d) n ≡ false
      → Holds (closed r l) d n
  close-filled d n h k f =
      let (t, m, e, q) =
        v.filled d n h k (
          ground (arith, closed-free d, contains-sort_append (free_of r l.device_id) l.number n)) in
      (
        t,
        m,
        ground (
          arith,
          closed-leases d t,
          closed-free d,
          contains-sort_append (free_of r l.device_id) l.number n,
        ),
        q,
      )

  closed-IsSound : IsSound (closed r l)
  closed-IsSound = record {
    leased = close-IsLease;
    apart = λ d t u a b e f.
        v.apart d t u a b (ground (arith, closed-leases d t)) (ground (arith, closed-leases d u));
    ascending = λ d. ground (
      arith,
      closed-free d,
      v.ascending d,
      Above-sort_append 1 (free_of r l.device_id) l.number mine.positive (v.ascending l.device_id)
          mine.unfree,
    );
    below = λ d n e. ground (
      arith,
      closed-free d,
      v.below d n,
      contains-sort_append (free_of r l.device_id) l.number n,
      mine.below,
    );
    started = v.started;
    filled = close-filled;
  }

pub is_held-eq : (o : Option TableLease) (l : TableLease) → is_held o l ≡ true → o ≡ some l
is_held-eq none l e = cc
is_held-eq (some m) l e = ap some (same_lease-eq m l e)

-- What `close_table` does: nothing, or the lease that is held is given up.
module _ {ℓ} (P : SessionRegistry × Bool → Type ℓ) (r : SessionRegistry) (l : TableLease)
    (refused : P (r, false))
    (done : (e : Dict.get r.leases (l.device_id, l.table_id) ≡ some l) → P (closed r l, true)) where
  pub close_table-cases : P (close_table r l)
  unfolding close_table
  close_table-cases = elim (Bool-cases (is_held (Dict.get r.leases (l.device_id, l.table_id)) l)) [
    | inr e ↦ rw (e, close_table) refused
    | inl e ↦ rw (e, close_table) (done (is_held-eq _ l e))
  ]

pub close_table-IsSound :
    (r : SessionRegistry) (l : TableLease) → IsSound r → IsSound (close_table r l).0
close_table-IsSound r l v = close_table-cases (λ x. IsSound x.0) r l v (closed-IsSound r l v)
