-- ===== src/Sessions/Numbers.antt =====
-- Lists of free numbers: in strictly ascending order, and kept so by the sort.
use poker_eye_v.Prelude.{
  ℕ, ◌+◌, ◌≤◌, ◌≡◌, Bool, true, false, List, [], ◌∷◌, ◌++◌, ◌==◌, if◌then◌else◌, arith,
}
use poker_eye_v.Sessions.{insert, sort}

unfoldable pub contains : List ℕ → ℕ → Bool
contains [] n = false
contains (m ∷ ms) n = if m == n then true else contains ms n

-- The list ascends strictly, from `low` at least.
abbrev pub Above : ℕ → List ℕ → Type 0
Above low [] = Unit
Above low (n ∷ ns) = (low ≤ n) × Above (n + 1) ns

pub Above-weaken : (low high : ℕ) (ns : List ℕ) → low ≤ high → Above high ns → Above low ns
Above-weaken low high [] h a = tt
Above-weaken low high (n ∷ ns) h a = (omega arith, a.1)

pub contains-Above : (low : ℕ) (ns : List ℕ) (n : ℕ) → Above low ns → contains ns n ≡ true → low ≤ n
unfolding contains
contains-Above low [] n a e = cc
contains-Above low (m ∷ ms) n a e = ground (arith, contains-Above (m + 1) ms n)

pub contains-insert : (k : ℕ) (ns : List ℕ) (n : ℕ) → contains (insert k ns) n ≡ contains (k ∷ ns) n
unfolding contains insert
contains-insert k [] n = ground arith
contains-insert k (m ∷ ms) n = ground (arith, contains-insert k ms n)

Above-insert :
    (low k : ℕ) (ns : List ℕ)
    → low ≤ k
    → Above low ns
    → contains ns k ≡ false
    → Above low (insert k ns)
unfolding contains insert
Above-insert low k [] h a e = (h, tt)
Above-insert low k (m ∷ ms) h a e = ground (arith, Above-insert (m + 1) k ms)

contains-append :
    (ns : List ℕ) (k n : ℕ) → contains (ns ++ k ∷ []) n ≡ (if k == n then true else contains ns n)
unfolding contains
contains-append [] k n = ground arith
contains-append (m ∷ ms) k n = ground (arith, contains-append ms k n)

contains-sort : (ns : List ℕ) (n : ℕ) → contains (sort ns) n ≡ contains ns n
unfolding contains sort
contains-sort [] n = ground arith
contains-sort (m ∷ ms) n = ground (arith, contains-insert m (sort ms) n, contains-sort ms n)

pub contains-sort_append :
    (ns : List ℕ) (k n : ℕ)
    → contains (sort (ns ++ k ∷ [])) n ≡ (if k == n then true else contains ns n)
contains-sort_append ns k n = ground (arith, contains-sort (ns ++ k ∷ []) n, contains-append ns k n)

pub Above-sort_append :
    (low : ℕ) (ns : List ℕ) (k : ℕ)
    → low ≤ k
    → Above low ns
    → contains ns k ≡ false
    → Above low (sort (ns ++ k ∷ []))
unfolding contains sort insert
Above-sort_append low [] k h a e = (h, tt)
Above-sort_append low (m ∷ ms) k h a e =
    Above-insert low m (sort (ms ++ k ∷ [])) a.0
      (Above-sort_append low ms k h (Above-weaken low (m + 1) ms (omega arith) a.1) (ground arith))
      (ground (arith, contains-sort_append ms k m, contains-Above (m + 1) ms m))

pub contains-nil : (ms : List ℕ) (n : ℕ) → ms ≡ [] → contains ms n ≡ false
unfolding contains
contains-nil ms n e = ground arith
