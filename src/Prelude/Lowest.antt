-- ===== src/Prelude/Lowest.antt =====
-- The first number of a range that is not taken.
use poker_eye_v.Prelude.{
  ℕ, zero, suc, ◌+◌, ◌≤◌, ◌<◌, ◌≡◌, Bool, true, false, Option, none, some, if◌then◌else◌, arith,
  ◌⊎◌, inl, inr, Option-cases,
}

-- next((n for n in range(start, start + count) if not taken(n)), None)
unfoldable pub lowest : (ℕ → Bool) → ℕ → ℕ → Option ℕ
lowest taken start zero = none
lowest taken start (suc count) = if taken start then lowest taken (start + 1) count else some start

eq-or-lt : (a b : ℕ) → a ≤ b → (a ≡ b) ⊎ (a < b)
eq-or-lt a b q = omega arith

pub lowest-some :
    (taken : ℕ → Bool) (start count n : ℕ)
    → lowest taken start count ≡ some n
    → (start ≤ n) × (n < start + count) × (taken n ≡ false)
unfolding lowest
lowest-some taken start zero n e = cc
lowest-some taken start (suc count) n e = ground (arith, lowest-some taken (start + 1) count n)

pub lowest-least :
    (taken : ℕ → Bool) (start count n m : ℕ)
    → lowest taken start count ≡ some n
    → start ≤ m
    → m < n
    → taken m ≡ true
unfolding lowest
lowest-least taken start zero n m e h k = cc
lowest-least taken start (suc count) n m e h k = elim (eq-or-lt start m h) [
  | inl p ↦ rw (← p) (ground arith)
  | inr p ↦ ground (arith, lowest-least taken (start + 1) count n m)
]

pub lowest-none :
    (taken : ℕ → Bool) (start count m : ℕ)
    → lowest taken start count ≡ none
    → start ≤ m
    → m < start + count
    → taken m ≡ true
unfolding lowest
lowest-none taken start zero m e h k = absurd (omega arith)
lowest-none taken start (suc count) m e h k = elim (eq-or-lt start m h) [
  | inl p ↦ rw (← p) (ground arith)
  | inr p ↦ ground (arith, lowest-none taken (start + 1) count m)
]

-- A free number in the range is found.
pub lowest-found :
    (taken : ℕ → Bool) (start count m : ℕ)
    → start ≤ m
    → m < start + count
    → taken m ≡ false
    → (n : ℕ) × (lowest taken start count ≡ some n)
lowest-found taken start count m h k f = elim (Option-cases (lowest taken start count)) [
  | inl e ↦ absurd (cc (lowest-none taken start count m e h k, f))
  | inr s ↦ s
]
