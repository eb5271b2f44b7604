-- ===== src/PcapRing/Quota.antt =====
-- The quota over the files of all tables.
use poker_eye_v.Prelude.{ℕ, ◌≤◌, ◌<◌, ◌≡◌, List, [], ◌∷◌, drop, length, ◌++◌, All}
use poker_eye_v.PcapRing.{Found, total_bytes}
use mathlib.Core.List.{Perm}
use mathlib.Core.List.Perm

-- Of a list, the first `evicted` files are gone: the rest is within the cap, and with any of them it
-- would not be.
record IsTrimmed (limit : ℕ) (files left : List Found) : Type 0 where
  pub evicted : ℕ
  pub rest : left ≡ drop evicted files
  pub within : total_bytes left ≤ limit
  pub needed : (j : ℕ) → j < evicted → limit < total_bytes (drop j files)

abbrev IsSorted : List Found → Type 0
IsSorted [] = Unit
IsSorted (f ∷ fs) = All (λ g. f.mtime ≤ g.mtime) fs × IsSorted fs

-- Of the files that are found, `left` are within the cap, and the others are deleted: together they
-- are the found ones, none of the deleted is younger than one that is left, and deleting the oldest
-- of them up to any but the last would not have been enough.
pub record KeepsYoungest (limit : ℕ) (found left : List Found) : Type 0 where
  pub deleted : List Found
  pub all_found : Perm (deleted ++ left) found
  pub oldest : All (λ f. All (λ g. f.mtime ≤ g.mtime) left) deleted
  pub within : total_bytes left ≤ limit
  pub needed : (j : ℕ) → j < length deleted → limit < total_bytes (drop j (deleted ++ left))
