-- ===== src/Slots/Runs.antt =====
-- Concrete runs of the slot pool, and the theorems at concrete inputs.
use poker_eye_v.Prelude.{◌≡◌, refl, some, [], ◌∷◌, string_key, pair_key, pair_same, String-discrete}
use poker_eye_v.Prelude.Lowest.{lowest}
use poker_eye_v.Dict
use poker_eye_v.Slots.{SlotPool, is_used, reserve}

abbrev pool : SlotPool
pool = record { total = 2; claims = (("d1", "t1"), 1) ∷ [] }

second_slot : (reserve pool ("d1", "t2")).1 ≡ some 2
unfolding reserve lowest is_used Dict.get String-discrete pair_same
second_slot = refl
