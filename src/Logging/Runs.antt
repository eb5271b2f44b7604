-- ===== src/Logging/Runs.antt =====
-- Concrete names and sessions, and the theorems at concrete inputs.
use poker_eye_v.Prelude.{◌≡◌, refl, [], ◌∷◌}
use poker_eye_v.Json.{str, null, end, field}
use poker_eye_v.Logging.{Text, replace_unsafe, strip_start, strip_end, safe, without_none}

-- "../a b"
abbrev label : Text
label = 46 ∷ 46 ∷ 47 ∷ 97 ∷ 32 ∷ 98 ∷ []

-- "x"
abbrev other : Text
other = 120 ∷ []

-- "a_b"
label-safe : safe label other ≡ 97 ∷ 95 ∷ 98 ∷ []
unfolding safe replace_unsafe strip_start strip_end
label-safe = refl

dots-safe : safe (46 ∷ 46 ∷ []) other ≡ other
unfolding safe replace_unsafe strip_start strip_end
dots-safe = refl

without_none_run : without_none (field "a" null (field "b" (str "x") end)) ≡ field "b" (str "x") end
unfolding without_none
without_none_run = refl
