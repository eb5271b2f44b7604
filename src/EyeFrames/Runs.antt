-- ===== src/EyeFrames/Runs.antt =====
-- Concrete frames, and the theorems at concrete inputs.
use poker_eye_v.Prelude.{◌≡◌, refl, some, [], ◌∷◌}
use poker_eye_v.Prelude.Int.{pos, negsuc}
use poker_eye_v.EyeFrames.{varint_loop, varint, unsigned, round_half_even, money}

three_hundred : varint 300 ≡ 172 ∷ 2 ∷ []
unfolding varint varint_loop
three_hundred = refl

minus_one : unsigned (negsuc 0) ≡ 18_446_744_073_709_551_615
unfolding unsigned
minus_one = refl

-- 0.02 and 0.025 of a chip, in hundredths
small_blind : money (some (pos 2_000_000)) 100 ≡ pos 2
unfolding money round_half_even
small_blind = refl

half_to_even : money (some (pos 2_500_000)) 100 ≡ pos 2
unfolding money round_half_even
half_to_even = refl
