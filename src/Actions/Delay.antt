-- ===== src/Actions/Delay.antt =====
-- `HumanDelay` of core/actions.py. Times are milliseconds, pots thousandths of a big blind.
use poker_eye_v.Prelude.{
  ℕ, ◌+◌, ◌-◌, ◌≤◌, ◌<◌, min, ◌&&◌, Option, some, ltb, leb, if◌then◌else◌, arith,
}
use poker_eye_v.Prelude.Int.{ℤ, pos_part}

abbrev pub max_delay_ms : ℕ
max_delay_ms = 15_000

abbrev pub turn_deadline_margin_ms : ℕ
turn_deadline_margin_ms = 750

abbrev pub big_pot_threshold_bb : ℕ
big_pot_threshold_bb = 60_000

-- 0.3, in thousandths
abbrev pub big_pot_extra_probability : ℕ
big_pot_extra_probability = 300

abbrev pub big_pot_extra_ms_min : ℕ
big_pot_extra_ms_min = 500

abbrev pub big_pot_extra_ms_max : ℕ
big_pot_extra_ms_max = 2_000

-- What the random generator answers: `random()` in thousandths, and `randint(lo, hi)`.
pub record Random : Type 0 where
  pub random : ℕ
  pub randint : ℕ → ℕ → ℕ

-- The time that is left of the turn, less the margin; the subtractions stop at 0.
unfoldable pub remaining_ms : ℕ → Option ℕ → Option ℕ → ℕ
remaining_ms turn_time (some observed_at) (some now) =
    if ltb 0 turn_time
    then observed_at + turn_time - now - turn_deadline_margin_ms
    else max_delay_ms
remaining_ms turn_time _ _ = max_delay_ms

-- max(0, min(MAX_DELAY_MS, cc_delay_ms))
abbrev pub requested_ms : ℤ → ℕ
requested_ms cc_delay = min max_delay_ms (pos_part cc_delay)

unfoldable pub compute : ℤ → ℕ → Option ℕ → Option ℕ → ℕ → Random → ℕ
compute cc_delay turn_time observed_at now pot_bb rng =
    let remaining = remaining_ms turn_time observed_at now in
    let delay = min (requested_ms cc_delay) remaining in
    if leb big_pot_threshold_bb pot_bb && ltb rng.random big_pot_extra_probability
    then min (delay + rng.randint big_pot_extra_ms_min big_pot_extra_ms_max) remaining
    else delay

-- With the turn's clock known, whatever the CC asks for and the generator answers: the delay is at
-- least the requested one cut to what the turn leaves, never above what the turn leaves, and above
-- the requested one only by the extra of a big pot.
pub compute_bounds :
    (cc_delay : ℤ) (turn_time observed_at now pot_bb : ℕ) (rng : Random)
    → 0 < turn_time
    → rng.randint big_pot_extra_ms_min big_pot_extra_ms_max ≤ big_pot_extra_ms_max
    → let d = compute cc_delay turn_time (some observed_at) (some now) pot_bb rng in
      let left = observed_at + turn_time - now - turn_deadline_margin_ms in
      (min (requested_ms cc_delay) left ≤ d)
      × (d ≤ left)
      × (d ≤ max_delay_ms + big_pot_extra_ms_max)
      × (pot_bb < big_pot_threshold_bb → d ≤ requested_ms cc_delay)
unfolding compute remaining_ms
compute_bounds cc_delay turn_time observed_at now pot_bb rng h k = ground arith
