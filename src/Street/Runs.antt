-- ===== src/Street/Runs.antt =====
-- A street with bets, and the theorems at it.
use poker_eye_v.Prelude.{◌≡◌, refl, false, [], ◌∷◌, nat_key, ℕ_discrete}
use poker_eye_v.Dict
use poker_eye_v.Dict.{Distinct}
use poker_eye_v.Street.{
  StreetState, call_need, min_raise_to, max_call_or_raise_to, active_others, count_can_act,
  best_cover,
}

-- Seat 1 has put in 20 of 100, seat 2 raised to 60 with 40 behind.
abbrev raised : StreetState
raised = record {
  seats =
      (
        1,
        record {
          seat = 1;
          street_contribution = 20;
          remaining_stack = 80;
          folded = false;
          all_in = false;
        },
      )
      ∷ (
        2,
        record {
          seat = 2;
          street_contribution = 60;
          remaining_stack = 40;
          folded = false;
          all_in = false;
        },
      )
      ∷ [];
  current_max = 60;
  last_full_raise = 40;
}

hero_amounts :
    (call_need raised 1 ≡ 40) × (min_raise_to raised 1 ≡ 80) × (max_call_or_raise_to raised 1 ≡ 80)
unfolding call_need min_raise_to max_call_or_raise_to count_can_act best_cover active_others
    Dict.get ℕ_discrete
hero_amounts = (refl, refl, refl)
