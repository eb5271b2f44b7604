-- ===== src/Policy/Runs.antt =====
-- Concrete decisions, and the theorems at concrete inputs.
use poker_eye_v.Prelude.{
  ◌<◌, ◌≡◌, refl, String, String-discrete, Option, none, some, [], ◌∷◌, nat_key, ℕ_discrete,
}
use poker_eye_v.Prelude.Int.{ℤ, pos, ◌-ℤ◌, ◌+ℤ◌, ◌*ℤ◌}
use poker_eye_v.Json.{Fields, end, field, str, int, arr, item, nil, get, truthy}
use poker_eye_v.EyeFrames.{round_half_even}
use poker_eye_v.Dict
use poker_eye_v.Street.{StreetState, new_seat, call_need}
use poker_eye_v.Policy.Words.{cc_word, cc_type, classify, same_word, has_key_code}
use poker_eye_v.Policy.Resolve.{
  call_action, raise_action, as_float, rounded, max_ℤ, min_ℤ, distance, raise_target, choose,
  resolve_paid, resolve,
}
use poker_eye_v.Policy.Guard.{call_needs_chips}
use poker_eye_v.Policy.{checked, decide_cc_action}

abbrev no_text : String → Option ℤ
no_text s = none

-- The opponent on seat 1 has raised to 200, and seat 2 has put in nothing.
abbrev raised : StreetState
raised = record {
  seats = (1, record (new_seat 1) { street_contribution = 200 }) ∷ [];
  current_max = 200;
  last_full_raise = 200;
}

abbrev call_message : Fields
call_message = field "type" (str " call ") end

abbrev raise_message : Fields
raise_message = field "type" (str "RAISE") (field "amount" (int (pos 400)) end)

abbrev options : Option Fields
options = some (
    field "4" (arr (item (int (pos 200)) nil))
      (field "5" (arr (item (int (pos 400)) (item (int (pos 800)) nil))) end))

call_decided :
    (decide_cc_action no_text call_message raised 2 options 100).action ≡ some call_action
unfolding decide_cc_action call_need resolve cc_type cc_word classify same_word get truthy
    has_key_code checked Dict.get String-discrete ℕ_discrete
call_decided = refl

-- With chips as the unit of the CC, the raise to 400 is exact.
raise_decided :
    (decide_cc_action no_text raise_message raised 2 options 1).action
    ≡ some (raise_action (pos 40_000_000_000))
unfolding decide_cc_action call_need resolve resolve_paid choose raise_target max_ℤ min_ℤ distance
    rounded round_half_even as_float ◌+ℤ◌ ◌-ℤ◌ ◌*ℤ◌ cc_type cc_word classify same_word get truthy
    has_key_code checked Dict.get String-discrete ℕ_discrete
raise_decided = refl

need_200 : call_need raised 2 ≡ 200
unfolding call_need Dict.get ℕ_discrete
need_200 = refl

call_needs_chips_example : 0 < call_need raised 2
call_needs_chips_example =
    call_needs_chips no_text call_message raised 2 options 100 call_action call_decided refl
