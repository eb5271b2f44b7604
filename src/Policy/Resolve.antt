-- ===== src/Policy/Resolve.antt =====
-- `resolve_eye_cc_action` of core/coin_wire.py. Amounts are compared in units of 1e-8 / `scale`, in
-- which the division by the chip scale is exact; the rounding of the code's float arithmetic, which
-- may decide otherwise between two distances that are all but equal, is left out.
use poker_eye_v.Prelude.{
  ℕ, suc, zero, ◌+◌, ◌*◌, String, Bool, true, false, Option, none, some, leb, ◌==◌, if◌then◌else◌,
}
use poker_eye_v.Prelude.Int.{ℤ, pos, negsuc, pos_part, neg_part, ◌+ℤ◌, ◌-ℤ◌, ◌*ℤ◌, ltb_ℤ}
use poker_eye_v.Json.{Json, bool, int, float, str, arr, item, Fields, end, get}
use poker_eye_v.EyeFrames.{round_half_even}
use poker_eye_v.Policy.Words.{CcType, cc_type}

pub record ResolvedAction : Type 0 where
  pub name : String
  pub coin_code : ℕ
  pub bet_amount : ℤ

abbrev pub fold_action : ResolvedAction
fold_action = record { name = "FOLD"; coin_code = 7; bet_amount = pos 0 }

abbrev pub check_action : ResolvedAction
check_action = record { name = "CHECK"; coin_code = 3; bet_amount = pos 0 }

abbrev pub call_action : ResolvedAction
call_action = record { name = "CALL"; coin_code = 4; bet_amount = pos 0 }

abbrev pub raise_action : ℤ → ResolvedAction
raise_action amount = record { name = "RAISE"; coin_code = 5; bet_amount = amount }

-- resolved.coin_code == 4
abbrev pub is_call : ResolvedAction → Bool
is_call a = a.coin_code == 4

abbrev pub unit : ℕ
unit = 100_000_000

-- The amounts that are compared.
abbrev scaled : ℕ → ℤ → ℤ
scaled scale x = x *ℤ pos scale

abbrev negated : ℕ → ℤ
negated zero = pos 0
negated (suc n) = negsuc n

-- round(x, 8), of an amount in the finer units
unfoldable pub rounded : ℕ → ℤ → ℤ
rounded scale (pos n) = pos (round_half_even n scale)
rounded scale (negsuc n) = negated (round_half_even (suc n) scale)

unfoldable pub max_ℤ : ℤ → ℤ → ℤ
max_ℤ a b = if ltb_ℤ a b then b else a

unfoldable pub min_ℤ : ℤ → ℤ → ℤ
min_ℤ a b = if ltb_ℤ b a then b else a

-- abs(a - b)
unfoldable pub distance : ℤ → ℤ → ℕ
distance a b = pos_part (a -ℤ b) + neg_part (a -ℤ b)

-- max(lo, min(hi, desired)), and `hi` where there is nothing desired
unfoldable pub raise_target : ℤ → ℤ → Option ℤ → ℤ
unfolding max_ℤ min_ℤ
raise_target lo hi none = hi
raise_target lo hi (some desired) = max_ℤ lo (min_ℤ hi desired)

-- The distances of the two candidates; the call's is infinite where there is nothing desired.
abbrev pub raise_is_nearer : ℤ → ℤ → Option ℤ → Bool
raise_is_nearer call target none = true
raise_is_nearer call target (some desired) = leb (distance desired target) (distance desired call)

-- min(candidates, key=…): the raise on a tie; `none` is the `ValueError` of no paid action.
unfoldable pub choose : ℕ → Option ℤ → Option (ℤ × ℤ) → Option ℤ → Option ResolvedAction
choose scale none none desired = none
choose scale (some call) none desired = some call_action
choose scale none (some (lo, hi)) desired =
    some (raise_action (rounded scale (raise_target lo hi desired)))
choose scale (some call) (some (lo, hi)) desired =
    if raise_is_nearer call (raise_target lo hi desired) desired
    then some (raise_action (rounded scale (raise_target lo hi desired)))
    else some call_action

-- opts = user_turn_options or {}
abbrev pub options_or_empty : Option Fields → Fields
options_or_empty none = end
options_or_empty (some d) = d

-- `text_float` is `float` of a text, `none` its `ValueError`.
module _ (text_float : String → Option ℤ) where
  -- float(x); `none` is an error
  unfoldable pub as_float : Json → Option ℤ
  as_float (int n) = some (n *ℤ pos unit)
  as_float (float x) = some x
  as_float (bool true) = some (pos unit)
  as_float (bool false) = some (pos 0)
  as_float (str s) = text_float s
  as_float _ = none

  abbrev as_float_of : Option Json → Option ℤ
  as_float_of none = none
  as_float_of (some x) = as_float x

  -- The first number of the option 4.
  abbrev call_amount : Option Json → Option ℤ
  call_amount (some (arr (item x xs))) = as_float x
  call_amount _ = none

  abbrev range_of : ℕ → Option ℤ → Option ℤ → Option (ℤ × ℤ)
  range_of scale (some lo) (some hi) =
      if ltb_ℤ hi lo then none else some (scaled scale lo, scaled scale hi)
  range_of scale _ _ = none

  -- The range of the option 5, where its end is not below its start.
  abbrev raise_range : ℕ → Option Json → Option (ℤ × ℤ)
  raise_range scale (some (arr (item x (item y xs)))) = range_of scale (as_float x) (as_float y)
  raise_range scale _ = none

  abbrev above : ℕ → ℕ → Option ℤ → Option ℤ
  above scale bet none = none
  above scale bet (some amount) = some (scaled scale (pos (bet * unit)) +ℤ amount)

  -- The candidates of a raise, a bet or an all-in.
  unfoldable pub resolve_paid : Fields → Fields → ℕ → ℕ → Option ResolvedAction
  unfolding choose as_float
  resolve_paid cc options bet scale =
      choose scale (above scale bet (scaled_call (call_amount (get options "4"))))
        (raise_range scale (get options "5")) (above scale bet (as_float_of (get cc "amount")))
    where
      scaled_call : Option ℤ → Option ℤ
      scaled_call none = none
      scaled_call (some x) = some (scaled scale x)

  abbrev pub resolve_type : CcType → Fields → Fields → ℕ → ℕ → Option ResolvedAction
  resolve_type CcType.fold cc options bet scale = some fold_action
  resolve_type CcType.check cc options bet scale = some check_action
  resolve_type CcType.call cc options bet scale = some call_action
  resolve_type CcType.other cc options bet scale = none
  resolve_type _ cc options bet scale = resolve_paid cc options bet scale

  -- `none` is the `ValueError`.
  unfoldable pub resolve : Fields → Option Fields → ℕ → ℕ → Option ResolvedAction
  unfolding resolve_paid
  resolve cc options bet scale = resolve_type (cc_type cc) cc (options_or_empty options) bet scale
