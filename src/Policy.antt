-- ===== src/Policy.antt =====
-- core/policy.py, core/anomalies.py and `resolve_eye_cc_action` of core/coin_wire.py: from a CC to
-- the action that is sent. A float counts 1e-8 units; reasons and diagnostics are left out.
pub mod Words
pub mod Resolve
pub mod Guard
mod Runs
use poker_eye_v.Prelude.{
  ℕ, ◌*◌, String, Bool, true, false, not, ◌&&◌, ◌||◌, Option, none, some, ltb, ◌==◌, ◌>>=◌,
  if◌then◌else◌, nat_key,
}
use poker_eye_v.Prelude.Int.{ℤ}
use poker_eye_v.Json.{Fields}
use poker_eye_v.Dict
use poker_eye_v.Street.{SeatState, StreetState, call_need, seat_or_new}
use poker_eye_v.Policy.Words.{CcType, cc_type, has_code}
use poker_eye_v.Policy.Resolve.{ResolvedAction, resolve, is_call, check_action}

pub data AnomalyVerdict : Type 0 where
  ok state_gap needs_operator : AnomalyVerdict

pub record CallZeroAssessment : Type 0 where
  pub verdict : AnomalyVerdict
  pub call_need : ℕ
  pub current_max : ℕ
  pub last_full_raise : ℕ
  pub check_legal : Bool

abbrev verdict_of : ℕ → Bool → AnomalyVerdict
verdict_of need legal =
    if not (need == 0)
    then AnomalyVerdict.ok
    else if legal
    then state_gap
    else AnomalyVerdict.needs_operator

-- Coin's code of a legal CHECK is 3.
unfoldable pub assess_call_zero : ℕ → StreetState → Option Fields → CallZeroAssessment
assess_call_zero need street options =
    let legal = has_code options 3 in
    record {
      verdict = verdict_of need legal;
      call_need = need;
      current_max = street.current_max;
      last_full_raise = street.last_full_raise;
      check_legal = legal;
    }

pub data Status : Type 0 where
  decided state_gap_check needs_operator error : Status

pub record ActionDecision : Type 0 where
  pub action : Option ResolvedAction
  pub status : Status
  pub anomaly : Option CallZeroAssessment

-- typ in paid_types
abbrev pub is_paid : CcType → Bool
is_paid CcType.call = true
is_paid CcType.raise = true
is_paid CcType.bet = true
is_paid CcType.all_in = true
is_paid _ = false

abbrev guarded : CallZeroAssessment → AnomalyVerdict → ActionDecision
guarded assessment state_gap = record {
  action = some check_action;
  status = state_gap_check;
  anomaly = some assessment;
}
guarded assessment _ = record {
  action = none;
  status = Status.needs_operator;
  anomaly = some assessment;
}

-- `options` is not None and none of its keys is 4
abbrev lacks_call : Option Fields → Bool
lacks_call none = false
lacks_call (some options) = not (has_code (some options) 4)

abbrev plain : Option ResolvedAction → Status → ActionDecision
plain action status = record { action = action; status = status; anomaly = none }

-- What becomes of the action that the CC resolves to; `none` is its `ValueError`.
unfoldable pub checked : ℕ → Option Fields → Option ResolvedAction → ActionDecision
checked need options none = plain none error
checked need options (some a) =
    if is_call a && ltb 0 need && lacks_call options
    then plain none Status.needs_operator
    else plain (some a) decided

unfoldable pub decide_cc_action :
    (String → Option ℤ) → Fields → StreetState → ℕ → Option Fields → ℕ → ActionDecision
unfolding checked assess_call_zero
decide_cc_action to_float cc street seat options scale =
    let need = call_need street seat in
    if need == 0 && is_paid (cc_type cc)
    then (let a = assess_call_zero 0 street options in guarded a a.verdict)
    else checked need options
        (resolve to_float cc options (seat_or_new street.seats seat).street_contribution scale)
