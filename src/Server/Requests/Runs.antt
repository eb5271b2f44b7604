-- ===== src/Server/Requests/Runs.antt =====
-- A concrete request, and the theorem at a concrete input.
use poker_eye_v.Prelude.{
  ℕ_discrete, ◌≡◌, refl, String, String-discrete, true, Option, none, some, [], ◌∷◌,
}
use poker_eye_v.Prelude.Int.{ℤ, pos}
use poker_eye_v.Json.{Json, int, Fields, end, field, get, or_else, truthy}
use poker_eye_v.CoinWire.Octets.{Bytes}
use poker_eye_v.EyeFrames.{eye_envelope}
use poker_eye_v.EyeFrames.Messages.{read_message, int_field}
use poker_eye_v.Street.{
  call_need, new_seat, min_raise_to, count_can_act, max_call_or_raise_to, active_others, best_cover,
}
use poker_eye_v.Street.Tables.{TableState, new_table}
use poker_eye_v.Server.Requests.{acting, request_hint}
use poker_eye_v.Dict
use poker_eye_v.Server.Requests.Bodies.{notify_fields, hint_fields, request_bodies_read}

abbrev int_of : Json → Option ℤ
int_of (int n) = some n
int_of _ = none

abbrev base64 : Bytes → String
base64 body = "body"

abbrev dumps : Fields → String
dumps d = "json"

-- One other seat has bet 60 and can act.
abbrev betting : TableState
betting = record (new_table "device" "t1") {
  street_state = record {
    seats = (2, record (new_seat 2) { street_contribution = 60; remaining_stack = 40 }) ∷ [];
    current_max = 60;
    last_full_raise = 60;
  };
}

abbrev turn : Fields
turn = field "turnTime" (int (pos 20)) end

turn_time : int_of (or_else (get turn "turnTime") (int (pos 15))) ≡ some (pos 20)
unfolding get String-discrete truthy
turn_time = refl

betting_fields :
    notify_fields betting.street_state
    ≡ int_field 1 (pos 1)
      ∷ int_field 2 (pos 60)
      ∷ int_field 3 (pos 120)
      ∷ int_field 4 (pos 100)
      ∷ int_field 5 (pos 1)
      ∷ []
unfolding call_need min_raise_to count_can_act max_call_or_raise_to active_others best_cover acting
    Dict.get ℕ_discrete
betting_fields = refl

request_bodies_read_example :
    (notify hint : Bytes) × (request_hint int_of base64 dumps true betting turn 9
      ≡ eye_envelope base64 dumps 9 "pb.ActionNotifyBRC" notify
        ∷ eye_envelope base64 dumps 9 "pb.RoundHintMultipleTableRSP" hint
        ∷ [])
    × (read_message notify ≡ some (notify_fields betting.street_state))
    × (read_message hint ≡ some (hint_fields (pos 20)))
request_bodies_read_example =
    request_bodies_read int_of base64 dumps betting turn 9 (pos 20) turn_time
