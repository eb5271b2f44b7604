-- ===== src/Server/Requests.antt =====
-- `_request_hint` of core/trainer.py: the frames that ask the backend for a hint.
pub mod Bodies
mod Runs
use poker_eye_v.Prelude.{
  ℕ, ◌+◌, max, String, Bool, true, false, Option, none, some, List, [], ◌∷◌, if◌then◌else◌,
}
use poker_eye_v.Prelude.Int.{ℤ, pos}
use poker_eye_v.Dict.{Dict}
use poker_eye_v.Json.{Json, int, Fields, get, or_else}
use poker_eye_v.CoinWire.Octets.{Bytes}
use poker_eye_v.EyeFrames.{RoundHint, action_notify, round_hint_multiple_table, eye_envelope}
use poker_eye_v.Street.{
  SeatState, StreetState, can_act, call_need, min_raise_to, max_call_or_raise_to,
}
use poker_eye_v.Street.Tables.{TableState}

-- The number of the seats that neither have folded nor are all-in
unfoldable pub acting : Dict ℕ SeatState → ℕ
acting [] = 0
acting ((k, s) ∷ seats) = (if can_act s then 1 else 0) + acting seats

unfoldable pub notify_body : StreetState → Bytes
notify_body street =
    action_notify (pos 1) (pos (call_need street 1)) (pos (min_raise_to street 1))
      (pos (max_call_or_raise_to street 1)) (pos (max 1 (acting street.seats)))

-- The defaults of `round_hint_multiple_table`, with the room name "Table"
abbrev pub table_hint : ℤ → RoundHint
table_hint turn_time = record {
  room_type = pos 5;
  small_blind = pos 2_000_000;
  ante = pos 0;
  table_id = pos 0;
  club_id = pos 3_663_333;
  turn_time = turn_time;
  room_name = 84 ∷ 97 ∷ 98 ∷ 108 ∷ 101 ∷ [];
  club_name = none;
  max_size = pos 6;
  room_mode = pos 3;
  game_mode = pos 5;
  ppsrid = none;
  scale = 100;
}

-- `int_of` is Python's int, none its error.
module _ (int_of : Json → Option ℤ) (base64 : Bytes → String) (dumps : Fields → String) where
  unfoldable pub hint_frames : Fields → ℕ → List Fields
  hint_frames turn now = elim (int_of (or_else (get turn "turnTime") (int (pos 15)))) [
    | none ↦ []
    | some time ↦
        eye_envelope base64 dumps now "pb.RoundHintMultipleTableRSP"
          (round_hint_multiple_table (table_hint time))
        ∷ []
  ]

  -- `_request_hint`, with the frames that it sends; an error of int ends it after the first.
  unfoldable pub request_hint : Bool → TableState → Fields → ℕ → List Fields
  request_hint connected t turn now =
      if connected
      then eye_envelope base64 dumps now "pb.ActionNotifyBRC" (notify_body t.street_state)
        ∷ hint_frames turn now
      else []
