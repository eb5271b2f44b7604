-- ===== src/Server/Requests/Bodies.antt =====
-- What a reader of the protobuf fields gets from the frames of a request.
use poker_eye_v.Prelude.{ℕ, max, ◌≡◌, ◌∙◌, ap, refl, String, true, Option, some, List, [], ◌∷◌}
use poker_eye_v.Prelude.Int.{ℤ, pos}
use poker_eye_v.Json.{Json, int, Fields, get, or_else}
use poker_eye_v.CoinWire.Octets.{Bytes}
use poker_eye_v.EyeFrames.{
  money, round_half_even, action_notify, eye_envelope, round_hint_multiple_table,
}
use poker_eye_v.EyeFrames.Messages.{
  Field, bytes, read_message, read_message-write_fields, both, int_field, one_int,
}
use poker_eye_v.EyeFrames.Frames.{read_round_hint}
use poker_eye_v.Street.{StreetState, call_need, min_raise_to, max_call_or_raise_to}
use poker_eye_v.Street.Tables.{TableState}
use poker_eye_v.Server.Requests.{acting, notify_body, table_hint, hint_frames, request_hint}

read_action_notify :
    (seat call min_raise max_raise can : ℤ)
    → read_message (action_notify seat call min_raise max_raise can)
      ≡ some (
          int_field 1 seat
          ∷ int_field 2 call
          ∷ int_field 3 min_raise
          ∷ int_field 4 max_raise
          ∷ int_field 5 can
          ∷ [])
unfolding action_notify
read_action_notify seat call min_raise max_raise can =
    let w2 = both (one_int 1 seat) (one_int 2 call) in
    let w3 = both w2 (one_int 3 min_raise) in
    let w4 = both w3 (one_int 4 max_raise) in
    let w5 = both w4 (one_int 5 can) in ap read_message w5.written ∙ read_message-write_fields _

-- The fields of the first frame: the hero's seat, what it lacks to call, the bounds of a raise, and how
-- many seats can act, one at least.
abbrev pub notify_fields : StreetState → List Field
notify_fields street =
    int_field 1 (pos 1)
    ∷ int_field 2 (pos (call_need street 1))
    ∷ int_field 3 (pos (min_raise_to street 1))
    ∷ int_field 4 (pos (max_call_or_raise_to street 1))
    ∷ int_field 5 (pos (max 1 (acting street.seats)))
    ∷ []

-- The fields of the second frame, with the blinds in hundredths and the time of the turn.
abbrev pub hint_fields : ℤ → List Field
hint_fields time =
    int_field 1 (pos 5)
    ∷ int_field 2 (pos 2)
    ∷ int_field 3 (pos 0)
    ∷ int_field 4 (pos 0)
    ∷ int_field 5 (pos 3_663_333)
    ∷ int_field 7 time
    ∷ bytes 8 (84 ∷ 97 ∷ 98 ∷ 108 ∷ 101 ∷ [])
    ∷ int_field 10 (pos 6)
    ∷ int_field 11 (pos 3)
    ∷ int_field 12 (pos 5)
    ∷ int_field 13 (pos 5)
    ∷ int_field 15 (pos 0)
    ∷ []

read_table_hint :
    (time : ℤ)
    → read_message (round_hint_multiple_table (table_hint time)) ≡ some (hint_fields time)
unfolding money round_half_even
read_table_hint time = read_round_hint (table_hint time)

module _ (int_of : Json → Option ℤ) (base64 : Bytes → String) (dumps : Fields → String) where
  -- On a connected channel a request for a hint sends two frames, if `int` takes the time of the turn,
  -- or 15 in its place: a notification and a hint, each in its envelope. A reader of protobuf gets from
  -- the body of the first the seat 1, what the seat lacks to call, its smallest and its largest raise
  -- and the number of the seats that can act, one at least; and from the second the room's settings
  -- with that time.
  pub request_bodies_read :
      (t : TableState) (turn : Fields) (now : ℕ) (time : ℤ)
      → int_of (or_else (get turn "turnTime") (int (pos 15))) ≡ some time
      → (notify hint : Bytes) × (request_hint int_of base64 dumps true t turn now
          ≡ eye_envelope base64 dumps now "pb.ActionNotifyBRC" notify
            ∷ eye_envelope base64 dumps now "pb.RoundHintMultipleTableRSP" hint
            ∷ [])
        × (read_message notify ≡ some (notify_fields t.street_state))
        × (read_message hint ≡ some (hint_fields time))
  unfolding request_hint hint_frames notify_body
  request_bodies_read t turn now time e = (
    notify_body t.street_state,
    round_hint_multiple_table (table_hint time),
    rw (e, hint_frames) refl,
    read_action_notify _ _ _ _ _,
    read_table_hint time,
  )
