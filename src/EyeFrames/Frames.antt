-- ===== src/EyeFrames/Frames.antt =====
-- The reader gets from each hint frame the fields that went in.
use poker_eye_v.Prelude.{◌≡◌, ◌∙◌, ap, some, [], ◌∷◌, ◌++◌}
use poker_eye_v.Prelude.Int.{pos}
use poker_eye_v.EyeFrames.{money, RoundHint, round_hint_multiple_table}
use poker_eye_v.EyeFrames.Messages.{
  bytes, read_message, read_message-write_fields, both, int_field, one_int, one_bytes, club_fields,
  ppsrid_fields, club_part-club_fields, ppsrid_part-ppsrid_fields,
}

-- The fields of the round hint are read from it: the amounts in its scale, the club's name if it is
-- not empty, and the round's identity if there is one.
pub read_round_hint :
    (h : RoundHint)
    → read_message (round_hint_multiple_table h)
      ≡ some (
          (int_field 1 h.room_type
            ∷ int_field 2 (money (some h.small_blind) h.scale)
            ∷ int_field 3 (money (some h.ante) h.scale)
            ∷ int_field 4 h.table_id
            ∷ int_field 5 h.club_id
            ∷ int_field 7 h.turn_time
            ∷ bytes 8 h.room_name
            ∷ [])
          ++ club_fields h.club_name
          ++ (int_field 10 h.max_size ∷ [])
          ++ (int_field 11 h.room_mode ∷ [])
          ++ (int_field 12 h.room_type ∷ [])
          ++ (int_field 13 h.game_mode ∷ [])
          ++ ppsrid_fields h.ppsrid
          ++ (int_field 15 (pos 0) ∷ []))
unfolding round_hint_multiple_table
read_round_hint h =
    let w2 = both (one_int 1 h.room_type) (one_int 2 (money (some h.small_blind) h.scale)) in
    let w3 = both w2 (one_int 3 (money (some h.ante) h.scale)) in
    let w4 = both w3 (one_int 4 h.table_id) in
    let w5 = both w4 (one_int 5 h.club_id) in
    let w7 = both w5 (one_int 7 h.turn_time) in
    let w8 = both w7 (one_bytes 8 h.room_name) in
    let w9 = both w8 (club_part-club_fields h.club_name) in
    let w10 = both w9 (one_int 10 h.max_size) in
    let w11 = both w10 (one_int 11 h.room_mode) in
    let w12 = both w11 (one_int 12 h.room_type) in
    let w13 = both w12 (one_int 13 h.game_mode) in
    let w14 = both w13 (ppsrid_part-ppsrid_fields h.ppsrid) in
    let w15 = both w14 (one_int 15 (pos 0)) in
    ap read_message w15.written ∙ read_message-write_fields _
