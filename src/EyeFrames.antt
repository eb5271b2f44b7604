-- ===== src/EyeFrames.antt =====
-- core/eye_frames.py: the protobuf fields of the hint frames. A str is its UTF-8 bytes, and a float
-- counts 1e-8 units.
pub mod Varint
pub mod Messages
pub mod Frames
mod Runs
use poker_eye_v.Prelude.{
  ℕ, zero, suc, ◌+◌, ◌-◌, ◌*◌, ◌/◌, ◌%◌, ◌^◌, Bool, true, false, Option, none, some, List, [], ◌∷◌,
  ◌++◌, length, ltb, String, ◌==◌, if◌then◌else◌,
}
use poker_eye_v.Prelude.Int.{ℤ, pos, negsuc}
use poker_eye_v.Json.{int, str, Fields, end, field}

abbrev pub Bytes : Type 0
Bytes = List ℕ

-- The loop of `_varint`, on fuel.
unfoldable pub varint_loop : ℕ → ℕ → Bytes
varint_loop zero n = []
varint_loop (suc fuel) n =
    let more = varint_loop fuel (n / 128) in
    if n / 128 == 0 then n % 128 ∷ [] else (n % 128 + 128) ∷ more

-- int(value) & ((1 << 64) - 1) if int(value) < 0 else int(value)
unfoldable pub unsigned : ℤ → ℕ
unsigned (pos n) = n
unsigned (negsuc n) = 2 ^ 64 - 1 - n % 2 ^ 64

-- `_varint` of a number that is not negative; the loop ends after fewer than `suc n` rounds.
unfoldable pub varint : ℕ → Bytes
unfolding varint_loop
varint n = varint_loop (suc n) n

abbrev is_zero : ℤ → Bool
is_zero (pos zero) = true
is_zero _ = false

unfoldable pub p_int : ℕ → ℤ → Bool → Bytes
p_int field_no value emit_zero =
    if (if emit_zero then false else is_zero value)
    then []
    else varint (field_no * 8) ++ varint (unsigned value)

unfoldable pub p_bytes : ℕ → Bytes → Bytes
p_bytes field_no value = varint (field_no * 8 + 2) ++ varint (length value) ++ value

-- n / d rounded to the nearest number, a half to the even one
unfoldable pub round_half_even : ℕ → ℕ → ℕ
round_half_even n d =
    let q = n / d in
    let r = n - q * d in if ltb (r + r) d then q else if ltb d (r + r) then q + 1 else q + q % 2

abbrev negated : ℕ → ℤ
negated zero = pos 0
negated (suc n) = negsuc n

-- int(round(float(value) * scale))
unfoldable pub money : Option ℤ → ℕ → ℤ
money none scale = pos 0
money (some (pos n)) scale = pos (round_half_even (n * scale) 100_000_000)
money (some (negsuc n)) scale = negated (round_half_even (suc n * scale) 100_000_000)

unfoldable pub action_notify : ℤ → ℤ → ℤ → ℤ → ℤ → Bytes
action_notify seat call min_raise max_raise can =
    p_int 1 seat true
    ++ p_int 2 call true
    ++ p_int 3 min_raise true
    ++ p_int 4 max_raise true
    ++ p_int 5 can true

-- The keyword arguments of `round_hint_multiple_table`.
pub record RoundHint : Type 0 where
  pub room_type : ℤ
  pub small_blind : ℤ
  pub ante : ℤ
  pub table_id : ℤ
  pub club_id : ℤ
  pub turn_time : ℤ
  pub room_name : Bytes
  pub club_name : Option Bytes
  pub max_size : ℤ
  pub room_mode : ℤ
  pub game_mode : ℤ
  pub ppsrid : Option ℤ
  pub scale : ℕ

-- if club_name: parts.append(p_str(9, club_name))
abbrev pub club_part : Option Bytes → Bytes
club_part none = []
club_part (some []) = []
club_part (some (b ∷ bs)) = p_bytes 9 (b ∷ bs)

abbrev pub ppsrid_part : Option ℤ → Bytes
ppsrid_part none = []
ppsrid_part (some n) = p_int 14 n true

unfoldable pub round_hint_multiple_table : RoundHint → Bytes
round_hint_multiple_table h =
    p_int 1 h.room_type true
    ++ p_int 2 (money (some h.small_blind) h.scale) true
    ++ p_int 3 (money (some h.ante) h.scale) true
    ++ p_int 4 h.table_id true
    ++ p_int 5 h.club_id true
    ++ p_int 7 h.turn_time true
    ++ p_bytes 8 h.room_name
    ++ club_part h.club_name
    ++ p_int 10 h.max_size true
    ++ p_int 11 h.room_mode true
    ++ p_int 12 h.room_type true
    ++ p_int 13 h.game_mode true
    ++ ppsrid_part h.ppsrid
    ++ p_int 15 (pos 0) true

unfoldable pub finish_round_hint : ℤ → Bytes
finish_round_hint table_id = p_int 1 table_id true

-- `eye_envelope` with its defaults, at the time `now`
unfoldable pub eye_envelope : (Bytes → String) → (Fields → String) → ℕ → String → Bytes → Fields
eye_envelope base64 dumps now cmd body =
    let msg = field "cmd" (str cmd) (
      field "direction" (str "ServerToClient") (
        field "data" (str (base64 body))
          (field "location" (str "TABLE") (field "seq" (int (pos 0)) end)))) in
    let all =
      field "timestamp" (int (pos now)) (field "pid" (str "0") (field "uid" (str "0") msg)) in
    field "data" (str "") (
      field "msg" (str (dumps all))
        (field "packageName" (str "com.lein.pppoker.android") (field "tag" (str "traffic") end)))
