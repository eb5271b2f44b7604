-- ===== src/CoinWire/Requests.antt =====
-- `build_game_user_action_packet` of core/coin_wire.py. The texts are their ASCII codes.
use poker_eye_v.Prelude.{
  ℕ, zero, suc, ◌+◌, ◌/◌, ◌%◌, ◌≤◌, ◌<◌, ◌≡◌, ◌∙◌, ap, refl, true, Option, none, some, [], ◌∷◌,
  ◌++◌, length, arith, ◌==◌, if◌then◌else◌,
}
use poker_eye_v.Prelude.Int.{ℤ, pos}
use poker_eye_v.CoinWire.Octets.{
  Bytes, to_bytes, i32, to_signed, is_utf8, length-to_bytes, low_byte,
}
use poker_eye_v.CoinWire.{
  byte, short, int, utf, object, Members, end, member, Value, number, text, dict, stop, entry,
  bytes_eq, enc_value,
}
use poker_eye_v.CoinWire.Plain.{plain, plain_members, IsProper, IsDict}
use poker_eye_v.CoinWire.Packets.{encode_packet, decode_packet, decode_packet-encode_packet}
use poker_eye_v.CoinWire.Sizes.{
  Encodes, some-Encodes, Encodes-eq, join-Encodes, utf-Encodes, member-Encodes, object-Encodes,
  end-Encodes, byte-Encodes, short-Encodes, encode_packet-total,
}

-- The decimal digits of a number, which are fewer than `suc n`.
decimal_at : ℕ → ℕ → Bytes → Bytes
decimal_at zero n rest = rest
decimal_at (suc fuel) n rest =
    let more = decimal_at fuel (n / 10) ((48 + n % 10) ∷ rest) in
    if n / 10 == 0 then (48 + n % 10) ∷ rest else more

unfoldable pub decimal : ℕ → Bytes
unfolding decimal_at
decimal n = decimal_at (suc n) n []

-- The json text {"userAction":…,"betAmount":…}. `amount` is what `json.dumps` writes for a bet, and
-- `none` for no bet, where the code writes 0 in place of 0.0.
unfoldable pub action_data : ℕ → Option Bytes → Bytes
action_data user_action amount =
    (123 ∷ 34 ∷ 117 ∷ 115 ∷ 101 ∷ 114 ∷ 65 ∷ 99 ∷ 116 ∷ 105 ∷ 111 ∷ 110 ∷ 34 ∷ 58 ∷ [])
    ++ decimal user_action
    ++ (44 ∷ 34 ∷ 98 ∷ 101 ∷ 116 ∷ 65 ∷ 109 ∷ 111 ∷ 117 ∷ 110 ∷ 116 ∷ 34 ∷ 58 ∷ [])
    ++ elim amount [ none ↦ 48 ∷ [] | some repr ↦ repr ]
    ++ (125 ∷ [])

-- "data"
abbrev data_key : Bytes
data_key = 100 ∷ 97 ∷ 116 ∷ 97 ∷ []

-- "game.user_action"
abbrev pub command : Bytes
command =
    103 ∷ 97 ∷ 109 ∷ 101 ∷ 46 ∷ 117 ∷ 115 ∷ 101 ∷ 114 ∷ 95 ∷ 97 ∷ 99 ∷ 116 ∷ 105 ∷ 111 ∷ 110 ∷ []

-- The keys "c", "a", "p" and "r".
abbrev pub c_key : Bytes
c_key = 99 ∷ []

abbrev pub a_key : Bytes
a_key = 97 ∷ []

abbrev pub p_key : Bytes
p_key = 112 ∷ []

abbrev pub r_key : Bytes
r_key = 114 ∷ []

unfoldable pub request : ℤ → Bytes → Members
request room content = member c_key (byte (pos 1)) (
    member a_key (short (pos 13)) (
      member p_key
        (object (
          member c_key (utf command) (
            member r_key (int room)
              (member p_key (object (member data_key (utf content) end)) end))))
        end))

unfoldable pub build_packet : ℤ → ℕ → Option Bytes → Option Bytes
unfolding request action_data
build_packet room user_action amount = encode_packet (request room (action_data user_action amount))

-- What the packet is read back as.
abbrev pub received : ℤ → Bytes → Value
received room content = dict (
    entry c_key (number (pos 1)) (
      entry a_key (number (pos 13)) (
        entry p_key
          (dict (
            entry c_key (text command) (
              entry r_key (number room)
                (entry p_key (dict (entry data_key (text content) stop)) stop))))
          stop)))

request-IsDict :
    (room : ℤ) (content : Bytes) → is_utf8 content ≡ true → IsDict (request room content)
unfolding request IsProper bytes_eq is_utf8
request-IsDict room content u = (
  refl,
  refl,
  tt,
  (
    refl,
    refl,
    tt,
    (refl, refl, (refl, refl, refl, (refl, refl, tt, (refl, refl, (refl, refl, u, tt), tt))), tt),
  ),
)

request-received :
    (room : ℤ) (content : Bytes)
    → dict (plain_members (request room content)) ≡ received room content
unfolding request plain low_byte
request-received room content = refl

module _ (room : ℕ) (content : Bytes) (h : room < 2_147_483_648) (k : length content ≤ 65_470) where
  int-Encodes : Encodes (enc_value (int (pos room))) 5
  unfolding enc_value i32 to_signed
  int-Encodes =
      join-Encodes (some (4 ∷ [])) (i32 (pos room)) 1 4 (some-Encodes (4 ∷ []))
        (to_bytes 4 room, ground arith, length-to_bytes 4 room)

  abbrev innermost : Members
  innermost = member data_key (utf content) end

  abbrev inner : Members
  inner =
      member c_key (utf command)
        (member r_key (int (pos room)) (member p_key (object innermost) end))

  innermost-Encodes : Encodes (enc_value (object innermost)) (12 + length content)
  innermost-Encodes =
      Encodes-eq _ _ _
        (object-Encodes innermost _ (omega arith) (
          member-Encodes data_key (utf content) end _ _ (omega arith)
            (utf-Encodes content (omega arith)) end-Encodes))
        (omega arith)

  inner-Encodes : Encodes (enc_value (object inner)) (48 + length content)
  inner-Encodes =
      Encodes-eq _ _ _
        (object-Encodes inner _ (omega arith) (
          member-Encodes c_key (utf command) _ _ _ (omega arith) (utf-Encodes command (omega arith))
            (member-Encodes r_key (int (pos room)) _ _ _ (omega arith) int-Encodes (
              member-Encodes p_key (object innermost) end _ _ (omega arith) innermost-Encodes
                end-Encodes))))
        (omega arith)

  request-Encodes : Encodes (enc_value (object (request (pos room) content))) (65 + length content)
  unfolding request
  request-Encodes =
      Encodes-eq _ _ _
        (object-Encodes (request (pos room) content) _ (omega arith) (
          member-Encodes c_key (byte (pos 1)) _ _ _ (omega arith) byte-Encodes (
            member-Encodes a_key (short (pos 13)) _ _ _ (omega arith) short-Encodes (
              member-Encodes p_key (object inner) end _ _ (omega arith) inner-Encodes
                end-Encodes))))
        (omega arith)

-- For a room that is a 32-bit number and a json text of at most 65470 bytes the action packet is
-- built, with 68 bytes around the text, and a decoder reads from it the command, the room and the
-- text that went in.
pub build_packet_lem :
    (inflate : Bytes → Option Bytes) (room user_action : ℕ) (amount : Option Bytes)
    → room < 2_147_483_648
    → is_utf8 (action_data user_action amount) ≡ true
    → length (action_data user_action amount) ≤ 65_470
    → (raw : Bytes) × (build_packet (pos room) user_action amount ≡ some raw)
      × (length raw ≡ 68 + length (action_data user_action amount))
      × (decode_packet inflate raw ≡ some (received (pos room) (action_data user_action amount)))
unfolding build_packet
build_packet_lem inflate room user_action amount h u k =
    let content = action_data user_action amount in
    let (raw, e, l) =
      encode_packet-total (request (pos room) content) (65 + length content)
        (request-Encodes room content h k) (omega arith) in
    (
      raw,
      e,
      omega (arith, l),
      decode_packet-encode_packet inflate _ raw (request-IsDict (pos room) content u) e
          ∙ ap some (request-received (pos room) content),
    )
