-- ===== src/CoinWire/Runs.antt =====
-- Concrete packets, and the theorems at concrete inputs.
use poker_eye_v.Prelude.{◌≡◌, refl, none, some, [], ◌∷◌}
use poker_eye_v.Prelude.Int.{negsuc}
use poker_eye_v.CoinWire.Octets.{Bytes, to_bytes, from_bytes_at, to_signed, u16, i16, is_utf8}
use poker_eye_v.CoinWire.{
  short, Members, end, member, Value, dict, enc_value, dec_value, dec_body, dec_sized, dec_text,
}
use poker_eye_v.CoinWire.Plain.{plain_members, IsProper, IsDict}
use poker_eye_v.CoinWire.Packets.{encode_packet, decode_packet, decode_packet-encode_packet}

-- {"a": -2}
abbrev small : Members
small = member (97 ∷ []) (short (negsuc 1)) end

abbrev small_bytes : Bytes
small_bytes = 128 ∷ 0 ∷ 9 ∷ 18 ∷ 0 ∷ 1 ∷ 0 ∷ 1 ∷ 97 ∷ 3 ∷ 255 ∷ 254 ∷ []

small_encoded : encode_packet small ≡ some small_bytes
unfolding encode_packet enc_value u16 i16 to_signed to_bytes
small_encoded = refl

small-IsDict : IsDict small
unfolding IsProper is_utf8
small-IsDict = (refl, refl, tt, tt)

-- A truncated text is read without an error.
truncated : dec_value 5 (8 ∷ 0 ∷ 9 ∷ 97 ∷ []) ≡ some (Value.text (97 ∷ []), [])
unfolding dec_value dec_body dec_sized dec_text from_bytes_at is_utf8
truncated = refl

decode_packet-encode_packet_example :
    decode_packet (λ bs. none) small_bytes ≡ some (dict (plain_members small))
decode_packet-encode_packet_example =
    decode_packet-encode_packet (λ bs. none) small small_bytes small-IsDict small_encoded
