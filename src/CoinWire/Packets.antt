-- ===== src/CoinWire/Packets.antt =====
-- The packets of core/coin_wire.py: the frame around an encoded dict, and the action packet.
use poker_eye_v.Prelude.{
  ℕ, suc, ◌+◌, ◌/◌, ◌%◌, ◌≡◌, ◌∙◌, ap, refl, Bool, false, Option, none, some, [], ◌∷◌, ◌++◌, length,
  length-append, take, drop, arith, ◌>>=◌, ◌==◌, ltb, if◌then◌else◌, subst,
}
use mathlib.Core.List.{append-nil}
use poker_eye_v.CoinWire.Octets.{Bytes, from_bytes, u16}
use poker_eye_v.CoinWire.{object, Members, Value, dict, enc_value, join, dec_value}
use poker_eye_v.CoinWire.RoundTrip.{join-some, take-split, drop-split, u16-lem}
use poker_eye_v.CoinWire.Plain.{plain, plain_members, IsProper, IsDict}
use poker_eye_v.CoinWire.Inverse.{dec_value-enc_value}

-- `none` is the `ValueError` of a packet that is too large, or an error of the encoder.
unfoldable pub encode_packet : Members → Option Bytes
encode_packet ms = do
  payload ← enc_value (object ms)
  if ltb 0xFFFF (length payload)
      then none
      else join (join (some (0x80 ∷ [])) (u16 (length payload))) (some payload)

-- header & 0x08
abbrev pub is_wide : ℕ → Bool
is_wide header = header / 8 % 2 == 1

-- header & 0x20
abbrev pub is_compressed : ℕ → Bool
is_compressed header = header / 32 % 2 == 1

-- raw[p:p + n], where the length `n` stands in `width` bytes behind the header
abbrev pub payload_of : ℕ → Bytes → Bytes
payload_of width raw = take (from_bytes (take width (drop 1 raw))) (drop (1 + width) raw)

-- The value of a payload, with the fuel that is enough for its length.
abbrev pub dec_payload : Bytes → Option Value
dec_payload payload = do (obj, used) ← dec_value (suc (length payload)) payload; some obj

-- `inflate` is `zlib.decompress`; `none` is any exception.
unfoldable pub decode_packet : (Bytes → Option Bytes) → Bytes → Option Value
decode_packet inflate [] = none
decode_packet inflate (header ∷ raw) = if ltb (suc (length raw)) 3 then none else (do
  payload ←
      (let body = payload_of (if is_wide header then 4 else 2) (header ∷ raw) in
        if is_compressed header then inflate body else some body)
  dec_payload payload)

encoded-frame :
    (o : Option Bytes) (raw : Bytes)
    → (do
      payload ← o
      if ltb 0xFFFF (length payload)
          then none
          else join (join (some (0x80 ∷ [])) (u16 (length payload))) (some payload))
      ≡ some raw
    → (payload m : Bytes) × (o ≡ some payload)
      × (u16 (length payload) ≡ some m)
      × (raw ≡ 0x80 ∷ (m ++ payload))
encoded-frame none raw e = absurd (cc e)
encoded-frame (some payload) raw e =
    let f : join (join (some (0x80 ∷ [])) (u16 (length payload))) (some payload) ≡ some raw =
      ground arith in
    let (x, y, ex, ey, er) =
      join-some (join (some (0x80 ∷ [])) (u16 (length payload))) (some payload) raw f in
    let (w, m, ew, em, ex') = join-some (some (0x80 ∷ [])) (u16 (length payload)) x ex in
    (payload, m, refl, em, ground (arith, er, ex', ew, ey))

take-length : (xs : Bytes) → take (length xs) xs ≡ xs
take-length [] = refl
take-length (x ∷ xs) = ap (◌∷◌ x) (take-length xs)

decode_packet-frame :
    (inflate : Bytes → Option Bytes) (m payload : Bytes)
    → (length m ≡ 2) × (from_bytes m ≡ length payload)
    → decode_packet inflate (0x80 ∷ (m ++ payload)) ≡ dec_payload payload
unfolding decode_packet
decode_packet-frame inflate m payload (l, n) =
    let long : ltb (suc (length (m ++ payload))) 3 ≡ false =
      ground (arith, length-append m payload) in
    rw (long, take-split 2 m payload l, drop-split 2 m payload l, n, take-length payload) refl

dec_payload-some :
    (payload : Bytes) (v : Value)
    → dec_value (suc (length payload)) payload ≡ some (v, [])
    → dec_payload payload ≡ some v
dec_payload-some payload v e = rw e refl

-- What was encoded to a packet is decoded from it, and nothing is decompressed for it.
pub decode_packet-encode_packet :
    (inflate : Bytes → Option Bytes) (ms : Members) (raw : Bytes)
    → IsDict ms
    → encode_packet ms ≡ some raw
    → decode_packet inflate raw ≡ some (dict (plain_members ms))
unfolding encode_packet IsProper plain
decode_packet-encode_packet inflate ms raw p e =
    let (payload, m, ep, em, er) = encoded-frame (enc_value (object ms)) raw e in
    let read : dec_value (suc (length payload)) (payload ++ [])
        ≡ some (dict (plain_members ms), []) =
      dec_value-enc_value (object ms) (suc (length payload)) payload [] p ep (omega arith) in
    ap (decode_packet inflate) er
    ∙ decode_packet-frame inflate m payload (u16-lem (length payload) m em)
    ∙ dec_payload-some payload _ (
        subst (λ b. dec_value (suc (length payload)) b ≡ some (dict (plain_members ms), []))
          (append-nil payload) read)
