-- ===== src/CoinWire/Sizes.antt =====
-- When the encoder succeeds, and with how many bytes.
use poker_eye_v.Prelude.{
  ℕ, ◌+◌, ◌<◌, ◌≡◌, ◌∙◌, refl, false, Option, some, [], ◌∷◌, ◌++◌, length, length-append, arith,
  ltb,
}
use poker_eye_v.Prelude.Int.{pos}
use poker_eye_v.CoinWire.Octets.{Bytes, to_bytes, u16, i16, to_signed, length-to_bytes}
use poker_eye_v.CoinWire.{
  Sfs, byte, short, utf, object, Members, end, member, enc_value, enc_members, join, sized, count,
}
use poker_eye_v.CoinWire.Packets.{encode_packet}

-- The encoder succeeds, with so many bytes.
abbrev pub Encodes : Option Bytes → ℕ → Type 0
Encodes o n = (bs : Bytes) × (o ≡ some bs) × (length bs ≡ n)

pub some-Encodes : (bs : Bytes) → Encodes (some bs) (length bs)
some-Encodes bs = (bs, refl, refl)

pub Encodes-eq : (o : Option Bytes) (n m : ℕ) → Encodes o n → n ≡ m → Encodes o m
Encodes-eq o n m (x, e, l) q = (x, e, l ∙ q)

pub join-Encodes :
    (a b : Option Bytes) (n m : ℕ) → Encodes a n → Encodes b m → Encodes (join a b) (n + m)
join-Encodes a b n m (x, e, l) (y, f, k) =
    (x ++ y, rw e (rw f refl), omega (arith, length-append x y))

pub u16-Encodes : (n : ℕ) → n < 65_536 → Encodes (u16 n) 2
unfolding u16
u16-Encodes n h = (to_bytes 2 n, ground arith, length-to_bytes 2 n)

pub sized-Encodes : (bs : Bytes) → length bs < 65_536 → Encodes (sized bs) (2 + length bs)
sized-Encodes bs h =
    join-Encodes (u16 (length bs)) (some bs) 2 (length bs) (u16-Encodes (length bs) h)
      (some-Encodes bs)

pub utf-Encodes :
    (bs : Bytes) → length bs < 65_536 → Encodes (enc_value (utf bs)) (1 + (2 + length bs))
unfolding enc_value
utf-Encodes bs h =
    join-Encodes (some (8 ∷ [])) (sized bs) 1 (2 + length bs) (some-Encodes (8 ∷ []))
      (sized-Encodes bs h)

pub member-Encodes :
    (k : Bytes) (v : Sfs) (ms : Members) (n m : ℕ)
    → length k < 65_536
    → Encodes (enc_value v) n
    → Encodes (enc_members ms) m
    → Encodes (enc_members (member k v ms)) (2 + length k + n + m)
unfolding enc_value
member-Encodes k v ms n m h e f =
    join-Encodes (join (sized k) (enc_value v)) (enc_members ms) (2 + length k + n) m
      (join-Encodes (sized k) (enc_value v) (2 + length k) n (sized-Encodes k h) e) f

pub object-Encodes :
    (ms : Members) (m : ℕ)
    → count ms < 65_536
    → Encodes (enc_members ms) m
    → Encodes (enc_value (object ms)) (3 + m)
unfolding enc_value
object-Encodes ms m h f =
    join-Encodes (join (some (18 ∷ [])) (u16 (count ms))) (enc_members ms) 3 m
      (join-Encodes (some (18 ∷ [])) (u16 (count ms)) 1 2 (some-Encodes (18 ∷ []))
        (u16-Encodes (count ms) h))
      f

pub end-Encodes : Encodes (enc_members end) 0
unfolding enc_value
end-Encodes = ([], refl, refl)

pub byte-Encodes : Encodes (enc_value (byte (pos 1))) 2
unfolding enc_value
byte-Encodes = (_, refl, refl)

pub short-Encodes : Encodes (enc_value (short (pos 13))) 3
unfolding enc_value i16 to_signed to_bytes
short-Encodes = (_, refl, refl)

-- A payload of at most 65535 bytes makes a packet.
pub encode_packet-total :
    (ms : Members) (n : ℕ)
    → Encodes (enc_value (object ms)) n
    → n < 65_536
    → (raw : Bytes) × (encode_packet ms ≡ some raw) × (length raw ≡ 3 + n)
unfolding encode_packet
encode_packet-total ms n (payload, e, l) h =
    let fits : ltb 0xFFFF (length payload) ≡ false = ground (arith, l) in
    let (raw, f, k) =
      join-Encodes (join (some (0x80 ∷ [])) (u16 (length payload))) (some payload) 3
        (length payload)
        (join-Encodes (some (0x80 ∷ [])) (u16 (length payload)) 1 2 (some-Encodes (0x80 ∷ []))
          (u16-Encodes (length payload) (omega (arith, l))))
        (some-Encodes payload) in
    (raw, rw e (rw fits f), omega (arith, k, l))
