-- ===== src/CoinWire/Octets.antt =====
-- Bytes as native numbers: `int.to_bytes` and `int.from_bytes`, big-endian, and UTF-8.
use poker_eye_v.Prelude.{
  ℕ, zero, suc, ◌+◌, ◌-◌, ◌*◌, ◌/◌, ◌%◌, ◌^◌, ◌<◌, ◌≡◌, ◌∙◌, refl, Bool, false, ◌&&◌, Option, none,
  some, List, [], ◌∷◌, ◌++◌, length, length-append, ltb, leb, ◌==◌, if◌then◌else◌, arith,
}
use native.Mathlib.Omega.{pow_step}
use poker_eye_v.Prelude.Int.{ℤ, pos, negsuc}

abbrev pub Bytes : Type 0
Bytes = List ℕ

-- `n.to_bytes(width, "big")` of the low bytes of `n`
unfoldable pub to_bytes : ℕ → ℕ → Bytes
to_bytes zero n = []
to_bytes (suc width) n = to_bytes width (n / 256) ++ n % 256 ∷ []

unfoldable pub from_bytes_at : ℕ → Bytes → ℕ
from_bytes_at n [] = n
from_bytes_at n (b ∷ bs) = from_bytes_at (n * 256 + b) bs

-- int.from_bytes(bs, "big")
abbrev pub from_bytes : Bytes → ℕ
from_bytes bs = from_bytes_at 0 bs

-- int(n).to_bytes(2, "big", signed=False); `none` is the `OverflowError`
unfoldable pub u16 : ℕ → Option Bytes
u16 n = if ltb n 65_536 then some (to_bytes 2 n) else none

-- The number whose `bits`-bit two's complement is `n`; `half` is 2 ^ (bits - 1).
abbrev pub signed : ℕ → ℕ → ℤ
signed half n = if ltb n half then pos n else negsuc (half + half - 1 - n)

-- int.from_bytes(bs, "big", signed=True), of however many bytes there are
unfoldable pub from_signed : Bytes → ℤ
from_signed [] = pos 0
from_signed (b ∷ bs) = signed (128 * 256 ^ length bs) (from_bytes (b ∷ bs))

-- n.to_bytes(width, "big", signed=True)
unfoldable pub to_signed : ℕ → ℕ → ℤ → Option Bytes
to_signed width half (pos n) = if ltb n half then some (to_bytes width n) else none
to_signed width half (negsuc n) =
    if ltb n half then some (to_bytes width (half + half - 1 - n)) else none

unfoldable pub i16 : ℤ → Option Bytes
unfolding to_signed
i16 n = to_signed 2 32_768 n

unfoldable pub i32 : ℤ → Option Bytes
unfolding to_signed
i32 n = to_signed 4 2_147_483_648 n

-- value & 0xFF
unfoldable pub low_byte : ℤ → ℕ
low_byte (pos n) = n % 256
low_byte (negsuc n) = 255 - n % 256

from_bytes_at-append :
    (n : ℕ) (bs : Bytes) (b : ℕ) → from_bytes_at n (bs ++ b ∷ []) ≡ from_bytes_at n bs * 256 + b
unfolding from_bytes_at
from_bytes_at-append n [] b = refl
from_bytes_at-append n (c ∷ bs) b = from_bytes_at-append (n * 256 + c) bs b

pub length-to_bytes : (width n : ℕ) → length (to_bytes width n) ≡ width
unfolding to_bytes
length-to_bytes zero n = refl
length-to_bytes (suc width) n = omega (
  arith,
  length-append (to_bytes width (n / 256)) (n % 256 ∷ []),
  length-to_bytes width (n / 256),
)

-- The bytes of a number that fits are read back as that number.
pub from_bytes-to_bytes : (width n : ℕ) → n < 256 ^ width → from_bytes (to_bytes width n) ≡ n
unfolding to_bytes from_bytes_at
from_bytes-to_bytes zero n h = omega arith
from_bytes-to_bytes (suc width) n h =
    from_bytes_at-append 0 (to_bytes width (n / 256)) (n % 256)
    ∙ omega (arith, from_bytes-to_bytes width (n / 256) (omega (arith, pow_step 256 width)))

-- UTF-8: the bytes that are still to come in a character, and the bounds of the next one.
record Expected : Type 0 where
  more : ℕ
  low : ℕ
  high : ℕ

abbrev expect : ℕ → ℕ → ℕ → Expected
expect more low high = record { more = more; low = low; high = high }

-- A character begins: no overlong form, no surrogate, none above U+10FFFF.
utf8_lead : ℕ → Option Expected
utf8_lead b =
    if ltb b 0x80
    then some (expect 0 0 0)
    else if ltb b 0xC2
    then none
    else if ltb b 0xE0
    then some (expect 1 0x80 0xBF)
    else if b == 0xE0
    then some (expect 2 0xA0 0xBF)
    else if b == 0xED
    then some (expect 2 0x80 0x9F)
    else if ltb b 0xF0
    then some (expect 2 0x80 0xBF)
    else if b == 0xF0
    then some (expect 3 0x90 0xBF)
    else if ltb b 0xF4
    then some (expect 3 0x80 0xBF)
    else if b == 0xF4
    then some (expect 3 0x80 0x8F)
    else none

utf8_byte : Expected → ℕ → Option Expected
unfolding utf8_lead
utf8_byte s b = elim s.more [
  | zero ↦ utf8_lead b
  | suc n ↦ if leb s.low b && leb b s.high then some (expect n 0x80 0xBF) else none
]

utf8_rest : Option Expected → Bytes → Bool
unfolding utf8_byte
utf8_rest none bs = false
utf8_rest (some s) [] = s.more == 0
utf8_rest (some s) (b ∷ bs) = utf8_rest (utf8_byte s b) bs

-- `bs.decode("utf-8")` does not raise.
unfoldable pub is_utf8 : Bytes → Bool
unfolding utf8_rest
is_utf8 bs = utf8_rest (some (expect 0 0 0)) bs
