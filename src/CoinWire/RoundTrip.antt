-- ===== src/CoinWire/RoundTrip.antt =====
-- Decoding undoes encoding.
use poker_eye_v.Prelude.{
  ℕ, suc, ◌+◌, ◌-◌, ◌*◌, ◌^◌, ◌<◌, ◌≡◌, ◌∙◌, ap, refl, true, Option, none, some, [], ◌∷◌, ◌++◌,
  length, take, drop, take-append, drop-append, arith, subst,
}
use native.Mathlib.Omega.{pow_step}
use mathlib.Core.List.{append_assoc}
use poker_eye_v.Prelude.Int.{ℤ, pos, negsuc}
use poker_eye_v.CoinWire.Octets.{
  Bytes, to_bytes, from_bytes, u16, i16, i32, signed, from_signed, to_signed, is_utf8,
  length-to_bytes, from_bytes-to_bytes,
}
use poker_eye_v.CoinWire.{join, sized, dec_text, dec_sized}

-- Both parts of a sum of results are there.
pub join-some :
    (a b : Option Bytes) (c : Bytes)
    → join a b ≡ some c
    → (x y : Bytes) × (a ≡ some x) × (b ≡ some y) × (c ≡ x ++ y)
join-some none b c e = absurd (cc e)
join-some (some x) none c e = absurd (cc e)
join-some (some x) (some y) c e = (x, y, refl, refl, ground arith)

pub take-split : (n : ℕ) (xs ys : Bytes) → length xs ≡ n → take n (xs ++ ys) ≡ xs
take-split n xs ys e = subst (λ m. take m (xs ++ ys) ≡ xs) e (take-append xs ys)

pub drop-split : (n : ℕ) (xs ys : Bytes) → length xs ≡ n → drop n (xs ++ ys) ≡ ys
drop-split n xs ys e = subst (λ m. drop m (xs ++ ys) ≡ ys) e (drop-append xs ys)

pub u16-lem : (n : ℕ) (m : Bytes) → u16 n ≡ some m → (length m ≡ 2) × (from_bytes m ≡ n)
unfolding u16
u16-lem n m e = ground (arith, length-to_bytes 2 n, from_bytes-to_bytes 2 n)

from_signed-length :
    (w : ℕ) (bs : Bytes)
    → length bs ≡ suc w
    → from_signed bs ≡ signed (128 * 256 ^ w) (from_bytes bs)
unfolding from_signed
from_signed-length w [] e = absurd (omega arith)
from_signed-length w (b ∷ bs) e =
    ap (λ k. signed (128 * 256 ^ k) (from_bytes (b ∷ bs))) (ground (arith, e))

from_signed-to_bytes :
    (w half x : ℕ)
    → half ≡ 128 * 256 ^ w
    → x < half + half
    → from_signed (to_bytes (suc w) x) ≡ signed half x
from_signed-to_bytes w half x h k =
    from_signed-length w (to_bytes (suc w) x) (length-to_bytes (suc w) x)
    ∙ rw (from_bytes-to_bytes (suc w) x (omega (arith, pow_step 256 w)), ← h) refl

to_signed-lem :
    (w half : ℕ) (n : ℤ) (m : Bytes)
    → half ≡ 128 * 256 ^ w
    → to_signed (suc w) half n ≡ some m
    → (length m ≡ suc w) × (from_signed m ≡ n)
unfolding to_signed
to_signed-lem w half (pos n) m h e =
    ground (arith, length-to_bytes (suc w) n, from_signed-to_bytes w half n h)
to_signed-lem w half (negsuc n) m h e = ground (
  arith,
  length-to_bytes (suc w) (half + half - 1 - n),
  from_signed-to_bytes w half (half + half - 1 - n) h,
)

pub i16-lem : (n : ℤ) (m : Bytes) → i16 n ≡ some m → (length m ≡ 2) × (from_signed m ≡ n)
unfolding i16
i16-lem n m e = to_signed-lem 1 32_768 n m (omega arith) e

pub i32-lem : (n : ℤ) (m : Bytes) → i32 n ≡ some m → (length m ≡ 4) × (from_signed m ≡ n)
unfolding i32
i32-lem n m e = to_signed-lem 3 2_147_483_648 n m (omega arith) e

pub dec_sized-sized :
    (bs c rest : Bytes)
    → sized bs ≡ some c
    → is_utf8 bs ≡ true
    → dec_sized (c ++ rest) ≡ some (bs, rest)
unfolding dec_sized dec_text
dec_sized-sized bs c rest e u =
    let (m, y, em, ey, ec) = join-some (u16 (length bs)) (some bs) c e in
    let (l, n) = u16-lem (length bs) m em in
    let whole : c ++ rest ≡ m ++ (bs ++ rest) = ground (arith, ec, ey, append_assoc m bs rest) in
    rw
      (
        whole,
        take-split 2 m (bs ++ rest) l,
        drop-split 2 m (bs ++ rest) l,
        n,
        take-append bs rest,
        drop-append bs rest,
        u,
      )
      refl
