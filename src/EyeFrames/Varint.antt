-- ===== src/EyeFrames/Varint.antt =====
-- A varint read by the rules of protobuf is the number that was written.
use poker_eye_v.Prelude.{
  ℕ, zero, suc, ◌+◌, ◌-◌, ◌*◌, ◌/◌, ◌%◌, ◌≤◌, ◌<◌, ◌≡◌, ◌∙◌, true, false, Option, none, some, [],
  ◌∷◌, ◌++◌, ltb, ◌==◌, if◌then◌else◌, arith, ◌>>=◌, Bool-cases, inl, inr, ap,
}
use poker_eye_v.EyeFrames.{Bytes, varint_loop, varint}

-- The groups of seven bits come lowest first, and each but the last has 128 added.
unfoldable pub read_varint : Bytes → Option (ℕ × Bytes)
read_varint [] = none
read_varint (b ∷ bs) =
    let more = (do (n, rest) ← read_varint bs; some (b - 128 + 128 * n, rest)) in
    if ltb b 128 then some (b, bs) else more

read_varint-more :
    (b n : ℕ) (bs rest : Bytes)
    → 128 ≤ b
    → read_varint bs ≡ some (n, rest)
    → read_varint (b ∷ bs) ≡ some (b - 128 + 128 * n, rest)
unfolding read_varint
read_varint-more b n bs rest h e = ground (arith, e)

read_varint-last : (b : ℕ) (bs : Bytes) → b < 128 → read_varint (b ∷ bs) ≡ some (b, bs)
unfolding read_varint
read_varint-last b bs h = ground arith

zero_of_test : (n : ℕ) → (n == 0) ≡ true → n ≡ 0
zero_of_test n e = ground arith

nonzero_of_test : (n : ℕ) → (n == 0) ≡ false → 0 < n
nonzero_of_test n e = ground arith

pub read_varint-varint_loop :
    (fuel n : ℕ) (rest : Bytes)
    → n < fuel
    → read_varint (varint_loop fuel n ++ rest) ≡ some (n, rest)
unfolding read_varint varint_loop
read_varint-varint_loop zero n rest h = absurd (omega arith)
read_varint-varint_loop (suc fuel) n rest h = elim (Bool-cases (n / 128 == 0)) [
  | inl e ↦
      let small = zero_of_test (n / 128) e in
      rw e (
        read_varint-last (n % 128) rest (omega arith)
        ∙ ap (λ k. some (k, rest)) (omega (arith, small)))
  | inr e ↦
      let big = nonzero_of_test (n / 128) e in
      rw e (
        read_varint-more (n % 128 + 128) (n / 128) (varint_loop fuel (n / 128) ++ rest) rest
          (omega arith) (read_varint-varint_loop fuel (n / 128) rest (omega (arith, big)))
        ∙ ap (λ k. some (k, rest)) (omega arith))
]

-- Every number is read back from its varint, with what stands behind it.
pub read_varint-varint : (n : ℕ) (rest : Bytes) → read_varint (varint n ++ rest) ≡ some (n, rest)
unfolding varint
read_varint-varint n rest = read_varint-varint_loop (suc n) n rest (omega arith)
