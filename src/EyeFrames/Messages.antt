-- ===== src/EyeFrames/Messages.antt =====
-- A reader of protobuf messages, by protobuf's rules, and what it reads of written fields.
use poker_eye_v.Prelude.{
  ℕ, zero, suc, ◌+◌, ◌*◌, ◌/◌, ◌%◌, ◌≤◌, ◌≡◌, ◌∙◌, sym, ap, refl, true, Option, none, some, List,
  [], ◌∷◌, ◌++◌, length, take, drop, take-append, drop-append, length-append, ◌==◌, if◌then◌else◌,
  arith, ◌>>=◌,
}
use mathlib.Core.List.{append_assoc, append-nil}
use poker_eye_v.Prelude.Int.{ℤ}
use poker_eye_v.EyeFrames.{
  Bytes, unsigned, varint_loop, varint, p_int, p_bytes, club_part, ppsrid_part,
}
use poker_eye_v.EyeFrames.Varint.{read_varint, read_varint-varint}

-- The wire types 0 and 2. A number is what stands on the wire, a 64-bit two's complement.
pub data Field : Type 0 where
  number : ℕ → ℕ → Field
  bytes : ℕ → Bytes → Field

unfoldable pub read_field : Bytes → Option (Field × Bytes)
read_field bs = do
  (tag, rest) ← read_varint bs
  if tag % 8 == 0
      then (do (n, rest') ← read_varint rest; some (number (tag / 8) n, rest'))
      else if tag % 8 == 2
      then (do (n, rest') ← read_varint rest; some (bytes (tag / 8) (take n rest'), drop n rest'))
      else none

-- Every field takes bytes, so that the fuel of the length is enough.
unfoldable pub read_fields : ℕ → Bytes → Option (List Field)
read_fields fuel [] = some []
read_fields zero (b ∷ bs) = none
read_fields (suc fuel) (b ∷ bs) = do
  (f, rest) ← read_field (b ∷ bs)
  fs ← read_fields fuel rest
  some (f ∷ fs)

pub read_message : Bytes → Option (List Field)
unfolding read_fields
read_message bs = read_fields (length bs) bs

abbrev pub write_field : Field → Bytes
write_field (number k n) = varint (k * 8) ++ varint n
write_field (bytes k bs) = varint (k * 8 + 2) ++ varint (length bs) ++ bs

abbrev pub write_fields : List Field → Bytes
write_fields [] = []
write_fields (f ∷ fs) = write_field f ++ write_fields fs

tag_number : (k : ℕ) → ((k * 8 % 8) == 0) ≡ true
tag_number k = ground arith

read_field-write_field :
    (f : Field) (rest : Bytes) → read_field (write_field f ++ rest) ≡ some (f, rest)
unfolding read_field
read_field-write_field (number k n) rest =
    let field : k * 8 / 8 ≡ k = omega arith in
    let wire : k * 8 % 8 ≡ 0 = omega arith in
    rw
      (
        append_assoc (varint (k * 8)) (varint n) rest,
        read_varint-varint (k * 8) (varint n ++ rest),
        wire,
        read_varint-varint n rest,
        field,
      )
      refl
read_field-write_field (bytes k bs) rest =
    let field : (k * 8 + 2) / 8 ≡ k = omega arith in
    let wire : (k * 8 + 2) % 8 ≡ 2 = omega arith in
    rw
      (
        append_assoc (varint (k * 8 + 2) ++ varint (length bs)) bs rest,
        append_assoc (varint (k * 8 + 2)) (varint (length bs)) (bs ++ rest),
        read_varint-varint (k * 8 + 2) (varint (length bs) ++ (bs ++ rest)),
        wire,
        read_varint-varint (length bs) (bs ++ rest),
        field,
        take-append bs rest,
        drop-append bs rest,
      )
      refl

length-varint : (n : ℕ) → 1 ≤ length (varint n)
unfolding varint varint_loop
length-varint n = ground arith

length-write_field : (f : Field) → 1 ≤ length (write_field f)
length-write_field (number k n) =
    omega (arith, length-append (varint (k * 8)) (varint n), length-varint (k * 8))
length-write_field (bytes k bs) = omega (
  arith,
  length-append (varint (k * 8 + 2) ++ varint (length bs)) bs,
  length-append (varint (k * 8 + 2)) (varint (length bs)),
  length-varint (k * 8 + 2),
)

read_fields-more :
    (fuel : ℕ) (bs rest : Bytes) (f : Field) (fs : List Field)
    → read_field bs ≡ some (f, rest)
    → read_fields fuel rest ≡ some fs
    → 1 ≤ length bs
    → read_fields (suc fuel) bs ≡ some (f ∷ fs)
unfolding read_fields
read_fields-more fuel [] rest f fs e g h = absurd (omega arith)
read_fields-more fuel (b ∷ bs) rest f fs e g h = rw e (rw g refl)

read_fields-write_fields :
    (fs : List Field) (fuel : ℕ)
    → length (write_fields fs) ≤ fuel
    → read_fields fuel (write_fields fs) ≡ some fs
unfolding read_fields
read_fields-write_fields [] zero h = refl
read_fields-write_fields [] (suc fuel) h = refl
read_fields-write_fields (f ∷ fs) zero h =
    absurd (omega (arith, length-append (write_field f) (write_fields fs), length-write_field f))
read_fields-write_fields (f ∷ fs) (suc fuel) h =
    let split = length-append (write_field f) (write_fields fs) in
    let some_bytes = length-write_field f in
    read_fields-more fuel _ (write_fields fs) f fs (read_field-write_field f (write_fields fs))
      (read_fields-write_fields fs fuel (omega (arith, split, some_bytes)))
      (omega (arith, split, some_bytes))

-- Any fields that are written are read back, in their order.
pub read_message-write_fields : (fs : List Field) → read_message (write_fields fs) ≡ some fs
unfolding read_message
read_message-write_fields fs = read_fields-write_fields fs _ (omega arith)

-- The bytes are those of the fields, part by part.
pub record Writes (bs : Bytes) (fs : List Field) : Type 0 where
  pub written : bs ≡ write_fields fs

both_written :
    (bs cs : Bytes) (fs gs : List Field)
    → bs ≡ write_fields fs
    → cs ≡ write_fields gs
    → bs ++ cs ≡ write_fields (fs ++ gs)
both_written bs cs [] gs e f = ap (λ x. x ++ cs) e ∙ f
both_written bs cs (g ∷ fs) gs e f =
    ap (λ x. x ++ cs) e
    ∙ append_assoc (write_field g) (write_fields fs) cs
    ∙ ap (λ x. write_field g ++ x) (both_written (write_fields fs) cs fs gs refl f)

pub both :
    {bs cs : Bytes} {fs gs : List Field}
    → Writes bs fs
    → Writes cs gs
    → Writes (bs ++ cs) (fs ++ gs)
both v w = record { written = both_written _ _ _ _ v.written w.written }

one : (f : Field) → Writes (write_field f) (f ∷ [])
one f = record { written = sym (append-nil (write_field f)) }

abbrev pub int_field : ℕ → ℤ → Field
int_field k n = number k (unsigned n)

pub one_int : (k : ℕ) (n : ℤ) → Writes (p_int k n true) (int_field k n ∷ [])
unfolding p_int
one_int k n = one (int_field k n)

pub one_bytes : (k : ℕ) (bs : Bytes) → Writes (p_bytes k bs) (bytes k bs ∷ [])
unfolding p_bytes
one_bytes k bs = one (bytes k bs)

abbrev pub club_fields : Option Bytes → List Field
club_fields none = []
club_fields (some []) = []
club_fields (some (b ∷ bs)) = bytes 9 (b ∷ bs) ∷ []

abbrev pub ppsrid_fields : Option ℤ → List Field
ppsrid_fields none = []
ppsrid_fields (some n) = int_field 14 n ∷ []

pub club_part-club_fields : (o : Option Bytes) → Writes (club_part o) (club_fields o)
club_part-club_fields none = record { written = refl }
club_part-club_fields (some []) = record { written = refl }
club_part-club_fields (some (b ∷ bs)) = one_bytes 9 (b ∷ bs)

pub ppsrid_part-ppsrid_fields : (o : Option ℤ) → Writes (ppsrid_part o) (ppsrid_fields o)
ppsrid_part-ppsrid_fields none = record { written = refl }
ppsrid_part-ppsrid_fields (some n) = one_int 14 n
