-- ===== src/CoinWire/Inverse.antt =====
-- `_dec_value` inverts `_enc_value`, at any nesting.
use poker_eye_v.Prelude.{
  ℕ, zero, suc, ◌+◌, ◌≤◌, ◌≡◌, ◌∙◌, ap, refl, true, Option, some, [], ◌∷◌, ◌++◌, length,
  length-append, arith,
}
use mathlib.Core.List.{append_assoc}
use poker_eye_v.Prelude.Int.{ℤ}
use poker_eye_v.CoinWire.Octets.{Bytes, u16, i16, i32, low_byte, is_utf8}
use poker_eye_v.CoinWire.{
  Sfs, byte, short, int, utf, object, Members, end, member, Value, number, text, dict, Entries,
  stop, entry, count, join, sized, enc_value, enc_members, dec_members, dec_byte, dec_body,
  dec_value,
}
use poker_eye_v.CoinWire.Fuel.{dec_members-member}
use poker_eye_v.CoinWire.RoundTrip.{
  join-some, take-split, drop-split, u16-lem, i16-lem, i32-lem, dec_sized-sized,
}
use poker_eye_v.CoinWire.Plain
use poker_eye_v.CoinWire.Plain.{
  plain, plain_members, IsProper, IsDict, append, Apart, Apart-stop, Apart-append, put-append,
}

-- The body behind each type byte.
module _ (dec : Bytes → Option (Value × Bytes)) (m rest : Bytes) where
  body-short : (n : ℤ) → i16 n ≡ some m → dec_body dec 3 (m ++ rest) ≡ some (number n, rest)
  unfolding dec_body
  body-short n e =
      let (l, s) = i16-lem n m e in rw (take-split 2 m rest l, drop-split 2 m rest l, s) refl

  body-int : (n : ℤ) → i32 n ≡ some m → dec_body dec 4 (m ++ rest) ≡ some (number n, rest)
  unfolding dec_body
  body-int n e =
      let (l, s) = i32-lem n m e in rw (take-split 4 m rest l, drop-split 4 m rest l, s) refl

  body-utf :
      (bs : Bytes)
      → sized bs ≡ some m
      → is_utf8 bs ≡ true
      → dec_body dec 8 (m ++ rest) ≡ some (text bs, rest)
  unfolding dec_body
  body-utf bs e u = rw (dec_sized-sized bs m rest e u) refl

  body-object :
      (n : ℕ) (c : Bytes) (o : Entries)
      → u16 n ≡ some m
      → dec_members dec n stop (c ++ rest) ≡ some (o, rest)
      → dec_body dec 18 ((m ++ c) ++ rest) ≡ some (dict o, rest)
  unfolding dec_body
  body-object n c o e f =
      let (l, s) = u16-lem n m e in
      rw (append_assoc m c rest, take-split 2 m (c ++ rest) l, drop-split 2 m (c ++ rest) l, s, f)
        refl

dec_value-body :
    (f typ : ℕ) (m bs rest : Bytes) (r : Value × Bytes)
    → bs ≡ typ ∷ m
    → length bs ≤ f
    → ((g : ℕ) → length m ≤ g → dec_body (dec_value g) typ (m ++ rest) ≡ some r)
    → dec_value f (bs ++ rest) ≡ some r
unfolding dec_value
dec_value-body zero typ m bs rest r e h k = absurd (omega (arith, ap length e))
dec_value-body (suc f) typ m bs rest r e h k = rw e (k f (omega (arith, ap length e)))

append-stop : (out : Entries) → append out stop ≡ out
append-stop stop = refl
append-stop (entry k v out) = ap (entry k v) (append-stop out)

mutual
  unfolding enc_value IsProper plain dec_value dec_body dec_byte dec_members

  pub dec_value-enc_value :
      (v : Sfs) (f : ℕ) (bs rest : Bytes)
      → IsProper v
      → enc_value v ≡ some bs
      → length bs ≤ f
      → dec_value f (bs ++ rest) ≡ some (plain v, rest)
  dec_value-enc_value (byte n) f bs rest p e h =
      dec_value-body f 2 (low_byte n ∷ []) bs rest _ (ground (arith, e)) h (λ g l. refl)
  dec_value-enc_value (short n) f bs rest p e h =
      let (x, m, ex, em, eb) = join-some (some (3 ∷ [])) (i16 n) bs e in
      dec_value-body f 3 m bs rest _ (ground (arith, eb, ex)) h
        (λ g l. body-short (dec_value g) m rest n em)
  dec_value-enc_value (int n) f bs rest p e h =
      let (x, m, ex, em, eb) = join-some (some (4 ∷ [])) (i32 n) bs e in
      dec_value-body f 4 m bs rest _ (ground (arith, eb, ex)) h
        (λ g l. body-int (dec_value g) m rest n em)
  dec_value-enc_value (utf t) f bs rest p e h =
      let (x, m, ex, em, eb) = join-some (some (8 ∷ [])) (sized t) bs e in
      dec_value-body f 8 m bs rest _ (ground (arith, eb, ex)) h
        (λ g l. body-utf (dec_value g) m rest t em p)
  dec_value-enc_value (object ms) f bs rest p e h =
      let (y, c, ey, ec, eb) =
        join-some (join (some (18 ∷ [])) (u16 (count ms))) (enc_members ms) bs e in
      let (x, m, ex, em, ey') = join-some (some (18 ∷ [])) (u16 (count ms)) y ey in
      dec_value-body f 18 (m ++ c) bs rest _ (ground (arith, eb, ey', ex)) h (λ g l.
        body-object (dec_value g) m rest (count ms) c (plain_members ms) em (
          dec_members-enc_members ms g c rest stop p ec (omega (arith, length-append m c))
            (Apart-stop ms)))

  pub dec_members-enc_members :
      (ms : Members) (f : ℕ) (bs rest : Bytes) (out : Entries)
      → IsDict ms
      → enc_members ms ≡ some bs
      → length bs ≤ f
      → Apart out ms
      → dec_members (dec_value f) (count ms) out (bs ++ rest)
        ≡ some (append out (plain_members ms), rest)
  dec_members-enc_members end f bs rest out p e h a = ground (arith, e, append-stop out)
  dec_members-enc_members (member k v ms) f bs rest out (uk, fresh, pv, p) e h (new, a) =
      let (w, z, ew, ez, eb) = join-some (join (sized k) (enc_value v)) (enc_members ms) bs e in
      let (x, y, ex, ey, ew') = join-some (sized k) (enc_value v) w ew in
      let split : bs ++ rest ≡ x ++ (y ++ (z ++ rest)) =
        ap (λ b. b ++ rest) (eb ∙ ap (λ u. u ++ z) ew')
        ∙ append_assoc (x ++ y) z rest
        ∙ append_assoc x y (z ++ rest) in
      let fits : length w + length z ≤ f = omega (arith, ap length eb, length-append w z) in
      let out' = append out (entry k (plain v) stop) in
      ap (dec_members (dec_value f) (suc (count ms)) out) split
      ∙ dec_members-member (dec_value f) (count ms) out (x ++ (y ++ (z ++ rest))) k
          (y ++ (z ++ rest)) (z ++ rest) (plain v) (dec_sized-sized k x (y ++ (z ++ rest)) ex uk)
          (dec_value-enc_value v f y (z ++ rest) pv ey
            (omega (arith, ap length ew', length-append x y, fits)))
      ∙ ap (λ o. dec_members (dec_value f) (count ms) o (z ++ rest))
          (put-append out k (plain v) new)
      ∙ dec_members-enc_members ms f z rest out' p ez (omega (arith, fits))
          (Apart-append out k (plain v) ms a fresh)
      ∙ ap (λ o. some (o, rest))
          (Plain.append_assoc out (entry k (plain v) stop) (plain_members ms))
