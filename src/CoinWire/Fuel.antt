-- ===== src/CoinWire/Fuel.antt =====
-- The fuel of the decoder: a byte of the buffer pays for each level of nesting.
use poker_eye_v.Prelude.{
  ℕ, zero, suc, ◌≤◌, ◌<◌, ◌≡◌, ◌∙◌, sym, refl, Option, none, some, [], ◌∷◌, length, take, drop,
  length-drop, arith, Option-cases, inl, inr, ◌>>=◌,
}
use poker_eye_v.CoinWire.Octets.{Bytes, from_bytes}
use poker_eye_v.CoinWire.{
  Value, Entries, text, dict, stop, dec_byte, put, dec_text, dec_sized, dec_members, dec_body,
  dec_value,
}

abbrev Decoder : Type 0
Decoder = Bytes → Option (Value × Bytes)

-- No more is left than there was.
abbrev Shrinks : Decoder → Type 0
Shrinks dec =
    (bs : Bytes) (v : Value) (rest : Bytes) → dec bs ≡ some (v, rest) → length rest ≤ length bs

abbrev AgreeBelow : ℕ → Decoder → Decoder → Type 0
AgreeBelow n dec dec' = (bs : Bytes) → length bs < n → dec bs ≡ dec' bs

dec_sized-length : (bs k rest : Bytes) → dec_sized bs ≡ some (k, rest) → length rest ≤ length bs
unfolding dec_sized dec_text
dec_sized-length bs k rest e =
    ground (arith, length-drop 2 bs, length-drop (from_bytes (take 2 bs)) (drop 2 bs))

-- The loop with one more member, taken apart.
module _ (dec : Decoder) (n : ℕ) (out : Entries) (bs : Bytes) where
  dec_members-no_key : dec_sized bs ≡ none → dec_members dec (suc n) out bs ≡ none
  unfolding dec_members
  dec_members-no_key e = rw e refl

  dec_members-no_value :
      (k rest : Bytes)
      → dec_sized bs ≡ some (k, rest)
      → dec rest ≡ none
      → dec_members dec (suc n) out bs ≡ none
  unfolding dec_members
  dec_members-no_value k rest e f = rw e (rw f refl)

  pub dec_members-member :
      (k rest rest' : Bytes) (v : Value)
      → dec_sized bs ≡ some (k, rest)
      → dec rest ≡ some (v, rest')
      → dec_members dec (suc n) out bs ≡ dec_members dec n (put out k v) rest'
  unfolding dec_members
  dec_members-member k rest rest' v e f = rw e (rw f refl)

dec_members-length :
    (dec : Decoder) (n : ℕ) (out o : Entries) (bs rest : Bytes)
    → Shrinks dec
    → dec_members dec n out bs ≡ some (o, rest)
    → length rest ≤ length bs
unfolding dec_members
dec_members-length dec zero out o bs rest s e = ground (arith, e)
dec_members-length dec (suc n) out o bs rest s e = elim (Option-cases (dec_sized bs)) [
  | inl f ↦ absurd (cc (dec_members-no_key dec n out bs f, e))
  | inr ((k, r), f) ↦ elim (Option-cases (dec r)) [
    | inl g ↦ absurd (cc (dec_members-no_value dec n out bs k r f g, e))
    | inr ((v, r'), g) ↦ omega (
      arith,
      dec_members-length dec n (put out k v) o r' rest s
          (cc (dec_members-member dec n out bs k r r' v f g, e)),
      s r v r' g,
      dec_sized-length bs k r f,
    )
  ]
]

dec_members-agree :
    (dec dec' : Decoder) (n m : ℕ) (out : Entries) (bs : Bytes)
    → Shrinks dec
    → AgreeBelow m dec dec'
    → length bs < m
    → dec_members dec n out bs ≡ dec_members dec' n out bs
unfolding dec_members
dec_members-agree dec dec' zero m out bs s a h = refl
dec_members-agree dec dec' (suc n) m out bs s a h = elim (Option-cases (dec_sized bs)) [
  | inl f ↦ rw f refl
  | inr ((k, r), f) ↦
      let lr = dec_sized-length bs k r f in
      let same = a r (omega arith) in
      elim (Option-cases (dec r)) [
        | inl g ↦
            dec_members-no_value dec n out bs k r f g
            ∙ sym (dec_members-no_value dec' n out bs k r f (sym same ∙ g))
        | inr ((v, r'), g) ↦
            dec_members-member dec n out bs k r r' v f g
            ∙ dec_members-agree dec dec' n m (put out k v) r' s a (omega (arith, s r v r' g, lr))
            ∙ sym (dec_members-member dec' n out bs k r r' v f (sym same ∙ g))
      ]
]

dec_byte-length :
    (bs rest : Bytes) (v : Value) → dec_byte bs ≡ some (v, rest) → length rest ≤ length bs
unfolding dec_byte
dec_byte-length [] rest v e = absurd (cc e)
dec_byte-length (b ∷ bs) rest v e = ground (arith, e)

then-length :
    {A : Type 0} (f : A → Value) (n : ℕ) (o : Option (A × Bytes)) (v : Value) (rest : Bytes)
    → ((a : A) (r : Bytes) → o ≡ some (a, r) → length r ≤ n)
    → ◌≡◌ {A = Option (Value × Bytes)} (do (a, r) ← o; some (f a, r)) (some (v, rest))
    → length rest ≤ n
then-length f n none v rest h e = absurd (cc e)
then-length f n (some (a, r)) v rest h e = ground (arith, e, h a r refl)

dec_body-length :
    (dec : Decoder) (typ : ℕ) (bs rest : Bytes) (v : Value)
    → Shrinks dec
    → dec_body dec typ bs ≡ some (v, rest)
    → length rest ≤ length bs
unfolding dec_body
dec_body-length dec typ bs rest v s e = ground (
  arith,
  e,
  length-drop 2 bs,
  length-drop 4 bs,
  dec_byte-length bs rest v,
  then-length text (length bs) (dec_sized bs) v rest (λ k r. dec_sized-length bs k r),
  then-length dict (length bs) (dec_members dec (from_bytes (take 2 bs)) stop (drop 2 bs)) v rest
      (λ o r f. omega (
        arith,
        length-drop 2 bs,
        dec_members-length dec (from_bytes (take 2 bs)) stop o (drop 2 bs) r s f,
      )),
)

dec_value-Shrinks : (fuel : ℕ) → Shrinks (dec_value fuel)
unfolding dec_value
dec_value-Shrinks zero bs v rest e = absurd (cc e)
dec_value-Shrinks (suc fuel) [] v rest e = absurd (cc e)
dec_value-Shrinks (suc fuel) (typ ∷ bs) v rest e =
    omega (arith, dec_body-length (dec_value fuel) typ bs rest v (dec_value-Shrinks fuel) e)

dec_body-agree :
    (dec dec' : Decoder) (typ : ℕ) (bs : Bytes)
    → Shrinks dec
    → AgreeBelow (suc (length bs)) dec dec'
    → dec_body dec typ bs ≡ dec_body dec' typ bs
unfolding dec_body
dec_body-agree dec dec' typ bs s a =
    rw
      (dec_members-agree dec dec' (from_bytes (take 2 bs)) (suc (length bs)) stop (drop 2 bs) s a
        (omega (arith, length-drop 2 bs)))
      refl

-- Every fuel above the number of bytes gives the decoder the same result.
pub dec_value-fuel :
    (f g : ℕ) (bs : Bytes) → length bs < f → length bs < g → dec_value f bs ≡ dec_value g bs
unfolding dec_value
dec_value-fuel zero g bs h k = absurd (omega arith)
dec_value-fuel (suc f) zero bs h k = absurd (omega arith)
dec_value-fuel (suc f) (suc g) [] h k = refl
dec_value-fuel (suc f) (suc g) (typ ∷ bs) h k =
    dec_body-agree (dec_value f) (dec_value g) typ bs (dec_value-Shrinks f)
      (λ cs l. dec_value-fuel f g cs (omega arith) (omega arith))
