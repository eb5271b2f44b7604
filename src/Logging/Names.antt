-- ===== src/Logging/Names.antt =====
-- What `_safe` makes of any text is a name of a directory in its parent.
use poker_eye_v.Prelude.{
  ℕ, zero, suc, ◌≤◌, ◌≡◌, refl, Bool, true, false, [], ◌∷◌, arith, length, take, All, if◌then◌else◌,
  Bool-cases, inl, inr,
}
use poker_eye_v.Logging.{
  Text, is_safe, is_edge, replace_unsafe, strip_start, strip_end, keep_start, or_text, safe,
}

abbrev AllSafe : Text → Type 0
AllSafe t = All (λ c. is_safe c ≡ true) t

-- The text is empty, or begins with another character than "." and "_".
abbrev StartsWell : Text → Type 0
StartsWell [] = Unit
StartsWell (c ∷ cs) = is_edge c ≡ false

-- A text of 1 to 96 letters, digits, ".", "_" and "-", which begins with none of "." and "_": so it is
-- neither "." nor "..", and has no separator.
pub record IsName (t : Text) : Type 0 where
  pub all_safe : All (λ c. is_safe c ≡ true) t
  pub some_text : 1 ≤ length t
  pub short : length t ≤ 96
  pub start : StartsWell t

replaced-AllSafe : (inside : Bool) (t : Text) → AllSafe t → AllSafe (if inside then t else 95 ∷ t)
replaced-AllSafe true t h = h
replaced-AllSafe false t h = (refl, h)

replace_unsafe-AllSafe : (inside : Bool) (t : Text) → AllSafe (replace_unsafe inside t)
unfolding replace_unsafe
replace_unsafe-AllSafe inside [] = tt
replace_unsafe-AllSafe inside (c ∷ cs) = elim (Bool-cases (is_safe c)) [
  | inl e ↦ rw e (e, replace_unsafe-AllSafe false cs)
  | inr e ↦ rw e (replaced-AllSafe inside (replace_unsafe true cs) (replace_unsafe-AllSafe true cs))
]

strip_start-AllSafe : (t : Text) → AllSafe t → AllSafe (strip_start t)
unfolding strip_start
strip_start-AllSafe [] h = tt
strip_start-AllSafe (c ∷ cs) (s, h) = elim (Bool-cases (is_edge c)) [
  | inl e ↦ rw e (strip_start-AllSafe cs h)
  | inr e ↦ rw e (s, h)
]

strip_start-StartsWell : (t : Text) → StartsWell (strip_start t)
unfolding strip_start
strip_start-StartsWell [] = tt
strip_start-StartsWell (c ∷ cs) = elim (Bool-cases (is_edge c)) [
  | inl e ↦ rw e (strip_start-StartsWell cs)
  | inr e ↦ rw e e
]

keep_start-AllSafe : (c : ℕ) (t : Text) → is_safe c ≡ true → AllSafe t → AllSafe (keep_start c t)
keep_start-AllSafe c [] s h = elim (Bool-cases (is_edge c)) [
  | inl e ↦ rw e tt
  | inr e ↦ rw e (s, tt)
]
keep_start-AllSafe c (d ∷ ds) s h = (s, h)

strip_end-AllSafe : (t : Text) → AllSafe t → AllSafe (strip_end t)
unfolding strip_end
strip_end-AllSafe [] h = tt
strip_end-AllSafe (c ∷ cs) (s, h) = keep_start-AllSafe c (strip_end cs) s (strip_end-AllSafe cs h)

keep_start-StartsWell : (c : ℕ) (t : Text) → is_edge c ≡ false → StartsWell (keep_start c t)
keep_start-StartsWell c [] e = rw e e
keep_start-StartsWell c (d ∷ ds) e = e

strip_end-StartsWell : (t : Text) → StartsWell t → StartsWell (strip_end t)
unfolding strip_end
strip_end-StartsWell [] h = tt
strip_end-StartsWell (c ∷ cs) h = keep_start-StartsWell c (strip_end cs) h

take-AllSafe : (n : ℕ) (t : Text) → AllSafe t → AllSafe (take n t)
take-AllSafe zero t h = tt
take-AllSafe (suc n) [] h = tt
take-AllSafe (suc n) (c ∷ cs) (s, h) = (s, take-AllSafe n cs h)

take-StartsWell : (n : ℕ) (t : Text) → StartsWell t → StartsWell (take n t)
take-StartsWell zero t h = tt
take-StartsWell (suc n) [] h = tt
take-StartsWell (suc n) (c ∷ cs) h = h

or_text-IsName :
    (t fallback : Text)
    → AllSafe t
    → length t ≤ 96
    → StartsWell t
    → IsName fallback
    → IsName (or_text t fallback)
or_text-IsName [] fallback s l w f = f
or_text-IsName (c ∷ cs) fallback s l w f = record {
  all_safe = s;
  some_text = omega arith;
  short = l;
  start = w;
}

take-le : (n : ℕ) (t : Text) → length (take n t) ≤ n
take-le zero t = omega arith
take-le (suc n) [] = omega arith
take-le (suc n) (c ∷ cs) = omega (arith, take-le n cs)

-- With a fallback that is a name (1 to 96 letters, digits, ".", "_" and "-", the first of them neither
-- "." nor "_"), what `_safe` makes of any text is a name.
pub safe-IsName : (value fallback : Text) → IsName fallback → IsName (safe value fallback)
unfolding safe
safe-IsName value fallback f =
    let start = strip_start (replace_unsafe false value) in
    let stripped = strip_end start in
    or_text-IsName (take 96 stripped) fallback
      (take-AllSafe 96 stripped (
        strip_end-AllSafe start
          (strip_start-AllSafe (replace_unsafe false value) (replace_unsafe-AllSafe false value))))
      (take-le 96 stripped)
      (take-StartsWell 96 stripped
        (strip_end-StartsWell start (strip_start-StartsWell (replace_unsafe false value))))
      f
