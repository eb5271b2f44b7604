-- ===== src/Slots/Claims.antt =====
-- Slots are claimed by one table each, from 1 to the total.
use poker_eye_v.Prelude.{
  ℕ, ◌≤◌, ◌<◌, ◌≡◌, ◌⊎◌, inl, inr, true, false, none, some, List, [], ◌∷◌, arith, pair_key,
  string_key, Option-cases, Bool-cases, ℕ_discrete,
}
use poker_eye_v.Prelude.Lowest.{lowest, lowest-some, lowest-least, lowest-none}
use poker_eye_v.Dict
use poker_eye_v.Dict.{
  Dict, get-put, get-put_self, get-remove, get-remove_self, Distinct, Distinct-remove,
}
use poker_eye_v.Slots.{ConnectionKey, SlotPool, is_used, reserve, release}

is_used_of_get :
    (d : Dict ConnectionKey ℕ) (k : ConnectionKey) (n : ℕ)
    → Dict.get d k ≡ some n
    → is_used d n ≡ true
unfolding is_used Dict.get
is_used_of_get [] k n e = cc
is_used_of_get ((j, m) ∷ d) k n e = ground (arith, is_used_of_get d k n)

-- Each claim lies from 1 to the total, and no two keys claim one slot.
pub record IsSound (p : SlotPool) : Type 0 where
  pub in_range :
      (k : ConnectionKey) (n : ℕ) → Dict.get p.claims k ≡ some n → (1 ≤ n) × (n ≤ p.total)
  pub apart :
      (j k : ConnectionKey) (n : ℕ)
      → Dict.get p.claims j ≡ some n
      → Dict.get p.claims k ≡ some n
      → j ≡ k

pub data Call : Type 0 where
  reserves releases : ConnectionKey → Call

unfoldable pub step : SlotPool → Call → SlotPool
step p (reserves key) = (reserve p key).0
step p (releases key) = (release p key).0

unfoldable pub run : SlotPool → List Call → SlotPool
run p [] = p
run p (c ∷ cs) = run (step p c) cs

module _ (p : SlotPool) (key : ConnectionKey) (v : IsSound p) where
  reserve_in_range :
      (k : ConnectionKey) (n : ℕ)
      → Dict.get (reserve p key).0.claims k ≡ some n
      → (1 ≤ n) × (n ≤ (reserve p key).0.total)
  unfolding reserve
  reserve_in_range k n e = elim (Option-cases (lowest (is_used p.claims) 1 p.total)) [
    | inl f ↦ ground (arith, v.in_range k n)
    | inr (m, f) ↦ ground (
      arith,
      get-put p.claims key m k,
      lowest-some (is_used p.claims) 1 p.total m f,
      v.in_range k n,
    )
  ]

  reserve_apart :
      (j k : ConnectionKey) (n : ℕ)
      → Dict.get (reserve p key).0.claims j ≡ some n
      → Dict.get (reserve p key).0.claims k ≡ some n
      → j ≡ k
  unfolding reserve
  reserve_apart j k n e e' = elim (Option-cases (lowest (is_used p.claims) 1 p.total)) [
    | inl f ↦ ground (arith, v.apart j k n)
    | inr (m, f) ↦ ground (
      arith,
      get-put p.claims key m j,
      get-put p.claims key m k,
      lowest-some (is_used p.claims) 1 p.total m f,
      is_used_of_get p.claims j m,
      is_used_of_get p.claims k m,
      v.apart j k n,
    )
  ]

step-IsSound : (p : SlotPool) (c : Call) → IsSound p → IsSound (step p c)
unfolding step release
step-IsSound p (reserves key) v = record {
  in_range = reserve_in_range p key v;
  apart = reserve_apart p key v;
}
step-IsSound p (releases key) v = record {
  in_range = λ k n e. ground (arith, get-remove p.claims key k, v.in_range k n);
  apart = λ j k n e f.
      ground (arith, get-remove p.claims key j, get-remove p.claims key k, v.apart j k n);
}

-- After any reservations and releases the claims lie from 1 to the total, each slot with one table.
pub pool_run-IsSound : (p : SlotPool) (cs : List Call) → IsSound p → IsSound (run p cs)
unfolding run
pool_run-IsSound p [] v = v
pool_run-IsSound p (c ∷ cs) v = pool_run-IsSound (step p c) cs (step-IsSound p c v)

-- A reservation returns the key's own slot if it has one, and else the lowest slot that nobody
-- claims, which is then the key's; it fails only if every slot is claimed, and then changes nothing.
pub reserve_lem :
    (p : SlotPool) (key : ConnectionKey)
    → ((n : ℕ) × ((reserve p key).1 ≡ some n)
        × (Dict.get (reserve p key).0.claims key ≡ some n)
        × ((Dict.get p.claims key ≡ some n)
            ⊎ ((is_used p.claims n ≡ false)
                × (n ≤ p.total)
                × ((m : ℕ) → 1 ≤ m → m < n → is_used p.claims m ≡ true))))
      ⊎ (((m : ℕ) → 1 ≤ m → m ≤ p.total → is_used p.claims m ≡ true) × (reserve p key ≡ (p, none)))
unfolding reserve
reserve_lem p key = elim (Option-cases (Dict.get p.claims key)) [
  | inr (n, e) ↦ inl (n, ground arith, ground arith, inl e)
  | inl e ↦ elim (Option-cases (lowest (is_used p.claims) 1 p.total)) [
    | inl f ↦
        inr (λ m h k. lowest-none (is_used p.claims) 1 p.total m f h (omega arith), ground arith)
    | inr (n, f) ↦
        let (lo, hi, free) = lowest-some (is_used p.claims) 1 p.total n f in
        inl (
          n,
          ground arith,
          ground (arith, get-put_self p.claims key n),
          inr (free, omega arith, λ m. lowest-least (is_used p.claims) 1 p.total n m f),
        )
  ]
]

is_used-get :
    (d : Dict ConnectionKey ℕ) (n : ℕ)
    → Distinct d
    → is_used d n ≡ true
    → (k : ConnectionKey) × (Dict.get d k ≡ some n)
unfolding is_used Dict.get
is_used-get [] n v e = absurd (cc e)
is_used-get ((j, m) ∷ d) n v e = elim (ℕ_discrete m n) [
  | yes p ↦ (j, ground (arith, p))
  | no q ↦ let (k, f) = is_used-get d n v.1 (ground (arith, q, e)) in (k, ground (arith, v.0, f))
]

-- A released slot is nobody's.
pub release-frees :
    (p : SlotPool) (key : ConnectionKey) (n : ℕ)
    → IsSound p
    → Distinct p.claims
    → Dict.get p.claims key ≡ some n
    → is_used (release p key).0.claims n ≡ false
unfolding release
release-frees p key n v u e = elim (Bool-cases (is_used (Dict.remove p.claims key) n)) [
  | inr f ↦ f
  | inl f ↦
      let (k, g) = is_used-get (Dict.remove p.claims key) n (Distinct-remove p.claims key u) f in
      absurd (ground (arith, get-remove p.claims key k, g, v.apart k key n, e))
]

-- After a release every key can be given a slot.
pub reserve-release :
    (p : SlotPool) (key other : ConnectionKey) (n : ℕ)
    → IsSound p
    → Distinct p.claims
    → Dict.get p.claims key ≡ some n
    → (m : ℕ) × ((reserve (release p key).0 other).1 ≡ some m)
reserve-release p key other n v u e = elim (reserve_lem (release p key).0 other) [
  | inl (m, f, claim, why) ↦ (m, f)
  | inr (full, f) ↦
      let (lo, hi) = v.in_range key n e in
      absurd (cc (full n lo (unfold release in hi), release-frees p key n v u e))
]
