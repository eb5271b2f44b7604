-- ===== src/Dict/Keys.antt =====
-- The list of a dictionary's keys: what is in it, and that each key stands there once.
use poker_eye_v.Prelude.{◌≡◌, ◌≢◌, none, some, List, [], ◌∷◌, Key, arith, All}
use poker_eye_v.Dict.Defs.{Dict, get, keys}
use poker_eye_v.Dict.Laws.{Distinct}

module _ {ℓ} {K V : Type ℓ} ⦃key : Key K⦄ where
  -- What holds of every key holds of a key that is present.
  pub All-keys-get :
      (P : K → Type ℓ) (d : Dict K V) (k : K) (v : V) → All P (keys d) → get d k ≡ some v → P k
  unfolding get keys
  All-keys-get P [] k v a e = absurd (cc)
  All-keys-get P ((j, w) ∷ d) k v a e = elim (key.same j k) [
    | yes p ↦ rw p at a.0
    | no n ↦ All-keys-get P d k v a.1 (ground arith)
  ]

  -- An absent key is not among the keys.
  pub keys-ne_of_none : (d : Dict K V) (k : K) → get d k ≡ none → All (λ j. j ≢ k) (keys d)
  unfolding get keys
  keys-ne_of_none [] k e = tt
  keys-ne_of_none ((j, w) ∷ d) k e = (ground arith, keys-ne_of_none d k (ground arith))

  -- Keys to be visited: all are present in `d`, and none comes twice.
  abbrev pub Ready : Dict K V → List K → Type ℓ
  Ready d [] = Unit
  Ready d (k ∷ ks) = (get d k ≢ none) × All (λ j. j ≢ k) ks × Ready d ks

  pub Ready-change :
      (d e : Dict K V) (k : K) (ks : List K)
      → ((j : K) → j ≢ k → get e j ≡ get d j)
      → All (λ j. j ≢ k) ks
      → Ready d ks
      → Ready e ks
  Ready-change d e k [] same a r = tt
  Ready-change d e k (j ∷ ks) same a r =
      (rw (same j a.0) r.0, r.1, Ready-change d e k ks same a.1 r.2)

  Ready-cons :
      (k : K) (v : V) (d : Dict K V) (ks : List K)
      → All (λ j. j ≢ k) ks
      → Ready d ks
      → Ready ((k, v) ∷ d) ks
  unfolding get
  Ready-cons k v d [] a r = tt
  Ready-cons k v d (j ∷ ks) a r = (ground (arith, a.0, r.0), r.1, Ready-cons k v d ks a.1 r.2)

  -- The keys of a dictionary are ready to be visited.
  pub Ready-keys : (d : Dict K V) → Distinct d → Ready d (keys d)
  unfolding get keys
  Ready-keys [] h = tt
  Ready-keys ((k, v) ∷ d) h =
      let fresh = keys-ne_of_none d k h.0 in
      (ground arith, fresh, Ready-cons k v d (keys d) fresh (Ready-keys d h.1))

  -- What holds of every value that `get` finds holds of every entry.
  abbrev pub AllEntries : (K → V → Type ℓ) → Dict K V → Type ℓ
  AllEntries P [] = Unit
  AllEntries P ((k, v) ∷ d) = P k v × AllEntries P d

  pub AllEntries-get :
      (P : K → V → Type ℓ) (d : Dict K V)
      → Distinct d
      → ((k : K) (v : V) → get d k ≡ some v → P k v)
      → AllEntries P d
  unfolding get
  AllEntries-get P [] h f = tt
  AllEntries-get P ((k, v) ∷ d) h f =
      (f k v (ground arith), AllEntries-get P d h.1 λ j w e. f j w (ground (arith, h.0)))
