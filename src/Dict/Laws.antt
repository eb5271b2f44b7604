-- ===== src/Dict/Laws.antt =====
-- Laws of the dictionary operations, under which clients use them shut.
use poker_eye_v.Prelude.{◌+◌, ◌≡◌, ◌≢◌, refl, none, some, [], ◌∷◌, ite, Key, arith}
use poker_eye_v.Dict.Defs.{Dict, empty, get, put, remove, size}

module _ {ℓ} {K V : Type ℓ} ⦃key : Key K⦄ where
  pub get-empty : (k : K) → get (empty {K = K} {V = V}) k ≡ none
  unfolding get
  get-empty k = refl

  pub get-put :
      (d : Dict K V) (k : K) (v : V) (j : K)
      → get (put d k v) j ≡ ite (key.same k j) (some v) (get d j)
  unfolding get put
  get-put [] k v j = refl
  get-put ((i, w) ∷ d) k v j = ground (arith, get-put d k v j)

  pub get-remove : (d : Dict K V) (k j : K) → get (remove d k) j ≡ ite (key.same k j) none (get d j)
  unfolding get remove
  get-remove [] k j = ground arith
  get-remove ((i, w) ∷ d) k j = ground (arith, get-remove d k j)

  pub get-put_self : (d : Dict K V) (k : K) (v : V) → get (put d k v) k ≡ some v
  get-put_self d k v = ground (arith, get-put d k v k)

  pub get-put_ne : (d : Dict K V) (k : K) (v : V) (j : K) → k ≢ j → get (put d k v) j ≡ get d j
  get-put_ne d k v j h = ground (arith, get-put d k v j)

  pub get-remove_self : (d : Dict K V) (k : K) → get (remove d k) k ≡ none
  get-remove_self d k = ground (arith, get-remove d k k)

  pub get-remove_ne : (d : Dict K V) (k j : K) → k ≢ j → get (remove d k) j ≡ get d j
  get-remove_ne d k j h = ground (arith, get-remove d k j)

  -- Every key stands once, as in any Python dict.
  abbrev pub Distinct : Dict K V → Type ℓ
  Distinct [] = Unit
  Distinct ((k, v) ∷ d) = (get d k ≡ none) × Distinct d

  pub Distinct-put : (d : Dict K V) (k : K) (v : V) → Distinct d → Distinct (put d k v)
  unfolding put get
  Distinct-put [] k v h = (refl, tt)
  Distinct-put ((i, w) ∷ d) k v h = ground (arith, get-put d k v i, Distinct-put d k v h.1)

  pub Distinct-remove : (d : Dict K V) (k : K) → Distinct d → Distinct (remove d k)
  unfolding remove
  Distinct-remove [] k h = tt
  Distinct-remove ((i, w) ∷ d) k h = ground (arith, get-remove d k i, Distinct-remove d k h.1)

  pub size-put_new : (d : Dict K V) (k : K) (v : V) → get d k ≡ none → size (put d k v) ≡ size d + 1
  unfolding get put size
  size-put_new [] k v h = omega arith
  size-put_new ((i, w) ∷ d) k v h = ground (arith, size-put_new d k v)

  pub size-put_old : (d : Dict K V) (k : K) (v w : V) → get d k ≡ some w → size (put d k v) ≡ size d
  unfolding get put size
  size-put_old [] k v w h = cc
  size-put_old ((i, x) ∷ d) k v w h = ground (arith, size-put_old d k v w)

  pub size-remove_absent : (d : Dict K V) (k : K) → get d k ≡ none → size (remove d k) ≡ size d
  unfolding get remove size
  size-remove_absent [] k h = refl
  size-remove_absent ((i, w) ∷ d) k h = ground (arith, size-remove_absent d k)

  pub size-remove :
      (d : Dict K V) (k : K) (v : V)
      → Distinct d
      → get d k ≡ some v
      → size (remove d k) + 1 ≡ size d
  unfolding get remove size
  size-remove [] k v h e = cc
  size-remove ((i, w) ∷ d) k v h e = ground (arith, size-remove d k v h.1, size-remove_absent d k)

pub ruleset dict_laws = (get-empty, get-put, get-remove)
