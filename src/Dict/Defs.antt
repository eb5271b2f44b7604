-- ===== src/Dict/Defs.antt =====
-- The operations of `dict` that the program uses.
use poker_eye_v.Prelude.{ℕ, Option, none, some, List, [], ◌∷◌, ite, length, Key}

abbrev pub Dict {ℓ} : Type ℓ → Type ℓ → Type ℓ
Dict K V = List (K × V)

module _ {ℓ} {K V : Type ℓ} where
  abbrev pub empty : Dict K V
  empty = []

  -- list(d.keys())
  unfoldable pub keys : Dict K V → List K
  keys [] = []
  keys ((k, v) ∷ d) = k ∷ keys d

  -- len(d)
  unfoldable pub size : Dict K V → ℕ
  size d = length d

module _ {ℓ} {K V : Type ℓ} ⦃key : Key K⦄ where
  -- d.get(k)
  unfoldable pub get : Dict K V → K → Option V
  get [] k = none
  get ((j, v) ∷ d) k = ite (key.same j k) (some v) (get d k)

  -- d[k] = v
  unfoldable pub put : Dict K V → K → V → Dict K V
  put [] k v = (k, v) ∷ []
  put ((j, w) ∷ d) k v = ite (key.same j k) ((j, v) ∷ d) ((j, w) ∷ put d k v)

  -- d.pop(k, None), del d[k]
  unfoldable pub remove : Dict K V → K → Dict K V
  remove [] k = []
  remove ((j, w) ∷ d) k = ite (key.same j k) (remove d k) ((j, w) ∷ remove d k)
