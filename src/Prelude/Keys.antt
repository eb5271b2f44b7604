-- ===== src/Prelude/Keys.antt =====
-- The keys of the program's dictionaries: types whose equality is decided.
use Prim.Native.Nat.{ℕ}
use Prim.Native.String.{String}
use mathlib.Core.Path.{◌≡◌, refl, ap, ap₂}
use mathlib.Core.Bool.{Bool, true, false}
use native.Mathlib.Decide.{ℕ_discrete}
use text.Mathlib.Text.{◌==◌}
use text.Mathlib.TextEquality.{eq_iff}
use mathlib.Core.Logic.{◌↔◌}

dec_of_test {ℓ} : {P : Type ℓ} (b : Bool) → (b ≡ true) ↔ P → Dec P
dec_of_test true h = yes (h.0 refl)
dec_of_test false h = no (λ p. cc (h.1 p))

unfoldable pub String-discrete : Discrete String
unfolding dec_of_test
String-discrete s t = dec_of_test (s == t) (eq_iff s t)

pub record Key {ℓ} (K : Type ℓ) : Type ℓ where
  pub same : Discrete K

instance abbrev pub string_key : Key String
string_key = record { same = String-discrete }

instance abbrev pub nat_key : Key ℕ
nat_key = record { same = ℕ_discrete }

unfoldable pub pair_same {ℓ κ} :
    {A : Type ℓ} {B : Type κ} → Discrete A → Discrete B → Discrete (A × B)
pair_same da db p q = elim (da p.0 q.0) [
  | no n ↦ no (λ e. n (ap (λ x. x.0) e))
  | yes e ↦ elim (db p.1 q.1) [
    | no n ↦ no (λ f. n (ap (λ x. x.1) f))
    | yes f ↦ yes (ap₂ (λ a b. (a, b)) e f)
  ]
]

instance abbrev pub pair_key {ℓ κ} : {A : Type ℓ} {B : Type κ} ⦃a : Key A⦄ ⦃b : Key B⦄ → Key (A × B)
pair_key ⦃a⦄ ⦃b⦄ = record { same = pair_same a.same b.same }
