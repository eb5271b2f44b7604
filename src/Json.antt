-- ===== src/Json.antt =====
-- The values of Python's `json`: what the frames carry, and what the code tests of them. A float is
-- a count of 1e-8 units; not-a-number and the infinities are left out.
use poker_eye_v.Prelude.{
  zero, suc, String, Bool, true, false, Option, none, some, ite, String-discrete, not,
}
use poker_eye_v.Prelude.Int.{ℤ, pos, negsuc}

mutual
  pub data Json : Type 0 where
    null : Json
    bool : Bool → Json
    int : ℤ → Json
    float : ℤ → Json
    str : String → Json
    arr : Items → Json
    obj : Fields → Json

  pub data Items : Type 0 where
    nil : Items
    item : Json → Items → Items

  -- A dictionary; a key that comes twice means its first value.
  pub data Fields : Type 0 where
    end : Fields
    field : String → Json → Fields → Fields

-- d.get(k)
unfoldable pub get : Fields → String → Option Json
get end k = none
get (field j v d) k = ite (String-discrete j k) (some v) (get d k)

abbrev pub is_zero : ℤ → Bool
is_zero (pos zero) = true
is_zero (pos (suc n)) = false
is_zero (negsuc n) = false

abbrev pub is_empty : String → Bool
is_empty s = ite (String-discrete s "") true false

-- bool(x)
unfoldable pub truthy : Json → Bool
truthy null = false
truthy (bool b) = b
truthy (int n) = not (is_zero n)
truthy (float n) = not (is_zero n)
truthy (str s) = not (is_empty s)
truthy (arr nil) = false
truthy (arr (item x xs)) = true
truthy (obj end) = false
truthy (obj (field k v d)) = true

-- `a or b`, where `a` is what `get` returned
abbrev pub or_else : Option Json → Json → Json
or_else none b = b
or_else (some a) b = if_truthy (truthy a) a b
  where
    if_truthy : Bool → Json → Json → Json
    if_truthy true x y = x
    if_truthy false x y = y
