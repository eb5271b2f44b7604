-- ===== src/Slots.antt =====
-- `SlotPool` of core/discovery.py: the display slots of the connected tables.
pub mod Claims
mod Runs
use poker_eye_v.Prelude.{
  ℕ, suc, ◌-◌, String, Bool, true, false, Option, none, some, List, [], ◌∷◌, ◌==◌, if◌then◌else◌,
  string_key, pair_key,
}
use poker_eye_v.Prelude.Lowest.{lowest}
use poker_eye_v.Dict
use poker_eye_v.Dict.{Dict}

-- (device_id, table_id)
abbrev pub ConnectionKey : Type 0
ConnectionKey = String × String

pub record SlotPool : Type 0 where
  pub total : ℕ
  pub claims : Dict ConnectionKey ℕ

-- `slots` is not positive: the constructor raises.
unfoldable pub init : ℕ → Option SlotPool
init slots = if slots == 0 then none else some (record { total = slots; claims = [] })

-- n in set(self._claims.values())
unfoldable pub is_used : Dict ConnectionKey ℕ → ℕ → Bool
is_used [] n = false
is_used ((k, m) ∷ d) n = if m == n then true else is_used d n

unfoldable pub reserve : SlotPool → ConnectionKey → SlotPool × Option ℕ
reserve p key = elim (Dict.get p.claims key) [
  | some n ↦ (p, some n)
  | none ↦ elim (lowest (is_used p.claims) 1 p.total) [
    | none ↦ (p, none)
    | some n ↦ (record p { claims = Dict.put p.claims key n }, some n)
  ]
]

unfoldable pub release : SlotPool → ConnectionKey → SlotPool × Option ℕ
release p key = (record p { claims = Dict.remove p.claims key }, Dict.get p.claims key)

-- `available` of `metadata`; Python's difference may be negative, this one stops at 0.
unfoldable pub available : SlotPool → ℕ
available p = p.total - Dict.size p.claims
