-- ===== src/Sessions.antt =====
-- core/sessions.py: the leases of a device's tables, with display numbers that are used again.
pub mod Numbers
pub mod Invariant
pub mod Closing
pub mod Opening
pub mod Retiring
mod Runs
use poker_eye_v.Prelude.{
  ℕ, ◌+◌, max, String, Bool, true, false, ◌&&◌, Option, none, some, List, [], ◌∷◌, ◌++◌, leb, ◌==◌,
  if◌then◌else◌, ite, String-discrete, string_key, pair_key,
}
use poker_eye_v.Dict
use poker_eye_v.Dict.{Dict}

pub record TableLease : Type 0 where
  pub device_id : String
  pub table_id : String
  pub generation : ℕ
  pub number : ℕ

pub record SessionRegistry : Type 0 where
  pub generations : Dict (String × String) ℕ
  pub leases : Dict (String × String) TableLease
  pub free : Dict String (List ℕ)
  pub next : Dict String ℕ

abbrev pub new_registry : SessionRegistry
new_registry = record { generations = []; leases = []; free = []; next = [] }

-- self._free.setdefault(device_id, [])
abbrev pub free_of : SessionRegistry → String → List ℕ
free_of r device = elim (Dict.get r.free device) [ none ↦ [] | some ns ↦ ns ]

-- self._next.get(device_id, 1)
abbrev pub next_of : SessionRegistry → String → ℕ
next_of r device = elim (Dict.get r.next device) [ none ↦ 1 | some n ↦ n ]

-- self._generation.get(key, 0)
abbrev pub generation_of : SessionRegistry → String × String → ℕ
generation_of r key = elim (Dict.get r.generations key) [ none ↦ 0 | some g ↦ g ]

-- `rest` is what the number was taken from, without the number.
unfoldable pub open_number :
    SessionRegistry → String → String → ℕ → List ℕ → SessionRegistry × TableLease
open_number r device table number rest =
    let lease : TableLease = record {
      device_id = device;
      table_id = table;
      generation = generation_of r (device, table) + 1;
      number = number;
    } in
    (
      record {
        generations = Dict.put r.generations (device, table) lease.generation;
        leases = Dict.put r.leases (device, table) lease;
        free = Dict.put r.free device rest;
        next = elim rest [
          | [] ↦ Dict.put r.next device (max (next_of r device) (number + 1))
          | n ∷ ns ↦ r.next
        ];
      },
      lease,
    )

unfoldable pub open_new : SessionRegistry → String → String → SessionRegistry × TableLease
unfolding open_number
open_new r device table = elim (free_of r device) [
  | [] ↦ open_number r device table (next_of r device) []
  | n ∷ ns ↦ open_number r device table n ns
]

unfoldable pub open_table : SessionRegistry → String → String → SessionRegistry × TableLease
unfolding open_new
open_table r device table = elim (Dict.get r.leases (device, table)) [
  | none ↦ open_new r device table
  | some lease ↦ (r, lease)
]

-- list.sort()
unfoldable pub insert : ℕ → List ℕ → List ℕ
insert n [] = n ∷ []
insert n (m ∷ ms) = let rest = insert n ms in if leb n m then n ∷ m ∷ ms else m ∷ rest

unfoldable pub sort : List ℕ → List ℕ
unfolding insert
sort [] = []
sort (n ∷ ns) = insert n (sort ns)

abbrev str_eq : String → String → Bool
str_eq a b = ite (String-discrete a b) true false

-- The equality of a frozen dataclass.
abbrev pub same_lease : TableLease → TableLease → Bool
same_lease a b =
    (str_eq a.device_id b.device_id && str_eq a.table_id b.table_id)
    && (a.generation == b.generation && a.number == b.number)

-- self._active.get(key) != lease
abbrev pub is_held : Option TableLease → TableLease → Bool
is_held none lease = false
is_held (some held) lease = same_lease held lease

unfoldable pub close_table : SessionRegistry → TableLease → SessionRegistry × Bool
unfolding sort
close_table r lease =
    if is_held (Dict.get r.leases (lease.device_id, lease.table_id)) lease
    then (
      record r {
        leases = Dict.remove r.leases (lease.device_id, lease.table_id);
        free =
            Dict.put r.free lease.device_id (sort (free_of r lease.device_id ++ lease.number ∷ []));
      },
      true,
    )
    else (r, false)

unfoldable pub active : SessionRegistry → String → String → Option TableLease
active r device table = Dict.get r.leases (device, table)
