-- ===== src/Callbacks.antt =====
-- `CallbackAllocator` of core/bootstrap.py: the callback ports of the emulators.
pub mod Ports
pub mod Allocation
mod Runs
use poker_eye_v.Prelude.{
  ℕ, suc, ◌+◌, ◌-◌, String, Bool, true, false, not, Option, none, some, List, [], ◌∷◌, ◌==◌, leb,
  if◌then◌else◌, ◌&&◌, string_key, nat_key,
}
use poker_eye_v.Prelude.Lowest.{lowest}
use poker_eye_v.Dict
use poker_eye_v.Dict.{Dict}

pub record CallbackLease : Type 0 where
  pub device_id : String
  pub local_ipv4 : String
  pub callback_port : ℕ
  pub token : String
  pub generation : ℕ

-- The fields `_leases`, `_ports` and `_generations`; the port range is from `start` to `last`.
pub record CallbackAllocator : Type 0 where
  pub start : ℕ
  pub last : ℕ
  pub leases : Dict String CallbackLease
  pub ports : Dict ℕ String
  pub generations : Dict String ℕ

-- `none` is the `ValueError` of the constructor.
unfoldable pub init : ℕ → ℕ → Option CallbackAllocator
init start last =
    if leb 1 start && (leb start last && leb last 65535)
    then some (record { start = start; last = last; leases = []; ports = []; generations = [] })
    else none

-- p in self._ports
abbrev pub is_taken : Dict ℕ String → ℕ → Bool
is_taken ports p = elim (Dict.get ports p) [ none ↦ false | some d ↦ true ]

abbrev next_generation : Option ℕ → ℕ
next_generation none = 0 + 1
next_generation (some g) = g + 1

-- The lease that `allocate` makes; `token` is what `secrets.token_hex` returned.
abbrev pub new_lease : CallbackAllocator → String → String → ℕ → String → CallbackLease
new_lease a device ip port token = record {
  device_id = device;
  local_ipv4 = ip;
  callback_port = port;
  token = token;
  generation = next_generation (Dict.get a.generations device);
}

abbrev pub free_port : CallbackAllocator → Option ℕ
free_port a = lowest (is_taken a.ports) a.start (a.last + 1 - a.start)

-- From the search for a port on. `none` is the `RuntimeError`.
unfoldable pub allocate_port :
    CallbackAllocator → String → String → String → CallbackAllocator × Option CallbackLease
allocate_port a device ip token = elim (free_port a) [
  | none ↦ (a, none)
  | some port ↦
      let lease = new_lease a device ip port token in
      (
        record a {
          leases = Dict.put a.leases device lease;
          ports = Dict.put a.ports port device;
          generations = Dict.put a.generations device lease.generation;
        },
        some lease,
      )
]

-- The old lease of the device and its port are given up.
unfoldable pub forget : CallbackAllocator → String → CallbackLease → CallbackAllocator
forget a device old = record a {
  leases = Dict.remove a.leases device;
  ports = Dict.remove a.ports old.callback_port;
}

unfoldable pub allocate :
    CallbackAllocator → String → String → Bool → String → CallbackAllocator × Option CallbackLease
unfolding forget
allocate a device ip force_new token = elim (Dict.get a.leases device) [
  | none ↦ allocate_port a device ip token
  | some old ↦
      if force_new then allocate_port (forget a device old) device ip token else (a, some old)
]

-- `generation is not None and lease.generation != generation`
abbrev pub is_other_generation : Option ℕ → ℕ → Bool
is_other_generation none g = false
is_other_generation (some n) g = not (g == n)

unfoldable pub release : CallbackAllocator → String → Option ℕ → CallbackAllocator × Bool
unfolding forget
release a device generation = elim (Dict.get a.leases device) [
  | none ↦ (a, false)
  | some lease ↦
      if is_other_generation generation lease.generation
      then (a, false)
      else (forget a device lease, true)
]

unfoldable pub get : CallbackAllocator → String → Option CallbackLease
get a device = Dict.get a.leases device

unfoldable pub available : CallbackAllocator → ℕ
available a = a.last + 1 - a.start - Dict.size a.leases
