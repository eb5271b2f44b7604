-- ===== src/Callbacks/Ports.antt =====
-- The two dictionaries agree: a port belongs to the device whose lease names it.
use poker_eye_v.Prelude.{
  ℕ, ◌+◌, ◌-◌, ◌≤◌, ◌≡◌, refl, inl, inr, String, Bool, true, false, Option, none, some, List, [],
  ◌∷◌, arith, nat_key, string_key, Option-cases, Bool-cases, ℕ_discrete,
}
use poker_eye_v.Prelude.Lowest.{lowest-some}
use poker_eye_v.Dict
use poker_eye_v.Dict.{Dict, get-put, get-put_self, get-remove, get-remove_self}
use poker_eye_v.Callbacks.{
  CallbackAllocator, CallbackLease, is_taken, new_lease, free_port, allocate_port, forget, allocate,
  release, is_other_generation,
}

pub record IsSound (a : CallbackAllocator) : Type 0 where
  pub port_of :
      (d : String) (l : CallbackLease)
      → Dict.get a.leases d ≡ some l
      → (l.device_id ≡ d)
        × (Dict.get a.ports l.callback_port ≡ some d)
        × (a.start ≤ l.callback_port)
        × (l.callback_port ≤ a.last)
        × (Dict.get a.generations d ≡ some l.generation)
  pub lease_of :
      (p : ℕ) (d : String)
      → Dict.get a.ports p ≡ some d
      → (l : CallbackLease) × (Dict.get a.leases d ≡ some l) × (l.callback_port ≡ p)

module _ (a : CallbackAllocator) (device : String) (old : CallbackLease) (v : IsSound a)
    (held : Dict.get a.leases device ≡ some old) where
  forget-port_of :
      (d : String) (l : CallbackLease)
      → Dict.get (forget a device old).leases d ≡ some l
      → (l.device_id ≡ d)
        × (Dict.get (forget a device old).ports l.callback_port ≡ some d)
        × (a.start ≤ l.callback_port)
        × (l.callback_port ≤ a.last)
        × (Dict.get a.generations d ≡ some l.generation)
  unfolding forget
  forget-port_of d l e = ground (
    arith,
    get-remove a.leases device d,
    get-remove a.ports old.callback_port l.callback_port,
    v.port_of d l,
    v.port_of device old,
  )

  forget-lease_of :
      (p : ℕ) (d : String)
      → Dict.get (forget a device old).ports p ≡ some d
      → (l : CallbackLease) × (Dict.get (forget a device old).leases d ≡ some l)
        × (l.callback_port ≡ p)
  unfolding forget
  forget-lease_of p d e =
      let (l, h, q) = v.lease_of p d (ground (arith, get-remove a.ports old.callback_port p)) in
      (l, ground (arith, get-remove a.leases device d, get-remove a.ports old.callback_port p), q)

  pub forget-IsSound : IsSound (forget a device old)
  unfolding forget
  forget-IsSound = record { port_of = forget-port_of; lease_of = forget-lease_of }

module _ (a : CallbackAllocator) (device ip token : String) (v : IsSound a)
    (fresh : Dict.get a.leases device ≡ none) where
  allocated-port_of :
      (d : String) (l : CallbackLease)
      → Dict.get (allocate_port a device ip token).0.leases d ≡ some l
      → (l.device_id ≡ d)
        × (Dict.get (allocate_port a device ip token).0.ports l.callback_port ≡ some d)
        × ((allocate_port a device ip token).0.start ≤ l.callback_port)
        × (l.callback_port ≤ (allocate_port a device ip token).0.last)
        × (Dict.get (allocate_port a device ip token).0.generations d ≡ some l.generation)
  unfolding allocate_port
  allocated-port_of d l e = elim (Option-cases (free_port a)) [
    | inl f ↦ ground (arith, v.port_of d l)
    | inr (port, f) ↦
        let made = new_lease a device ip port token in
        ground (
          arith,
          lowest-some (is_taken a.ports) a.start (a.last + 1 - a.start) port f,
          get-put a.leases device made d,
          get-put a.ports port device l.callback_port,
          get-put a.generations device made.generation d,
          v.port_of d l,
        )
  ]

  allocated-lease_of :
      (p : ℕ) (d : String)
      → Dict.get (allocate_port a device ip token).0.ports p ≡ some d
      → (l : CallbackLease) × (Dict.get (allocate_port a device ip token).0.leases d ≡ some l)
        × (l.callback_port ≡ p)
  unfolding allocate_port
  allocated-lease_of p d e = elim (Option-cases (free_port a)) [
    | inl f ↦ let (l, h, q) = v.lease_of p d (ground arith) in (l, ground arith, q)
    | inr (port, f) ↦
        let made = new_lease a device ip port token in
        elim (ℕ_discrete port p) [
          | yes q ↦ (
            made,
            ground (arith, get-put a.ports port device p, get-put a.leases device made d),
            q,
          )
          | no n ↦
              let (l, h, q) = v.lease_of p d (ground (arith, get-put a.ports port device p)) in
              (l, ground (arith, get-put a.leases device made d), q)
        ]
  ]

  pub allocate_port-IsSound : IsSound (allocate_port a device ip token).0
  allocate_port-IsSound = record { port_of = allocated-port_of; lease_of = allocated-lease_of }

-- The three ways that `allocate` goes.
pub allocate_cases :
    (P : CallbackAllocator × Option CallbackLease → Type 0) (a : CallbackAllocator)
    (device ip token : String) (force_new : Bool)
    → (Dict.get a.leases device ≡ none → P (allocate_port a device ip token))
    → ((old : CallbackLease)
        → Dict.get a.leases device ≡ some old
        → force_new ≡ true
        → P (allocate_port (forget a device old) device ip token))
    → ((old : CallbackLease)
        → Dict.get a.leases device ≡ some old
        → force_new ≡ false
        → P (a, some old))
    → P (allocate a device ip force_new token)
unfolding allocate
allocate_cases P a device ip token true new renewed kept =
    elim (Option-cases (Dict.get a.leases device)) [
      | inl e ↦ rw (e, allocate) (new e)
      | inr (old, e) ↦ rw (e, allocate) (renewed old e refl)
    ]
allocate_cases P a device ip token false new renewed kept =
    elim (Option-cases (Dict.get a.leases device)) [
      | inl e ↦ rw (e, allocate) (new e)
      | inr (old, e) ↦ rw (e, allocate) (kept old e refl)
    ]

pub release_cases :
    (P : CallbackAllocator × Bool → Type 0) (a : CallbackAllocator) (device : String)
    (generation : Option ℕ)
    → P (a, false)
    → ((old : CallbackLease) → Dict.get a.leases device ≡ some old → P (forget a device old, true))
    → P (release a device generation)
unfolding release
release_cases P a device generation refused done = elim (Option-cases (Dict.get a.leases device)) [
  | inl e ↦ rw (e, release) refused
  | inr (old, e) ↦ elim (Bool-cases (is_other_generation generation old.generation)) [
    | inl o ↦ rw (e, release) (rw o refused)
    | inr o ↦ rw (e, release) (rw o (done old e))
  ]
]

pub data Call : Type 0 where
  allocates : String → String → Bool → String → Call
  releases : String → Option ℕ → Call

unfoldable pub step : CallbackAllocator → Call → CallbackAllocator
step a (allocates device ip force_new token) = (allocate a device ip force_new token).0
step a (releases device generation) = (release a device generation).0

unfoldable pub run : CallbackAllocator → List Call → CallbackAllocator
run a [] = a
run a (c ∷ cs) = run (step a c) cs

pub forget-absent :
    (a : CallbackAllocator) (device : String) (old : CallbackLease)
    → Dict.get (forget a device old).leases device ≡ none
unfolding forget
forget-absent a device old = get-remove_self a.leases device

step-IsSound : (a : CallbackAllocator) (c : Call) → IsSound a → IsSound (step a c)
unfolding step
step-IsSound a (allocates device ip force_new token) v =
    allocate_cases (λ r. IsSound r.0) a device ip token force_new
      (λ e. allocate_port-IsSound a device ip token v e)
      (λ old e t.
        allocate_port-IsSound (forget a device old) device ip token
          (forget-IsSound a device old v e) (forget-absent a device old))
      (λ old e t. v)
step-IsSound a (releases device generation) v =
    release_cases (λ r. IsSound r.0) a device generation v
      (λ old e. forget-IsSound a device old v e)

-- After any calls every lease names its device, holds a port of the range that is entered for that
-- device, and is of the device's last generation; every entered port has such a lease, and so no two
-- devices share one.
pub allocator_run-IsSound :
    (a : CallbackAllocator) (cs : List Call)
    → IsSound a
    → IsSound (run a cs)
      × ((d e : String) (l m : CallbackLease)
          → Dict.get (run a cs).leases d ≡ some l
          → Dict.get (run a cs).leases e ≡ some m
          → l.callback_port ≡ m.callback_port
          → d ≡ e)
unfolding run
allocator_run-IsSound a [] v =
    (v, λ d e l m h k q. ground (arith, v.port_of d l h, v.port_of e m k))
allocator_run-IsSound a (c ∷ cs) v = allocator_run-IsSound (step a c) cs (step-IsSound a c v)
