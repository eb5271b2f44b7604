-- ===== src/Bootstrap/Listeners.antt =====
-- Every lease has its listener, and every listener has its lease.
use poker_eye_v.Prelude.{
  ℕ, ◌+◌, ◌-◌, ◌≡◌, refl, sym, ◌∙◌, String, Bool, true, false, Option, none, some, arith,
  string_key, nat_key, Option-cases, inl, inr,
}
use poker_eye_v.Prelude.Lowest.{lowest-some}
use poker_eye_v.Dict
use poker_eye_v.Dict.{Dict, get-put, get-remove, get-put_self, get-remove_self}
use poker_eye_v.Callbacks.{
  CallbackLease, CallbackAllocator, is_taken, new_lease, free_port, allocate_port, forget, release,
}
use poker_eye_v.Callbacks.Ports
use poker_eye_v.Callbacks.Ports.{allocate_cases}
use poker_eye_v.Bootstrap.{
  BootstrapServer, registered, ensure_callback, listen, after_allocation, lease_callback,
}

-- The leases and the listeners of `servers` are the same, one on each port.
pub record IsServed (a : CallbackAllocator) (servers : Dict ℕ CallbackLease) : Type 0 where
  pub ports : Ports.IsSound a
  pub served :
      (d : String) (l : CallbackLease)
      → Dict.get a.leases d ≡ some l
      → Dict.get servers l.callback_port ≡ some l
  pub leased :
      (p : ℕ) (l : CallbackLease)
      → Dict.get servers p ≡ some l
      → (l.callback_port ≡ p) × (Dict.get a.leases l.device_id ≡ some l)

abbrev pub IsSound : BootstrapServer → Type 0
IsSound s = IsServed s.allocator s.callback_servers

-- A lease is given up with its listener.
pub forget-IsServed :
    (a : CallbackAllocator) (servers : Dict ℕ CallbackLease) (device : String) (old : CallbackLease)
    → Dict.get a.leases device ≡ some old
    → IsServed a servers
    → IsServed (forget a device old) (Dict.remove servers old.callback_port)
unfolding forget
forget-IsServed a servers device old held v = record {
  ports = Ports.forget-IsSound a device old v.ports held;
  served = λ d l e. ground (
    arith,
    e,
    get-remove a.leases device d,
    get-remove servers old.callback_port l.callback_port,
    v.served d l,
    v.served device old held,
    v.ports.port_of d l,
    v.ports.port_of device old held,
  );
  leased = λ p l e. ground (
    arith,
    e,
    held,
    get-remove servers old.callback_port p,
    get-remove a.leases device l.device_id,
    v.leased p l,
  );
}

port-unserved :
    (a : CallbackAllocator) (servers : Dict ℕ CallbackLease) (port : ℕ)
    → IsServed a servers
    → is_taken a.ports port ≡ false
    → Dict.get servers port ≡ none
port-unserved a servers port v free = elim (Option-cases (Dict.get servers port)) [
  | inl e ↦ e
  | inr (l, e) ↦
      let (p, h) = v.leased port l e in
      absurd (ground (arith, p, v.ports.port_of l.device_id l h, free))
]

-- A lease is made and its port is listened on.
pub allocate_port-IsServed :
    (a : CallbackAllocator) (servers : Dict ℕ CallbackLease) (device ip token : String) (port : ℕ)
    → free_port a ≡ some port
    → Dict.get a.leases device ≡ none
    → IsServed a servers
    → let made = new_lease a device ip port token in
      (Dict.get servers port ≡ none)
      × (allocate_port a device ip token).1 ≡ some made
      × IsServed (allocate_port a device ip token).0 (Dict.put servers port made)
unfolding allocate_port
allocate_port-IsServed a servers device ip token port f fresh v =
    let made = new_lease a device ip port token in
    let (lo, hi, free) = lowest-some (is_taken a.ports) a.start (a.last + 1 - a.start) port f in
    let unserved = port-unserved a servers port v free in
    (
      unserved,
      ground (arith, f),
      record {
        ports = Ports.allocate_port-IsSound a device ip token v.ports fresh;
        served = λ d l e. ground (
          arith,
          f,
          e,
          free,
          get-put a.leases device made d,
          get-put servers port made l.callback_port,
          v.served d l,
          v.ports.port_of d l,
        );
        leased = λ p l e. ground (
          arith,
          f,
          e,
          fresh,
          get-put servers port made p,
          get-put a.leases device made l.device_id,
          v.leased p l,
        );
      },
    )

-- The listeners matter by what `get` finds.
IsServed-servers :
    (a : CallbackAllocator) (ls ms : Dict ℕ CallbackLease)
    → ((p : ℕ) → Dict.get ls p ≡ Dict.get ms p)
    → IsServed a ls
    → IsServed a ms
IsServed-servers a ls ms same v = record {
  ports = v.ports;
  served = λ d l e. sym (same l.callback_port) ∙ v.served d l e;
  leased = λ p l e. v.leased p l (same p ∙ e);
}

pub release_own :
    (a : CallbackAllocator) (device : String) (l : CallbackLease)
    → Dict.get a.leases device ≡ some l
    → release a device (some l.generation) ≡ (forget a device l, true)
unfolding release
release_own a device l e = ground (arith, e)

-- A lease that could not be listened on is given up again.
failed-IsServed :
    (a : CallbackAllocator) (servers : Dict ℕ CallbackLease) (device : String) (l : CallbackLease)
    → Dict.get a.leases device ≡ some l
    → Dict.get servers l.callback_port ≡ none
    → IsServed a (Dict.put servers l.callback_port l)
    → IsServed (forget a device l) servers
failed-IsServed a servers device l held unserved v =
    IsServed-servers (forget a device l)
      (Dict.remove (Dict.put servers l.callback_port l) l.callback_port) servers
      (λ p. ground (
        arith,
        unserved,
        get-remove (Dict.put servers l.callback_port l) l.callback_port p,
        get-put servers l.callback_port l p,
      ))
      (forget-IsServed a (Dict.put servers l.callback_port l) device l held v)

module _ (s : BootstrapServer) (device : String) (l : CallbackLease) where
  -- What `listen` leaves of a server on whose port nobody listens.
  pub listen-bound :
      Dict.get s.callback_servers l.callback_port ≡ none
      → let s' = (listen s device l none).0 in
        (s'.allocator ≡ s.allocator)
        × (s'.callback_servers ≡ Dict.put s.callback_servers l.callback_port l)
  unfolding listen ensure_callback
  listen-bound unserved = ground (arith, unserved)

  pub listen-failed :
      (e : String)
      → Dict.get s.allocator.leases device ≡ some l
      → Dict.get s.callback_servers l.callback_port ≡ none
      → let s' = (listen s device l (some e)).0 in
        (s'.allocator ≡ forget s.allocator device l) × (s'.callback_servers ≡ s.callback_servers)
  unfolding listen ensure_callback
  listen-failed e held unserved = ground (arith, unserved, release_own s.allocator device l held)

  pub listen-again :
      (m : CallbackLease) (bind : Option String)
      → Dict.get s.callback_servers l.callback_port ≡ some m
      → (listen s device l bind) ≡ (s, registered l)
  unfolding listen ensure_callback
  listen-again m bind served = ground (arith, served)

  -- A lease that is new, with no listener on its port yet.
  listen_new-IsSound :
      (bind : Option String)
      → Dict.get s.allocator.leases device ≡ some l
      → Dict.get s.callback_servers l.callback_port ≡ none
      → IsServed s.allocator (Dict.put s.callback_servers l.callback_port l)
      → IsSound (listen s device l bind).0
  listen_new-IsSound none held unserved v = let (p, q) = listen-bound unserved in rw (p, q) v
  listen_new-IsSound (some e) held unserved v =
      let (p, q) = listen-failed e held unserved in
      rw (p, q) (failed-IsServed s.allocator s.callback_servers device l held unserved v)

pub allocate_port-none :
    (a : CallbackAllocator) (device ip token : String)
    → free_port a ≡ none
    → allocate_port a device ip token ≡ (a, none)
unfolding allocate_port
allocate_port-none a device ip token f = ground (arith, f)

pub allocate_port-held :
    (a : CallbackAllocator) (device ip token : String) (l : CallbackLease)
    → (allocate_port a device ip token).1 ≡ some l
    → Dict.get (allocate_port a device ip token).0.leases device ≡ some l
unfolding allocate_port
allocate_port-held a device ip token l e = elim (Option-cases (free_port a)) [
  | inl f ↦ absurd (ground (arith, e, f))
  | inr (port, f) ↦
      let made = new_lease a device ip port token in
      ground (arith, e, f, get-put_self a.leases device made)
]

pub after-some :
    (s : BootstrapServer) (device : String) (bind : Option String)
    (r : CallbackAllocator × Option CallbackLease) (l : CallbackLease)
    → r.1 ≡ some l
    → after_allocation s device bind r ≡ listen (record s { allocator = r.0 }) device l bind
unfolding after_allocation
after-some s device bind (a, none) l e = absurd (cc e)
after-some s device bind (a, some m) l e = let q : m ≡ l = cc e in rw q refl

after_new-IsSound :
    (s : BootstrapServer) (device ip token : String) (bind : Option String)
    → IsSound s
    → Dict.get s.allocator.leases device ≡ none
    → IsSound (after_allocation s device bind (allocate_port s.allocator device ip token)).0
unfolding after_allocation
after_new-IsSound s device ip token bind v fresh = elim (Option-cases (free_port s.allocator)) [
  | inl f ↦ rw (allocate_port-none s.allocator device ip token f) v
  | inr (port, f) ↦
      let made = new_lease s.allocator device ip port token in
      let r = allocate_port s.allocator device ip token in
      let (unserved, result, w) =
        allocate_port-IsServed s.allocator s.callback_servers device ip token port f fresh v in
      rw (after-some s device bind r made result) (
        listen_new-IsSound (record s { allocator = r.0 }) device made bind
          (allocate_port-held s.allocator device ip token made result) unserved w)
]

after_kept-IsSound :
    (s : BootstrapServer) (device : String) (bind : Option String) (old : CallbackLease)
    → Dict.get s.allocator.leases device ≡ some old
    → IsSound s
    → IsSound (after_allocation s device bind (s.allocator, some old)).0
unfolding after_allocation
after_kept-IsSound s device bind old e v =
    rw (listen-again s device old old bind (v.served device old e)) v

pub lease_callback-IsSound :
    (s : BootstrapServer) (device ip token : String) (force_new : Bool) (bind : Option String)
    → IsSound s
    → (force_new ≡ true → Dict.get s.allocator.leases device ≡ none)
    → IsSound (lease_callback s device ip force_new token bind).0
unfolding lease_callback
lease_callback-IsSound s device ip token force_new bind v dropped =
    allocate_cases (λ r. IsSound (after_allocation s device bind r).0) s.allocator device ip token
      force_new (after_new-IsSound s device ip token bind v) (λ old e f. absurd (cc (dropped f, e)))
      (λ old e f. after_kept-IsSound s device bind old e v)
