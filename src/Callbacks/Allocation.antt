-- ===== src/Callbacks/Allocation.antt =====
-- What a device is given, and which releases count.
use poker_eye_v.Prelude.{
  ℕ, ◌+◌, ◌-◌, ◌≤◌, ◌<◌, ◌≡◌, ◌⊎◌, sym, ◌∙◌, inl, inr, String, Bool, true, false, none, some, arith,
  nat_key, string_key, Option-cases,
}
use poker_eye_v.Prelude.Lowest.{lowest-some, lowest-least, lowest-none, lowest-found}
use mathlib.Core.Bool.{false≢true}
use poker_eye_v.Dict
use poker_eye_v.Dict.{Dict, get-put, get-put_self, get-remove, get-remove_self}
use poker_eye_v.Callbacks.{
  CallbackAllocator, CallbackLease, is_taken, new_lease, free_port, allocate_port, forget, allocate,
  release,
}
use poker_eye_v.Callbacks.Ports.{IsSound}

module _ (a : CallbackAllocator) (device ip token : String) where
  -- A device without a lease gets the lowest port of the range that is not entered, unless all are;
  -- then nothing changes.
  pub allocate_new :
      (force_new : Bool)
      → Dict.get a.leases device ≡ none
      → ((port : ℕ) × (allocate a device ip force_new token ≡ allocate_port a device ip token)
          × ((allocate a device ip force_new token).1 ≡ some (new_lease a device ip port token))
          × (a.start ≤ port)
          × (port < a.start + (a.last + 1 - a.start))
          × (is_taken a.ports port ≡ false)
          × ((p : ℕ) → a.start ≤ p → p < port → is_taken a.ports p ≡ true))
        ⊎ ((allocate a device ip force_new token ≡ (a, none))
            × ((p : ℕ)
                → a.start ≤ p
                → p < a.start + (a.last + 1 - a.start)
                → is_taken a.ports p ≡ true))
  unfolding allocate allocate_port
  allocate_new force_new fresh = elim (Option-cases (free_port a)) [
    | inl f ↦
        inr (ground arith, λ p. lowest-none (is_taken a.ports) a.start (a.last + 1 - a.start) p f)
    | inr (port, f) ↦
        let (lo, hi, free) = lowest-some (is_taken a.ports) a.start (a.last + 1 - a.start) port f in
        inl (
          port,
          ground arith,
          ground arith,
          lo,
          hi,
          free,
          λ p. lowest-least (is_taken a.ports) a.start (a.last + 1 - a.start) port p f,
        )
  ]

  module _ (old : CallbackLease) (held : Dict.get a.leases device ≡ some old) where
    -- Without `force_new` the device keeps its lease, and nothing changes.
    pub allocate_again : allocate a device ip false token ≡ (a, some old)
    unfolding allocate
    allocate_again = ground arith

    forgotten_free : is_taken (forget a device old).ports old.callback_port ≡ false
    unfolding forget
    forgotten_free = ground (arith, get-remove_self a.ports old.callback_port)

    abbrev old_port_count : ℕ
    old_port_count = a.last + 1 - a.start

    -- The port that a reallocation finds.
    renewed_port :
        IsSound a
        → (port : ℕ) × (free_port (forget a device old) ≡ some port) × (port ≤ old.callback_port)
    unfolding forget
    renewed_port v =
        let taken = is_taken (forget a device old).ports in
        let mine = v.port_of device old held in
        let (port, f) =
          lowest-found taken a.start old_port_count old.callback_port mine.2 (omega arith)
            forgotten_free in
        (
          port,
          f,
          not_above port λ above. false≢true (
              sym forgotten_free
              ∙ lowest-least taken a.start old_port_count port old.callback_port f mine.2 above),
        )
      where
        not_above : (port : ℕ) → (old.callback_port < port → ⊥) → port ≤ old.callback_port
        not_above port n = omega arith

    -- A reallocation never fails, whatever else is leased: the device's own port is free for it. The
    -- new lease is of the next generation, it stands in the place of the old one, and a release that
    -- names the old generation is refused from then on.
    pub reallocate :
        IsSound a
        → (l : CallbackLease) × ((allocate a device ip true token).1 ≡ some l)
          × (Dict.get (allocate a device ip true token).0.leases device ≡ some l)
          × (l.generation ≡ old.generation + 1)
          × (l.callback_port ≤ old.callback_port)
          × (release (allocate a device ip true token).0 device (some old.generation)
              ≡ ((allocate a device ip true token).0, false))
    unfolding allocate allocate_port release forget
    reallocate v =
        let (port, f, low) = renewed_port v in
        let b = forget a device old in
        let l = new_lease b device ip port token in
        let mine = v.port_of device old held in
        (
          l,
          ground arith,
          ground (arith, get-put_self b.leases device l),
          ground arith,
          low,
          ground (arith, get-put_self b.leases device l),
        )
