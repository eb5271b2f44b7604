-- ===== src/Bootstrap/Served.antt =====
-- Every handler keeps leases and listeners together.
use poker_eye_v.Prelude.{
  ℕ, ◌≡◌, String, Bool, true, false, Option, none, some, List, [], ◌∷◌, arith, string_key, nat_key,
  Option-cases, Bool-cases, inl, inr,
}
use poker_eye_v.Dict
use poker_eye_v.Dict.{Dict, get-put, get-remove, get-put_self, get-remove_self}
use poker_eye_v.Json.{Fields}
use poker_eye_v.Callbacks
use poker_eye_v.Callbacks.{
  CallbackLease, CallbackAllocator, is_taken, new_lease, free_port, allocate_port, forget, allocate,
  release,
}
use poker_eye_v.Callbacks.Ports
use poker_eye_v.Callbacks.Ports.{allocate_cases}
use poker_eye_v.Protocol.{Codec, Verified, verified, value_error, type_error}
use poker_eye_v.Bootstrap.{
  BootstrapServer, drop, invalidate_callback, bootstrap_of, without, handle_bootstrap,
  accept_callback, close_callback_lease, callback_closed, leases_eq,
}
use poker_eye_v.Bootstrap.Listeners.{IsSound, forget-IsServed, release_own, lease_callback-IsSound}

invalidate-held :
    (s : BootstrapServer) (device : String) (old : CallbackLease)
    → Dict.get s.allocator.leases device ≡ some old
    → let s' = invalidate_callback s device in
      (s'.allocator ≡ forget s.allocator device old)
      × (s'.callback_servers ≡ Dict.remove s.callback_servers old.callback_port)
unfolding invalidate_callback Callbacks.get
invalidate-held s device old e = ground (arith, e, release_own s.allocator device old e)

invalidate-absent :
    (s : BootstrapServer) (device : String)
    → Dict.get s.allocator.leases device ≡ none
    → invalidate_callback s device ≡ s
unfolding invalidate_callback Callbacks.get
invalidate-absent s device e = ground (arith, e)

-- After it the device has no lease, and the invariant holds.
pub invalidate-IsSound :
    (s : BootstrapServer) (device : String)
    → IsSound s
    → IsSound (invalidate_callback s device)
      × (Dict.get (invalidate_callback s device).allocator.leases device ≡ none)
invalidate-IsSound s device v = elim (Option-cases (Dict.get s.allocator.leases device)) [
  | inl e ↦ rw (invalidate-absent s device e) (v, e)
  | inr (old, e) ↦
      let (p, q) = invalidate-held s device old e in
      (
        rw (p, q) (forget-IsServed s.allocator s.callback_servers device old e v),
        rw p (Ports.forget-absent s.allocator device old),
      )
]

bootstrap_of-IsSound :
    (s : BootstrapServer) (force_new : Bool) (token : String) (bind : Option String) (v : Verified)
    → IsSound s
    → IsSound (bootstrap_of s force_new token bind v).0
unfolding bootstrap_of
bootstrap_of-IsSound s force_new token bind value_error v = v
bootstrap_of-IsSound s force_new token bind type_error v = v
bootstrap_of-IsSound s false token bind (verified device ip) v =
    lease_callback-IsSound s device ip token false bind v (λ f. absurd (cc f))
bootstrap_of-IsSound s true token bind (verified device ip) v =
    let (w, gone) = invalidate-IsSound s device v in
    lease_callback-IsSound (invalidate_callback s device) device ip token true bind w (λ f. gone)

pub leases_eq-eq : (l m : CallbackLease) → leases_eq l m ≡ true → l ≡ m
leases_eq-eq l m e = ground (arith, e)

-- The two ways that `_close_callback_lease` goes.
pub close_cases :
    (P : BootstrapServer → Type 0) (s : BootstrapServer) (lease : CallbackLease)
    → P s
    → (Dict.get s.allocator.leases lease.device_id ≡ some lease → P (drop s lease))
    → P (close_callback_lease s lease)
unfolding close_callback_lease Callbacks.get
close_cases P s lease kept dropped =
    elim (Option-cases (Dict.get s.allocator.leases lease.device_id)) [
      | inl e ↦ rw (e, close_callback_lease, Callbacks.get) kept
      | inr (l, e) ↦ elim (Bool-cases (leases_eq l lease)) [
        | inr f ↦ rw (e, close_callback_lease, Callbacks.get) (rw f kept)
        | inl f ↦
            rw (e, close_callback_lease, Callbacks.get)
              (rw f (dropped (ground (arith, e, leases_eq-eq l lease f))))
      ]
    ]

drop-IsSound :
    (s : BootstrapServer) (lease : CallbackLease)
    → Dict.get s.allocator.leases lease.device_id ≡ some lease
    → IsSound s
    → IsSound (drop s lease)
unfolding drop
drop-IsSound s lease e v =
    rw (release_own s.allocator lease.device_id lease e)
      (forget-IsServed s.allocator s.callback_servers lease.device_id lease e v)

without-IsSound : (s : BootstrapServer) (port conn : ℕ) → IsSound s → IsSound (without s port conn)
unfolding without
without-IsSound s port conn v = elim (Option-cases (Dict.get s.callback_connections port)) [
  | inl e ↦ rw (e, without) v
  | inr (cs, e) ↦ rw (e, without) v
]

closed-IsSound :
    (s : BootstrapServer) (lease : CallbackLease) (conn : ℕ) (authenticated : Bool)
    → IsSound s
    → IsSound (callback_closed s lease conn authenticated)
unfolding callback_closed
closed-IsSound s lease conn false v = without-IsSound s lease.callback_port conn v
closed-IsSound s lease conn true v =
    let s' = without s lease.callback_port conn in
    let w = without-IsSound s lease.callback_port conn v in
    close_cases IsSound s' lease w (λ e. drop-IsSound s' lease e w)

accept-IsSound :
    (s : BootstrapServer) (port conn : ℕ) → IsSound s → IsSound (accept_callback s port conn).0
unfolding accept_callback
accept-IsSound s port conn v = elim (Option-cases (Dict.get s.callback_servers port)) [
  | inl e ↦ rw (e, accept_callback) v
  | inr (l, e) ↦ rw (e, accept_callback) v
]

-- What happens to a server: a bootstrap hello, with the new token and the failure of its listener, a
-- connection to a port, and the end of a connection.
pub data Event : Type 0 where
  bootstraps : Fields → String → Option String → Event
  accepts : ℕ → ℕ → Event
  closes : CallbackLease → ℕ → Bool → Event

unfoldable pub step : Codec → BootstrapServer → Event → BootstrapServer
step codec s (bootstraps m token bind) = (handle_bootstrap codec s m token bind).0
step codec s (accepts port conn) = (accept_callback s port conn).0
step codec s (closes lease conn authenticated) = callback_closed s lease conn authenticated

unfoldable pub run : Codec → BootstrapServer → List Event → BootstrapServer
run codec s [] = s
run codec s (e ∷ es) = run codec (step codec s e) es

step-IsSound :
    (codec : Codec) (s : BootstrapServer) (e : Event) → IsSound s → IsSound (step codec s e)
unfolding step handle_bootstrap
step-IsSound codec s (bootstraps m token bind) v = bootstrap_of-IsSound s _ token bind _ v
step-IsSound codec s (accepts port conn) v = accept-IsSound s port conn v
step-IsSound codec s (closes lease conn authenticated) v =
    closed-IsSound s lease conn authenticated v

-- Whatever hellos come, whether their ports can be listened on or not, and whatever connections come
-- and go: the lease of a device is listened on at its port by a thread that has this lease, every
-- listener's lease is its device's, and so a port is never listened on for a lease that is over.
pub listeners-IsSound :
    (codec : Codec) (s : BootstrapServer) (es : List Event) → IsSound s → IsSound (run codec s es)
unfolding run
listeners-IsSound codec s [] v = v
listeners-IsSound codec s (e ∷ es) v =
    listeners-IsSound codec (step codec s e) es (step-IsSound codec s e v)
