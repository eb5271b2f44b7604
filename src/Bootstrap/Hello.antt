-- ===== src/Bootstrap/Hello.antt =====
-- What a bootstrap hello is answered, and what it leaves.
use poker_eye_v.Prelude.{
  ℕ, ◌≡◌, refl, String, Bool, true, false, Option, none, some, arith, string_key, nat_key,
  Option-cases, inl, inr, ◌⊎◌, if◌then◌else◌,
}
use poker_eye_v.Dict
use poker_eye_v.Dict.{get-put, get-remove, get-put_self}
use poker_eye_v.Json.{Fields, get}
use poker_eye_v.Callbacks.{
  CallbackLease, CallbackAllocator, new_lease, free_port, allocate_port, forget,
}
use poker_eye_v.Callbacks.Ports.{allocate_cases}
use poker_eye_v.Protocol.{Codec, verified}
use poker_eye_v.Bootstrap.{
  BootstrapServer, Answer, registered, rejected, ensure_callback, listen, after_allocation,
  lease_callback, invalidate_callback, bootstrap_of, verify_bootstrap, handle_bootstrap, truthy_of,
}
use poker_eye_v.Bootstrap.Listeners.{
  IsSound, allocate_port-IsServed, allocate_port-none, allocate_port-held, after-some, listen-bound,
  listen-failed, listen-again,
}
use poker_eye_v.Bootstrap.Served.{invalidate-IsSound}

-- From the server `s`, where the device's old lease is dropped if it asked for that: the device has
-- the lease that it is told, and is listened to; or it is told an error, which has its cause, and no
-- lease has changed. `bind` is the error of listening on a port, if it fails.
pub data IsAnswered (s : BootstrapServer) (device : String) (bind : Option String)
    (r : BootstrapServer × Answer) : Type 0 where
  granted :
      (l : CallbackLease)
      → r.1 ≡ registered l
      → Dict.get r.0.allocator.leases device ≡ some l
      → Dict.get r.0.callback_servers l.callback_port ≡ some l
      → IsAnswered s device bind r
  refused :
      (e : String)
      → r.1 ≡ rejected e
      → Dict.get s.allocator.leases device ≡ none
      → ((free_port s.allocator ≡ none) × (e ≡ "RuntimeError")) ⊎ (bind ≡ some e)
      → ((d : String) → Dict.get r.0.allocator.leases d ≡ Dict.get s.allocator.leases d)
      → IsAnswered s device bind r

listen-answers :
    (s : BootstrapServer) (device : String) (l : CallbackLease)
    → Dict.get s.callback_servers l.callback_port ≡ none
    → ((listen s device l none).1 ≡ registered l)
      × ((e : String) → (listen s device l (some e)).1 ≡ rejected e)
unfolding listen ensure_callback
listen-answers s device l unserved = (ground (arith, unserved), λ e. ground (arith, unserved))

listened-IsAnswered :
    (s s1 : BootstrapServer) (device : String) (l : CallbackLease) (bind : Option String)
    → Dict.get s.allocator.leases device ≡ none
    → Dict.get s1.allocator.leases device ≡ some l
    → Dict.get s1.callback_servers l.callback_port ≡ none
    → ((d : String)
        → Dict.get (forget s1.allocator device l).leases d ≡ Dict.get s.allocator.leases d)
    → IsAnswered s device bind (listen s1 device l bind)
listened-IsAnswered s s1 device l none fresh held unserved back =
    let (a, servers) = listen-bound s1 device l unserved in
    IsAnswered.granted l (listen-answers s1 device l unserved).0 (rw a held)
      (rw servers (get-put_self s1.callback_servers l.callback_port l))
listened-IsAnswered s s1 device l (some e) fresh held unserved back =
    let (a, servers) = listen-failed s1 device l e held unserved in
    IsAnswered.refused e ((listen-answers s1 device l unserved).1 e) fresh (inr refl)
      (λ d. rw a (back d))

-- The new lease is given up again.
given_back :
    (a : CallbackAllocator) (device ip token : String) (port : ℕ)
    → free_port a ≡ some port
    → Dict.get a.leases device ≡ none
    → let made = new_lease a device ip port token in
      (d : String)
      → Dict.get (forget (allocate_port a device ip token).0 device made).leases d
        ≡ Dict.get a.leases d
unfolding allocate_port forget
given_back a device ip token port f fresh d =
    let made = new_lease a device ip port token in
    ground (
      arith,
      f,
      fresh,
      get-remove (Dict.put a.leases device made) device d,
      get-put a.leases device made d,
    )

new-IsAnswered :
    (s : BootstrapServer) (device ip token : String) (bind : Option String)
    → IsSound s
    → Dict.get s.allocator.leases device ≡ none
    → IsAnswered s device bind
        (after_allocation s device bind (allocate_port s.allocator device ip token))
unfolding after_allocation
new-IsAnswered s device ip token bind v fresh = elim (Option-cases (free_port s.allocator)) [
  | inl f ↦
      rw (allocate_port-none s.allocator device ip token f)
        (IsAnswered.refused "RuntimeError" refl fresh (inl (f, refl)) (λ d. refl))
  | inr (port, f) ↦
      let made = new_lease s.allocator device ip port token in
      let r = allocate_port s.allocator device ip token in
      let (unserved, result, w) =
        allocate_port-IsServed s.allocator s.callback_servers device ip token port f fresh v in
      rw (after-some s device bind r made result) (
        listened-IsAnswered s (record s { allocator = r.0 }) device made bind fresh
          (allocate_port-held s.allocator device ip token made result) unserved
          (given_back s.allocator device ip token port f fresh))
]

kept-IsAnswered :
    (s : BootstrapServer) (device : String) (bind : Option String) (old : CallbackLease)
    → IsSound s
    → Dict.get s.allocator.leases device ≡ some old
    → IsAnswered s device bind (after_allocation s device bind (s.allocator, some old))
unfolding after_allocation
kept-IsAnswered s device bind old v e =
    rw (listen-again s device old old bind (v.served device old e))
      (IsAnswered.granted old refl e (v.served device old e))

leased-IsAnswered :
    (s : BootstrapServer) (device ip token : String) (force_new : Bool) (bind : Option String)
    → IsSound s
    → (force_new ≡ true → Dict.get s.allocator.leases device ≡ none)
    → IsAnswered s device bind (lease_callback s device ip force_new token bind)
unfolding lease_callback
leased-IsAnswered s device ip token force_new bind v dropped =
    allocate_cases (λ r. IsAnswered s device bind (after_allocation s device bind r)) s.allocator
      device ip token force_new (new-IsAnswered s device ip token bind v)
      (λ old e f. absurd (cc (dropped f, e))) (λ old e f. kept-IsAnswered s device bind old v e)

-- The server that a hello of the device finds: its old lease is dropped where it asks for a new one.
abbrev pub asked : BootstrapServer → String → Bool → BootstrapServer
asked s device force_new = if force_new then invalidate_callback s device else s

forced-IsAnswered :
    (s : BootstrapServer) (device ip token : String) (force_new : Bool) (bind : Option String)
    → IsSound s
    → IsAnswered
        (asked s device force_new)
        device
        bind
        (lease_callback (asked s device force_new) device ip force_new token bind)
forced-IsAnswered s device ip token false bind v =
    leased-IsAnswered s device ip token false bind v (λ f. absurd (cc f))
forced-IsAnswered s device ip token true bind v =
    let (w, gone) = invalidate-IsSound s device v in
    leased-IsAnswered (invalidate_callback s device) device ip token true bind w (λ f. gone)

-- In a sound server a hello that is verified is answered in one of two ways: the device is told a
-- lease, has it, and is listened to at its port by a thread with this lease; or it is told an error.
-- An error is told only to a device that had no lease, or whose old one is dropped since it asked for
-- a new one, and only because no port is free or with the error of listening on its port; then no
-- lease is left of the attempt: all leases are as before, but for the one that was dropped.
pub bootstrap-IsAnswered :
    (codec : Codec) (s : BootstrapServer) (m : Fields) (token device ip : String)
    (bind : Option String)
    → IsSound s
    → verify_bootstrap codec m ≡ verified device ip
    → IsAnswered
        (asked s device (truthy_of (get m "reallocate")))
        device
        bind
        (handle_bootstrap codec s m token bind)
unfolding handle_bootstrap bootstrap_of
bootstrap-IsAnswered codec s m token device ip bind v e =
    rw e (forced-IsAnswered s device ip token (truthy_of (get m "reallocate")) bind v)
