-- ===== src/Callbacks/Runs.antt =====
-- Concrete runs of the allocator, and the theorems at concrete inputs.
use poker_eye_v.Prelude.{◌≡◌, String, false, some, [], ◌∷◌, string_key, nat_key}
use poker_eye_v.Dict
use poker_eye_v.Callbacks.{CallbackAllocator, CallbackLease}
use poker_eye_v.Callbacks.Ports.{IsSound, allocates, releases, run, allocator_run-IsSound}

abbrev empty_allocator : CallbackAllocator
empty_allocator = record {
  start = 54_300;
  last = 54_300;
  leases = [];
  ports = [];
  generations = [];
}

empty_allocator-IsSound : IsSound empty_allocator
unfolding Dict.get
empty_allocator-IsSound = record { port_of = λ d l e. cc; lease_of = λ p d e. absurd (cc) }

allocator_run-IsSound_example :
    let b =
      run empty_allocator (allocates "d1" "10.0.0.2" false "t" ∷ releases "d1" (some 1) ∷ []) in
    IsSound b
    × ((d e : String) (l m : CallbackLease)
        → Dict.get b.leases d ≡ some l
        → Dict.get b.leases e ≡ some m
        → l.callback_port ≡ m.callback_port
        → d ≡ e)
allocator_run-IsSound_example =
    allocator_run-IsSound empty_allocator
      (allocates "d1" "10.0.0.2" false "t" ∷ releases "d1" (some 1) ∷ []) empty_allocator-IsSound
