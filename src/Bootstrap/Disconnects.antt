-- ===== src/Bootstrap/Disconnects.antt =====
-- The end of one table's connection.
use poker_eye_v.Prelude.{ℕ, ◌≡◌, ◌≢◌, refl, Bool, true, none, some, arith, string_key, nat_key}
use poker_eye_v.Dict
use poker_eye_v.Dict.{get-put, get-remove}
use poker_eye_v.Callbacks
use poker_eye_v.Callbacks.{CallbackLease, forget, release}
use poker_eye_v.Bootstrap.{
  BootstrapServer, drop, without, close_callback_lease, callback_closed, leases_eq,
}
use poker_eye_v.Bootstrap.Listeners.{release_own}
use poker_eye_v.Bootstrap.Served.{close_cases}

-- The device of the lease has neither it nor a listener, and its connections are forgotten.
pub record IsOver (s : BootstrapServer) (lease : CallbackLease) : Type 0 where
  pub unleased : Dict.get s.allocator.leases lease.device_id ≡ none
  pub unserved : Dict.get s.callback_servers lease.callback_port ≡ none
  pub forgotten : Dict.get s.callback_connections lease.callback_port ≡ none

drop-IsOver :
    (s : BootstrapServer) (lease : CallbackLease)
    → Dict.get s.allocator.leases lease.device_id ≡ some lease
    → IsOver (drop s lease) lease
unfolding drop forget
drop-IsOver s lease e = record {
  unleased = ground (
    arith,
    release_own s.allocator lease.device_id lease e,
    get-remove s.allocator.leases lease.device_id lease.device_id,
  );
  unserved = ground (arith, get-remove s.callback_servers lease.callback_port lease.callback_port);
  forgotten =
      ground (arith, get-remove s.callback_connections lease.callback_port lease.callback_port);
}

without-keeps :
    (s : BootstrapServer) (port conn : ℕ)
    → let s' = without s port conn in
      (s'.allocator ≡ s.allocator) × (s'.callback_servers ≡ s.callback_servers)
unfolding without
without-keeps s port conn = ground arith

same_lease : (l : CallbackLease) → leases_eq l l ≡ true
same_lease l = ground arith

closed-current :
    (s : BootstrapServer) (lease : CallbackLease) (conn : ℕ)
    → Dict.get s.allocator.leases lease.device_id ≡ some lease
    → callback_closed s lease conn true ≡ drop (without s lease.callback_port conn) lease
unfolding callback_closed close_callback_lease Callbacks.get
closed-current s lease conn e =
    ground (arith, without-keeps s lease.callback_port conn, e, same_lease lease)

closed-over :
    (s : BootstrapServer) (lease : CallbackLease) (conn : ℕ)
    → IsOver s lease
    → callback_closed s lease conn true ≡ s
unfolding callback_closed close_callback_lease without Callbacks.get
closed-over s lease conn o = ground (arith, o.unleased, o.forgotten)

-- When the connection of any one table ends, after it was welcome with the lease that its device still
-- has, the device loses its lease and its listener, and its other tables' connections, which go on,
-- are forgotten: their ends change nothing.
pub one_end_ends_lease :
    (s : BootstrapServer) (lease : CallbackLease) (conn : ℕ)
    → Dict.get s.allocator.leases lease.device_id ≡ some lease
    → let s' = callback_closed s lease conn true in
      IsOver s' lease × ((other : ℕ) → callback_closed s' lease other true ≡ s')
one_end_ends_lease s lease conn e =
    let s' = without s lease.callback_port conn in
    let o = drop-IsOver s' lease (ground (arith, without-keeps s lease.callback_port conn, e)) in
    rw (closed-current s lease conn e) (o, λ other. closed-over (drop s' lease) lease other o)

close-late :
    (s : BootstrapServer) (lease : CallbackLease)
    → Dict.get s.allocator.leases lease.device_id ≢ some lease
    → close_callback_lease s lease ≡ s
close-late s lease n = close_cases (λ t. t ≡ s) s lease refl (λ e. absurd (n e))

-- The end of a connection under a lease that its device has no more changes no lease and no listener.
pub late_end_keeps :
    (s : BootstrapServer) (lease : CallbackLease) (conn : ℕ) (authenticated : Bool)
    → Dict.get s.allocator.leases lease.device_id ≢ some lease
    → let s' = callback_closed s lease conn authenticated in
      (s'.allocator ≡ s.allocator) × (s'.callback_servers ≡ s.callback_servers)
unfolding callback_closed
late_end_keeps s lease conn authenticated n = grind (arith, n, close-late, without-keeps)
