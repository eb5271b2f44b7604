-- ===== src/Bootstrap.antt =====
-- `BootstrapServer` of core/bootstrap.py: the leases of the callback ports and their listeners. Each
-- handler is one step, from its frame to its answer or to its end.
pub mod Listeners
pub mod Served
pub mod Hello
pub mod Disconnects
pub mod Messages
mod Runs
use poker_eye_v.Prelude.{
  ℕ, ◌*◌, String, Bool, true, false, ◌&&◌, ◌||◌, not, Option, none, some, List, [], ◌∷◌, ◌==◌,
  if◌then◌else◌, ite, String-discrete, ℕ_discrete, string_key, nat_key,
}
use poker_eye_v.Prelude.Int.{ℤ, pos}
use poker_eye_v.Dict
use poker_eye_v.Dict.{Dict}
use poker_eye_v.Json.{Json, bool, int, float, str, Fields, get, truthy}
use poker_eye_v.Callbacks
use poker_eye_v.Callbacks.{CallbackLease, CallbackAllocator, allocate, release}
use poker_eye_v.Protocol.{
  Codec, Verified, verified, value_error, type_error, compare_digest, name_of, is_type, is_version,
  proof,
}

-- A listening socket is given by the lease that its accepting thread has, and a connection by the
-- identity of its socket.
pub record BootstrapServer : Type 0 where
  pub allocator : CallbackAllocator
  pub callback_servers : Dict ℕ CallbackLease
  pub callback_connections : Dict ℕ (List ℕ)

-- The answer to a bootstrap hello: the lease, an error frame, or nothing where the handler ends by an
-- exception that it does not catch.
pub data Answer : Type 0 where
  registered : CallbackLease → Answer
  rejected : String → Answer
  silence : Answer

-- msg.get(k, default), as a text
abbrev text_or : Codec → Fields → String → String → String
text_or codec m k default = elim (get m k) [ none ↦ default | some x ↦ codec.text_of x ]

abbrev pub truthy_of : Option Json → Bool
truthy_of none = false
truthy_of (some x) = truthy x

-- The checks of `_handle_bootstrap`: the device and its local address.
unfoldable pub verify_bootstrap : Codec → Fields → Verified
verify_bootstrap codec m =
    if is_type m "bootstrap_hello" && is_version (get m "version")
    then elim (name_of (get m "device_id")) [
      | none ↦ value_error
      | some device ↦ elim (name_of (get m "local_ipv4")) [
        | none ↦ value_error
        | some local_ipv4 ↦ elim (name_of (get m "proof")) [
          | none ↦ value_error
          | some supplied ↦
              compare_digest supplied
                (proof codec (text_or codec m "nonce" "") device
                  (text_or codec m "session_id" "bootstrap"))
                (verified device local_ipv4)
        ]
      ]
    ]
    else value_error

-- The listener and the connections of a port are gone, and the lease is released.
unfoldable pub drop : BootstrapServer → CallbackLease → BootstrapServer
drop s lease = record {
  allocator = (release s.allocator lease.device_id (some lease.generation)).0;
  callback_servers = Dict.remove s.callback_servers lease.callback_port;
  callback_connections = Dict.remove s.callback_connections lease.callback_port;
}

-- `_invalidate_callback`
unfoldable pub invalidate_callback : BootstrapServer → String → BootstrapServer
invalidate_callback s device = elim (Callbacks.get s.allocator device) [
  | none ↦ s
  | some old ↦ record {
    allocator = (release s.allocator device (some old.generation)).0;
    callback_servers = Dict.remove s.callback_servers old.callback_port;
    callback_connections = Dict.remove s.callback_connections old.callback_port;
  }
]

-- d.setdefault(k, set())
abbrev with_set : Dict ℕ (List ℕ) → ℕ → Dict ℕ (List ℕ)
with_set d k = elim (Dict.get d k) [ none ↦ Dict.put d k [] | some x ↦ d ]

-- `_ensure_callback`; `bind` is the exception of `bind` or `listen`, if one is raised, which is
-- returned.
unfoldable pub ensure_callback :
    BootstrapServer → CallbackLease → Option String → BootstrapServer × Option String
ensure_callback s lease bind = elim (Dict.get s.callback_servers lease.callback_port) [
  | some l ↦ (s, none)
  | none ↦ elim bind [
    | some e ↦ (s, some e)
    | none ↦ (
      record s {
        callback_servers = Dict.put s.callback_servers lease.callback_port lease;
        callback_connections = with_set s.callback_connections lease.callback_port;
      },
      none,
    )
  ]
]

-- The lease is made, and its listener is to be.
unfoldable pub listen :
    BootstrapServer → String → CallbackLease → Option String → BootstrapServer × Answer
listen s device lease bind =
    let (s', failure) = ensure_callback s lease bind in
    elim failure [
      | none ↦ (s', registered lease)
      | some e ↦ (
        record s' { allocator = (release s'.allocator device (some lease.generation)).0 },
        rejected e,
      )
    ]

-- What follows the allocation, which has failed or made a lease.
unfoldable pub after_allocation :
    BootstrapServer
    → String
    → Option String
    → CallbackAllocator × Option CallbackLease
    → BootstrapServer × Answer
after_allocation s device bind (a, none) = (record s { allocator = a }, rejected "RuntimeError")
after_allocation s device bind (a, some l) = listen (record s { allocator = a }) device l bind

-- `_handle_bootstrap` from the allocation on; `token` is what `secrets.token_hex` returns.
unfoldable pub lease_callback :
    BootstrapServer → String → String → Bool → String → Option String → BootstrapServer × Answer
lease_callback s device local_ipv4 force_new token bind =
    after_allocation s device bind (allocate s.allocator device local_ipv4 force_new token)

-- What follows the checks; `force_new` asks for a new lease.
unfoldable pub bootstrap_of :
    BootstrapServer → Bool → String → Option String → Verified → BootstrapServer × Answer
bootstrap_of s force_new token bind value_error = (s, rejected "ValueError")
bootstrap_of s force_new token bind type_error = (s, silence)
bootstrap_of s force_new token bind (verified device local_ipv4) =
    lease_callback (if force_new then invalidate_callback s device else s) device local_ipv4
      force_new token bind

unfoldable pub handle_bootstrap :
    Codec → BootstrapServer → Fields → String → Option String → BootstrapServer × Answer
handle_bootstrap codec s m token bind =
    bootstrap_of s (truthy_of (get m "reallocate")) token bind (verify_bootstrap codec m)

-- hello.get("generation") == lease.generation
abbrev is_number : Option Json → ℕ → Bool
is_number (some (int (pos n))) g = n == g
is_number (some (bool true)) g = g == 1
is_number (some (bool false)) g = g == 0
is_number (some (float (pos units))) g = units == g * 100_000_000
is_number _ g = false

-- hello.get("device_id") == lease.device_id
abbrev is_text : Option Json → String → Bool
is_text (some (str s)) t = ite (String-discrete s t) true false
is_text _ t = false

-- The checks of `_handle_callback`, with the device and the table.
unfoldable pub verify_callback : Codec → CallbackLease → Fields → Verified
verify_callback codec lease m =
    if is_type m "callback_hello" && is_version (get m "version")
    then elim (name_of (get m "table_id")) [
      | none ↦ value_error
      | some table ↦
          if is_text (get m "device_id") lease.device_id
            && is_number (get m "generation") lease.generation
          then compare_digest (text_or codec m "token" "") lease.token
              (verified lease.device_id table)
          else value_error
    ]
    else value_error

abbrev add_connection : Option (List ℕ) → ℕ → List ℕ
add_connection none conn = conn ∷ []
add_connection (some cs) conn = conn ∷ cs

-- `_accept_callback` gives the listener's lease and the new connection to `_handle_callback`.
unfoldable pub accept_callback : BootstrapServer → ℕ → ℕ → BootstrapServer × Option CallbackLease
accept_callback s port conn = elim (Dict.get s.callback_servers port) [
  | none ↦ (s, none)
  | some lease ↦ (
    record s {
      callback_connections =
          Dict.put s.callback_connections lease.callback_port
            (add_connection (Dict.get s.callback_connections lease.callback_port) conn);
    },
    some lease,
  )
]

-- connections.discard(conn)
unfoldable pub discard : List ℕ → ℕ → List ℕ
discard [] conn = []
discard (c ∷ cs) conn = (let rest = discard cs conn in if c == conn then rest else c ∷ rest)

abbrev pub leases_eq : CallbackLease → CallbackLease → Bool
leases_eq l m =
    ite (String-discrete l.device_id m.device_id) true false
    && (ite (String-discrete l.local_ipv4 m.local_ipv4) true false
        && (l.callback_port == m.callback_port
            && (ite (String-discrete l.token m.token) true false && l.generation == m.generation)))

-- `_close_callback_lease`
unfoldable pub close_callback_lease : BootstrapServer → CallbackLease → BootstrapServer
close_callback_lease s lease = elim (Callbacks.get s.allocator lease.device_id) [
  | none ↦ s
  | some l ↦ if leases_eq l lease then drop s lease else s
]

unfoldable pub without : BootstrapServer → ℕ → ℕ → BootstrapServer
without s port conn = elim (Dict.get s.callback_connections port) [
  | none ↦ s
  | some cs ↦ record s {
    callback_connections = Dict.put s.callback_connections port (discard cs conn);
  }
]

-- The `finally` of `_handle_callback`
unfoldable pub callback_closed : BootstrapServer → CallbackLease → ℕ → Bool → BootstrapServer
callback_closed s lease conn authenticated =
    let s' = without s lease.callback_port conn in
    if authenticated then close_callback_lease s' lease else s'

-- The loop of `stop` over the leases
unfoldable pub release_all : CallbackAllocator → Dict String CallbackLease → CallbackAllocator
release_all a [] = a
release_all a ((d, lease) ∷ ls) =
    release_all (release a lease.device_id (some lease.generation)).0 ls

unfoldable pub stop : BootstrapServer → BootstrapServer
stop s = record {
  allocator = release_all s.allocator s.allocator.leases;
  callback_servers = [];
  callback_connections = [];
}
