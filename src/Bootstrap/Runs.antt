-- ===== src/Bootstrap/Runs.antt =====
-- Concrete hellos and disconnects, and the theorems at concrete inputs.
use poker_eye_v.Prelude.{
  ℕ, ◌≡◌, refl, String-discrete, true, none, some, List, [], ◌∷◌, arith, string_key, nat_key,
}
use poker_eye_v.Prelude.Int.{pos}
use poker_eye_v.Dict
use poker_eye_v.Json.{str, int, obj, Fields, end, field, get}
use poker_eye_v.Callbacks.{CallbackLease}
use poker_eye_v.Callbacks.Ports
use poker_eye_v.Protocol.{Codec, verified, is_ascii, compare_digest, proof}
use poker_eye_v.Bootstrap.{
  BootstrapServer, verify_bootstrap, handle_bootstrap, callback_closed, truthy_of,
}
use poker_eye_v.Bootstrap.Listeners.{IsSound}
use poker_eye_v.Bootstrap.Served.{Event, bootstraps, accepts, closes, run, listeners-IsSound}
use poker_eye_v.Bootstrap.Hello.{IsAnswered, asked, bootstrap-IsAnswered}
use poker_eye_v.Bootstrap.Disconnects.{IsOver, one_end_ends_lease}

abbrev codec : Codec
codec = record {
  dumps = λ d. 123 ∷ 125 ∷ [];
  loads = λ b. some (obj end);
  text_of = λ x. "";
  hmac = λ x. "ok";
}

abbrev lease : CallbackLease
lease = record {
  device_id = "d1";
  local_ipv4 = "10.0.0.2";
  callback_port = 54_300;
  token = "k";
  generation = 1;
}

-- The device d1 has a lease, and two of its tables are connected.
abbrev server : BootstrapServer
server = record {
  allocator = record {
    start = 54_300;
    last = 54_399;
    leases = ("d1", lease) ∷ [];
    ports = (54_300, "d1") ∷ [];
    generations = ("d1", 1) ∷ [];
  };
  callback_servers = (54_300, lease) ∷ [];
  callback_connections = (54_300, 7 ∷ 8 ∷ []) ∷ [];
}

ports-IsSound : Ports.IsSound server.allocator
unfolding Dict.get
ports-IsSound = record {
  port_of = λ d l e. ground (arith, e);
  lease_of = λ p d e. (lease, ground (arith, e), ground (arith, e));
}

server-IsSound : IsSound server
unfolding Dict.get
server-IsSound = record {
  ports = ports-IsSound;
  served = λ d l e. ground (arith, e);
  leased = λ p l e. ground (arith, e);
}

abbrev hello : Fields
hello = field "type" (str "bootstrap_hello") (
    field "version" (int (pos 2)) (
      field "device_id" (str "d2")
        (field "local_ipv4" (str "10.0.0.3") (field "proof" (str "ok") end))))

hello_verified : verify_bootstrap codec hello ≡ verified "d2" "10.0.0.3"
unfolding verify_bootstrap compare_digest is_ascii proof get String-discrete
hello_verified = refl

held : Dict.get server.allocator.leases "d1" ≡ some lease
unfolding Dict.get String-discrete
held = refl

abbrev events : List Event
events = bootstraps hello "k2" none ∷ accepts 54_301 9 ∷ closes lease 7 true ∷ []

listeners-IsSound_example : IsSound (run codec server events)
listeners-IsSound_example = listeners-IsSound codec server events server-IsSound

bootstrap-IsAnswered_example :
    IsAnswered
      (asked server "d2" (truthy_of (get hello "reallocate")))
      "d2"
      (some "OSError")
      (handle_bootstrap codec server hello "k2" (some "OSError"))
bootstrap-IsAnswered_example =
    bootstrap-IsAnswered codec server hello "k2" "d2" "10.0.0.3" (some "OSError") server-IsSound
      hello_verified

one_end_ends_lease_example :
    let s' = callback_closed server lease 7 true in
    IsOver s' lease × ((other : ℕ) → callback_closed s' lease other true ≡ s')
one_end_ends_lease_example = one_end_ends_lease server lease 7 held
