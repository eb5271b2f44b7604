-- ===== src/Transport/Runs.antt =====
-- Concrete hellos, and the theorems at concrete inputs.
use poker_eye_v.Prelude.{
  ℕ, ◌≡◌, refl, String, String-discrete, pair_same, true, false, some, List, [], ◌∷◌, arith,
  string_key, pair_key,
}
use poker_eye_v.Prelude.Int.{pos}
use poker_eye_v.Prelude.Lowest.{lowest}
use poker_eye_v.Dict
use poker_eye_v.Dict.{Distinct}
use poker_eye_v.Json.{str, int, obj, Fields, end, field, get}
use poker_eye_v.Slots.{SlotPool, reserve, release, is_used}
use poker_eye_v.Slots.Claims
use poker_eye_v.Protocol.{
  Codec, verified, value_error, is_ascii, compare_digest, proof, verify_hello,
}
use poker_eye_v.Transport.{
  TrainerServer, welcome, error, is_active, is_other_device, direct_proof, verify_direct, verify,
  register, connect, unregister, greet,
}
use poker_eye_v.Transport.Invariant.{IsSound, is_claimed}
use poker_eye_v.Transport.Regions
use poker_eye_v.Transport.Regions.{
  Endpoint, Region, greets, unregisters, releases, regions_run-IsSound, late_release_strips,
}
use poker_eye_v.Transport.Welcome.{IsAdmitted, welcome-IsAdmitted}
use poker_eye_v.Transport.Evicted.{refused_duplicate_evicts}

abbrev codec : Codec
codec = record {
  dumps = λ d. 123 ∷ 125 ∷ [];
  loads = λ b. some (obj end);
  text_of = λ x. "";
  hmac = λ x. "ok";
}

abbrev pool : SlotPool
pool = record { total = 2; claims = (("d1", "t1"), 1) ∷ [] }

-- Nobody is connected.
abbrev quiet : TrainerServer
quiet = record {
  session_id = "s";
  advertised_nonce = "n";
  slot_pool = some (record { total = 2; claims = [] });
  active = [];
  active_tables = [];
}

-- The device d1 is connected with the table t1.
abbrev live : TrainerServer
live = record quiet {
  slot_pool = some pool;
  active = (("d1", "t1"), tt) ∷ [];
  active_tables = ("t1", "d1") ∷ [];
}

abbrev hello : String → String → Fields
hello kind given = field "type" (str kind) (
    field "version" (int (pos 2))
      (field "device_id" (str "d1") (field "table_id" (str "t1") (field "proof" (str given) end))))

quiet-IsSound : IsSound quiet
unfolding is_active Dict.get
quiet-IsSound = record {
  listed = λ d t. ((λ e. absurd (cc e)), (λ e. absurd (cc e)));
  claimed = λ p k e. ground (arith, e);
}

live-IsSound : IsSound live
unfolding is_active Dict.get
live-IsSound = record { listed = λ d t. ground arith; claimed = λ p k e. ground (arith, e) }

pool-IsSound : Claims.IsSound pool
unfolding Dict.get
pool-IsSound = record {
  in_range = λ k n e. ground (arith, e);
  apart = λ j k n e f. ground (arith, e, f);
}

pool-Distinct : Distinct pool.claims
unfolding Dict.get
pool-Distinct = (refl, tt)

hello_verified : verify codec live (hello "hello" "ok") ≡ verified "d1" "t1"
unfolding verify verify_hello compare_digest is_ascii proof get String-discrete
hello_verified = refl

direct_refused : verify_direct codec live (hello "direct_hello" "no") ≡ value_error
unfolding verify_direct compare_digest is_ascii direct_proof get String-discrete
direct_refused = refl

live_active : is_active live ("d1", "t1") ≡ true
unfolding is_active Dict.get pair_same String-discrete
live_active = refl

hello_welcome : (connect codec quiet (hello "hello" "ok")).1 ≡ welcome (some 1)
unfolding connect verify verify_hello compare_digest is_ascii proof get String-discrete register
    is_active is_other_device reserve is_used lowest Dict.get pair_same
hello_welcome = refl

abbrev endpoint : TrainerServer → Endpoint
endpoint s = record { server = s; owed = [] }

abbrev regions : List Region
regions =
    greets (hello "hello" "ok")
    ∷ unregisters ("d1", "t1")
    ∷ greets (hello "hello" "ok")
    ∷ releases ("d1", "t1")
    ∷ []

quiet_regions-IsSound : Regions.IsSound (endpoint quiet)
unfolding is_active Dict.get
quiet_regions-IsSound = record {
  listed = λ d t. ((λ e. absurd (cc e)), (λ e. absurd (cc e)));
  claimed = λ p k e c. ground (arith, e, c);
}

live_regions-IsSound : Regions.IsSound (endpoint live)
unfolding is_active Dict.get
live_regions-IsSound = record {
  listed = λ d t. ground arith;
  claimed = λ p k e c. ground (arith, e, c);
}

pool_claim : Dict.get pool.claims ("d1", "t1") ≡ some 1
unfolding Dict.get pair_same String-discrete
pool_claim = refl

regions_run-IsSound_example : Regions.IsSound (Regions.run codec (endpoint quiet) regions)
regions_run-IsSound_example =
    regions_run-IsSound codec (endpoint quiet) regions quiet_regions-IsSound

late_release_strips_example :
    let ended = unregister live ("d1", "t1") in
    let after =
      Regions.run codec
        (endpoint live)
        (unregisters ("d1", "t1") ∷ greets (hello "hello" "ok") ∷ releases ("d1", "t1") ∷ []) in
    ((greet codec ended (hello "hello" "ok")).1 ≡ welcome (some 1))
    × (is_active after.server ("d1", "t1") ≡ true)
    × (after.server.slot_pool ≡ some (release pool ("d1", "t1")).0)
    × (is_claimed (release pool ("d1", "t1")).0 ("d1", "t1") ≡ false)
late_release_strips_example =
    late_release_strips codec (endpoint live) (hello "hello" "ok") "d1" "t1" pool 1
      live_regions-IsSound refl live_active pool_claim hello_verified

welcome-IsAdmitted_example :
    IsAdmitted codec quiet (connect codec quiet (hello "hello" "ok")).0 (hello "hello" "ok") 1
welcome-IsAdmitted_example = welcome-IsAdmitted codec quiet (hello "hello" "ok") 1 hello_welcome

refused_duplicate_evicts_example :
    let (s1, r1) = connect codec live (hello "hello" "ok") in
    let (s2, r2) = connect codec s1 (hello "hello" "ok") in
    (r1 ≡ error "duplicate_connection")
    × (is_active s1 ("d1", "t1") ≡ false)
    × ((n : ℕ) × (r2 ≡ welcome (some n)))
    × (is_active s2 ("d1", "t1") ≡ true)
refused_duplicate_evicts_example =
    refused_duplicate_evicts codec live (hello "hello" "ok") "d1" "t1" pool live-IsSound refl
      pool-IsSound pool-Distinct hello_verified live_active
