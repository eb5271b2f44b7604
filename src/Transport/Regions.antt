-- ===== src/Transport/Regions.antt =====
-- The connections of an endpoint whose threads interleave: the hello, the removal from the registry and
-- the release of the slot are locked each by itself, so anything can come between them.
use poker_eye_v.Prelude.{
  ℕ, ◌≡◌, ◌∙◌, refl, ◌↔◌, String, Bool, true, false, ◌||◌, none, some, List, [], ◌∷◌, arith,
  string_key, pair_key,
}
use poker_eye_v.Dict
use poker_eye_v.Dict.{Dict, get-put, get-remove}
use poker_eye_v.Json.{Fields}
use poker_eye_v.Slots.{ConnectionKey, SlotPool, reserve, release}
use poker_eye_v.Protocol.{Codec, verified}
use poker_eye_v.Transport.{
  TrainerServer, welcome, is_active, is_other_device, register, unregister, release_claim, greet,
  verify, verify_direct,
}
use poker_eye_v.Transport.Invariant.{is_claimed}

-- The server, and the keys whose slot a thread has still to release.
pub record Endpoint : Type 0 where
  pub server : TrainerServer
  pub owed : Dict ConnectionKey (Unit {0})

-- A thread's next region: of any hello, and of the end of any connection. A release may also come
-- again, for a second connection that ends with the same key.
pub data Region : Type 0 where
  greets : Fields → Region
  unregisters releases : ConnectionKey → Region

unfoldable pub step : Codec → Endpoint → Region → Endpoint
step codec e (greets m) = record e { server = (greet codec e.server m).0 }
step codec e (unregisters key) = record {
  server = unregister e.server key;
  owed = Dict.put e.owed key tt;
}
step codec e (releases key) = record {
  server = release_claim e.server key;
  owed = Dict.remove e.owed key;
}

unfoldable pub run : Codec → Endpoint → List Region → Endpoint
run codec e [] = e
run codec e (r ∷ rs) = run codec (step codec e r) rs

unfoldable pub is_owed : Endpoint → ConnectionKey → Bool
is_owed e key = elim (Dict.get e.owed key) [ none ↦ false | some u ↦ true ]

-- Active are exactly the keys whose table is listed with their device; a key that claims a slot is
-- active, or a thread has still to release its slot.
pub record IsSound (e : Endpoint) : Type 0 where
  pub listed :
      (d t : String)
      → (is_active e.server (d, t) ≡ true) ↔ (Dict.get e.server.active_tables t ≡ some d)
  pub claimed :
      (p : SlotPool) (k : ConnectionKey)
      → e.server.slot_pool ≡ some p
      → is_claimed p k ≡ true
      → (is_active e.server k || is_owed e k) ≡ true

module _ (e : Endpoint) (key : ConnectionKey) (v : IsSound e) where
  registered-IsSound : IsSound (record e { server = (register e.server key).0 })
  unfolding register is_active is_other_device reserve is_owed
  registered-IsSound = record {
    listed = λ d t. grind (arith, v.listed, get-put);
    claimed = λ p k s c. grind (arith, v.claimed, get-put);
  }

  unregistered-IsSound :
      IsSound (record { server = unregister e.server key; owed = Dict.put e.owed key tt })
  unfolding unregister is_active is_owed
  unregistered-IsSound = record {
    listed = λ d t. ground (
      arith,
      v.listed d t,
      get-remove e.server.active key (d, t),
      get-remove e.server.active_tables key.1 t,
    );
    claimed = λ p k s c.
        ground
          (arith, v.claimed p k s c, get-remove e.server.active key k, get-put e.owed key tt k);
  }

  released-IsSound :
      IsSound (record { server = release_claim e.server key; owed = Dict.remove e.owed key })
  unfolding release_claim is_active is_owed release
  released-IsSound = record {
    listed = v.listed;
    claimed = λ p k s c. grind (arith, v.claimed, get-remove);
  }

greeted-IsSound :
    (codec : Codec) (e : Endpoint) (m : Fields)
    → IsSound e
    → IsSound (record e { server = (greet codec e.server m).0 })
unfolding greet
greeted-IsSound codec e m v = grind (arith, registered-IsSound, v)

-- From a sound endpoint, in whatever order its threads' locked regions come, a hello's, the removal of
-- a key from the registry and the release of its slot: the active keys are exactly those whose table
-- is listed with their device, so that a table never has two devices; and every key that claims a
-- slot is active or a thread has still to release its slot, so that no slot is lost.
pub regions_run-IsSound :
    (codec : Codec) (e : Endpoint) (rs : List Region) → IsSound e → IsSound (run codec e rs)
unfolding run step
regions_run-IsSound codec e [] v = v
regions_run-IsSound codec e (greets m ∷ rs) v =
    regions_run-IsSound codec (record e { server = (greet codec e.server m).0 }) rs
      (greeted-IsSound codec e m v)
regions_run-IsSound codec e (unregisters key ∷ rs) v =
    regions_run-IsSound codec
      (record { server = unregister e.server key; owed = Dict.put e.owed key tt }) rs
      (unregistered-IsSound e key v)
regions_run-IsSound codec e (releases key ∷ rs) v =
    regions_run-IsSound codec
      (record { server = release_claim e.server key; owed = Dict.remove e.owed key }) rs
      (released-IsSound e key v)

verify-unregister :
    (codec : Codec) (s : TrainerServer) (key : ConnectionKey) (m : Fields)
    → verify codec (unregister s key) m ≡ verify codec s m
unfolding verify verify_direct unregister
verify-unregister codec s key m = refl

unregistered-free :
    (s : TrainerServer) (d t : String)
    → Dict.get s.active_tables t ≡ some d
    → (is_active (unregister s (d, t)) (d, t) ≡ false)
      × (is_other_device (unregister s (d, t)) (d, t) ≡ false)
      × ((unregister s (d, t)).slot_pool ≡ s.slot_pool)
unfolding unregister is_active is_other_device
unregistered-free s d t l =
    ground (arith, l, get-remove s.active (d, t) (d, t), get-remove s.active_tables t t)

claimed-greet :
    (codec : Codec) (s : TrainerServer) (m : Fields) (d t : String) (p : SlotPool) (n : ℕ)
    → verify codec s m ≡ verified d t
    → is_active s (d, t) ≡ false
    → is_other_device s (d, t) ≡ false
    → s.slot_pool ≡ some p
    → Dict.get p.claims (d, t) ≡ some n
    → let (s', r) = greet codec s m in
      (r ≡ welcome (some n)) × (is_active s' (d, t) ≡ true) × (s'.slot_pool ≡ some p)
unfolding greet register reserve is_active
claimed-greet codec s m d t p n f a o e c =
    ground (arith, f, a, o, e, c, get-put s.active (d, t) tt (d, t))

released_claim :
    (s : TrainerServer) (key : ConnectionKey) (p : SlotPool)
    → s.slot_pool ≡ some p
    → ((release_claim s key).slot_pool ≡ some (release p key).0)
      × (is_active (release_claim s key) key ≡ is_active s key)
      × (is_claimed (release p key).0 key ≡ false)
unfolding release_claim is_active release
released_claim s key p e = ground (arith, e, get-remove p.claims key key)

-- An active key that claims the slot `n` is removed from the registry at the end of its connection.
-- Where a hello for the same key comes before that thread releases the slot, it is welcome with the
-- slot `n`, and then the release takes its claim: the key is active without a slot.
pub late_release_strips :
    (codec : Codec) (e : Endpoint) (m : Fields) (d t : String) (p : SlotPool) (n : ℕ)
    → IsSound e
    → e.server.slot_pool ≡ some p
    → is_active e.server (d, t) ≡ true
    → Dict.get p.claims (d, t) ≡ some n
    → verify codec e.server m ≡ verified d t
    → let ended = unregister e.server (d, t) in
      let after = run codec e (unregisters (d, t) ∷ greets m ∷ releases (d, t) ∷ []) in
      ((greet codec ended m).1 ≡ welcome (some n))
      × (is_active after.server (d, t) ≡ true)
      × (after.server.slot_pool ≡ some (release p (d, t)).0)
      × (is_claimed (release p (d, t)).0 (d, t) ≡ false)
unfolding run step
late_release_strips codec e m d t p n v s a c f =
    let ended = unregister e.server (d, t) in
    let (free, alone, same) = unregistered-free e.server d t ((v.listed d t).0 a) in
    let (reply, active, pool) =
      claimed-greet codec ended m d t p n (verify-unregister codec e.server (d, t) m ∙ f) free alone
        (same ∙ s) c in
    let (left, kept, gone) = released_claim (greet codec ended m).0 (d, t) p pool in
    (reply, kept ∙ active, left, gone)
