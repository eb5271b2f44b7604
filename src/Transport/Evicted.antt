-- ===== src/Transport/Evicted.antt =====
-- A connection that is refused cleans up what a live one has registered.
use poker_eye_v.Prelude.{
  ℕ, ◌≡◌, String, true, false, some, arith, string_key, pair_key, refl, ◌∙◌, Option-cases, inl, inr,
}
use poker_eye_v.Dict
use poker_eye_v.Dict.{get-put, get-remove, Distinct}
use poker_eye_v.Json.{Fields, get}
use poker_eye_v.Slots.{ConnectionKey, SlotPool, reserve, release}
use poker_eye_v.Slots.Claims
use poker_eye_v.Slots.Claims.{reserve-release}
use poker_eye_v.Protocol.{Codec, verified, value_error, name_of, is_type}
use poker_eye_v.Transport.{
  TrainerServer, welcome, error, is_active, is_other_device, register, cleanup, cleanup_names,
  refused, verify_direct, verify, connect,
}
use poker_eye_v.Transport.Invariant.{IsSound}

cleanup-gone : (s : TrainerServer) (key : ConnectionKey) → is_active (cleanup s key) key ≡ false
unfolding cleanup is_active
cleanup-gone s key = ground (arith, get-remove s.active key key)

verify-cleanup :
    (codec : Codec) (s : TrainerServer) (key : ConnectionKey) (m : Fields)
    → verify codec (cleanup s key) m ≡ verify codec s m
unfolding verify verify_direct cleanup
verify-cleanup codec s key m = refl

duplicate-connect :
    (codec : Codec) (s : TrainerServer) (m : Fields) (d t : String)
    → verify codec s m ≡ verified d t
    → is_active s (d, t) ≡ true
    → connect codec s m ≡ (cleanup s (d, t), error "duplicate_connection")
unfolding connect register
duplicate-connect codec s m d t f a = ground (arith, f, a)

refused-connect :
    (codec : Codec) (s : TrainerServer) (m : Fields) (d t : String)
    → is_type m "direct_hello" ≡ true
    → name_of (get m "device_id") ≡ some d
    → name_of (get m "table_id") ≡ some t
    → verify_direct codec s m ≡ value_error
    → connect codec s m ≡ (cleanup s (d, t), error "ValueError")
unfolding connect verify refused cleanup_names
refused-connect codec s m d t direct names_d names_t f = ground (arith, direct, names_d, names_t, f)

-- A free key with a slot to be had is welcome.
free-connect :
    (codec : Codec) (s : TrainerServer) (m : Fields) (d t : String) (p : SlotPool) (n : ℕ)
    → verify codec s m ≡ verified d t
    → is_active s (d, t) ≡ false
    → is_other_device s (d, t) ≡ false
    → s.slot_pool ≡ some p
    → (reserve p (d, t)).1 ≡ some n
    → let (s', r) = connect codec s m in (r ≡ welcome (some n)) × (is_active s' (d, t) ≡ true)
unfolding connect register is_active
free-connect codec s m d t p n f a o e r =
    ground (arith, f, a, o, e, r, get-put s.active (d, t) tt (d, t))

alone-cleanup :
    (s : TrainerServer) (d t : String)
    → IsSound s
    → is_active s (d, t) ≡ true
    → is_other_device (cleanup s (d, t)) (d, t) ≡ false
unfolding is_other_device cleanup
alone-cleanup s d t v a = ground (arith, (v.listed d t).0 a, get-remove s.active_tables t t)

-- The slot pool after a cleanup.
cleanup-pool :
    (s : TrainerServer) (key : ConnectionKey) (p : SlotPool)
    → s.slot_pool ≡ some p
    → (cleanup s key).slot_pool ≡ some (release p key).0
unfolding cleanup
cleanup-pool s key p e = ground (arith, e)

claim_of_active :
    (s : TrainerServer) (key : ConnectionKey) (p : SlotPool)
    → IsSound s
    → s.slot_pool ≡ some p
    → is_active s key ≡ true
    → (n : ℕ) × (Dict.get p.claims key ≡ some n)
claim_of_active s key p v e a = elim (Option-cases (Dict.get p.claims key)) [
  | inl none_claimed ↦ absurd (ground (arith, v.claimed p key e, a, none_claimed))
  | inr c ↦ c
]

-- In a sound registry with a pool of slots: a second hello for a key that is active is refused as a
-- duplicate, but it takes the key out of the registry, so a third one is welcome while the first
-- connection still runs.
pub refused_duplicate_evicts :
    (codec : Codec) (s : TrainerServer) (m : Fields) (d t : String) (p : SlotPool)
    → IsSound s
    → s.slot_pool ≡ some p
    → Claims.IsSound p
    → Distinct p.claims
    → verify codec s m ≡ verified d t
    → is_active s (d, t) ≡ true
    → let (s1, r1) = connect codec s m in
      let (s2, r2) = connect codec s1 m in
      (r1 ≡ error "duplicate_connection")
      × (is_active s1 (d, t) ≡ false)
      × ((n : ℕ) × (r2 ≡ welcome (some n)))
      × (is_active s2 (d, t) ≡ true)
refused_duplicate_evicts codec s m d t p v e w u f a =
    let key : ConnectionKey = (d, t) in
    let (n, claim) = claim_of_active s key p v e a in
    let (k, slot) = reserve-release p key key n w u claim in
    let (r2, active2) =
      free-connect codec (cleanup s key) m d t (release p key).0 k
        (verify-cleanup codec s key m ∙ f) (cleanup-gone s key) (alone-cleanup s d t v a)
        (cleanup-pool s key p e) slot in
    rw (duplicate-connect codec s m d t f a) (refl, cleanup-gone s key, (k, r2), active2)

-- A direct hello with the two names of an active key and with a proof that fails takes the key out of
-- the registry and sets its slot free, which any other key may then have.
pub failed_proof_evicts :
    (codec : Codec) (s : TrainerServer) (m : Fields) (d t : String) (p : SlotPool)
    → IsSound s
    → s.slot_pool ≡ some p
    → Claims.IsSound p
    → Distinct p.claims
    → is_type m "direct_hello" ≡ true
    → name_of (get m "device_id") ≡ some d
    → name_of (get m "table_id") ≡ some t
    → verify_direct codec s m ≡ value_error
    → is_active s (d, t) ≡ true
    → let (s1, r1) = connect codec s m in
      (r1 ≡ error "ValueError")
      × (is_active s1 (d, t) ≡ false)
      × (p1 : SlotPool) × (s1.slot_pool ≡ some p1)
      × ((other : ConnectionKey) → (n : ℕ) × ((reserve p1 other).1 ≡ some n))
failed_proof_evicts codec s m d t p v e w u direct names_d names_t f a =
    let key : ConnectionKey = (d, t) in
    let (n, claim) = claim_of_active s key p v e a in
    rw (refused-connect codec s m d t direct names_d names_t f) (
      refl,
      cleanup-gone s key,
      (release p key).0,
      cleanup-pool s key p e,
      λ other. reserve-release p key other n w u claim,
    )
