-- ===== src/Transport/Welcome.antt =====
-- Who is welcome: a verified hello, for a key that is free and a slot that is.
use poker_eye_v.Prelude.{
  ℕ, ◌≡◌, ◌⊎◌, refl, String, true, false, some, arith, string_key, pair_key, Option-cases, inl, inr,
}
use poker_eye_v.Dict
use poker_eye_v.Dict.{get-put, get-remove}
use poker_eye_v.Json.{Fields}
use poker_eye_v.Slots.{ConnectionKey, SlotPool, reserve}
use poker_eye_v.Protocol.{Codec, Verified, verified, value_error, type_error}
use poker_eye_v.Slots.Claims.{reserve_lem}
use poker_eye_v.Transport.{
  TrainerServer, welcome, is_active, is_other_device, register, refused, verify, connect,
}

-- The hello's names are verified, and the key is registered with a slot of the pool.
pub record IsAdmitted (codec : Codec) (s s' : TrainerServer) (m : Fields) (n : ℕ) : Type 0 where
  pub device : String
  pub table : String
  pub names : verify codec s m ≡ verified device table
  pub was_free : is_active s (device, table) ≡ false
  pub alone : is_other_device s (device, table) ≡ false
  pub now_active : is_active s' (device, table) ≡ true
  pub pool : SlotPool
  pub has_pool : s'.slot_pool ≡ some pool
  pub slot : Dict.get pool.claims (device, table) ≡ some n

Verified-cases :
    (v : Verified)
    → ((d : String) × (t : String) × (v ≡ verified d t)) ⊎ (v ≡ value_error) ⊎ (v ≡ type_error)
Verified-cases (verified d t) = inl (d, t, refl)
Verified-cases value_error = inr (inl refl)
Verified-cases type_error = inr (inr refl)

-- The key is free, and the pool has the slot `n` for it.
record IsFree (s : TrainerServer) (key : ConnectionKey) (n : ℕ) : Type 0 where
  idle : is_active s key ≡ false
  alone : is_other_device s key ≡ false
  pool : SlotPool
  has_pool : s.slot_pool ≡ some pool
  slot : (reserve pool key).1 ≡ some n

register-IsFree :
    (s : TrainerServer) (key : ConnectionKey) (n : ℕ)
    → (register s key).1 ≡ welcome (some n)
    → IsFree s key n
unfolding register
register-IsFree s key n e = elim (Option-cases s.slot_pool) [
  | inl f ↦ absurd (ground (arith, e, f))
  | inr (p, f) ↦ record {
    idle = ground (arith, e, f);
    alone = ground (arith, e, f);
    pool = p;
    has_pool = f;
    slot = ground (arith, e, f);
  }
]

register_lem :
    (s : TrainerServer) (key : ConnectionKey) (n : ℕ) (f : IsFree s key n)
    → let (s', r) = register s key in
      (r ≡ welcome (some n))
      × (is_active s' key ≡ true)
      × (s'.slot_pool ≡ some (reserve f.pool key).0)
unfolding register is_active
register_lem s key n f =
    ground (arith, f.idle, f.alone, f.has_pool, f.slot, get-put s.active key tt key)

reserve-claims :
    (p : SlotPool) (key : ConnectionKey) (n : ℕ)
    → (reserve p key).1 ≡ some n
    → Dict.get (reserve p key).0.claims key ≡ some n
reserve-claims p key n e = elim (reserve_lem p key) [
  | inl (m, f, claim, why) ↦ cc (e, f, claim)
  | inr (full, f) ↦ absurd (ground (arith, e, f))
]

-- A welcome with the slot `n` is given only to a hello whose names are verified, whose key was not
-- active and whose table had no other device; right after it the key is active and claims the slot `n`.
pub welcome-IsAdmitted :
    (codec : Codec) (s : TrainerServer) (m : Fields) (n : ℕ)
    → (connect codec s m).1 ≡ welcome (some n)
    → IsAdmitted codec s (connect codec s m).0 m n
unfolding connect refused
welcome-IsAdmitted codec s m n e = elim (Verified-cases (verify codec s m)) [
  | inr (inl f) ↦ absurd (ground (arith, e, f))
  | inr (inr f) ↦ absurd (ground (arith, e, f))
  | inl (d, t, f) ↦
      let free = register-IsFree s (d, t) n (ground (arith, e, f)) in
      let (same, now_active, has_pool) = register_lem s (d, t) n free in
      record {
        device = d;
        table = t;
        names = f;
        was_free = free.idle;
        alone = free.alone;
        now_active = ground (arith, f, now_active, same);
        pool = (reserve free.pool (d, t)).0;
        has_pool = ground (arith, f, has_pool, same);
        slot = reserve-claims free.pool (d, t) n free.slot;
      }
]
