-- ===== src/Transport/Invariant.antt =====
-- What holds of the registered connections where nothing comes between the two locked regions of the
-- end of a connection; the module Regions has them apart.
use poker_eye_v.Prelude.{
  ◌≡◌, ◌↔◌, String, Bool, true, false, Option, none, some, List, [], ◌∷◌, arith, string_key,
  pair_key,
}
use poker_eye_v.Dict
use poker_eye_v.Dict.{get-put, get-remove}
use poker_eye_v.Json.{Fields}
use poker_eye_v.Slots.{ConnectionKey, SlotPool, reserve, release}
use poker_eye_v.Protocol.{Codec}
use poker_eye_v.Transport.{
  TrainerServer, is_active, is_other_device, register, cleanup, cleanup_names, refused, connect,
  disconnect,
}

abbrev pub is_claimed : SlotPool → ConnectionKey → Bool
is_claimed p key = elim (Dict.get p.claims key) [ none ↦ false | some n ↦ true ]

-- Active are exactly the keys whose table is listed with their device, so a table has one device at
-- most; with a pool of slots, active are exactly the keys that claim one.
pub record IsSound (s : TrainerServer) : Type 0 where
  pub listed : (d t : String) → (is_active s (d, t) ≡ true) ↔ (Dict.get s.active_tables t ≡ some d)
  pub claimed :
      (p : SlotPool) (k : ConnectionKey) → s.slot_pool ≡ some p → is_active s k ≡ is_claimed p k

pub data Event : Type 0 where
  connects : Fields → Event
  disconnects : ConnectionKey → Event

unfoldable pub step : Codec → TrainerServer → Event → TrainerServer
step codec s (connects m) = (connect codec s m).0
step codec s (disconnects key) = disconnect s key

unfoldable pub run : Codec → TrainerServer → List Event → TrainerServer
run codec s [] = s
run codec s (e ∷ es) = run codec (step codec s e) es

module _ (s : TrainerServer) (key : ConnectionKey) (v : IsSound s) where
  cleanup-listed :
      (d t : String)
      → (is_active (cleanup s key) (d, t) ≡ true)
        ↔ (Dict.get (cleanup s key).active_tables t ≡ some d)
  unfolding cleanup is_active
  cleanup-listed d t =
      ground
        (arith, v.listed d t, get-remove s.active key (d, t), get-remove s.active_tables key.1 t)

  cleanup-claimed :
      (p : SlotPool) (k : ConnectionKey)
      → (cleanup s key).slot_pool ≡ some p
      → is_active (cleanup s key) k ≡ is_claimed p k
  unfolding cleanup is_active release
  cleanup-claimed p k e = grind (arith, v.claimed, get-remove)

  register-listed :
      (d t : String)
      → (is_active (register s key).0 (d, t) ≡ true)
        ↔ (Dict.get (register s key).0.active_tables t ≡ some d)
  unfolding register is_active is_other_device
  register-listed d t = grind (arith, v.listed, get-put)

  register-claimed :
      (p : SlotPool) (k : ConnectionKey)
      → (register s key).0.slot_pool ≡ some p
      → is_active (register s key).0 k ≡ is_claimed p k
  unfolding register is_active is_other_device reserve
  register-claimed p k e = grind (arith, v.claimed, get-put)

pub cleanup-IsSound :
    (s : TrainerServer) (key : ConnectionKey) → IsSound s → IsSound (cleanup s key)
cleanup-IsSound s key v = record {
  listed = cleanup-listed s key v;
  claimed = cleanup-claimed s key v;
}

pub register-IsSound :
    (s : TrainerServer) (key : ConnectionKey) → IsSound s → IsSound (register s key).0
register-IsSound s key v = record {
  listed = register-listed s key v;
  claimed = register-claimed s key v;
}

cleanup_names-IsSound :
    (s : TrainerServer) (d t : Option String) → IsSound s → IsSound (cleanup_names s d t)
unfolding cleanup_names
cleanup_names-IsSound s (some d) (some t) v = cleanup-IsSound s (d, t) v
cleanup_names-IsSound s none t v = v
cleanup_names-IsSound s (some d) none v = v

connect-IsSound :
    (codec : Codec) (s : TrainerServer) (m : Fields) → IsSound s → IsSound (connect codec s m).0
unfolding connect refused
connect-IsSound codec s m v =
    grind (arith, cleanup-IsSound, register-IsSound, cleanup_names-IsSound, v)

-- From a sound registry, whatever connects and disconnects in this way, the active keys are exactly
-- those whose table is listed with their device, so that a table never has two devices; and with a
-- pool of slots they are exactly the keys that claim a slot.
pub connections-IsSound :
    (codec : Codec) (s : TrainerServer) (es : List Event) → IsSound s → IsSound (run codec s es)
unfolding run step
connections-IsSound codec s [] v = v
connections-IsSound codec s (connects m ∷ es) v =
    connections-IsSound codec (connect codec s m).0 es (connect-IsSound codec s m v)
connections-IsSound codec s (disconnects key ∷ es) v =
    connections-IsSound codec (cleanup s key) es (cleanup-IsSound s key v)
