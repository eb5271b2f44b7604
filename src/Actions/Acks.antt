-- ===== src/Actions/Acks.antt =====
-- Which acknowledgements settle an action, and what they leave alone.
use poker_eye_v.Prelude.{
  ℕ, ◌≡◌, ◌≢◌, ◌↔◌, ◌⊎◌, inl, String, true, false, none, some, arith, ite, String-discrete,
  string_key,
}
use poker_eye_v.Dict
use poker_eye_v.Dict.{get-put, get-put_self, get-remove, get-remove_self}
use poker_eye_v.Actions.{
  Action, acked, ActionScheduler, create, next_attempt, acknowledge, timeout_unknown, finish_failed,
}
use poker_eye_v.Actions.Attempts.{Call, submits, attempts, acknowledges, times_out, finishes, step}

-- An ACK settles exactly the device's active action, of that correlation id and generation.
module _ (s : ActionScheduler) (device correlation : String) (generation : ℕ) where
  abbrev pub Matches : ℕ → Type 0
  Matches r =
      (Dict.get s.active device ≡ some r)
      × ((s.objects r).correlation_id ≡ correlation)
      × ((s.objects r).generation ≡ generation)

  acknowledge-Matches : (acknowledge s device correlation generation).1 ≡ true → (r : ℕ) × Matches r
  unfolding acknowledge
  acknowledge-Matches h = ground arith

  Matches-acknowledge : (r : ℕ) → Matches r → (acknowledge s device correlation generation).1 ≡ true
  unfolding acknowledge
  Matches-acknowledge r m = ground arith

  -- `acknowledge` accepts exactly when the device has an active action of that correlation id and
  -- generation.
  pub acknowledge_iff :
      ((acknowledge s device correlation generation).1 ≡ true) ↔ ((r : ℕ) × Matches r)
  acknowledge_iff = (acknowledge-Matches, λ m. Matches-acknowledge m.0 m.1)

  -- An accepted ACK empties the device's slot, marks the action, and touches no other device and no
  -- other object; a refused one changes nothing.
  pub acknowledge_effect :
      (r : ℕ)
      → Dict.get s.active device ≡ some r
      → let t = acknowledge s device correlation generation in
        (t.1 ≡ false → t.0 ≡ s)
        × (t.1 ≡ true
            → ((j : String)
                → Dict.get (t.0).active j
                  ≡ ite (String-discrete device j) none (Dict.get s.active j))
              × (((t.0).objects r).status ≡ acked)
              × ((q : ℕ) → q ≢ r → (t.0).objects q ≡ s.objects q))
  unfolding acknowledge
  acknowledge_effect r held = (
    λ refused. ground arith,
    λ accepted.
        (λ j. ground (arith, get-remove s.active device j), ground arith, λ q n. ground arith),
  )

-- When an action was given up as uncertain and a new one with another correlation id has taken the
-- device's slot, the late ACK of the old one is refused, whatever its generation.
pub late_ack_refused :
    (s : ActionScheduler) (device old : String) (generation r : ℕ) (a : Action)
    → (timeout_unknown s device old).1 ≡ true
    → a.device_id ≡ device
    → a.correlation_id ≢ old
    → let t = step (timeout_unknown s device old).0 (submits r a) in
      (Dict.get t.active device ≡ some r) × (acknowledge t device old generation ≡ (t, false))
unfolding timeout_unknown acknowledge step create
late_ack_refused s device old generation r a gone owner other =
    ground
      (arith, get-remove_self s.active device, get-put_self (Dict.remove s.active device) device r)

-- The calls that settle the action of a device, with their success.
abbrev pub Settles : ActionScheduler → Call → String → Type 0
Settles s (acknowledges d c g) device = (d ≡ device) × ((acknowledge s d c g).1 ≡ true)
Settles s (times_out d c) device = (d ≡ device) × ((timeout_unknown s d c).1 ≡ true)
Settles s (finishes d) device = (d ≡ device) × ((finish_failed s d).1 ≢ none)
Settles s _ device = ⊥

-- A device's active action is never replaced: a call leaves it in its slot, or empties the slot,
-- and the latter only if the call is a successful settlement for this device.
pub slot_kept_or_settled :
    (s : ActionScheduler) (c : Call) (device : String) (r : ℕ)
    → Dict.get s.active device ≡ some r
    → (Dict.get (step s c).active device ≡ some r)
      ⊎ ((Dict.get (step s c).active device ≡ none) × Settles s c device)
unfolding step create next_attempt acknowledge timeout_unknown finish_failed
slot_kept_or_settled s (submits q a) device r held =
    ground (arith, get-put s.active a.device_id q device)
slot_kept_or_settled s (attempts d) device r held = inl (ground arith)
slot_kept_or_settled s (acknowledges d c g) device r held =
    ground (arith, get-remove s.active d device)
slot_kept_or_settled s (times_out d c) device r held = ground (arith, get-remove s.active d device)
slot_kept_or_settled s (finishes d) device r held = ground (arith, get-remove s.active d device)
