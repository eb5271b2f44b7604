-- ===== src/Actions/Invariant.antt =====
-- What holds of every active action, after any calls.
use poker_eye_v.Prelude.{ℕ, ◌≤◌, ◌≡◌, ◌≢◌, String, false, some, List, [], ◌∷◌, arith, string_key}
use poker_eye_v.Dict
use poker_eye_v.Dict.{get-put, get-remove}
use poker_eye_v.Actions.{
  Action, ActionScheduler, max_attempts, create, next_attempt, acknowledge, timeout_unknown,
  finish_failed,
}
use poker_eye_v.Actions.Attempts.{
  Call, submits, attempts, acknowledges, times_out, finishes, step, run, IsFresh,
}

-- The action stands in the slot of its own device, within its attempts and not in doubt.
pub record IsHeld (d : String) (a : Action) : Type 0 where
  pub owner : a.device_id ≡ d
  pub bounded : a.attempt ≤ max_attempts
  pub certain : a.uncertain ≡ false

pub record IsSound (s : ActionScheduler) : Type 0 where
  pub at : (d : String) (r : ℕ) → Dict.get s.active d ≡ some r → IsHeld d (s.objects r)

-- A submitted action is new, under an identity that is not in any slot.
abbrev pub IsProper : ActionScheduler → Call → Type 0
IsProper s (submits r a) = IsFresh a × ((d : String) → Dict.get s.active d ≢ some r)
IsProper s _ = Unit

abbrev pub AllProper : ActionScheduler → List Call → Type 0
AllProper s [] = Unit
AllProper s (c ∷ cs) = IsProper s c × AllProper (step s c) cs

step-IsHeld :
    (s : ActionScheduler) (c : Call)
    → IsProper s c
    → IsSound s
    → (d : String) (r : ℕ) → Dict.get (step s c).active d ≡ some r
    → IsHeld d ((step s c).objects r)
unfolding step create next_attempt acknowledge timeout_unknown finish_failed
step-IsHeld s (submits q a) (f, new) v d r e =
    ground (arith, get-put s.active a.device_id q d, v.at d r, new d, f)
step-IsHeld s (attempts j) p v d r e = ground (arith, v.at d r)
step-IsHeld s (acknowledges j c g) p v d r e =
    ground (arith, get-remove s.active j d, v.at d r, v.at j r)
step-IsHeld s (times_out j c) p v d r e =
    ground (arith, get-remove s.active j d, v.at d r, v.at j r)
step-IsHeld s (finishes j) p v d r e = ground (arith, get-remove s.active j d, v.at d r, v.at j r)

-- After any proper calls every slot holds an action of its own device, with three attempts at most
-- and not in doubt.
pub scheduler_run-IsSound :
    (s : ActionScheduler) (cs : List Call) → AllProper s cs → IsSound s → IsSound (run s cs)
unfolding run
scheduler_run-IsSound s [] p v = v
scheduler_run-IsSound s (c ∷ cs) p v =
    scheduler_run-IsSound (step s c) cs p.1 (record { at = step-IsHeld s c p.0 v })
