-- ===== src/Actions/Runs.antt =====
-- Concrete runs of the scheduler and of the delay, and the theorems at concrete inputs.
use poker_eye_v.Prelude.{
  ◌≡◌, refl, false, none, some, List, [], ◌∷◌, String-discrete, ℕ_discrete, string_key,
}
use poker_eye_v.Prelude.Int.{pos}
use poker_eye_v.Dict
use poker_eye_v.Actions.{Action, pending, ActionScheduler, next_attempt, acknowledge, create}
use poker_eye_v.Actions.Delay.{Random, compute, remaining_ms}
use poker_eye_v.Actions.Attempts.{Call, submits, attempts, acknowledges, step, run, sends, IsFresh}
use poker_eye_v.Actions.Invariant.{IsSound, scheduler_run-IsSound}

abbrev fold : Action
fold = record {
  device_id = "d1";
  table_id = "t1";
  generation = 1;
  command = "FOLD";
  amount = pos 0;
  correlation_id = "c1";
  attempt = 0;
  status = pending;
  uncertain = false;
  turn_id = none;
}

abbrev idle : ActionScheduler
idle = record { objects = λ _. fold; active = [] }

abbrev session : List Call
session = submits 0 fold ∷ attempts "d1" ∷ attempts "d1" ∷ acknowledges "d1" "c1" 1 ∷ []

abbrev generous : Random
generous = record { random = 100; randint = λ lo hi. hi }

two_sends : sends 0 idle session ≡ 2
unfolding sends step create next_attempt acknowledge Dict.get Dict.put Dict.remove String-discrete
    ℕ_discrete
two_sends = refl

settled_slot : Dict.get (run idle session).active "d1" ≡ none
unfolding run step create next_attempt acknowledge Dict.get Dict.put Dict.remove String-discrete
    ℕ_discrete
settled_slot = refl

big_pot_delay : compute (pos 14_000) 20_000 (some 1_000) (some 5_250) 75_000 generous ≡ 15_000
unfolding compute remaining_ms
big_pot_delay = refl

fold-IsFresh : IsFresh fold
fold-IsFresh = record { attempt = refl; status = refl; certain = refl }

idle-IsSound : IsSound idle
unfolding Dict.get
idle-IsSound = record { at = λ d r e. cc }

scheduler_run-IsSound_example : IsSound (run idle (submits 0 fold ∷ attempts "d1" ∷ []))
scheduler_run-IsSound_example =
    scheduler_run-IsSound idle (submits 0 fold ∷ attempts "d1" ∷ [])
      ((fold-IsFresh, λ d. unfold Dict.get in λ e. cc), (tt, tt)) idle-IsSound
