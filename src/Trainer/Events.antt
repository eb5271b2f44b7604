-- ===== src/Trainer/Events.antt =====
-- What happens to the trainer, as a sequence of events of its threads. Each event is one step: what
-- could come between its locked regions is left out.
use poker_eye_v.Prelude.{
  ℕ, String, Bool, Option, none, some, List, [], ◌∷◌, ◌+◌, ◌==◌, if◌then◌else◌,
}
use poker_eye_v.Actions.{Action}
use poker_eye_v.Trainer.{
  Trainer, take_due_action, mark_acked_if_pending, ack_deadline, submit_action,
}

pub data Event : Type 0 where
  -- a CC for a table, decided to an action, with its delay if it could be computed
  ccs : String → Action → Option ℕ → ℕ → Event
  -- a frame of a table, binary or not
  frames : String → Bool → ℕ → Event
  -- a turn of a table, with its identity
  turns : String → String → ℕ → Event
  -- the deadline of an attempt of an action
  deadlines : String → ℕ → ℕ → ℕ → Event

unfoldable pub step : Trainer → Event → Trainer
step t (ccs table a delay now) = submit_action t table a delay now
step t (frames table binary now) = (take_due_action t table binary now).0
step t (turns table tid now) = mark_acked_if_pending t table tid now
step t (deadlines table r attempt now) = ack_deadline t table r attempt now

unfoldable pub run : Trainer → List Event → Trainer
run t [] = t
run t (e ∷ es) = run (step t e) es

abbrev is_ref : ℕ → Option ℕ → ℕ
is_ref r none = 0
is_ref r (some q) = if q == r then 1 else 0

-- 1 if the event attaches the action `r` to a frame's response.
unfoldable pub pulled : ℕ → Trainer → Event → ℕ
pulled r t (frames table binary now) = is_ref r (take_due_action t table binary now).1
pulled r t _ = 0

unfoldable pub pulls : ℕ → Trainer → List Event → ℕ
unfolding pulled
pulls r t [] = 0
pulls r t (e ∷ es) = pulled r t e + pulls r (step t e) es
