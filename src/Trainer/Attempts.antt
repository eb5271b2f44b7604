-- ===== src/Trainer/Attempts.antt =====
-- How often an action is attached to a frame.
use poker_eye_v.Prelude.{
  ℕ, ◌+◌, ◌≤◌, ◌<◌, ◌≡◌, true, false, Option-cases, inl, inr, List, [], ◌∷◌, arith, string_key,
}
use poker_eye_v.Actions.{max_attempts}
use poker_eye_v.Actions.Attempts.{submits, attempts, acknowledges, finishes, step-counts, granted}
use poker_eye_v.Actions.Attempts
use poker_eye_v.Dict
use poker_eye_v.Trainer.{
  Trainer, object, take_due_action, mark_acked_if_pending, ack_deadline, submit_action,
}
use poker_eye_v.Trainer.Events.{Event, ccs, frames, turns, deadlines, step, run, pulled, pulls}

-- The trainer counts the attempts of `r` on the events of `t`.
abbrev Counts : ℕ → Trainer → Trainer → ℕ → Type 0
Counts r t u n =
    ((object u r).attempt ≡ (object t r).attempt + n)
    × ((object u r).attempt ≤ max_attempts)
    × (r < u.next_ref)

step-Counts :
    (r : ℕ) (t : Trainer) (e : Event)
    → r < t.next_ref
    → (object t r).attempt ≤ max_attempts
    → Counts r t (step t e) (pulled r t e)
unfolding step pulled take_due_action mark_acked_if_pending ack_deadline submit_action Attempts.step
    granted
step-Counts r t (ccs table a delay now) h k =
    ground (arith, step-counts r t.scheduler (submits t.next_ref a))
step-Counts r t (frames table false now) h k = omega arith
step-Counts r t (frames table true now) h k = elim (Option-cases (Dict.get t.pending table)) [
  | inl e ↦ ground arith
  | inr (q, e) ↦ ground (arith, step-counts r t.scheduler (attempts (object t q).device_id) tt k)
]
step-Counts r t (turns table tid now) h k = elim (Option-cases (Dict.get t.pending table)) [
  | inl e ↦ ground arith
  | inr (q, e) ↦
      let a = object t q in
      ground (
        arith,
        step-counts r t.scheduler (acknowledges a.device_id a.correlation_id a.generation) tt k,
      )
]
step-Counts r t (deadlines table q n now) h k =
    ground (arith, step-counts r t.scheduler (finishes (object t q).device_id) tt k)

-- Along any events an action is attached to a response at most three times: what its attempts count
-- is exactly how often it was attached.
pub pulls_bound :
    (r : ℕ) (t : Trainer) (es : List Event)
    → r < t.next_ref
    → (object t r).attempt ≤ max_attempts
    → ((object (run t es) r).attempt ≡ (object t r).attempt + pulls r t es)
      × ((object t r).attempt + pulls r t es ≤ max_attempts)
unfolding run pulls
pulls_bound r t [] h k = omega arith
pulls_bound r t (e ∷ es) h k =
    let (now, fits, old) = step-Counts r t e h k in
    omega (arith, now, pulls_bound r (step t e) es old fits)
