-- ===== src/Server/Refinement.antt =====
-- What the frame handler does to the actions are the events of `Trainer.Events`.
use poker_eye_v.Prelude.{
  ℕ, ◌≡◌, ap, refl, String, true, false, Option, none, some, List, [], ◌∷◌, ◌++◌, string_key,
  Option-cases, inl, inr,
}
use poker_eye_v.Json.{Fields, end, field}
use poker_eye_v.Trainer.{Trainer, take_due_action}
use poker_eye_v.Trainer.Events
use poker_eye_v.Trainer.Events.{Event, frames, turns}
use poker_eye_v.Server.Unfed.{if-trainer}
use poker_eye_v.Server.{
  Python, Server, table_of, store, turn_identity, turn_of, is_hero, observe_turn, observe_frame,
  observe, ws_handler,
}

module _ (python : Python) (table : String) where
  -- The turn that a frame announces, as an event.
  abbrev turn_event : Option Fields → ℕ → List Event
  turn_event none now = []
  turn_event (some turn) now = turns table (turn_identity python turn) now ∷ []

  -- The events of a frame: the turn that it announces, if it does, and then the frame itself.
  abbrev pub frame_events : Option Fields → String → ℕ → List Event
  frame_events none direction now = frames table false now ∷ []
  frame_events (some end) direction now = frames table true now ∷ []
  frame_events (some (field k v d)) direction now =
      turn_event (turn_of python (field k v d) direction) now ++ frames table true now ∷ []

  observe_turn-trainer :
      (s : Server) (turn : Fields) (now : ℕ)
      → (observe_turn python s table turn now).trainer
        ≡ Events.run s.trainer (turn_event (some turn) now)
  unfolding observe_turn Events.run Events.step turn_identity
  observe_turn-trainer s turn now = if-trainer (is_hero python s turn) _ _ _ refl refl

  observe_frame-trainer :
      (s : Server) (d : Fields) (direction : String) (now : ℕ)
      → (observe_frame python s table d direction now).trainer
        ≡ Events.run s.trainer (turn_event (turn_of python d direction) now)
  unfolding observe_frame Events.run
  observe_frame-trainer s d direction now = elim (Option-cases (turn_of python d direction)) [
    | inl e ↦ rw (e, observe_frame) refl
    | inr (turn, e) ↦ rw (e, observe_frame) (observe_turn-trainer s turn now)
  ]

  then_frame :
      (t : Trainer) (u : Server) (o : Option Fields) (now : ℕ)
      → u.trainer ≡ Events.run t (turn_event o now)
      → (take_due_action u.trainer table true now).0
        ≡ Events.run t (turn_event o now ++ frames table true now ∷ [])
  unfolding Events.run Events.step
  then_frame t u none now e = ap (λ (x : Trainer). (take_due_action x table true now).0) e
  then_frame t u (some turn) now e = ap (λ (x : Trainer). (take_due_action x table true now).0) e

  -- The handler does to the trainer exactly the events of the frame, in their order: the turn that it
  -- announces, if it does, and then the pull of a binary frame or nothing.
  pub ws_handler-frame_events :
      (s : Server) (decoded : Option Fields) (direction : String) (now : ℕ)
      → (ws_handler python s table decoded direction now).0.trainer
        ≡ Events.run s.trainer (frame_events decoded direction now)
  unfolding ws_handler observe Events.run Events.step
  ws_handler-frame_events s none direction now = refl
  ws_handler-frame_events s (some end) direction now = refl
  ws_handler-frame_events s (some (field k v d)) direction now =
      then_frame s.trainer
        (observe_frame python (store s table (table_of s table)) table (field k v d) direction now)
        (turn_of python (field k v d) direction) now
        (observe_frame-trainer (store s table (table_of s table)) (field k v d) direction now)
