-- ===== src/Server/Unfed.antt =====
-- The trainer reads no bets from its frames, so that its tables' streets stay as they began.
use poker_eye_v.Prelude.{
  ℕ, ◌≡◌, ◌∙◌, sym, ap, if◌then◌else◌, ◌&&◌, inl, inr, refl, String, Bool, true, false, Option,
  none, some, List, [], ◌∷◌, arith, string_key, Option-cases,
}
use poker_eye_v.Dict
use poker_eye_v.Dict.{Dict, get-put}
use poker_eye_v.Json.{Fields, end, field}
use poker_eye_v.Street.{new_street_state}
use poker_eye_v.Street.Tables.{TableState}
use poker_eye_v.Trainer.{Trainer}
use poker_eye_v.Server.{
  Python, Server, table_of, store, turn_of, is_hero, hero_turn, is_free, is_some, observe_turn,
  observe_frame, observe, ws_handler, new_action, decision, on_cc, cc_target_table, on_eye_frame,
  Input, frame, hint, step, run,
}

-- No bets have been put on any table's street.
pub record IsUnfed (s : Server) : Type 0 where
  pub at :
      (k : String) (t : TableState)
      → Dict.get s.tables k ≡ some t
      → t.street_state ≡ new_street_state

pub table_of-unfed :
    (s : Server) (k : String) → IsUnfed s → (table_of s k).street_state ≡ new_street_state
table_of-unfed s k v = elim (Option-cases (Dict.get s.tables k)) [
  | inl e ↦ rw (e, table_of) refl
  | inr (t, e) ↦ rw (e, table_of) (v.at k t e)
]

store-IsUnfed :
    (s : Server) (k : String) (t : TableState)
    → IsUnfed s
    → t.street_state ≡ new_street_state
    → IsUnfed (store s k t)
store-IsUnfed s k t v h = record {
  at = λ j u e. ground (arith, get-put s.tables k t j, v.at j u, h, e);
}

-- A server with the same tables.
tables-IsUnfed : (s u : Server) → u.tables ≡ s.tables → IsUnfed s → IsUnfed u
tables-IsUnfed s u e v = record {
  at = λ k t h. v.at k t (ap (λ (d : Dict String TableState). Dict.get d k) (sym e) ∙ h);
}

if-IsUnfed : (b : Bool) (s u : Server) → IsUnfed s → IsUnfed u → IsUnfed (if b then s else u)
if-IsUnfed true s u v w = v
if-IsUnfed false s u v w = w

-- Both branches have the trainer.
pub if-trainer :
    (b : Bool) (s u : Server) (t : Trainer)
    → s.trainer ≡ t
    → u.trainer ≡ t
    → (if b then s else u).trainer ≡ t
if-trainer true s u t e f = e
if-trainer false s u t e f = f

module _ (python : Python) where
  observe_turn-IsUnfed :
      (s : Server) (table : String) (turn : Fields) (now : ℕ)
      → IsUnfed s
      → IsUnfed (observe_turn python s table turn now)
  unfolding observe_turn
  observe_turn-IsUnfed s table turn now v =
      if-IsUnfed (is_hero python s turn) _ _
        (tables-IsUnfed (store s table (hero_turn python (table_of s table) turn)) _ refl (
          store-IsUnfed s table (hero_turn python (table_of s table) turn) v
            (table_of-unfed s table v)))
        (tables-IsUnfed s _ refl v)

  observe-IsUnfed :
      (s : Server) (table : String) (decoded : Option Fields) (direction : String) (now : ℕ)
      → IsUnfed s
      → IsUnfed (observe python s table decoded direction now)
  unfolding observe observe_frame
  observe-IsUnfed s table none direction now v = v
  observe-IsUnfed s table (some end) direction now v = v
  observe-IsUnfed s table (some (field k x d)) direction now v =
      elim (Option-cases (turn_of python (field k x d) direction)) [
        | inl e ↦ rw (e, observe, observe_frame) v
        | inr (turn, e) ↦ rw (e, observe, observe_frame) (observe_turn-IsUnfed s table turn now v)
      ]

  ws_handler-IsUnfed :
      (s : Server) (table : String) (decoded : Option Fields) (direction : String) (now : ℕ)
      → IsUnfed s
      → IsUnfed (ws_handler python s table decoded direction now).0
  unfolding ws_handler
  ws_handler-IsUnfed s table decoded direction now v =
      let w =
        observe-IsUnfed (store s table (table_of s table)) table decoded direction now
          (store-IsUnfed s table (table_of s table) v (table_of-unfed s table v)) in
      record { at = w.at }

  on_cc-IsUnfed :
      (s : Server) (table : String) (msg : Fields) (correlation : String) (delay : Option ℕ)
      (now : ℕ)
      → IsUnfed s
      → IsUnfed (on_cc python s table msg correlation delay now)
  unfolding on_cc
  on_cc-IsUnfed s table msg correlation delay now v =
      let stored = store-IsUnfed s table (table_of s table) v (table_of-unfed s table v) in
      elim (Option-cases (decision python s table msg).action) [
        | inl e ↦ rw (e, on_cc) stored
        | inr (a, e) ↦
            rw (e, on_cc)
              (if-IsUnfed
                (is_free python s (new_action python s table correlation a).device_id
                  && is_some delay)
                _ _
                (store-IsUnfed _ table _ (tables-IsUnfed _ _ refl stored)
                  (table_of-unfed s table v))
                (tables-IsUnfed _ _ refl stored))
      ]

  on_eye_frame-IsUnfed :
      (s : Server) (msg : Fields) (correlation : String) (delay : Option ℕ) (now : ℕ)
      → IsUnfed s
      → IsUnfed (on_eye_frame python s msg correlation delay now)
  unfolding on_eye_frame
  on_eye_frame-IsUnfed s msg correlation delay now v = elim (Option-cases (cc_target_table s)) [
    | inl e ↦ rw (e, on_eye_frame) v
    | inr (table, e) ↦ rw (e, on_eye_frame) (on_cc-IsUnfed s table msg correlation delay now v)
  ]

  step-IsUnfed : (s : Server) (i : Input) → IsUnfed s → IsUnfed (step python s i)
  unfolding step
  step-IsUnfed s (frame table decoded direction now) v =
      ws_handler-IsUnfed s table decoded direction now v
  step-IsUnfed s (hint msg correlation delay now) v =
      on_eye_frame-IsUnfed s msg correlation delay now v

  pub run-IsUnfed : (s : Server) (is : List Input) → IsUnfed s → IsUnfed (run python s is)
  unfolding run
  run-IsUnfed s [] v = v
  run-IsUnfed s (i ∷ is) v = run-IsUnfed (step python s i) is (step-IsUnfed s i v)
