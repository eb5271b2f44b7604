-- ===== src/Server/Unpaid.antt =====
-- No CC makes the trainer pay.
use poker_eye_v.Prelude.{
  ℕ, Option, ◌&&◌, ◌≡◌, ◌∙◌, ap, ◌⊎◌, inl, inr, refl, String, true, none, some, List, arith,
  string_key,
}
use poker_eye_v.Dict
use poker_eye_v.Json.{Fields}
use poker_eye_v.Actions.{Action, create}
use poker_eye_v.Street.{StreetState, new_street_state, call_need}
use poker_eye_v.Policy.{is_paid}
use poker_eye_v.Policy.Words.{cc_type}
use poker_eye_v.Policy.Resolve.{ResolvedAction, check_action}
use poker_eye_v.Policy.Guard.{paid_without_need}
use poker_eye_v.Trainer.{Trainer, object, submit_action}
use poker_eye_v.Server.{
  Python, Server, table_of, new_action, is_free, is_some, decision, on_cc, Input, run,
}
use poker_eye_v.Server.Unfed.{if-trainer, IsUnfed, table_of-unfed, run-IsUnfed}

submit_action-object :
    (t : Trainer) (table : String) (a : Action) (delay : Option ℕ) (now : ℕ)
    → object (submit_action t table a delay now) t.next_ref ≡ a
unfolding submit_action create
submit_action-object t table a delay now = ground arith

new_street_need : call_need new_street_state 1 ≡ 0
unfolding call_need Dict.get
new_street_need = refl

module _ (python : Python) (s : Server) (table : String) (msg : Fields) where
  decision-unfed :
      IsUnfed s
      → is_paid (cc_type msg) ≡ true
      → ((decision python s table msg).action ≡ some check_action)
        ⊎ ((decision python s table msg).action ≡ none)
  unfolding decision
  decision-unfed v p =
      let t = table_of s table in
      let free : call_need t.street_state 1 ≡ 0 =
        ap (λ (st : StreetState). call_need st 1) (table_of-unfed s table v) ∙ new_street_need in
      elim (paid_without_need python.text_float msg t.street_state 1 (some t.user_turn_options)
        s.chip_scale free p) [ inl (l, a, st) ↦ inl a | inr (l, a, st) ↦ inr a ]

  on_cc-none :
      (correlation : String) (delay : Option ℕ) (now : ℕ)
      → (decision python s table msg).action ≡ none
      → (on_cc python s table msg correlation delay now).trainer ≡ s.trainer
  unfolding on_cc
  on_cc-none correlation delay now e = rw (e, on_cc) refl

  on_cc-some :
      (correlation : String) (delay : Option ℕ) (now : ℕ) (a : ResolvedAction)
      → (decision python s table msg).action ≡ some a
      → (on_cc python s table msg correlation delay now).trainer
        ≡ submit_action s.trainer table (new_action python s table correlation a) delay now
  unfolding on_cc
  on_cc-some correlation delay now a e =
      rw (e, on_cc)
        (if-trainer
          (is_free python s (new_action python s table correlation a).device_id && is_some delay) _
          _ _ refl refl)

-- From a server whose tables' streets hold no bets, such as a new one: after any frames and any CCs, a
-- CC that asks for a paid action leaves the trainer as it is or submits a CHECK.
pub paid_cc_checks :
    (python : Python) (s : Server) (is : List Input) (table : String) (msg : Fields)
    (correlation : String) (delay : Option ℕ) (now : ℕ)
    → IsUnfed s
    → is_paid (cc_type msg) ≡ true
    → let u = run python s is in
      let after = on_cc python u table msg correlation delay now in
      (after.trainer ≡ u.trainer) ⊎ ((object after.trainer u.trainer.next_ref).command ≡ "CHECK")
paid_cc_checks python s is table msg correlation delay now v p =
    let u = run python s is in
    elim (decision-unfed python u table msg (run-IsUnfed python s is v) p) [
      | inr e ↦ inl (on_cc-none python u table msg correlation delay now e)
      | inl e ↦
          let built = new_action python u table correlation check_action in
          inr (
            ap (λ (t : Trainer). (object t u.trainer.next_ref).command)
              (on_cc-some python u table msg correlation delay now check_action e)
            ∙ ap (λ (a : Action). a.command) (submit_action-object u.trainer table built delay now))
    ]
