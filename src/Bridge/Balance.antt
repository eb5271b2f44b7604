-- ===== src/Bridge/Balance.antt =====
-- A hint is finished once: EYE gets no more finishes of a table than hints that it took.
use poker_eye_v.Prelude.{
  ℕ, ◌+◌, ◌≤◌, ◌≡◌, String, Bool, true, false, Option, List, [], ◌∷◌, ◌++◌, arith, ite,
  String-discrete, string_key,
}
use poker_eye_v.Dict.{get-put, get-remove}
use poker_eye_v.Server.{Python}
use poker_eye_v.Actions.{Action}
use poker_eye_v.Ledger.{LedgerStatus}
use poker_eye_v.Bridge.Context.{
  BridgeContext, Output, hint_sent, finish_sent, action_sent, is_pending, finish_hint,
  finalize_hint, finalize,
}
use poker_eye_v.Bridge.Turns.{HeroTurn, request_hint, new_turn, on_hero_turn, poll}
use poker_eye_v.Bridge.Settling.{
  Cc, schedule, no_action, on_cc, acknowledged, on_ack, given_up, on_action_uncertain,
}
use poker_eye_v.Bridge.Attempts.{exhausted, next_round, advance_loop, advance}
use poker_eye_v.Bridge.Steps.{Input, hero_turn, hint, ack, uncertain, thread, tick, step, run}

-- The hints of the table `t` that EYE took.
abbrev pub hints_taken : String → List Output → ℕ
hints_taken t [] = 0
hints_taken t (hint_sent u f true ∷ out) = ite (String-discrete u t) 1 0 + hints_taken t out
hints_taken t (hint_sent u f false ∷ out) = hints_taken t out
hints_taken t (finish_sent u m ∷ out) = hints_taken t out
hints_taken t (action_sent r u m ∷ out) = hints_taken t out

-- The finishes of the table `t`.
abbrev pub finishes : String → List Output → ℕ
finishes t [] = 0
finishes t (hint_sent u f b ∷ out) = finishes t out
finishes t (finish_sent u m ∷ out) = ite (String-discrete u t) 1 0 + finishes t out
finishes t (action_sent r u m ∷ out) = finishes t out

hints_taken-append :
    (t : String) (a b : List Output) → hints_taken t (a ++ b) ≡ hints_taken t a + hints_taken t b
hints_taken-append t [] b = omega arith
hints_taken-append t (hint_sent u f true ∷ a) b = omega (arith, hints_taken-append t a b)
hints_taken-append t (hint_sent u f false ∷ a) b = hints_taken-append t a b
hints_taken-append t (finish_sent u m ∷ a) b = hints_taken-append t a b
hints_taken-append t (action_sent r u m ∷ a) b = hints_taken-append t a b

finishes-append :
    (t : String) (a b : List Output) → finishes t (a ++ b) ≡ finishes t a + finishes t b
finishes-append t [] b = omega arith
finishes-append t (hint_sent u f x ∷ a) b = finishes-append t a b
finishes-append t (finish_sent u m ∷ a) b = omega (arith, finishes-append t a b)
finishes-append t (action_sent r u m ∷ a) b = finishes-append t a b

-- 1 if a hint of the table is to be finished.
abbrev pub owed : String → BridgeContext → ℕ
owed t c = elim (is_pending c t) [ true ↦ 1 | false ↦ 0 ]

-- What the step from `c` to `c'` with the calls `out` finishes was owed or is taken in it.
abbrev Balanced : String → BridgeContext → BridgeContext → List Output → Type 0
Balanced t c c' out = finishes t out + owed t c' ≤ hints_taken t out + owed t c

module _ (t : String) where
  finalize_hint-Balanced :
      (c : BridgeContext) (u : String) (now : ℕ)
      → let (c', out) = finalize_hint c u now in Balanced t c c' out
  unfolding finalize_hint finish_hint is_pending
  finalize_hint-Balanced c u now = ground (arith, get-put c.pending_finish_hint u false t)

  request_hint-Balanced :
      (c : BridgeContext) (u : String) (h : HeroTurn) (tid : String) (now : ℕ) (sent : Bool)
      → let (c', asked, out) = request_hint c u h tid now sent in Balanced t c c' out
  unfolding request_hint is_pending
  request_hint-Balanced c u h tid now true = ground (arith, get-put c.pending_finish_hint u true t)
  request_hint-Balanced c u h tid now false = ground (arith, get-remove c.pending_finish_hint u t)

  finalize-Balanced :
      (c : BridgeContext) (a : Action) (s : LedgerStatus) (reason : String) (now : ℕ)
      → let (c', out) = finalize c a s reason now in Balanced t c c' out
  unfolding finalize is_pending
  finalize-Balanced c a s reason now = finalize_hint-Balanced _ a.table_id now

  turn-Balanced :
      (python : Python) (c : BridgeContext) (u : String) (h : HeroTurn) (now : ℕ) (sent : Bool)
      → let (c', asked, out) = on_hero_turn python c u h now sent in Balanced t c c' out
  unfolding on_hero_turn new_turn is_pending
  turn-Balanced python c u h now sent = grind (arith, request_hint-Balanced)

  cc-Balanced :
      (python : Python) (c : BridgeContext) (u : String) (i : Cc)
      → let (c', made, out) = on_cc python c u i in Balanced t c c' out
  unfolding on_cc no_action schedule is_pending
  cc-Balanced python c u i = grind (arith, finalize_hint-Balanced)

  ack-Balanced :
      (c : BridgeContext) (k : String) (g : Option ℕ) (s : String) (now : ℕ)
      → let (c', done, out) = on_ack c k g s now in Balanced t c c' out
  unfolding on_ack acknowledged is_pending
  ack-Balanced c k g s now = grind (arith, finalize-Balanced)

  uncertain-Balanced :
      (c : BridgeContext) (k : String) (now : ℕ)
      → let (c', done, out) = on_action_uncertain c k now in Balanced t c c' out
  unfolding on_action_uncertain given_up is_pending
  uncertain-Balanced c k now = grind (arith, finalize-Balanced)

  advance-Balanced :
      (c : BridgeContext) (r now : ℕ) → let (c', out) = advance c r now in Balanced t c c' out
  unfolding advance advance_loop next_round exhausted is_pending
  advance-Balanced c r now = grind (arith, finalize-Balanced)

  tick-Balanced :
      (python : Python) (c : BridgeContext) (now : ℕ)
      → let (c', out) = step python c (tick now) in Balanced t c c' out
  unfolding step poll is_pending
  tick-Balanced python c now = grind arith

  step-Balanced :
      (python : Python) (c : BridgeContext) (i : Input)
      → let (c', out) = step python c i in Balanced t c c' out
  unfolding step
  step-Balanced python c (hero_turn u h now sent) = turn-Balanced python c u h now sent
  step-Balanced python c (hint u i) = cc-Balanced python c u i
  step-Balanced python c (ack k g s now) = ack-Balanced c k g s now
  step-Balanced python c (uncertain k now) = uncertain-Balanced c k now
  step-Balanced python c (thread r now) = advance-Balanced c r now
  step-Balanced python c (tick now) = tick-Balanced python c now

  -- In any run EYE gets at most one finish of a table for each hint of that table that it took in the
  -- run, and one more if a hint was to be finished at the start; a hint that is still to be finished
  -- at the end counts as well.
  pub finishes_bound :
      (python : Python) (c : BridgeContext) (is : List Input)
      → let (c', out) = run python c is in finishes t out + owed t c' ≤ hints_taken t out + owed t c
  unfolding run
  finishes_bound python c [] = omega arith
  finishes_bound python c (i ∷ is) =
      let (c', out) = step python c i in
      let outs = (run python c' is).1 in
      omega (
        arith,
        step-Balanced python c i,
        finishes_bound python c' is,
        finishes-append t out outs,
        hints_taken-append t out outs,
      )
