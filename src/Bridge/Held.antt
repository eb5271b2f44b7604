-- ===== src/Bridge/Held.antt =====
-- A hint that was held and then promoted is never asked of EYE, and blocks its table.
use poker_eye_v.Prelude.{
  ℕ, ◌+◌, ◌≡◌, ◌≢◌, String, Bool, true, false, Option, some, List, [], ◌∷◌, ◌++◌, arith, ite,
  String-discrete, string_key,
}
use mathlib.Core.Path.{refl}
use poker_eye_v.Dict
use poker_eye_v.Dict.{get-put, get-remove}
use poker_eye_v.Actions.{Action}
use poker_eye_v.Hints.{HintWatchdog, OutstandingHint, observe_hint, cancel, promote, observe_finish}
use poker_eye_v.Ledger.{LedgerStatus}
use poker_eye_v.Server.{Python}
use poker_eye_v.Bridge.Context.{
  BridgeContext, Output, hint_sent, finish_sent, action_sent, is_pending, finish_hint,
  finalize_hint, finalize,
}
use poker_eye_v.Bridge.Turns.{HeroTurn, request_hint, new_turn, on_hero_turn}
use poker_eye_v.Bridge.Settling.{
  Cc, schedule, no_action, on_cc, acknowledged, on_ack, given_up, on_action_uncertain,
}
use poker_eye_v.Bridge.Attempts.{exhausted, next_round, advance_loop, advance}
use poker_eye_v.Bridge.Steps.{Input, hero_turn, hint, ack, uncertain, thread, tick, step, run}

-- The hints of the table `t` that are asked of EYE, whatever it answers.
abbrev pub hints_asked : String → List Output → ℕ
hints_asked t [] = 0
hints_asked t (hint_sent u f b ∷ out) = ite (String-discrete u t) 1 0 + hints_asked t out
hints_asked t (finish_sent u m ∷ out) = hints_asked t out
hints_asked t (action_sent r u m ∷ out) = hints_asked t out

hints_asked-append :
    (t : String) (a b : List Output) → hints_asked t (a ++ b) ≡ hints_asked t a + hints_asked t b
hints_asked-append t [] b = omega arith
hints_asked-append t (hint_sent u f x ∷ a) b = omega (arith, hints_asked-append t a b)
hints_asked-append t (finish_sent u m ∷ a) b = hints_asked-append t a b
hints_asked-append t (action_sent r u m ∷ a) b = hints_asked-append t a b

-- The watchdog waits for the hint `h` of the table `t`, of which the bridge knows nothing.
pub record IsBlocked (t : String) (h : OutstandingHint) (c : BridgeContext) : Type 0 where
  pub outstanding : Dict.get c.watchdog.outstanding t ≡ some h
  pub unknown : is_pending c t ≡ false

abbrev Stays : String → OutstandingHint → BridgeContext → List Output → Type 0
Stays t h c' out = IsBlocked t h c' × (hints_asked t out ≡ 0)

abbrev IsNoTick : Input → Type 0
IsNoTick (tick now) = ⊥
IsNoTick i = Unit

abbrev pub HasNoTick : List Input → Type 0
HasNoTick [] = Unit
HasNoTick (i ∷ is) = IsNoTick i × HasNoTick is

observe_hint-outstanding :
    (w : HintWatchdog) (u : String) (hand : Option String) (now : ℕ) (t : String)
    (h : OutstandingHint)
    → Dict.get w.outstanding t ≡ some h
    → let (w', accepted, ts) = observe_hint w u hand now in
      (Dict.get w'.outstanding t ≡ some h) × (u ≡ t → accepted ≡ false)
unfolding observe_hint
observe_hint-outstanding w u hand now t h e = grind (arith, get-put)

cancel-outstanding :
    (w : HintWatchdog) (u : String) (hand : Option String) (t : String) (h : OutstandingHint)
    → Dict.get w.outstanding t ≡ some h
    → u ≢ t
    → Dict.get (cancel w u hand).0.outstanding t ≡ some h
unfolding cancel
cancel-outstanding w u hand t h e n = grind (arith, get-remove)

finish-outstanding :
    (w : HintWatchdog) (u t : String) (h : OutstandingHint)
    → Dict.get w.outstanding t ≡ some h
    → u ≢ t
    → Dict.get (observe_finish w u).0.outstanding t ≡ some h
unfolding observe_finish promote
finish-outstanding w u t h e n = grind (arith, get-remove, get-put)

module _ (t : String) (h : OutstandingHint) where
  finalize_hint-Stays :
      (c : BridgeContext) (u : String) (now : ℕ)
      → IsBlocked t h c
      → let (c', out) = finalize_hint c u now in Stays t h c' out
  unfolding finalize_hint finish_hint is_pending
  finalize_hint-Stays c u now b = grind (arith, finish-outstanding, get-put)

  finalize-Stays :
      (c : BridgeContext) (a : Action) (s : LedgerStatus) (reason : String) (now : ℕ)
      → IsBlocked t h c
      → let (c', out) = finalize c a s reason now in Stays t h c' out
  unfolding finalize is_pending
  finalize-Stays c a s reason now b =
      finalize_hint-Stays _ a.table_id now
        (record { outstanding = b.outstanding; unknown = b.unknown })

  turn-Stays :
      (python : Python) (c : BridgeContext) (u : String) (turn : HeroTurn) (now : ℕ) (sent : Bool)
      → IsBlocked t h c
      → let (c', asked, out) = on_hero_turn python c u turn now sent in Stays t h c' out
  unfolding on_hero_turn new_turn request_hint is_pending
  turn-Stays python c u turn now sent b =
      let seen = observe_hint-outstanding c.watchdog u turn.hand_id now t h b.outstanding in
      grind (arith, seen, cancel-outstanding, get-put, get-remove)

  cc-Stays :
      (python : Python) (c : BridgeContext) (u : String) (i : Cc)
      → IsBlocked t h c
      → let (c', made, out) = on_cc python c u i in Stays t h c' out
  unfolding on_cc no_action schedule is_pending
  cc-Stays python c u i b = grind (arith, finalize_hint-Stays)

  ack-Stays :
      (c : BridgeContext) (k : String) (g : Option ℕ) (s : String) (now : ℕ)
      → IsBlocked t h c
      → let (c', done, out) = on_ack c k g s now in Stays t h c' out
  unfolding on_ack acknowledged is_pending
  ack-Stays c k g s now b = grind (arith, finalize-Stays)

  uncertain-Stays :
      (c : BridgeContext) (k : String) (now : ℕ)
      → IsBlocked t h c
      → let (c', done, out) = on_action_uncertain c k now in Stays t h c' out
  unfolding on_action_uncertain given_up is_pending
  uncertain-Stays c k now b = grind (arith, finalize-Stays)

  advance-Stays :
      (c : BridgeContext) (r now : ℕ)
      → IsBlocked t h c
      → let (c', out) = advance c r now in Stays t h c' out
  unfolding advance advance_loop next_round exhausted is_pending
  advance-Stays c r now b = grind (arith, finalize-Stays)

  step-Stays :
      (python : Python) (c : BridgeContext) (i : Input)
      → IsNoTick i
      → IsBlocked t h c
      → let (c', out) = step python c i in Stays t h c' out
  unfolding step
  step-Stays python c (hero_turn u turn now sent) n b = turn-Stays python c u turn now sent b
  step-Stays python c (hint u i) n b = cc-Stays python c u i b
  step-Stays python c (ack k g s now) n b = ack-Stays c k g s now b
  step-Stays python c (uncertain k now) n b = uncertain-Stays c k now b
  step-Stays python c (thread r now) n b = advance-Stays c r now b
  step-Stays python c (tick now) n b = elim n [ ]

  run-Stays :
      (python : Python) (c : BridgeContext) (is : List Input)
      → HasNoTick is
      → IsBlocked t h c
      → let (c', out) = run python c is in Stays t h c' out
  unfolding run
  run-Stays python c [] n b = (b, refl)
  run-Stays python c (i ∷ is) (n, ns) b =
      let (c', out) = step python c i in
      let (kept, none_asked) = step-Stays python c i n b in
      let (kept', none_asked') = run-Stays python c' is ns kept in
      (kept', omega (arith, none_asked, none_asked', hints_asked-append t out (run python c' is).1))

finish-promotes :
    (w : HintWatchdog) (t : String) (h : OutstandingHint)
    → Dict.get w.successor t ≡ some h
    → Dict.get (observe_finish w t).0.outstanding t ≡ some h
unfolding observe_finish promote
finish-promotes w t h e = ground (arith, get-put (Dict.remove w.outstanding t) t h t)

finish-IsBlocked :
    (c : BridgeContext) (t : String) (h : OutstandingHint) (now : ℕ)
    → is_pending c t ≡ true
    → Dict.get c.watchdog.successor t ≡ some h
    → IsBlocked t h (finalize_hint c t now).0
unfolding finalize_hint finish_hint is_pending
finish-IsBlocked c t h now p e =
    ground (arith, finish-promotes c.watchdog t h e, get-put c.pending_finish_hint t false t)

turn-IsBlocked :
    (python : Python) (c : BridgeContext) (t : String) (h : OutstandingHint) (turn : HeroTurn)
    (now : ℕ) (sent : Bool)
    → IsBlocked t h c
    → (on_hero_turn python c t turn now sent).1 ≡ false
unfolding on_hero_turn new_turn
turn-IsBlocked python c t h turn now sent b =
    ground (arith, observe_hint-outstanding c.watchdog t turn.hand_id now t h b.outstanding)

-- Where a hint is held behind the one that is finished, it becomes the hint that the watchdog waits
-- for, but until the watchdog is polled, whatever else happens, EYE is asked for no hint of the
-- table, and no turn of the table gets one.
pub promoted_hint_blocks :
    (python : Python) (c : BridgeContext) (t : String) (h : OutstandingHint) (now : ℕ)
    (is : List Input)
    → is_pending c t ≡ true
    → Dict.get c.watchdog.successor t ≡ some h
    → HasNoTick is
    → let (c', out) = run python (finalize_hint c t now).0 is in
      (Dict.get c'.watchdog.outstanding t ≡ some h)
      × (hints_asked t out ≡ 0)
      × ((turn : HeroTurn) (later : ℕ) (sent : Bool)
          → (on_hero_turn python c' t turn later sent).1 ≡ false)
promoted_hint_blocks python c t h now is p e n =
    let blocked = finish-IsBlocked c t h now p e in
    let (b, asked) = run-Stays t h python (finalize_hint c t now).0 is n blocked in
    (b.outstanding, asked, λ turn later sent. turn-IsBlocked python _ t h turn later sent b)
