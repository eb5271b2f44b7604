-- ===== src/Bridge/Sends.antt =====
-- An action is sent at most three times, whatever the order of the calls and threads.
use poker_eye_v.Prelude.{
  ℕ, suc, ◌+◌, ◌-◌, ◌≤◌, ◌<◌, ◌≡◌, ◌==◌, leb, if◌then◌else◌, String, Bool, Option, none, some, List,
  [], ◌∷◌, ◌++◌, arith, nat_key, string_key, Option-cases, inl, inr,
}
use poker_eye_v.Dict
use poker_eye_v.Dict.{get-put, get-remove}
use poker_eye_v.Actions.{Action, max_attempts, next_attempt}
use poker_eye_v.Ledger.{LedgerStatus}
use poker_eye_v.Server.{Python}
use poker_eye_v.Bridge.Context.{
  starting, delayed, awaiting_ack, AttemptLoop, BridgeContext, Output, hint_sent, finish_sent,
  action_sent, finish_hint, finalize_hint, finalize,
}
use poker_eye_v.Bridge.Turns.{HeroTurn, request_hint, new_turn, on_hero_turn, poll}
use poker_eye_v.Bridge.Settling.{
  Cc, schedule, no_action, on_cc, acknowledged, on_ack, given_up, on_action_uncertain,
}
use poker_eye_v.Bridge.Attempts.{exhausted, next_round, advance_loop, advance}
use poker_eye_v.Bridge.Steps.{Input, hero_turn, hint, ack, uncertain, thread, tick, step, run}

-- How often the action `r` is sent.
abbrev pub sends : ℕ → List Output → ℕ
sends r [] = 0
sends r (hint_sent t f b ∷ out) = sends r out
sends r (finish_sent t m ∷ out) = sends r out
sends r (action_sent q t m ∷ out) = (if q == r then 1 else 0) + sends r out

pub sends-append : (r : ℕ) (a b : List Output) → sends r (a ++ b) ≡ sends r a + sends r b
sends-append r [] b = omega arith
sends-append r (hint_sent t f x ∷ a) b = sends-append r a b
sends-append r (finish_sent t m ∷ a) b = sends-append r a b
sends-append r (action_sent q t m ∷ a) b = omega (arith, sends-append r a b)

-- A thread belongs to an action that exists, in one of its three attempts.
pub record IsRunning (next_ref r : ℕ) (l : AttemptLoop) : Type 0 where
  pub made : r < next_ref
  pub began : 0 < l.attempt
  pub within : l.attempt ≤ max_attempts

pub record IsSound (c : BridgeContext) : Type 0 where
  pub at : (r : ℕ) (l : AttemptLoop) → Dict.get c.loops r ≡ some l → IsRunning c.next_ref r l

-- The sends that a thread has left.
abbrev pub left_in : Option AttemptLoop → ℕ
left_in none = 0
left_in (some l) = elim l.phase [
  | starting ↦ suc max_attempts - l.attempt
  | delayed ↦ suc max_attempts - l.attempt
  | awaiting_ack ↦ max_attempts - l.attempt
]

-- The sends that the action `r` has left: three before it is made, and then its thread's.
abbrev pub left : ℕ → BridgeContext → ℕ
left r c = if leb c.next_ref r then max_attempts else left_in (Dict.get c.loops r)

-- The step from `c` to `c'` with the calls `out` uses sends that the action had left, and keeps the
-- threads sound.
record Spent (r : ℕ) (c c' : BridgeContext) (out : List Output) : Type 0 where
  spent : sends r out + left r c' ≤ left r c
  sound : (l : AttemptLoop) → Dict.get c'.loops r ≡ some l → IsRunning c'.next_ref r l

-- Nothing is sent and no thread is changed.
record Quiet (c c' : BridgeContext) (out : List Output) : Type 0 where
  same_loops : c'.loops ≡ c.loops
  same_ref : c'.next_ref ≡ c.next_ref
  silent : (r : ℕ) → sends r out ≡ 0

finalize_hint-Quiet :
    (c : BridgeContext) (u : String) (now : ℕ)
    → let (c', out) = finalize_hint c u now in Quiet c c' out
unfolding finalize_hint finish_hint
finalize_hint-Quiet c u now = grind arith

finalize-Quiet :
    (c : BridgeContext) (a : Action) (s : LedgerStatus) (reason : String) (now : ℕ)
    → let (c', out) = finalize c a s reason now in Quiet c c' out
unfolding finalize
finalize-Quiet c a s reason now =
    let q = finalize_hint-Quiet _ a.table_id now in
    record { same_loops = q.same_loops; same_ref = q.same_ref; silent = q.silent }

turn-Quiet :
    (python : Python) (c : BridgeContext) (u : String) (h : HeroTurn) (now : ℕ) (sent : Bool)
    → let (c', asked, out) = on_hero_turn python c u h now sent in Quiet c c' out
unfolding on_hero_turn new_turn request_hint
turn-Quiet python c u h now sent = grind arith

ack-Quiet :
    (c : BridgeContext) (k : String) (g : Option ℕ) (s : String) (now : ℕ)
    → let (c', done, out) = on_ack c k g s now in Quiet c c' out
unfolding on_ack acknowledged
ack-Quiet c k g s now = grind (arith, finalize-Quiet)

uncertain-Quiet :
    (c : BridgeContext) (k : String) (now : ℕ)
    → let (c', done, out) = on_action_uncertain c k now in Quiet c c' out
unfolding on_action_uncertain given_up
uncertain-Quiet c k now = grind (arith, finalize-Quiet)

tick-Quiet :
    (python : Python) (c : BridgeContext) (now : ℕ)
    → let (c', out) = step python c (tick now) in Quiet c c' out
unfolding step poll
tick-Quiet python c now = grind arith

Quiet-Spent :
    {c c' : BridgeContext} {out : List Output} (r : ℕ)
    → Quiet c c' out
    → IsSound c
    → Spent r c c' out
Quiet-Spent {c} {c'} r q v = record {
  spent = ground (arith, q.same_loops, q.same_ref, q.silent r);
  sound = λ l e. let h = v.at r l (ground (arith, q.same_loops)) in ground (arith, q.same_ref);
}

cc-Spent :
    (r : ℕ) (python : Python) (c : BridgeContext) (u : String) (i : Cc)
    → IsSound c
    → let (c', made, out) = on_cc python c u i in Spent r c c' out
unfolding on_cc no_action schedule
cc-Spent r python c u i v = grind (arith, finalize_hint-Quiet, get-put, v.at)

exhausted-Spent :
    (r q : ℕ) (c : BridgeContext) (now : ℕ)
    → IsSound c
    → let (c', out) = exhausted c q now in Spent r c c' out
unfolding exhausted
exhausted-Spent r q c now v = grind (arith, finalize-Quiet, get-remove, v.at)

next_round-Spent :
    (r q : ℕ) (c : BridgeContext) (l : AttemptLoop) (now : ℕ)
    → Dict.get c.loops q ≡ some l
    → l.phase ≡ awaiting_ack
    → IsSound c
    → let (c', out) = next_round c q l now in Spent r c c' out
unfolding next_round
next_round-Spent r q c l now e p v =
    let s = (next_attempt c.scheduler c.device_id).0 in
    let ended = exhausted-Spent r q (record c { scheduler = s }) now (record { at = v.at }) in
    grind (arith, exhausted-Spent r q c now v, ended.spent, ended.sound, get-put, v.at)

advance-Spent :
    (r q : ℕ) (c : BridgeContext) (now : ℕ)
    → IsSound c
    → let (c', out) = advance c q now in Spent r c c' out
unfolding advance advance_loop
advance-Spent r q c now v = grind (arith, next_round-Spent, get-put, get-remove, v.at)

step-Spent :
    (r : ℕ) (python : Python) (c : BridgeContext) (i : Input)
    → IsSound c
    → let (c', out) = step python c i in Spent r c c' out
unfolding step
step-Spent r python c (hero_turn u h now sent) v =
    Quiet-Spent r (turn-Quiet python c u h now sent) v
step-Spent r python c (hint u i) v = cc-Spent r python c u i v
step-Spent r python c (ack k g s now) v = Quiet-Spent r (ack-Quiet c k g s now) v
step-Spent r python c (uncertain k now) v = Quiet-Spent r (uncertain-Quiet c k now) v
step-Spent r python c (thread q now) v = advance-Spent r q c now v
step-Spent r python c (tick now) v = Quiet-Spent r (tick-Quiet python c now) v

left-le : (r : ℕ) (c : BridgeContext) → IsSound c → left r c ≤ max_attempts
left-le r c v = elim (Option-cases (Dict.get c.loops r)) [
  | inl e ↦ rw e (ground arith)
  | inr (l, e) ↦ rw e (ground (arith, v.at r l e))
]

-- From a context whose threads are in one of their three attempts, an action is sent at most three
-- times in any run: the sends and those that it has left at the end are at most those that it had
-- left at the start, which are at most three.
pub sends_bound :
    (python : Python) (c : BridgeContext) (is : List Input) (r : ℕ)
    → IsSound c
    → let (c', out) = run python c is in
      (sends r out + left r c' ≤ left r c) × (left r c ≤ max_attempts)
unfolding run
sends_bound python c [] r v = omega (arith, left-le r c v)
sends_bound python c (i ∷ is) r v =
    let (c', out) = step python c i in
    let s = step-Spent r python c i v in
    let (rest, cap) =
      sends_bound python c' is r (record { at = λ q. (step-Spent q python c i v).sound }) in
    omega (arith, s.spent, rest, left-le r c v, sends-append r out (run python c' is).1)
