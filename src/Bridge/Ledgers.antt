-- ===== src/Bridge/Ledgers.antt =====
-- What the ledger of a bridge knows: one entry of a key at most, and the key of every action that has
-- left the slot, unless another action's thread has taken it out.
use poker_eye_v.Prelude.{
  ℕ, ◌≤◌, ◌≡◌, ◌≢◌, ◌⊎◌, ◌∙◌, String, Bool, true, Option, none, some, List, [], ◌∷◌, arith,
  string_key, nat_key, ℕ_discrete, inr,
}
use poker_eye_v.Actions.{
  Action, ActionScheduler, active, create, next_attempt, attempt_object, finish_failed,
  finish_object,
}
use poker_eye_v.Ledger.{Ledger, LedgerEntry, LedgerStatus, has}
use poker_eye_v.Ledger
use poker_eye_v.Ledger.Once.{IsSound, entries, contains-add, finalize-IsSound}
use poker_eye_v.Server.{Python}
use poker_eye_v.Bridge.Context.{
  AttemptLoop, BridgeContext, finish_hint, finalize_hint, finalize, ledger_entry, ledger_key,
}
use poker_eye_v.Bridge.Turns.{HeroTurn, request_hint, new_turn, on_hero_turn, poll}
use poker_eye_v.Bridge.Settling.{
  Cc, schedule, no_action, on_cc, acknowledged, on_ack, given_up, on_action_uncertain,
}
use poker_eye_v.Bridge.Attempts.{exhausted, next_round, advance_loop, advance}
use poker_eye_v.Bridge.Acks.{finalize-IsFinal, ack_lem, uncertain_lem}
use poker_eye_v.Bridge.Steps.{Input, hero_turn, hint, ack, uncertain, thread, tick, step, run}

-- The ledger `m` is sound if `l` is, and knows every key of `l`.
record Grows (l m : Ledger) : Type 0 where
  sound : IsSound l → IsSound m
  kept : (k : String) → has l k ≡ true → has m k ≡ true

Grows-refl : (l : Ledger) → Grows l l
Grows-refl l = record { sound = λ v. v; kept = λ k h. h }

finalize-Grows : (l : Ledger) (e : LedgerEntry) → Grows l (Ledger.finalize l e).0
unfolding Ledger.finalize has
finalize-Grows l e = record {
  sound = finalize-IsSound l e;
  kept = λ k h. ground (arith, h, contains-add l.keys e.key k);
}

finalize_hint-ledger :
    (c : BridgeContext) (t : String) (now : ℕ) → (finalize_hint c t now).0.ledger ≡ c.ledger
unfolding finalize_hint finish_hint
finalize_hint-ledger c t now = ground arith

settle-Grows :
    (c : BridgeContext) (a : Action) (s : LedgerStatus) (reason : String) (now : ℕ)
    → Grows c.ledger (finalize c a s reason now).0.ledger
unfolding finalize
settle-Grows c a s reason now =
    rw (finalize_hint-ledger _ a.table_id now)
      (finalize-Grows c.ledger (ledger_entry a s reason now))

turn-ledger :
    (python : Python) (c : BridgeContext) (u : String) (h : HeroTurn) (now : ℕ) (sent : Bool)
    → (on_hero_turn python c u h now sent).0.ledger ≡ c.ledger
unfolding on_hero_turn new_turn request_hint
turn-ledger python c u h now sent = ground arith

cc-ledger :
    (python : Python) (c : BridgeContext) (u : String) (i : Cc)
    → (on_cc python c u i).0.ledger ≡ c.ledger
unfolding on_cc no_action schedule
cc-ledger python c u i = grind (arith, finalize_hint-ledger)

tick-ledger :
    (python : Python) (c : BridgeContext) (now : ℕ) → (step python c (tick now)).0.ledger ≡ c.ledger
unfolding step poll
tick-ledger python c now = ground arith

ack-Grows :
    (c : BridgeContext) (k : String) (g : Option ℕ) (s : String) (now : ℕ)
    → Grows c.ledger (on_ack c k g s now).0.ledger
unfolding on_ack acknowledged
ack-Grows c k g s now = grind (arith, settle-Grows, Grows-refl)

uncertain-Grows :
    (c : BridgeContext) (k : String) (now : ℕ)
    → Grows c.ledger (on_action_uncertain c k now).0.ledger
unfolding on_action_uncertain given_up
uncertain-Grows c k now = grind (arith, settle-Grows, Grows-refl)

advance-Grows : (c : BridgeContext) (r now : ℕ) → Grows c.ledger (advance c r now).0.ledger
unfolding advance advance_loop next_round exhausted
advance-Grows c r now = grind (arith, settle-Grows, Grows-refl)

step-Grows :
    (python : Python) (c : BridgeContext) (i : Input) → Grows c.ledger (step python c i).0.ledger
unfolding step
step-Grows python c (hero_turn u h now sent) =
    rw (turn-ledger python c u h now sent) (Grows-refl c.ledger)
step-Grows python c (hint u i) = rw (cc-ledger python c u i) (Grows-refl c.ledger)
step-Grows python c (ack k g s now) = ack-Grows c k g s now
step-Grows python c (uncertain k now) = uncertain-Grows c k now
step-Grows python c (thread r now) = advance-Grows c r now
step-Grows python c (tick now) = rw (tick-ledger python c now) (Grows-refl c.ledger)

run-Grows :
    (python : Python) (c : BridgeContext) (is : List Input)
    → Grows c.ledger (run python c is).0.ledger
unfolding run
run-Grows python c [] = Grows-refl c.ledger
run-Grows python c (i ∷ is) =
    let g = step-Grows python c i in
    let h = run-Grows python (step python c i).0 is in
    record { sound = λ v. h.sound (g.sound v); kept = λ k e. h.kept k (g.kept k e) }

-- The slot of the device after a step, in which the action `r` was.
abbrev Kept : ℕ → BridgeContext → BridgeContext → Type 0
Kept r c c' =
    (active c'.scheduler c.device_id ≡ some r)
    ⊎ (has c'.ledger (ledger_key (c.scheduler.objects r)) ≡ true)

-- The thread of another action than `r`.
abbrev pub IsForeign : ℕ → Input → Type 0
IsForeign r (thread q now) = q ≢ r
IsForeign r i = ⊥

module _ (r : ℕ) (c : BridgeContext) (held : active c.scheduler c.device_id ≡ some r) where
  turn-Kept :
      (python : Python) (u : String) (h : HeroTurn) (now : ℕ) (sent : Bool)
      → Kept r c (on_hero_turn python c u h now sent).0
  unfolding on_hero_turn new_turn request_hint
  turn-Kept python u h now sent = ground (arith, held)

  tick-Kept : (python : Python) (now : ℕ) → Kept r c (step python c (tick now)).0
  unfolding step poll
  tick-Kept python now = ground (arith, held)

  cc-Kept : (python : Python) (u : String) (i : Cc) → Kept r c (on_cc python c u i).0
  unfolding on_cc no_action schedule create active finalize_hint finish_hint
  cc-Kept python u i = ground (arith, held)

  ack-Kept : (k : String) (g : Option ℕ) (s : String) (now : ℕ) → Kept r c (on_ack c k g s now).0
  unfolding on_ack acknowledged
  ack-Kept k g s now = grind (arith, held, ack_lem c r held k g s now)

  uncertain-Kept : (k : String) (now : ℕ) → Kept r c (on_action_uncertain c k now).0
  unfolding on_action_uncertain given_up
  uncertain-Kept k now = grind (arith, held, uncertain_lem c r held k now)

next_attempt-keeps :
    (s : ActionScheduler) (d : String) (r : ℕ)
    → let t = (next_attempt s d).0 in
      (active t d ≡ active s d) × (ledger_key (t.objects r) ≡ ledger_key (s.objects r))
unfolding next_attempt attempt_object active ledger_key
next_attempt-keeps s d r = ground arith

finish_failed-takes :
    (s : ActionScheduler) (d : String) (r : ℕ)
    → active s d ≡ some r
    → let (t, finished) = finish_failed s d in
      ledger_key (t.objects r) ≡ ledger_key (s.objects r)
      × ((finished ≡ some r) ⊎ ((finished ≡ none) × (active t d ≡ some r)))
unfolding finish_failed finish_object active ledger_key
finish_failed-takes s d r held = ground (arith, held)

exhausted-Kept :
    (r : ℕ) (c : BridgeContext) (now : ℕ)
    → active c.scheduler c.device_id ≡ some r
    → Kept r c (exhausted c r now).0
unfolding exhausted
exhausted-Kept r c now held =
    grind (arith, finalize-IsFinal, finish_failed-takes c.scheduler c.device_id r held)

next_round-Kept :
    (r : ℕ) (c : BridgeContext) (l : AttemptLoop) (now : ℕ)
    → active c.scheduler c.device_id ≡ some r
    → Kept r c (next_round c r l now).0
unfolding next_round
next_round-Kept r c l now held =
    let s = (next_attempt c.scheduler c.device_id).0 in
    let (same, key) = next_attempt-keeps c.scheduler c.device_id r in
    ground (
      arith,
      held,
      same,
      key,
      exhausted-Kept r c now held,
      exhausted-Kept r (record c { scheduler = s }) now (same ∙ held),
    )

own_thread-Kept :
    (r : ℕ) (c : BridgeContext) (now : ℕ)
    → active c.scheduler c.device_id ≡ some r
    → Kept r c (advance c r now).0
unfolding advance advance_loop
own_thread-Kept r c now held =
    grind (arith, held, next_round-Kept, next_attempt-keeps c.scheduler c.device_id r)

-- A step leaves the action in the slot of the device there, or the ledger has its key after the step,
-- or the step is a turn of another action's thread.
pub slot_left_recorded :
    (python : Python) (c : BridgeContext) (i : Input) (r : ℕ)
    → active c.scheduler c.device_id ≡ some r
    → let c' = (step python c i).0 in
      (active c'.scheduler c.device_id ≡ some r)
      ⊎ (has c'.ledger (ledger_key (c.scheduler.objects r)) ≡ true)
      ⊎ IsForeign r i
unfolding step
slot_left_recorded python c (hero_turn u h now sent) r held =
    ground (arith, turn-Kept r c held python u h now sent)
slot_left_recorded python c (hint u i) r held = ground (arith, cc-Kept r c held python u i)
slot_left_recorded python c (ack k g s now) r held = ground (arith, ack-Kept r c held k g s now)
slot_left_recorded python c (uncertain k now) r held = ground (arith, uncertain-Kept r c held k now)
slot_left_recorded python c (thread q now) r held = elim (ℕ_discrete q r) [
  | no n ↦ inr (inr n)
  | yes e ↦ rw e (ground (arith, own_thread-Kept r c now held))
]
slot_left_recorded python c (tick now) r held = ground (arith, tick-Kept r c held python now)

-- In any run from a sound ledger the ledger stays sound, with one entry of a key at most, and no key
-- that it knows is forgotten.
pub ledger_run-IsSound :
    (python : Python) (c : BridgeContext) (is : List Input)
    → IsSound c.ledger
    → let m = (run python c is).0.ledger in
      IsSound m
      × ((k : String) → entries k m.file.lines ≤ 1)
      × ((k : String) → has c.ledger k ≡ true → has m k ≡ true)
ledger_run-IsSound python c is v =
    let g = run-Grows python c is in (g.sound v, λ k. ground (arith, (g.sound v).once k), g.kept)
