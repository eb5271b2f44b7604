-- ===== src/Hints/Invariant.antt =====
-- The well-formedness of the watchdog, which every operation keeps.
use poker_eye_v.Prelude.{
  ℕ, ◌≤◌, ◌≡◌, ◌≢◌, refl, sym, subst, ite, if_pos, if_neg, String-discrete, String, Option, none,
  some, List, [], ◌∷◌, arith, string_key,
}
use poker_eye_v.Dict
use poker_eye_v.Dict.{Distinct, Distinct-put, Distinct-remove, get-put, get-remove}
use poker_eye_v.Hints.{
  HintWatchdog, OutstandingHint, HintTransition, new_hint, init, observe_hint, cancel,
  observe_finish, poll,
}
use poker_eye_v.Hints.Slots.{
  Slot, slot, observed, canceled, polled, slot-observe_hint, slot-cancel, slot-observe_finish,
  slot-poll, promote-Distinct,
}

-- The outstanding hint and the held one belong to their table; none is held behind nothing; one
-- strike at most is counted, and none against a held hint.
abbrev pub AtTable : String → Option OutstandingHint → Option OutstandingHint → Type 0
AtTable t none none = Unit
AtTable t none (some s) = ⊥
AtTable t (some c) none = (c.table_id ≡ t) × (c.timeout_count ≤ 1)
AtTable t (some c) (some s) =
    (c.table_id ≡ t) × (c.timeout_count ≤ 1) × (s.table_id ≡ t) × (s.timeout_count ≡ 0)

abbrev pub InSlot : String → Slot → Type 0
InSlot t s = AtTable t s.cur s.succ

pub record IsSound (w : HintWatchdog) : Type 0 where
  pub at : (t : String) → InSlot t (slot w t)
  pub distinct : Distinct w.outstanding

pub init-IsSound : (timeout : ℕ) (w : HintWatchdog) → init timeout ≡ some w → IsSound w
unfolding init Dict.get
init-IsSound timeout w e = record { at = λ t. ground arith; distinct = ground arith }

observed-AtTable :
    (t : String) (h : OutstandingHint) (c s : Option OutstandingHint)
    → h.table_id ≡ t
    → h.timeout_count ≡ 0
    → AtTable t c s
    → InSlot t (observed h c s)
unfolding observed
observed-AtTable t h none none e z v = (e, omega arith)
observed-AtTable t h none (some s) e z v = absurd v
observed-AtTable t h (some c) none e z v = (v.0, v.1, e, z)
observed-AtTable t h (some c) (some s) e z v = v

canceled-AtTable :
    (t : String) (hand : Option String) (c s : Option OutstandingHint)
    → AtTable t c s
    → InSlot t (canceled hand c s)
unfolding canceled
canceled-AtTable t hand none s v = tt
canceled-AtTable t hand (some c) none v = ground arith
canceled-AtTable t hand (some c) (some s) v = ground arith

finished-AtTable : (t : String) (c s : Option OutstandingHint) → AtTable t c s → AtTable t s none
finished-AtTable t c none v = tt
finished-AtTable t none (some s) v = absurd v
finished-AtTable t (some c) (some s) v = (v.2, omega arith)

polled-AtTable :
    (timeout now : ℕ) (t : String) (c s : Option OutstandingHint)
    → AtTable t c s
    → InSlot t (polled timeout now c s)
unfolding polled
polled-AtTable timeout now t none s v = v
polled-AtTable timeout now t (some c) none v = ground arith
polled-AtTable timeout now t (some c) (some s) v = ground arith

-- The slots of the other tables are kept.
InSlot-own :
    (table t : String) (own new old : Slot)
    → own ≡ ite (String-discrete table t) new old
    → (table ≡ t → InSlot t new)
    → InSlot t old
    → InSlot t own
InSlot-own table t own new old e f h = elim (String-discrete table t) [
  | yes p ↦ rw (e, if_pos _ p new old) (f p)
  | no n ↦ rw (e, if_neg _ n new old) h
]

observe_hint-IsSound :
    (w : HintWatchdog) (table : String) (hand : Option String) (now : ℕ)
    → IsSound w
    → IsSound (observe_hint w table hand now).0
observe_hint-IsSound w table hand now v = record {
  at = λ t.
      InSlot-own table t _ _ (slot w t) (slot-observe_hint w table t hand now)
        (λ p. observed-AtTable t (new_hint table hand now) _ _ p refl (v.at t)) (v.at t);
  distinct =
      unfold observe_hint in
      ground (arith, Distinct-put w.outstanding table (new_hint table hand now) v.distinct);
}

cancel-IsSound :
    (w : HintWatchdog) (table : String) (hand : Option String)
    → IsSound w
    → IsSound (cancel w table hand).0
cancel-IsSound w table hand v = record {
  at = λ t.
      InSlot-own table t _ _ (slot w t) (slot-cancel w table t hand)
        (λ p. canceled-AtTable t hand _ _ (v.at t)) (v.at t);
  distinct = unfold cancel in ground (arith, Distinct-remove w.outstanding table v.distinct);
}

observe_finish-IsSound :
    (w : HintWatchdog) (table : String) → IsSound w → IsSound (observe_finish w table).0
observe_finish-IsSound w table v = record {
  at = λ t.
      InSlot-own table t _ _ (slot w t) (slot-observe_finish w table t)
        (λ p. finished-AtTable t _ _ (v.at t)) (v.at t);
  distinct =
      unfold observe_finish in
      promote-Distinct _ table (Distinct-remove w.outstanding table v.distinct);
}

-- The calls on a watchdog.
pub data Call : Type 0 where
  observes : String → Option String → ℕ → Call
  cancels : String → Option String → Call
  finishes : String → Call
  polls : ℕ → Call

abbrev pub or_raise : HintWatchdog → Option (HintWatchdog × List HintTransition) → HintWatchdog
or_raise w none = w
or_raise w (some (w', ts)) = w'

unfoldable pub step : HintWatchdog → Call → HintWatchdog
step w (observes table hand now) = (observe_hint w table hand now).0
step w (cancels table hand) = (cancel w table hand).0
step w (finishes table) = (observe_finish w table).0
step w (polls now) = or_raise w (poll w now)

unfoldable pub run : HintWatchdog → List Call → HintWatchdog
run w [] = w
run w (c ∷ cs) = run (step w c) cs

poll-IsSound : (w : HintWatchdog) (now : ℕ) → IsSound w → IsSound (or_raise w (poll w now))
poll-IsSound w now v =
    let (w', ts, e, at, d, same) = slot-poll w now v.distinct in
    rw e (record {
      at = λ t. subst (InSlot t) (sym (at t)) (polled-AtTable w.timeout now t _ _ (v.at t));
      distinct = d;
    })

step-IsSound : (w : HintWatchdog) (c : Call) → IsSound w → IsSound (step w c)
unfolding step
step-IsSound w (observes table hand now) v = observe_hint-IsSound w table hand now v
step-IsSound w (cancels table hand) v = cancel-IsSound w table hand v
step-IsSound w (finishes table) v = observe_finish-IsSound w table v
step-IsSound w (polls now) v = poll-IsSound w now v

-- After any calls, whatever their times, the watchdog is well-formed and its next `poll` does not
-- raise.
pub watchdog_run-IsSound :
    (w : HintWatchdog) (cs : List Call)
    → IsSound w
    → IsSound (run w cs) × ((now : ℕ) → poll (run w cs) now ≢ none)
unfolding run
watchdog_run-IsSound w [] v = (v, λ now p. polls_on now p)
  where
    polls_on : (now : ℕ) → poll w now ≢ none
    polls_on now p = let (w', ts, e, at, d, same) = slot-poll w now v.distinct in cc (e, p)
watchdog_run-IsSound w (c ∷ cs) v = watchdog_run-IsSound (step w c) cs (step-IsSound w c v)
