-- ===== src/Hints/Runs.antt =====
-- Concrete runs of the watchdog, and the theorems at concrete inputs.
use poker_eye_v.Prelude.{
  ℕ, ◌≡◌, ◌≢◌, refl, String, none, some, List, [], ◌∷◌, String-discrete, string_key,
}
use poker_eye_v.Dict
use poker_eye_v.Hints.{
  HintWatchdog, OutstandingHint, HintTransition, new_hint, poll, poll_tables, poll_hint,
}
use poker_eye_v.Hints.Slots.{slot, polled_slot, slot-poll}
use poker_eye_v.Hints.Invariant.{IsSound, observes, finishes, polls, run, watchdog_run-IsSound}

abbrev first_hint : OutstandingHint
first_hint = new_hint "t1" (some "h1") 1_000

abbrev next_hint : OutstandingHint
next_hint = new_hint "t1" (some "h2") 4_000

-- One hint is outstanding on table t1, and one is held behind it.
abbrev waiting : HintWatchdog
waiting = record {
  timeout = 10_000;
  outstanding = ("t1", first_hint) ∷ [];
  successor = ("t1", next_hint) ∷ [];
}

polled_once : poll waiting 10_999 ≡ some (waiting, [])
unfolding poll poll_tables poll_hint Dict.keys Dict.get String-discrete
polled_once = refl

slot-poll_example :
    (w' : HintWatchdog) × (ts : List HintTransition) × (poll waiting 11_000 ≡ some (w', ts))
    × ((t : String) → slot w' t ≡ polled_slot waiting 11_000 t)
    × Dict.Distinct w'.outstanding
    × (w'.timeout ≡ 10_000)
slot-poll_example = slot-poll waiting 11_000 (unfold Dict.get in (refl, tt))

abbrev no_hints : HintWatchdog
no_hints = record { timeout = 10_000; outstanding = []; successor = [] }

no_hints-IsSound : IsSound no_hints
unfolding Dict.get
no_hints-IsSound = record { at = λ t. tt; distinct = tt }

watchdog_run-IsSound_example :
    IsSound (run no_hints (observes "t1" none 0 ∷ polls 10_000 ∷ finishes "t1" ∷ []))
    × ((now : ℕ)
        → poll (run no_hints (observes "t1" none 0 ∷ polls 10_000 ∷ finishes "t1" ∷ [])) now ≢ none)
watchdog_run-IsSound_example =
    watchdog_run-IsSound no_hints (observes "t1" none 0 ∷ polls 10_000 ∷ finishes "t1" ∷ [])
      no_hints-IsSound
