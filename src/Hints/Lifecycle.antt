-- ===== src/Hints/Lifecycle.antt =====
-- How long a hint can stay outstanding.
use poker_eye_v.Prelude.{
  ℕ, ◌+◌, ◌≤◌, ◌≡◌, ap, ◌∙◌, String, Option, none, some, List, arith, string_key,
}
use mathlib.Core.Path.{ap₂}
use poker_eye_v.Dict
use poker_eye_v.Dict.{Distinct}
use poker_eye_v.Hints.{HintWatchdog, OutstandingHint, HintTransition, poll}
use poker_eye_v.Hints.Slots.{Slot, slot, polled, slot-poll}

polled_twice :
    (timeout now later : ℕ) (c : OutstandingHint) (s : Option OutstandingHint)
    → c.timeout_count ≡ 0
    → c.created_at + timeout ≤ now
    → c.created_at + timeout ≤ later
    → let once = polled timeout now (some c) s in
      polled timeout later once.cur once.succ ≡ record { cur = s; succ = none }
unfolding polled
polled_twice timeout now later c s z a b = ground arith

-- A hint without a strike that is past its timeout is gone after two polls, however close together,
-- and what was held behind it has taken its place.
pub two_polls_recycle :
    (w : HintWatchdog) (t : String) (c : OutstandingHint) (now later : ℕ)
    → Distinct w.outstanding
    → Dict.get w.outstanding t ≡ some c
    → c.timeout_count ≡ 0
    → c.created_at + w.timeout ≤ now
    → c.created_at + w.timeout ≤ later
    → (w1 w2 : HintWatchdog) × (ts us : List HintTransition) × (poll w now ≡ some (w1, ts))
      × (poll w1 later ≡ some (w2, us))
      × (slot w2 t ≡ record { cur = Dict.get w.successor t; succ = none })
two_polls_recycle w t c now later h e z a b =
    let (w1, ts, e1, at1, d1, s1) = slot-poll w now h in
    let (w2, us, e2, at2, d2, s2) = slot-poll w1 later d1 in
    let strike = λ (o : Option OutstandingHint). polled w.timeout now o (Dict.get w.successor t) in
    let again = λ (timeout : ℕ) (s : Slot). polled timeout later s.cur s.succ in
    (
      w1,
      w2,
      ts,
      us,
      e1,
      e2,
      at2 t
          ∙ ap₂ again s1 (at1 t ∙ ap strike e)
          ∙ polled_twice w.timeout now later c (Dict.get w.successor t) z a b,
    )
