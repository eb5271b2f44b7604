-- ===== src/Actions/Attempts.antt =====
-- How often an action is sent: three times at most, and three times if nothing settles it.
use poker_eye_v.Prelude.{
  ℕ, ◌+◌, ◌≤◌, ◌<◌, ◌≡◌, ◌≢◌, String, true, false, Option, none, some, List, [], ◌∷◌, arith,
  string_key, ◌==◌, if◌then◌else◌,
}
use poker_eye_v.Dict
use poker_eye_v.Dict.{Dict}
use poker_eye_v.Actions.{
  Action, pending, failed, ActionScheduler, write, max_attempts, retry_gap, is_open, create,
  attempt_object, next_attempt, acknowledge, timeout_unknown, finish_failed,
}

-- The calls that callers make. `submits` builds an `Action` under a new identity and creates it.
pub data Call : Type 0 where
  submits : ℕ → Action → Call
  attempts : String → Call
  acknowledges : String → String → ℕ → Call
  times_out : String → String → Call
  finishes : String → Call

unfoldable pub step : ActionScheduler → Call → ActionScheduler
step s (submits r a) = (create (record s { objects = write s.objects r a }) r).0
step s (attempts d) = (next_attempt s d).0
step s (acknowledges d c g) = (acknowledge s d c g).0
step s (times_out d c) = (timeout_unknown s d c).0
step s (finishes d) = (finish_failed s d).0

unfoldable pub run : ActionScheduler → List Call → ActionScheduler
run s [] = s
run s (c ∷ cs) = run (step s c) cs

-- 1 if `next_attempt` hands out the object `r`, to be sent.
abbrev pub is_grant : ℕ → Option (ℕ × ℕ) → ℕ
is_grant r none = 0
is_grant r (some (q, gap)) = if q == r then 1 else 0

unfoldable pub granted : ℕ → ActionScheduler → Call → ℕ
granted r s (attempts d) = is_grant r (next_attempt s d).1
granted r s _ = 0

-- How often a run of calls hands out `r`.
unfoldable pub sends : ℕ → ActionScheduler → List Call → ℕ
unfolding granted
sends r s [] = 0
sends r s (c ∷ cs) = granted r s c + sends r (step s c) cs

-- An identity is given to one object only.
abbrev pub IsNew : ℕ → Call → Type 0
IsNew r (submits q a) = q ≢ r
IsNew r _ = Unit

abbrev pub AllNew : ℕ → List Call → Type 0
AllNew r [] = Unit
AllNew r (c ∷ cs) = IsNew r c × AllNew r cs

attempt_object-counts :
    (r q : ℕ) (s : ActionScheduler)
    → (s.objects r).attempt ≤ max_attempts
    → let t = attempt_object s q (s.objects q) in
      (((t.0).objects r).attempt ≡ (s.objects r).attempt + is_grant r t.1)
      × (((t.0).objects r).attempt ≤ max_attempts)
unfolding attempt_object
attempt_object-counts r q s h = ground arith

-- Each call adds to the attempts of `r` what it hands out, and keeps them within the limit.
pub step-counts :
    (r : ℕ) (s : ActionScheduler) (c : Call)
    → IsNew r c
    → (s.objects r).attempt ≤ max_attempts
    → (((step s c).objects r).attempt ≡ (s.objects r).attempt + granted r s c)
      × (((step s c).objects r).attempt ≤ max_attempts)
unfolding step granted create next_attempt acknowledge timeout_unknown finish_failed
step-counts r s (submits q a) n h = ground arith
step-counts r s (attempts d) n h = ground arith
step-counts r s (acknowledges d c g) n h = ground arith
step-counts r s (times_out d c) n h = ground arith
step-counts r s (finishes d) n h = ground arith

-- A new action.
pub record IsFresh (a : Action) : Type 0 where
  pub attempt : a.attempt ≡ 0
  pub status : a.status ≡ pending
  pub certain : a.uncertain ≡ false

-- The object `r` is active, open and in its `k`-th attempt.
record AtAttempt (d : String) (r k : ℕ) (s : ActionScheduler) : Type 0 where
  held : Dict.get s.active d ≡ some r
  count : (s.objects r).attempt ≡ k
  is_open : is_open (s.objects r).status ≡ true
  certain : (s.objects r).uncertain ≡ false

module _ (d : String) (r : ℕ) where
  next_attempt_within :
      (s : ActionScheduler) (k : ℕ)
      → k < max_attempts
      → AtAttempt d r k s
      → ((next_attempt s d).1 ≡ some (r, if k == 0 then 0 else retry_gap))
        × AtAttempt d r (k + 1) (next_attempt s d).0
  unfolding next_attempt
  next_attempt_within s k h a = (ground arith, ground arith)

  next_attempt_exhausted :
      (s : ActionScheduler)
      → AtAttempt d r max_attempts s
      → let t = next_attempt s d in
        (t.1 ≡ none) × (((t.0).objects r).status ≡ failed) × (Dict.get (t.0).active d ≡ some r)
  unfolding next_attempt
  next_attempt_exhausted s a = ground arith

-- A new action is handed out exactly three times, at once and then after the retry gap twice. The
-- fourth request fails the action, which stays in the device's slot.
pub three_attempts :
    (s : ActionScheduler) (d : String) (r : ℕ)
    → Dict.get s.active d ≡ some r
    → IsFresh (s.objects r)
    → let t1 = next_attempt s d in
      let t2 = next_attempt t1.0 d in
      let t3 = next_attempt t2.0 d in
      let t4 = next_attempt t3.0 d in
      (t1.1 ≡ some (r, 0))
      × (t2.1 ≡ some (r, retry_gap))
      × (t3.1 ≡ some (r, retry_gap))
      × (t4.1 ≡ none)
      × (((t4.0).objects r).status ≡ failed)
      × (Dict.get (t4.0).active d ≡ some r)
three_attempts s d r held f =
    let start : AtAttempt d r 0 s = record {
      held = held;
      count = f.attempt;
      is_open = rw f.status;
      certain = f.certain;
    } in
    let (e1, a1) = next_attempt_within d r s 0 (omega arith) start in
    let (e2, a2) = next_attempt_within d r _ 1 (omega arith) a1 in
    let (e3, a3) = next_attempt_within d r _ 2 (omega arith) a2 in
    let (e4, e5, e6) = next_attempt_exhausted d r _ a3 in (e1, e2, e3, e4, e5, e6)
