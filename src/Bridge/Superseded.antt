-- ===== src/Bridge/Superseded.antt =====
-- A thread asks whether the device has an action, not whether it has its own: what comes of it where
-- a new action is made before the thread of a settled one has looked.
use poker_eye_v.Prelude.{
  ℕ, ◌+◌, ◌≤◌, ◌<◌, ◌≡◌, ◌≢◌, refl, String, true, false, ap, List, ◌++◌, ◌==◌, if◌then◌else◌, none,
  some, [], ◌∷◌, arith, string_key, nat_key,
}
use poker_eye_v.Dict
use poker_eye_v.Dict.{get-put, get-remove}
use poker_eye_v.Actions.{
  max_attempts, active, has_active, create, next_attempt, attempt_object, is_open, retry_gap,
}
use poker_eye_v.Server.{Python}
use poker_eye_v.Policy.Resolve.{ResolvedAction}
use poker_eye_v.Bridge.Context.{
  starting, delayed, awaiting_ack, AttemptLoop, BridgeContext, store, table,
}
use poker_eye_v.Bridge.Settling.{
  Cc, cc_table, cc_decision, is_refusal, new_action, new_loop, cc_delay_ms, schedule, on_cc,
}
use poker_eye_v.Bridge.Attempts.{next_round, advance_loop, advance}
use poker_eye_v.Bridge.Steps.{Input, hint, thread, step, run}
use poker_eye_v.Bridge.Sends.{sends, sends-append}

-- The device has the action `q` in its slot, in its `k`-th attempt, and the thread of `r` is at `l`.
record HasThread (q k r : ℕ) (l : AttemptLoop) (c : BridgeContext) : Type 0 where
  slot : active c.scheduler c.device_id ≡ some q
  count : (c.scheduler.objects q).attempt ≡ k
  opened : is_open (c.scheduler.objects q).status ≡ true
  certain : (c.scheduler.objects q).uncertain ≡ false
  loop : Dict.get c.loops r ≡ some l

schedule-HasThread :
    (c : BridgeContext) (t : String) (i : Cc) (r : ℕ) (l : AttemptLoop) (a : ResolvedAction)
    (delay : ℕ)
    → cc_delay_ms i ≡ some delay
    → active c.scheduler c.device_id ≡ none
    → Dict.get c.loops r ≡ some l
    → r ≢ c.next_ref
    → let (c', made, out) = schedule c t i (new_action c t i a) in
      HasThread c.next_ref 0 r l c'
      × (out ≡ [])
      × (made ≡ some i.correlation)
      × (Dict.get c'.loops c.next_ref ≡ some (new_loop delay (table c t).user_turn_options))
unfolding schedule create active
schedule-HasThread c t i r l a delay m idle e n = ground (
  arith,
  get-put c.scheduler.active c.device_id c.next_ref c.device_id,
  get-put c.loops c.next_ref (new_loop delay (table c t).user_turn_options) r,
  get-put c.loops c.next_ref (new_loop delay (table c t).user_turn_options) c.next_ref,
)

abbrev gap_of : ℕ → ℕ
gap_of k = if k + 1 == 1 then 0 else retry_gap

-- The loop after the wait for an ACK has taken the next attempt of the device's action, its `k + 1`st.
abbrev delayed_loop : AttemptLoop → ℕ → ℕ → AttemptLoop
delayed_loop l k now = record l {
  phase = delayed;
  attempt = l.attempt + 1;
  deadline = now + gap_of k;
}

-- The thread of `r` takes the next attempt of the new action `q`.
wait-HasThread :
    (c : BridgeContext) (q k r : ℕ) (l : AttemptLoop) (now : ℕ)
    → HasThread q k r l c
    → k < max_attempts
    → l.phase ≡ awaiting_ack
    → l.attempt < max_attempts
    → l.deadline ≤ now
    → let (c', out) = advance c r now in
      (active c'.scheduler c'.device_id ≡ some q)
      × ((c'.scheduler.objects q).attempt ≡ k + 1)
      × (Dict.get c'.loops r ≡ some (delayed_loop l k now))
      × (out ≡ [])
unfolding advance advance_loop next_round next_attempt attempt_object active
wait-HasThread c q k r l now h m p j d =
    ground (arith, h, get-put c.loops r (delayed_loop l k now) r)

-- The thread of the new action `q` begins, with its first attempt.
start-HasThread :
    (c : BridgeContext) (q r : ℕ) (l n : AttemptLoop) (now : ℕ)
    → HasThread q 0 r l c
    → Dict.get c.loops q ≡ some n
    → n.phase ≡ starting
    → r ≢ q
    → let (c', out) = advance c q now in HasThread q 1 r l c' × (out ≡ [])
unfolding advance advance_loop next_attempt attempt_object active
start-HasThread c q r l n now h e p d =
    ground
      (arith, h, get-put c.loops q (record n { phase = delayed; deadline = now + n.deadline }) r)

-- The thread of `r` is in its delay: it sends, whichever action the device has.
delay_sends :
    (c : BridgeContext) (q r : ℕ) (l : AttemptLoop) (now : ℕ)
    → active c.scheduler c.device_id ≡ some q
    → Dict.get c.loops r ≡ some l
    → l.phase ≡ delayed
    → l.deadline ≤ now
    → let (c', out) = advance c r now in
      (c'.scheduler ≡ c.scheduler)
      × (c'.device_id ≡ c.device_id)
      × (sends r out ≡ 1)
      × (r ≢ q → sends q out ≡ 0)
unfolding advance advance_loop has_active active
delay_sends c q r l now s e p d = grind arith

cc-HasThread :
    (python : Python) (c : BridgeContext) (t : String) (i : Cc) (r : ℕ) (l : AttemptLoop)
    (a : ResolvedAction) (delay : ℕ)
    → cc_delay_ms i ≡ some delay
    → is_refusal (cc_decision python c t i).status ≡ false
    → (cc_decision python c t i).action ≡ some a
    → active c.scheduler c.device_id ≡ none
    → Dict.get c.loops r ≡ some l
    → r ≢ c.next_ref
    → let (c', made, out) = on_cc python c t i in
      HasThread c.next_ref 0 r l c'
      × (out ≡ [])
      × (made ≡ some i.correlation)
      × ((n : AttemptLoop) × (Dict.get c'.loops c.next_ref ≡ some n) × (n.phase ≡ starting))
unfolding on_cc
cc-HasThread python c t i r l a delay m f d idle e n =
    let c1 = store c t (cc_table c t) in
    let options = (table c1 t).user_turn_options in
    let (h, silent, made, own) = schedule-HasThread c1 t i r l a delay m idle e n in
    (
      ground (arith, f, d, h),
      ground (arith, f, d, silent),
      ground (arith, f, d, made),
      (new_loop delay options, ground (arith, f, d, own), refl),
    )

-- The thread of `r` goes on to send its own action, and uses up an attempt of `q`.
resent_beside :
    (python : Python) (c : BridgeContext) (q k r : ℕ) (l : AttemptLoop) (now later : ℕ)
    → HasThread q k r l c
    → k < max_attempts
    → r ≢ q
    → l.phase ≡ awaiting_ack
    → l.attempt < max_attempts
    → l.deadline ≤ now
    → now + retry_gap ≤ later
    → let (c', out) = run python c (thread r now ∷ thread r later ∷ []) in
      (sends r out ≡ 1)
      × (sends q out ≡ 0)
      × ((c'.scheduler.objects q).attempt ≡ k + 1)
      × (active c'.scheduler c'.device_id ≡ some q)
unfolding run step
resent_beside python c q k r l now later h m n p j d w =
    let (s2, n2, e2, silent2) = wait-HasThread c q k r l now h m p j d in
    let wait_over : now + gap_of k ≤ later = ground (arith, w) in
    let (same, own, once, others) =
      delay_sends (advance c r now).0 q r (delayed_loop l k now) later s2 e2 refl wait_over in
    let last = (advance (advance c r now).0 r later).1 in
    ground (
      arith,
      silent2,
      same,
      own,
      once,
      others n,
      s2,
      n2,
      sends-append r last [],
      sends-append q last [],
    )

-- A step without an output leaves the run to the rest of the inputs.
hint-run :
    (python : Python) (c : BridgeContext) (t : String) (i : Cc) (is : List Input)
    → (on_cc python c t i).2 ≡ []
    → ((run python c (hint t i ∷ is)).0 ≡ (run python (on_cc python c t i).0 is).0)
      × ((run python c (hint t i ∷ is)).1 ≡ (run python (on_cc python c t i).0 is).1)
unfolding run step
hint-run python c t i is e = (refl, ap (λ out. out ++ (run python (on_cc python c t i).0 is).1) e)

thread-run :
    (python : Python) (c : BridgeContext) (q now : ℕ) (is : List Input)
    → (advance c q now).1 ≡ []
    → ((run python c (thread q now ∷ is)).0 ≡ (run python (advance c q now).0 is).0)
      × ((run python c (thread q now ∷ is)).1 ≡ (run python (advance c q now).0 is).1)
unfolding run step
thread-run python c q now is e = (refl, ap (λ out. out ++ (run python (advance c q now).0 is).1) e)

-- A device is free because the action of the thread of `r` has been settled, and that thread, which
-- waits for the ACK of its first or second attempt, has not looked since. Where a CC makes a new
-- action with a delay, and the wait of the old thread is over before it looks, its next two turns,
-- the second after the pause between attempts, send the settled action once more, and the first of
-- them takes an attempt of the new action: its first, if the new thread has not begun, and its
-- second, if the new thread has begun and is in its delay. In either case the new action has not
-- been sent by then.
pub settled_action_resent :
    (python : Python) (c : BridgeContext) (t : String) (i : Cc) (r : ℕ) (l : AttemptLoop)
    (a : ResolvedAction) (delay now later : ℕ)
    → cc_delay_ms i ≡ some delay
    → is_refusal (cc_decision python c t i).status ≡ false
    → (cc_decision python c t i).action ≡ some a
    → active c.scheduler c.device_id ≡ none
    → Dict.get c.loops r ≡ some l
    → r ≢ c.next_ref
    → l.phase ≡ awaiting_ack
    → l.attempt < max_attempts
    → l.deadline ≤ now
    → now + retry_gap ≤ later
    → let q = c.next_ref in
      let old = thread r now ∷ thread r later ∷ [] in
      let (c1, out1) = run python c (hint t i ∷ old) in
      let (c2, out2) = run python c (hint t i ∷ thread q now ∷ old) in
      (sends r out1 ≡ 1)
      × (sends q out1 ≡ 0)
      × ((c1.scheduler.objects q).attempt ≡ 1)
      × (active c1.scheduler c1.device_id ≡ some q)
      × (sends r out2 ≡ 1)
      × (sends q out2 ≡ 0)
      × ((c2.scheduler.objects q).attempt ≡ 2)
      × (active c2.scheduler c2.device_id ≡ some q)
settled_action_resent python c t i r l a delay now later m f d idle e n p k h w =
    let q = c.next_ref in
    let old = thread r now ∷ thread r later ∷ [] in
    let (c1, made, out1) = on_cc python c t i in
    let (held, silent1, made_lem, (own, own_loop, begins)) =
      cc-HasThread python c t i r l a delay m f d idle e n in
    let (begun, silent2) = start-HasThread c1 q r l own now held own_loop begins n in
    let (a1, a2, a3, a4) = resent_beside python c1 q 0 r l now later held (omega arith) n p k h w in
    let (b1, b2, b3, b4) =
      resent_beside python (advance c1 q now).0 q 1 r l now later begun (omega arith) n p k h w in
    let (first1, first2) = hint-run python c t i old silent1 in
    let (next1, next2) = thread-run python c1 q now old silent2 in
    let (all1, all2) = hint-run python c t i (thread q now ∷ old) silent1 in
    (
      rw first2 a1,
      rw first2 a2,
      rw first1 a3,
      rw first1 a4,
      rw (all2, next2) b1,
      rw (all2, next2) b2,
      rw (all1, next1) b3,
      rw (all1, next1) b4,
    )
