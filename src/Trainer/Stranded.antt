-- ===== src/Trainer/Stranded.antt =====
-- An action that is out of attempts leaves its device blocked, if a frame asks for it once more
-- before the deadline of the last attempt.
use poker_eye_v.Prelude.{
  ℕ, Option, ◌≤◌, ◌<◌, ◌≡◌, ◌≢◌, String, true, false, Option-cases, inl, inr, none, some, List, [],
  ◌∷◌, arith, string_key, ite, String-discrete,
}
use poker_eye_v.Dict
use poker_eye_v.Dict.{get-put, get-remove, get-put_ne}
use poker_eye_v.Actions.{
  Action, max_attempts, next_attempt, acknowledge, finish_failed, create, sent, failed,
}
use poker_eye_v.Trainer.{
  Trainer, object, take_due_action, mark_acked_if_pending, ack_deadline, submit_action, get_or,
}
use poker_eye_v.Trainer.Events.{Event, ccs, frames, turns, deadlines, step, run}

-- Every pending action is allocated, and the device of a table's pending action is another.
pub record NotPending (d : String) (t : Trainer) : Type 0 where
  pub at :
      (table : String) (q : ℕ)
      → Dict.get t.pending table ≡ some q
      → (q < t.next_ref) × ((object t q).device_id ≢ d)

-- The device's slot is taken, by an action that no table has pending.
pub record IsStranded (d : String) (r : ℕ) (t : Trainer) : Type 0 where
  pub held : Dict.get t.scheduler.active d ≡ some r
  pub apart : NotPending d t

step-held :
    (d : String) (r : ℕ) (t : Trainer) (e : Event)
    → IsStranded d r t
    → Dict.get (step t e).scheduler.active d ≡ some r
unfolding step take_due_action mark_acked_if_pending ack_deadline submit_action next_attempt
    acknowledge finish_failed create
step-held d r t (ccs table a delay now) v =
    ground (arith, v.held, get-put t.scheduler.active a.device_id t.next_ref d)
step-held d r t (frames table false now) v = v.held
step-held d r t (frames table true now) v = elim (Option-cases (Dict.get t.pending table)) [
  | inl e ↦ ground (arith, v.held)
  | inr (q, e) ↦ ground (arith, v.held)
]
step-held d r t (turns table tid now) v = elim (Option-cases (Dict.get t.pending table)) [
  | inl e ↦ ground (arith, v.held)
  | inr (q, e) ↦
      ground
        (arith, v.held, v.apart.at table q, get-remove t.scheduler.active (object t q).device_id d)
]
step-held d r t (deadlines table q n now) v =
    ground
      (arith, v.held, v.apart.at table q, get-remove t.scheduler.active (object t q).device_id d)

step-apart :
    (d : String) (r : ℕ) (t : Trainer) (e : Event)
    → IsStranded d r t
    → (table : String) (q : ℕ) → Dict.get (step t e).pending table ≡ some q
    → (q < (step t e).next_ref) × ((object (step t e) q).device_id ≢ d)
unfolding step take_due_action mark_acked_if_pending ack_deadline submit_action next_attempt
    acknowledge finish_failed create
step-apart d r t (ccs table a delay now) v tb q e =
    ground (arith, v.held, v.apart.at tb q, get-put t.pending table t.next_ref tb)
step-apart d r t (frames table false now) v tb q e = v.apart.at tb q e
step-apart d r t (frames table true now) v tb q e = elim (Option-cases (Dict.get t.pending table)) [
  | inl n ↦ ground (arith, v.apart.at tb q)
  | inr (p, h) ↦ ground (arith, v.apart.at tb q, get-remove t.pending table tb)
]
step-apart d r t (turns table tid now) v tb q e = elim (Option-cases (Dict.get t.pending table)) [
  | inl n ↦ ground (arith, v.apart.at tb q)
  | inr (p, h) ↦ ground (arith, v.apart.at tb q, get-remove t.pending table tb)
]
step-apart d r t (deadlines table p n now) v tb q e =
    ground (arith, v.apart.at tb q, get-remove t.pending table tb)

pub run-IsStranded :
    (d : String) (r : ℕ) (t : Trainer) (es : List Event)
    → IsStranded d r t
    → IsStranded d r (run t es)
unfolding run
run-IsStranded d r t [] v = v
run-IsStranded d r t (e ∷ es) v =
    run-IsStranded d r (step t e) es
      (record { held = step-held d r t e v; apart = record { at = step-apart d r t e v } })

-- The action `r` of the device `d` has been sent three times, the table waits for its ACK, and the
-- pause after the last attempt is over.
pub record AwaitsLastAck (d table : String) (r now : ℕ) (t : Trainer) : Type 0 where
  pub waits : Dict.get t.pending table ≡ some r
  pub held : Dict.get t.scheduler.active d ≡ some r
  pub owner : (object t r).device_id ≡ d
  pub exhausted : (object t r).attempt ≡ max_attempts
  pub sent_last : (object t r).status ≡ sent
  pub certain : (object t r).uncertain ≡ false
  pub pause_over : get_or (Dict.get t.pending_due table) 0 ≤ now
  pub allocated : (tb : String) (q : ℕ) → Dict.get t.pending tb ≡ some q → q < t.next_ref
  pub alone :
      (tb : String) (q : ℕ)
      → tb ≢ table
      → Dict.get t.pending tb ≡ some q
      → (object t q).device_id ≢ d

module _ (d table : String) (r now : ℕ) (t : Trainer) (v : AwaitsLastAck d table r now t) where
  abbrev refused : Trainer
  refused = (take_due_action t table true now).0

  refused-scheduler :
      ((take_due_action t table true now).1 ≡ none)
      × (Dict.get refused.scheduler.active d ≡ some r)
      × ((object refused r).status ≡ failed)
      × (refused.ledger ≡ t.ledger)
      × (refused.next_ref ≡ t.next_ref)
  unfolding take_due_action next_attempt
  refused-scheduler =
      ground (arith, v.waits, v.held, v.owner, v.exhausted, v.sent_last, v.certain, v.pause_over)

  refused-pending :
      (tb : String)
      → Dict.get refused.pending tb ≡ ite (String-discrete table tb) none (Dict.get t.pending tb)
  unfolding take_due_action next_attempt
  refused-pending tb = ground (
    arith,
    v.waits,
    v.held,
    v.owner,
    v.exhausted,
    v.sent_last,
    v.certain,
    v.pause_over,
    get-remove t.pending table tb,
  )

  refused-owner : (q : ℕ) → (object refused q).device_id ≡ (object t q).device_id
  unfolding take_due_action next_attempt
  refused-owner q = ground (arith, v.waits, v.held, v.owner)

  refused-apart :
      (tb : String) (q : ℕ)
      → Dict.get refused.pending tb ≡ some q
      → (q < refused.next_ref) × ((object refused q).device_id ≢ d)
  refused-apart tb q e = ground (
    arith,
    refused-scheduler.4,
    refused-pending tb,
    refused-owner q,
    v.allocated tb q,
    v.alone tb q,
  )

-- While the slot of its device is taken a new action is not enqueued.
pub submit_blocked :
    (t : Trainer) (d tb : String) (r : ℕ) (a : Action) (delay : Option ℕ) (now : ℕ)
    → Dict.get t.scheduler.active d ≡ some r
    → a.device_id ≡ d
    → (submit_action t tb a delay now).pending ≡ t.pending
unfolding submit_action create
submit_blocked t d tb r a delay now held same = ground arith

-- When a binary frame comes for a table whose action was sent three times and whose last pause is
-- over, before the deadline of the last attempt, the action is dropped from the table with nothing in
-- the ledger, and it keeps the slot of its device. Whatever happens after that, the slot stays
-- taken: no further action of that device is ever accepted.
pub exhausted_action_blocks_device :
    (d table : String) (r now : ℕ) (t : Trainer) (es : List Event)
    → AwaitsLastAck d table r now t
    → let dropped = step t (frames table true now) in
      let later = run dropped es in
      (dropped.ledger ≡ t.ledger)
      × ((object dropped r).status ≡ failed)
      × (Dict.get dropped.pending table ≡ none)
      × (Dict.get later.scheduler.active d ≡ some r)
      × ((tb : String) (a : Action) (delay : Option ℕ) (at : ℕ)
          → a.device_id ≡ d
          → (submit_action later tb a delay at).pending ≡ later.pending)
unfolding step
exhausted_action_blocks_device d table r now t es v =
    let (idle, held, status, ledger, next) = refused-scheduler d table r now t v in
    let start : IsStranded d r (refused d table r now t v) = record {
      held = held;
      apart = record { at = refused-apart d table r now t v };
    } in
    let later = run-IsStranded d r (refused d table r now t v) es start in
    (
      ledger,
      status,
      ground (arith, refused-pending d table r now t v table),
      later.held,
      λ tb a delay at same. submit_blocked _ d tb r a delay at later.held same,
    )
