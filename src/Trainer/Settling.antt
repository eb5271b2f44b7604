-- ===== src/Trainer/Settling.antt =====
-- What settles a pending action, and what leaves it alone.
use poker_eye_v.Prelude.{
  ℕ, ◌<◌, ◌≡◌, ◌≢◌, ◌⊎◌, String, String-discrete, ℕ_discrete, true, false, Option, ap, inl, inr,
  none, some, arith, string_key,
}
use poker_eye_v.Dict
use poker_eye_v.Dict.{get-put, get-remove, get-remove_self}
use poker_eye_v.Ledger.{success, failed, finalize, has, append_line}
use poker_eye_v.Ledger.Once.{contains-add}
use poker_eye_v.Actions.{
  Action, ActionScheduler, max_attempts, acknowledge, finish_failed, has_active, acked,
}
use poker_eye_v.Actions
use poker_eye_v.Trainer.{
  Trainer, object, ledger_entry, turn_evidence, exhausted_reason, mark_acked_if_pending,
  ack_deadline, ledger_key,
}

turn-cases : (o : Option String) (tid : String) → (o ≡ some tid) ⊎ (o ≢ some tid)
turn-cases none tid = inr (λ e. cc e)
turn-cases (some s) tid = elim (String-discrete s tid) [
  | yes e ↦ inl (ap some e)
  | no n ↦ inr (λ e. ground (arith, n, e))
]

module _ (t : Trainer) (table : String) (r now : ℕ)
    (waits : Dict.get t.pending table ≡ some r) where
  -- A turn settles the pending action only if it was sent and the turn is not the one that the action
  -- was made for; before that, or on a replay of that turn, nothing changes.
  pub turn_without_news :
      (tid : String)
      → ((object t r).attempt ≡ 0) ⊎ ((object t r).turn_id ≡ some tid)
      → mark_acked_if_pending t table tid now ≡ t
  unfolding mark_acked_if_pending
  turn_without_news tid (inl e) = ground arith
  turn_without_news tid (inr e) = ground arith

  -- What a settled action leaves: the slot of its device is free, the action is acknowledged, the table
  -- waits for nothing, and the ledger has its key, with a new entry of its success if the key was new.
  pub record IsSettled (tid : String) (u : Trainer) : Type 0 where
    pub slot : Dict.get u.scheduler.active (object t r).device_id ≡ none
    pub status : (object u r).status ≡ acked
    pub pending : Dict.get u.pending table ≡ none
    pub known : has u.ledger (ledger_key table (object t r)) ≡ true
    pub entry :
        has t.ledger (ledger_key table (object t r)) ≡ false
        → u.ledger.file
          ≡ append_line t.ledger.file
              (ledger_entry table (object t r) success (turn_evidence tid) now)

  confirmed :
      (tid : String)
      → Dict.get t.scheduler.active (object t r).device_id ≡ some r
      → 0 < (object t r).attempt
      → (object t r).turn_id ≢ some tid
      → let u = mark_acked_if_pending t table tid now in
        (Dict.get u.scheduler.active (object t r).device_id ≡ none)
        × ((object u r).status ≡ acked)
        × (Dict.get u.pending table ≡ none)
        × (u.ledger
            ≡ (finalize t.ledger
                (ledger_entry table (object t r) success (turn_evidence tid) now)).0)
  unfolding mark_acked_if_pending acknowledge
  confirmed tid held tried new = ground (
    arith,
    get-remove_self t.scheduler.active (object t r).device_id,
    get-remove_self t.pending table,
  )

  settled :
      (tid : String)
      → Dict.get t.scheduler.active (object t r).device_id ≡ some r
      → 0 < (object t r).attempt
      → (object t r).turn_id ≢ some tid
      → IsSettled tid (mark_acked_if_pending t table tid now)
  unfolding finalize has
  settled tid held tried new =
      let (slot, status, pending, ledger) = confirmed tid held tried new in
      let e = ledger_entry table (object t r) success (turn_evidence tid) now in
      record {
        slot = slot;
        status = status;
        pending = pending;
        known = rw ledger (ground (arith, contains-add t.ledger.keys e.key e.key));
        entry = λ fresh. rw ledger (ground (arith, fresh));
      }

  -- Where a table waits for the action that its device has active, a turn of the table settles it if it
  -- was sent and the turn is another one than the action was made for: then the device's slot is
  -- free, the action is acknowledged, nothing is pending, and the ledger has the key, with an entry of
  -- the success if the key was new. In any other case the turn changes nothing.
  pub new_turn_settles :
      (tid : String)
      → Dict.get t.scheduler.active (object t r).device_id ≡ some r
      → let u = mark_acked_if_pending t table tid now in
        ((0 < (object t r).attempt) × ((object t r).turn_id ≢ some tid) × IsSettled tid u)
        ⊎ ((((object t r).attempt ≡ 0) ⊎ ((object t r).turn_id ≡ some tid)) × (u ≡ t))
  new_turn_settles tid held = elim (ℕ_discrete (object t r).attempt 0) [
    | yes e ↦ inr (inl e, turn_without_news tid (inl e))
    | no n ↦ elim (turn-cases (object t r).turn_id tid) [
      | inl e ↦ inr (inr e, turn_without_news tid (inr e))
      | inr new ↦
          let tried : 0 < (object t r).attempt = ground (arith, n) in
          inl (tried, new, settled tid held tried new)
    ]
  ]

  -- The deadline of an attempt that is not the current one, or is not the last, changes nothing.
  pub early_deadline :
      (attempt : ℕ)
      → ((object t r).attempt ≢ attempt) ⊎ (attempt < max_attempts)
      → ack_deadline t table r attempt now ≡ t
  unfolding ack_deadline
  early_deadline attempt (inl e) = ground arith
  early_deadline attempt (inr e) = ground arith

  -- The deadline of the last attempt fails the active action: the slot of its device is free, the
  -- table waits for nothing, and the ledger has its failure.
  pub last_deadline_settles :
      Dict.get t.scheduler.active (object t r).device_id ≡ some r
      → (object t r).attempt ≡ max_attempts
      → (object t r).uncertain ≡ false
      → let u = ack_deadline t table r max_attempts now in
        (Dict.get u.scheduler.active (object t r).device_id ≡ none)
        × ((object u r).status ≡ Actions.failed)
        × (Dict.get u.pending table ≡ none)
        × (u.ledger
            ≡ (finalize t.ledger (ledger_entry table (object t r) failed exhausted_reason now)).0)
  unfolding ack_deadline has_active finish_failed
  last_deadline_settles held used certain = ground (
    arith,
    get-remove_self t.scheduler.active (object t r).device_id,
    get-remove_self t.pending table,
  )
