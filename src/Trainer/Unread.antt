-- ===== src/Trainer/Unread.antt =====
-- A CC whose delay cannot be computed: the action has its device's slot by then, and is never enqueued.
use poker_eye_v.Prelude.{ℕ, ◌≡◌, String, Option, none, some, List, arith, string_key}
use poker_eye_v.Dict
use poker_eye_v.Dict.{get-put_self}
use poker_eye_v.Actions.{Action, create}
use poker_eye_v.Trainer.{Trainer, submit_action}
use poker_eye_v.Trainer.Events.{Event, ccs, step, run}
use poker_eye_v.Trainer.Stranded.{NotPending, run-IsStranded, submit_blocked}

unread_lem :
    (d table : String) (a : Action) (now : ℕ) (t : Trainer)
    → Dict.get t.scheduler.active d ≡ none
    → a.device_id ≡ d
    → let stuck = step t (ccs table a none now) in
      (stuck.pending ≡ t.pending)
      × (stuck.ledger ≡ t.ledger)
      × (Dict.get stuck.scheduler.active d ≡ some t.next_ref)
unfolding step submit_action create
unread_lem d table a now t idle same =
    ground (arith, idle, same, get-put_self t.scheduler.active d t.next_ref)

unread-apart :
    (d table : String) (a : Action) (now : ℕ) (t : Trainer)
    → Dict.get t.scheduler.active d ≡ none
    → a.device_id ≡ d
    → NotPending d t
    → NotPending d (step t (ccs table a none now))
unfolding step submit_action create
unread-apart d table a now t idle same n = record {
  at = λ tb q e. ground (arith, idle, same, n.at tb q);
}

-- Where a device has no action, neither active nor pending at a table, and a CC for it is decided to an
-- action, but `int` or `float` of a value for its delay raises: nothing is enqueued and the ledger is
-- left as it is, but the action has taken the device's slot. Whatever happens after that, the slot
-- stays taken: no further action of that device is ever accepted.
pub unread_delay_blocks_device :
    (d table : String) (a : Action) (now : ℕ) (t : Trainer) (es : List Event)
    → Dict.get t.scheduler.active d ≡ none
    → a.device_id ≡ d
    → NotPending d t
    → let stuck = step t (ccs table a none now) in
      let later = run stuck es in
      (stuck.pending ≡ t.pending)
      × (stuck.ledger ≡ t.ledger)
      × (Dict.get later.scheduler.active d ≡ some t.next_ref)
      × ((tb : String) (b : Action) (delay : Option ℕ) (at : ℕ)
          → b.device_id ≡ d
          → (submit_action later tb b delay at).pending ≡ later.pending)
unread_delay_blocks_device d table a now t es idle same n =
    let stuck = step t (ccs table a none now) in
    let (pending, ledger, held) = unread_lem d table a now t idle same in
    let later =
      run-IsStranded d t.next_ref stuck es
        (record { held = held; apart = unread-apart d table a now t idle same n }) in
    (
      pending,
      ledger,
      later.held,
      λ tb b delay at e. submit_blocked _ d tb t.next_ref b delay at later.held e,
    )
