-- ===== src/Trainer/Runs.antt =====
-- Concrete events of the trainer, and the theorems at concrete inputs.
use poker_eye_v.Prelude.{
  ℕ, ◌+◌, ◌≤◌, ◌<◌, ◌⊎◌, ◌≡◌, ◌≢◌, refl, String, true, false, Option, none, some, List, [], ◌∷◌,
  arith, string_key, String-discrete, ℕ_discrete,
}
use poker_eye_v.Prelude.Int.{pos}
use poker_eye_v.Dict
use poker_eye_v.Ledger.{clean}
use poker_eye_v.Actions
use poker_eye_v.Actions.{
  Action, pending, sent, acked, ActionScheduler, max_attempts, create, next_attempt, acknowledge,
}
use poker_eye_v.Trainer.{
  Trainer, object, take_due_action, mark_acked_if_pending, submit_action, ledger_key,
}
use poker_eye_v.Trainer.Events.{Event, ccs, frames, deadlines, step, run, pulls}
use poker_eye_v.Trainer.Attempts.{pulls_bound}
use poker_eye_v.Trainer.Settling.{IsSettled, new_turn_settles}
use poker_eye_v.Trainer.Unread.{unread_delay_blocks_device}
use poker_eye_v.Trainer.Stranded.{NotPending, AwaitsLastAck, exhausted_action_blocks_device}

abbrev call : Action
call = record {
  device_id = "d1";
  table_id = "t1";
  generation = 12;
  command = "CALL";
  amount = pos 0;
  correlation_id = "c1";
  attempt = 0;
  status = pending;
  uncertain = false;
  turn_id = some "turnId:7";
}

abbrev new_trainer : Trainer
new_trainer = record {
  scheduler = record { objects = λ r. call; active = [] };
  pending = [];
  pending_due = [];
  ledger = record { file = record { lines = []; tail = clean }; keys = [] };
  next_ref = 0;
}

-- The call was sent for the third time at 5000, and its ACK is awaited.
abbrev awaiting : Trainer
awaiting = record {
  scheduler = record {
    objects = λ r. record call { attempt = 3; status = sent };
    active = ("d1", 0) ∷ [];
  };
  pending = ("t1", 0) ∷ [];
  pending_due = ("t1", 6_000) ∷ [];
  ledger = new_trainer.ledger;
  next_ref = 1;
}

abbrev session : List Event
session =
    ccs "t1" call (some 500) 1_000
    ∷ frames "t1" true 1_200
    ∷ frames "t1" true 1_600
    ∷ frames "t1" false 2_700
    ∷ frames "t1" true 2_700
    ∷ []

two_pulls : pulls 0 new_trainer session ≡ 2
unfolding pulls step submit_action take_due_action create next_attempt Dict.get Dict.put Dict.remove
    String-discrete ℕ_discrete
two_pulls = refl

key_text : ledger_key "t1" call ≡ "t1:12:CALL:c1"
unfolding ledger_key
key_text = refl

held_slot : Dict.get awaiting.scheduler.active "d1" ≡ some 0
unfolding Dict.get String-discrete
held_slot = refl

waiting_table : Dict.get awaiting.pending "t1" ≡ some 0
unfolding Dict.get String-discrete
waiting_table = refl

pulls_bound_example :
    ((object (run awaiting session) 0).attempt ≡ 3 + pulls 0 awaiting session)
    × (3 + pulls 0 awaiting session ≤ max_attempts)
pulls_bound_example = pulls_bound 0 awaiting session (omega arith) (omega arith)

new_turn_settles_example :
    let u = mark_acked_if_pending awaiting "t1" "turnId:8" 6_500 in
    ((0 < (object awaiting 0).attempt)
      × ((object awaiting 0).turn_id ≢ some "turnId:8")
      × IsSettled awaiting "t1" 0 6_500 waiting_table "turnId:8" u)
    ⊎ ((((object awaiting 0).attempt ≡ 0) ⊎ ((object awaiting 0).turn_id ≡ some "turnId:8"))
        × (u ≡ awaiting))
new_turn_settles_example = new_turn_settles awaiting "t1" 0 6_500 waiting_table "turnId:8" held_slot

awaiting-AwaitsLastAck : AwaitsLastAck "d1" "t1" 0 6_100 awaiting
unfolding Dict.get String-discrete
awaiting-AwaitsLastAck = record {
  waits = refl;
  held = refl;
  owner = refl;
  exhausted = refl;
  sent_last = refl;
  certain = refl;
  pause_over = omega arith;
  allocated = λ tb q e. ground arith;
  alone = λ tb q n e. ground arith;
}

no_pending : NotPending "d1" new_trainer
unfolding Dict.get
no_pending = record { at = λ tb q e. absurd (cc e) }

no_active : Dict.get new_trainer.scheduler.active "d1" ≡ none
unfolding Dict.get
no_active = refl

unread_delay_blocks_device_example :
    let stuck = step new_trainer (ccs "t1" call none 1_000) in
    let later = run stuck (frames "t1" true 2_000 ∷ ccs "t2" call (some 0) 9_000 ∷ []) in
    (stuck.pending ≡ new_trainer.pending)
    × (stuck.ledger ≡ new_trainer.ledger)
    × (Dict.get later.scheduler.active "d1" ≡ some 0)
    × ((tb : String) (b : Action) (delay : Option ℕ) (at : ℕ)
        → b.device_id ≡ "d1"
        → (submit_action later tb b delay at).pending ≡ later.pending)
unread_delay_blocks_device_example =
    unread_delay_blocks_device "d1" "t1" call 1_000 new_trainer
      (frames "t1" true 2_000 ∷ ccs "t2" call (some 0) 9_000 ∷ []) no_active refl no_pending

exhausted_action_blocks_device_example :
    let dropped = step awaiting (frames "t1" true 6_100) in
    let later = run dropped (deadlines "t1" 0 3 7_500 ∷ ccs "t2" call (some 0) 9_000 ∷ []) in
    (dropped.ledger ≡ awaiting.ledger)
    × ((object dropped 0).status ≡ Actions.failed)
    × (Dict.get dropped.pending "t1" ≡ none)
    × (Dict.get later.scheduler.active "d1" ≡ some 0)
    × ((tb : String) (a : Action) (delay : Option ℕ) (at : ℕ)
        → a.device_id ≡ "d1"
        → (submit_action later tb a delay at).pending ≡ later.pending)
exhausted_action_blocks_device_example =
    exhausted_action_blocks_device "d1" "t1" 0 6_100 awaiting
      (deadlines "t1" 0 3 7_500 ∷ ccs "t2" call (some 0) 9_000 ∷ []) awaiting-AwaitsLastAck
