-- ===== src/Trainer.antt =====
-- core/trainer.py: the actions that wait to be pulled by a table's frames. Times are milliseconds of
-- the monotonic clock.
pub mod Events
pub mod Attempts
pub mod Settling
pub mod Stranded
pub mod Unread
mod Runs
use Prim.Native.String.{◌++◌ as str_append}
use poker_eye_v.Prelude.{
  ℕ, zero, suc, ◌+◌, ◌/◌, ◌%◌, String, Bool, true, false, not, ◌||◌, Option, none, some, leb, ltb,
  ◌==◌, if◌then◌else◌, ite, ℕ_discrete, String-discrete, string_key,
}
use poker_eye_v.Prelude.Int.{ℤ}
use poker_eye_v.Dict
use poker_eye_v.Dict.{Dict}
use poker_eye_v.Json.{Fields, end, field, str}
use poker_eye_v.Ledger.{Ledger, LedgerEntry, LedgerStatus, success, failed, finalize}
use poker_eye_v.Actions
use poker_eye_v.Actions.{
  Action, ActionScheduler, write, create, next_attempt, acknowledge, finish_failed, has_active,
  max_attempts,
}

-- The part of `Trainer` that the actions go through. `next_ref` is the identity of the next `Action`.
pub record Trainer : Type 0 where
  pub scheduler : ActionScheduler
  pub pending : Dict String ℕ
  pub pending_due : Dict String ℕ
  pub ledger : Ledger
  pub next_ref : ℕ

abbrev pub object : Trainer → ℕ → Action
object t r = t.scheduler.objects r

digit : ℕ → String
digit n =
    if n == 0
    then "0"
    else if n == 1
    then "1"
    else if n == 2
    then "2"
    else if n == 3
    then "3"
    else if n == 4
    then "4"
    else if n == 5
    then "5"
    else if n == 6
    then "6"
    else if n == 7
    then "7"
    else if n == 8
    then "8"
    else "9"

decimal : ℕ → ℕ → String → String
unfolding digit
decimal zero n rest = rest
decimal (suc fuel) n rest =
    let more = decimal fuel (n / 10) (str_append (digit (n % 10)) rest) in
    if n / 10 == 0 then str_append (digit (n % 10)) rest else more

-- str(n): a number has fewer digits than `suc n`.
pub str_nat : ℕ → String
unfolding decimal
str_nat n = decimal (suc n) n ""

colon : String → String → String
colon a b = str_append a (str_append ":" b)

-- f"{table_id}:{action.generation}:{action.command}:{action.correlation_id}"
unfoldable pub ledger_key : String → Action → String
unfolding colon str_nat
ledger_key table a = colon table (colon (str_nat a.generation) (colon a.command a.correlation_id))

abbrev pub ledger_entry : String → Action → LedgerStatus → Fields → ℕ → LedgerEntry
ledger_entry table a status extra now = record {
  key = ledger_key table a;
  status = status;
  action = some a.command;
  amount = some a.amount;
  ts = now;
  extra = extra;
}

-- {"evidence": evidence}, with the evidence f"turn-{tid}" of a new turn
abbrev pub turn_evidence : String → Fields
turn_evidence tid = field "evidence" (str (str_append "turn-" tid)) end

abbrev pub exhausted_reason : Fields
exhausted_reason = field "reason" (str "3 attempts exhausted without ACK") end

-- self.pending.pop(table_id, None); self.pending_due.pop(table_id, None)
abbrev pub drop_pending : Trainer → String → Trainer
drop_pending t table = record t {
  pending = Dict.remove t.pending table;
  pending_due = Dict.remove t.pending_due table;
}

unfoldable pub enqueue : Trainer → String → ℕ → ℕ → ℕ → Trainer
enqueue t table r delay now = record t {
  pending = Dict.put t.pending table r;
  pending_due = Dict.put t.pending_due table (now + delay);
}

abbrev pub get_or : Option ℕ → ℕ → ℕ
get_or none d = d
get_or (some n) d = n

-- What `_take_due_action` does with the answer of `next_attempt`.
unfoldable pub take_scheduled :
    Trainer → String → ℕ → ActionScheduler × Option (ℕ × ℕ) → Trainer × Option ℕ
take_scheduled t table now (s, none) = (drop_pending (record t { scheduler = s }) table, none)
take_scheduled t table now (s, some (r, extra)) = (
  record t {
    scheduler = s;
    pending_due = Dict.put t.pending_due table (now + (if extra == 0 then 1000 else extra));
  },
  some r,
)

unfoldable pub take_due_action : Trainer → String → Bool → ℕ → Trainer × Option ℕ
unfolding take_scheduled
take_due_action t table false now = (t, none)
take_due_action t table true now = elim (Dict.get t.pending table) [
  | none ↦ (t, none)
  | some r ↦
      if ltb now (get_or (Dict.get t.pending_due table) 0)
      then (t, none)
      else take_scheduled t table now (next_attempt t.scheduler (object t r).device_id)
]

-- What `_confirm_action` does with the answer of `acknowledge`.
unfoldable pub confirm_acknowledged :
    Trainer → String → Action → Fields → ℕ → ActionScheduler × Bool → Trainer
confirm_acknowledged t table a evidence now (s, false) = record t { scheduler = s }
confirm_acknowledged t table a evidence now (s, true) =
    record (drop_pending (record t { scheduler = s }) table) {
      ledger = (finalize t.ledger (ledger_entry table a success evidence now)).0;
    }

unfoldable pub confirm_action : Trainer → String → Action → Fields → ℕ → Trainer
unfolding confirm_acknowledged
confirm_action t table a evidence now =
    confirm_acknowledged t table a evidence now
      (acknowledge t.scheduler a.device_id a.correlation_id a.generation)

-- `action.turn_id is not None and tid == action.turn_id`
abbrev pub is_same_turn : Option String → String → Bool
is_same_turn none tid = false
is_same_turn (some old) tid = ite (String-discrete tid old) true false

unfoldable pub mark_acked_if_pending : Trainer → String → String → ℕ → Trainer
unfolding confirm_action
mark_acked_if_pending t table tid now = elim (Dict.get t.pending table) [
  | none ↦ t
  | some r ↦
      if ltb (object t r).attempt 1 || is_same_turn (object t r).turn_id tid
      then t
      else confirm_action t table (object t r) (turn_evidence tid) now
]

-- The end of `_ack_deadline`, for an action whose attempts are used up.
unfoldable pub fail_action : Trainer → String → ℕ → ℕ → Trainer
fail_action t table r now = record (drop_pending t table) {
  scheduler = (finish_failed t.scheduler (object t r).device_id).0;
  ledger = (finalize t.ledger (ledger_entry table (object t r) failed exhausted_reason now)).0;
}

-- `cur is not action or cur.attempt != attempt`
abbrev pub is_current : Trainer → Option ℕ → ℕ → ℕ → Bool
is_current t none r attempt = false
is_current t (some q) r attempt = if q == r then (object t q).attempt == attempt else false

-- `_ack_deadline` when it wakes up, for the object `r` and the attempt that it was started for.
unfoldable pub ack_deadline : Trainer → String → ℕ → ℕ → ℕ → Trainer
unfolding fail_action
ack_deadline t table r attempt now =
    if not (has_active t.scheduler (object t r).device_id)
    then t
    else if not (is_current t (Dict.get t.pending table) r attempt)
    then t
    else if leb max_attempts (object t r).attempt
    then fail_action t table r now
    else t

-- The end of `_on_cc`: the new action is enqueued if its device has none in flight and its delay
-- could be computed. The delay is none where `int` or `float` of a value for it raises, which is
-- after the action has taken its device's slot.
unfoldable pub submit_created : Trainer → String → Option ℕ → ℕ → ActionScheduler × Bool → Trainer
unfolding enqueue
submit_created t table delay now (s, false) = record t { scheduler = s }
submit_created t table none now (s, true) = record t { scheduler = s }
submit_created t table (some delay) now (s, true) =
    enqueue (record t { scheduler = s }) table t.next_ref delay now

unfoldable pub submit_action : Trainer → String → Action → Option ℕ → ℕ → Trainer
unfolding submit_created
submit_action t table a delay now =
    let built = record t.scheduler { objects = write t.scheduler.objects t.next_ref a } in
    record (submit_created t table delay now (create built t.next_ref)) {
      next_ref = suc t.next_ref;
    }
