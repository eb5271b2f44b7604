-- ===== src/Bridge/Context.antt =====
-- The state of `BridgeContext`, and how a hint is finished and an action finalized. Times are
-- milliseconds; the events of `_emit` are left out.
use Prim.Native.String.{◌++◌ as str_append}
use poker_eye_v.Prelude.{
  ℕ, String, Bool, true, false, Option, none, some, List, [], ◌∷◌, string_key, nat_key,
}
use poker_eye_v.Prelude.Int.{ℤ, pos}
use poker_eye_v.Dict
use poker_eye_v.Dict.{Dict}
use poker_eye_v.Json.{Json, null, int, float, str, Fields, end, field}
use poker_eye_v.Actions.{Action, ActionScheduler}
use poker_eye_v.Hints.{HintWatchdog, observe_finish}
use poker_eye_v.Ledger.{Ledger, LedgerStatus, LedgerEntry}
use poker_eye_v.Ledger
use poker_eye_v.Street.Tables.{TableState, new_table}
use poker_eye_v.Trainer.{str_nat}

-- Where the thread of `_attempt_loop` stands: before its first request of an attempt, in the delay
-- before a send, or in the wait for the ACK.
pub data Phase : Type 0 where
  starting delayed awaiting_ack : Phase

-- The thread of one action, by the variables of its loop; `deadline` is the first delay while the
-- thread starts.
pub record AttemptLoop : Type 0 where
  pub phase : Phase
  pub attempt : ℕ
  pub deadline : ℕ
  pub options : Fields

-- `loops` are the running threads by the identity of their `Action`, and `next_ref` is the identity
-- of the next one.
pub record BridgeContext : Type 0 where
  pub device_id : String
  pub chip_scale : ℕ
  pub ack_timeout : ℕ
  pub ledger : Ledger
  pub scheduler : ActionScheduler
  pub watchdog : HintWatchdog
  pub tables : Dict String TableState
  pub seen_turns : Dict String String
  pub pending_finish_hint : Dict String Bool
  pub loops : Dict ℕ AttemptLoop
  pub next_ref : ℕ

-- The frame of a hint: the caller's, or the message that `_build_hint_frame` wraps.
pub data HintFrame : Type 0 where
  given built : Fields → HintFrame

-- The calls of the senders: `eye_sender` for a hint, with its table and with what it answered, and
-- for the finish of a hint, and `device_sender` for the action of an identity.
pub data Output : Type 0 where
  hint_sent : String → HintFrame → Bool → Output
  finish_sent : String → Fields → Output
  action_sent : ℕ → String → Fields → Output

abbrev pub text_or_null : Option String → Json
text_or_null none = null
text_or_null (some s) = str s

-- The keys that the messages of a hint and of its finish begin with.
abbrev message : String → ℕ → Fields → Fields
message cmd now rest = field "timestamp" (int (pos now)) (
    field "cmd" (str cmd) (
      field "direction" (str "ClientToServer")
        (field "data" (str "") (field "location" (str "TABLE") (field "seq" (int (pos 0)) rest)))))

-- The `msg` of `_build_hint_frame`, before `json_dumps`
unfoldable pub build_hint_frame : String → Option String → ℤ → ℕ → Fields
build_hint_frame table hand turn_time now = message "pb.RoundHintMultipleTableREQ" now (
    field "table_id" (str table)
      (field "hand_id" (text_or_null hand) (field "turn_time" (float turn_time) end)))

abbrev finish_message : String → ℕ → Fields
finish_message table now = message "pb.FinishRoundHintRSP" now (field "table_id" (str table) end)

-- self.table(table_id), with the table stored
unfoldable pub table : BridgeContext → String → TableState
table c t = elim (Dict.get c.tables t) [ none ↦ new_table c.device_id t | some s ↦ s ]

abbrev pub store : BridgeContext → String → TableState → BridgeContext
store c t s = record c { tables = Dict.put c.tables t s }

-- self._pending_finish_hint.get(table_id)
unfoldable pub is_pending : BridgeContext → String → Bool
is_pending c t = elim (Dict.get c.pending_finish_hint t) [ none ↦ false | some b ↦ b ]

-- The rest of `_finalize_hint`, for a table whose flag is set.
unfoldable pub finish_hint : BridgeContext → String → ℕ → BridgeContext × List Output
finish_hint c t now = (
  record c {
    pending_finish_hint = Dict.put c.pending_finish_hint t false;
    watchdog = (observe_finish c.watchdog t).0;
  },
  finish_sent t (finish_message t now) ∷ [],
)

unfoldable pub finalize_hint : BridgeContext → String → ℕ → BridgeContext × List Output
finalize_hint c t now = elim (is_pending c t) [ false ↦ (c, []) | true ↦ finish_hint c t now ]

colon : String → String → String
colon a b = str_append a (str_append ":" b)

-- f"{device_id}:{table_id}:{generation}:{command}:{correlation_id}"
unfoldable pub ledger_key : Action → String
unfolding colon
ledger_key a =
    colon a.device_id
      (colon a.table_id (colon (str_nat a.generation) (colon a.command a.correlation_id)))

abbrev pub ledger_entry : Action → LedgerStatus → String → ℕ → LedgerEntry
ledger_entry a status reason now = record {
  key = ledger_key a;
  status = status;
  action = some a.command;
  amount = some a.amount;
  ts = now;
  extra = field "reason" (str reason) end;
}

-- `_finalize`
unfoldable pub finalize :
    BridgeContext → Action → LedgerStatus → String → ℕ → BridgeContext × List Output
finalize c a status reason now =
    let recorded = record c {
      ledger = (Ledger.finalize c.ledger (ledger_entry a status reason now)).0;
    } in
    finalize_hint recorded a.table_id now
