-- ===== src/Hints.antt =====
-- core/hints.py: the watchdog of outstanding hints. Times are milliseconds of one clock.
pub mod Slots
pub mod Invariant
pub mod Lifecycle
mod Runs
use poker_eye_v.Prelude.{
  ℕ, ◌+◌, String, Bool, true, false, Option, none, some, List, [], ◌∷◌, ◌++◌, ltb, ◌==◌,
  if◌then◌else◌, ite, String-discrete, string_key,
}
use poker_eye_v.Dict
use poker_eye_v.Dict.{Dict}

pub data HintEvent : Type 0 where
  armed held canceled finished promoted timeout_once recycled : HintEvent

pub record HintTransition : Type 0 where
  pub event : HintEvent
  pub table_id : String
  pub hand_id : Option String

pub record OutstandingHint : Type 0 where
  pub table_id : String
  pub hand_id : Option String
  pub created_at : ℕ
  pub timeout_count : ℕ

pub record HintWatchdog : Type 0 where
  pub timeout : ℕ
  pub outstanding : Dict String OutstandingHint
  pub successor : Dict String OutstandingHint

-- `timeout` is not positive: the constructor raises.
unfoldable pub init : ℕ → Option HintWatchdog
init timeout =
    if timeout == 0
    then none
    else some (record { timeout = timeout; outstanding = []; successor = [] })

abbrev pub new_hint : String → Option String → ℕ → OutstandingHint
new_hint table hand now = record {
  table_id = table;
  hand_id = hand;
  created_at = now;
  timeout_count = 0;
}

abbrev pub transition : HintEvent → String → Option String → HintTransition
transition e table hand = record { event = e; table_id = table; hand_id = hand }

-- d.setdefault(k, v)
abbrev setdefault :
    Dict String OutstandingHint → String → OutstandingHint → Dict String OutstandingHint
setdefault d k v = elim (Dict.get d k) [ none ↦ Dict.put d k v | some w ↦ d ]

unfoldable pub observe_hint :
    HintWatchdog → String → Option String → ℕ → HintWatchdog × Bool × List HintTransition
observe_hint w table hand now = elim (Dict.get w.outstanding table) [
  | none ↦ (
    record w { outstanding = Dict.put w.outstanding table (new_hint table hand now) },
    true,
    transition armed table hand ∷ [],
  )
  | some cur ↦ (
    record w { successor = setdefault w.successor table (new_hint table hand now) },
    false,
    transition held table hand ∷ [],
  )
]

-- `hand_id is not None and cur.hand_id != hand_id`
abbrev pub is_other_hand : Option String → Option String → Bool
is_other_hand none cur = false
is_other_hand (some h) none = true
is_other_hand (some h) (some c) = ite (String-discrete c h) false true

unfoldable pub cancel : HintWatchdog → String → Option String → HintWatchdog × List HintTransition
cancel w table hand = elim (Dict.get w.outstanding table) [
  | none ↦ (record w { successor = Dict.remove w.successor table }, [])
  | some cur ↦ if is_other_hand hand cur.hand_id then (w, []) else (
    record w {
      outstanding = Dict.remove w.outstanding table;
      successor = Dict.remove w.successor table;
    },
    transition canceled table cur.hand_id ∷ [],
  )
]

-- The held successor of a table, if there is one, becomes its outstanding hint.
unfoldable pub promote : HintWatchdog → String → HintWatchdog × List HintTransition
promote w table = elim (Dict.get w.successor table) [
  | none ↦ (record w { successor = Dict.remove w.successor table }, [])
  | some succ ↦ (
    record w {
      outstanding = Dict.put w.outstanding table succ;
      successor = Dict.remove w.successor table;
    },
    transition promoted table succ.hand_id ∷ [],
  )
]

abbrev finish_transition : String → Option OutstandingHint → List HintTransition
finish_transition table none = []
finish_transition table (some cur) = transition finished table cur.hand_id ∷ []

unfoldable pub observe_finish : HintWatchdog → String → HintWatchdog × List HintTransition
unfolding promote
observe_finish w table =
    let (w', ts) = promote (record w { outstanding = Dict.remove w.outstanding table }) table in
    (w', finish_transition table (Dict.get w.outstanding table) ++ ts)

-- One round of the loop of `poll`, for a table with the hint `cur`.
unfoldable pub poll_hint :
    HintWatchdog → ℕ → String → OutstandingHint → HintWatchdog × List HintTransition
unfolding promote
poll_hint w now table cur =
    if ltb now (cur.created_at + w.timeout)
    then (w, [])
    else if cur.timeout_count + 1 == 1
    then (
      record w { outstanding = Dict.put w.outstanding table (record cur { timeout_count = 1 }) },
      transition timeout_once table cur.hand_id ∷ [],
    )
    else (let (w', ts) =
          promote (record w { outstanding = Dict.remove w.outstanding table }) table in
        (w', transition recycled table cur.hand_id ∷ ts))

-- `none` is the `KeyError` of a table that is not outstanding.
unfoldable pub poll_tables :
    HintWatchdog → ℕ → List String → Option (HintWatchdog × List HintTransition)
poll_tables w now [] = some (w, [])
poll_tables w now (table ∷ tables) = elim (Dict.get w.outstanding table) [
  | none ↦ none
  | some cur ↦
      let (w', ts) = poll_hint w now table cur in
      elim (poll_tables w' now tables) [ none ↦ none | some (w'', us) ↦ some (w'', ts ++ us) ]
]

unfoldable pub poll : HintWatchdog → ℕ → Option (HintWatchdog × List HintTransition)
poll w now = poll_tables w now (Dict.keys w.outstanding)
