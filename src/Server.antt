-- ===== src/Server.antt =====
-- core/trainer.py: the handler of a table's frames and the way of a CC to an action, around the
-- actions of `Trainer`. A frame is given by what it decodes to.
pub mod Unfed
pub mod Unpaid
pub mod Refinement
pub mod Routing
pub mod Responses
pub mod Requests
mod Runs
use Prim.Native.String.{◌++◌ as str_append}
use poker_eye_v.Prelude.{
  ℕ, String, Bool, true, false, ◌&&◌, not, Option, none, some, List, [], ◌∷◌, if◌then◌else◌, ite,
  String-discrete, string_key,
}
use poker_eye_v.Prelude.Int.{ℤ}
use poker_eye_v.Dict
use poker_eye_v.Dict.{Dict}
use poker_eye_v.Json.{Json, null, str, obj, Fields, end, field, get, truthy, is_empty}
use poker_eye_v.Actions.{Action, pending, write, create}
use poker_eye_v.Street.Tables.{TableState, new_table}
use poker_eye_v.Trainer
use poker_eye_v.Trainer.{Trainer, take_due_action, mark_acked_if_pending, submit_action}
use poker_eye_v.Policy.{ActionDecision, decide_cc_action}
use poker_eye_v.Policy.Resolve.{ResolvedAction}

-- What Python's library answers: str(x), float(text), json.loads, and the SHA-256 of a json text.
pub record Python : Type 0 where
  pub text_of : Json → String
  pub text_float : String → Option ℤ
  pub loads : String → Option Json
  pub digest : Fields → String

pub record Server : Type 0 where
  pub trainer : Trainer
  pub tables : Dict String TableState
  pub turn_ids : Dict String String
  pub devices : Dict String String
  pub hero_name : String
  pub chip_scale : ℕ

-- self._table(table_id), with the table stored
abbrev pub table_of : Server → String → TableState
table_of s table = elim (Dict.get s.tables table) [ none ↦ new_table "device" table | some t ↦ t ]

abbrev pub store : Server → String → TableState → Server
store s table t = record s { tables = Dict.put s.tables table t }

-- A value that is not None and not ""
abbrev present : Option Json → Option Json
present (some null) = none
present (some (str s)) = if is_empty s then none else some (str s)
present o = o

abbrev value_or_null : Option Json → Json
value_or_null none = null
value_or_null (some x) = x

-- `data.get(k) or other`
abbrev or_value : Option Json → Json → Json
or_value none other = other
or_value (some x) other = if truthy x then x else other

abbrev stable : Fields → Fields
stable turn =
    field "whoseTurn" (or_value (get turn "whoseTurn") (value_or_null (get turn "userName"))) (
      field "turnTime" (value_or_null (get turn "turnTime")) (
        field "callAmount" (value_or_null (get turn "callAmount"))
          (field "userTurnOptions" (or_value (get turn "userTurnOptions") (obj end)) end)))

-- `turn_identity` of core/state.py: the first of the keys that has a value, or a digest of the turn.
abbrev pub is_some : Option ℕ → Bool
is_some none = false
is_some (some n) = true

module _ (python : Python) where
  abbrev identity_or : Fields → String → String → String
  identity_or turn key other = elim (present (get turn key)) [
    | none ↦ other
    | some v ↦ str_append key (str_append ":" (python.text_of v))
  ]

  unfoldable pub turn_identity : Fields → String
  turn_identity turn = identity_or turn "initTimeStamp" (
      identity_or turn "turnId" (
        identity_or turn "turnID"
          (identity_or turn "actionId" (str_append "shape:" (python.digest (stable turn))))))

  abbrev parsed : Option Json → Fields
  parsed (some (obj d)) = d
  parsed _ = end

  -- The data of a frame's body, which may be a json text.
  abbrev pub turn_data : Json → Fields
  turn_data (obj body) = elim (get body "data") [
    | none ↦ body
    | some x ↦ elim x [ str t ↦ parsed (python.loads t) | obj d ↦ d | _ ↦ end ]
  ]
  turn_data _ = end

  abbrev texts_eq : String → String → Bool
  texts_eq a b = ite (String-discrete a b) true false

  abbrev is_text : Option Json → String → Bool
  is_text (some (str s)) t = texts_eq s t
  is_text _ t = false

  -- The frame's `p`, if it is a `game.user_turn` that comes in.
  unfoldable pub turn_of : Fields → String → Option Fields
  turn_of decoded direction = elim (get decoded "p") [
    | some x ↦ elim x [
      | obj p ↦
          if is_text (get p "c") "game.user_turn" && texts_eq direction "in"
          then some (turn_data (value_or_null (get p "p")))
          else none
      | _ ↦ none
    ]
    | none ↦ none
  ]

  unfoldable pub is_hero : Server → Fields → Bool
  is_hero s turn =
      let whose =
        python.text_of
          (or_value (get turn "whoseTurn") (or_value (get turn "userName") (str ""))) in
      not (is_empty s.hero_name) && texts_eq whose s.hero_name

  abbrev options_of : Option Json → Fields
  options_of (some (obj d)) = d
  options_of _ = end

  -- The hero's turn gives the table its options; the hint that is asked for then is `Requests`.
  abbrev pub hero_turn : TableState → Fields → TableState
  hero_turn t turn = record t {
    user_turn_options = options_of (get turn "userTurnOptions");
    source = some "coin.turn";
  }

  unfoldable pub observe_turn : Server → String → Fields → ℕ → Server
  unfolding turn_identity is_hero
  observe_turn s table turn now =
      let tid = turn_identity turn in
      let s' = record s {
        trainer = mark_acked_if_pending s.trainer table tid now;
        turn_ids = Dict.put s.turn_ids table tid;
      } in
      if is_hero s turn then store s' table (hero_turn (table_of s table) turn) else s'

  unfoldable pub observe_frame : Server → String → Fields → String → ℕ → Server
  unfolding observe_turn turn_of
  observe_frame s table decoded direction now = elim (turn_of decoded direction) [
    | none ↦ s
    | some turn ↦ observe_turn s table turn now
  ]

  -- A frame without a decoded payload is not observed, nor is an empty one.
  unfoldable pub observe : Server → String → Option Fields → String → ℕ → Server
  unfolding observe_frame
  observe s table none direction now = s
  observe s table (some end) direction now = s
  observe s table (some (field k v d)) direction now =
      observe_frame s table (field k v d) direction now

  abbrev pub is_binary : Option Fields → Bool
  is_binary none = false
  is_binary (some d) = true

  -- `_ws_handler`: `decoded` is what the payload decodes to, and the result is the action that the
  -- response carries, or none for a response that forwards the frame.
  unfoldable pub ws_handler : Server → String → Option Fields → String → ℕ → Server × Option ℕ
  unfolding observe
  ws_handler s table decoded direction now =
      let seen = observe (store s table (table_of s table)) table decoded direction now in
      let (t, due) = take_due_action seen.trainer table (is_binary decoded) now in
      (record seen { trainer = t }, due)

  abbrev device_of : Server → String → String
  device_of s table = elim (Dict.get s.devices table) [
    | none ↦ str_append "device:" table
    | some d ↦ d
  ]

  -- The `Action` that `_on_cc` builds; `correlation` is its random id.
  abbrev pub new_action : Server → String → String → ResolvedAction → Action
  new_action s table correlation a = record {
    device_id = device_of s table;
    table_id = table;
    generation = (table_of s table).generation;
    command = a.name;
    amount = a.bet_amount;
    correlation_id = correlation;
    attempt = 0;
    status = pending;
    uncertain = false;
    turn_id = Dict.get s.turn_ids table;
  }

  unfoldable pub decision : Server → String → Fields → ActionDecision
  decision s table msg =
      let t = table_of s table in
      decide_cc_action python.text_float msg t.street_state 1 (some t.user_turn_options)
        s.chip_scale

  abbrev pub is_free : Server → String → Bool
  is_free s device = elim (Dict.get s.trainer.scheduler.active device) [
    | none ↦ true
    | some r ↦ false
  ]

  -- `_on_cc`; `delay` is what `HumanDelay.compute` returns, and none where `int` or `float` of a
  -- value for it raises.
  unfoldable pub on_cc : Server → String → Fields → String → Option ℕ → ℕ → Server
  unfolding decision
  on_cc s table msg correlation delay now =
      let s' = store s table (table_of s table) in
      elim (decision s table msg).action [
        | none ↦ s'
        | some a ↦
            let built = new_action s table correlation a in
            let sent = record s' { trainer = submit_action s.trainer table built delay now } in
            if is_free s built.device_id && is_some delay
            then store sent table (record (table_of s table) { source = some "eye.cc" })
            else sent
      ]

abbrev is_coin_turn : Option String → Bool
is_coin_turn none = false
is_coin_turn (some t) = ite (String-discrete t "coin.turn") true false

-- The first table at a turn of the hero
unfoldable pub turn_table : Dict String TableState → Option String
turn_table [] = none
turn_table ((k, t) ∷ tables) =
    let rest = turn_table tables in if is_coin_turn t.source then some k else rest

abbrev first_table : Dict String TableState → Option String
first_table [] = none
first_table ((k, t) ∷ tables) = some k

-- `_cc_target_table`: that table, or else the first one
unfoldable pub cc_target_table : Server → Option String
unfolding turn_table
cc_target_table s = elim (turn_table s.tables) [ none ↦ first_table s.tables | some k ↦ some k ]

-- `_on_eye_frame`, for a CC that parses
unfoldable pub on_eye_frame : Python → Server → Fields → String → Option ℕ → ℕ → Server
unfolding cc_target_table on_cc
on_eye_frame python s msg correlation delay now = elim (cc_target_table s) [
  | none ↦ s
  | some table ↦ on_cc python s table msg correlation delay now
]

-- What reaches the server.
pub data Input : Type 0 where
  frame : String → Option Fields → String → ℕ → Input
  hint : Fields → String → Option ℕ → ℕ → Input

unfoldable pub step : Python → Server → Input → Server
step python s (frame table decoded direction now) =
    (ws_handler python s table decoded direction now).0
step python s (hint msg correlation delay now) = on_eye_frame python s msg correlation delay now

unfoldable pub run : Python → Server → List Input → Server
run python s [] = s
run python s (i ∷ is) = run python (step python s i) is
