-- ===== src/Bridge/Turns.antt =====
-- `on_hero_turn` and `poll` of core/bridge.py: a turn asks EYE for a hint.
use poker_eye_v.Prelude.{
  ℕ, String, Bool, true, false, Option, none, some, List, [], ◌∷◌, ite, String-discrete, string_key,
  if◌then◌else◌,
}
use poker_eye_v.Prelude.Int.{ℤ}
use poker_eye_v.Dict
use poker_eye_v.Json.{Fields, is_empty}
use poker_eye_v.Hints
use poker_eye_v.Hints.{observe_hint, cancel}
use poker_eye_v.Street.Tables.{TableState, new_hand}
use poker_eye_v.Server.{Python, turn_identity}
use poker_eye_v.Bridge.Context.{
  BridgeContext, HintFrame, given, built, Output, hint_sent, build_hint_frame, table, store,
}

-- The arguments of `on_hero_turn` besides the table.
pub record HeroTurn : Type 0 where
  pub turn : Fields
  pub hand_id : Option String
  pub user_turn_options : Fields
  pub turn_time : ℤ
  pub hint_frame : Option Fields

-- The table at another hand than it was at
abbrev is_new_hand : Option String → String → Bool
is_new_hand none hand = true
is_new_hand (some h) hand = ite (String-discrete h hand) false true

abbrev of_hand : TableState → Option String → TableState
of_hand s none = s
of_hand s (some hand) =
    if is_empty hand then s else if is_new_hand s.hand_id hand then new_hand s hand else s

-- The table after the turn: its options are the turn's, also where the hand is new.
unfoldable pub turn_table : TableState → HeroTurn → TableState
turn_table s t = record (of_hand s t.hand_id) {
  user_turn_options = t.user_turn_options;
  source = some "coin.turn";
}

-- hint_frame or self._build_hint_frame(...)
abbrev frame_of : Option Fields → Fields → HintFrame
frame_of (some (Fields.field k v d)) message = given (Fields.field k v d)
frame_of _ message = built message

-- The hint is armed in the watchdog, and `sent` is what `eye_sender` answers.
unfoldable pub request_hint :
    BridgeContext → String → HeroTurn → String → ℕ → Bool → BridgeContext × Bool × List Output
request_hint c t h tid now sent =
    let out =
      hint_sent t (frame_of h.hint_frame (build_hint_frame t h.hand_id h.turn_time now)) sent in
    elim sent [
      | false ↦ (
        record c {
          watchdog = (cancel c.watchdog t h.hand_id).0;
          pending_finish_hint = Dict.remove c.pending_finish_hint t;
        },
        false,
        out ∷ [],
      )
      | true ↦ (
        record c {
          seen_turns = Dict.put c.seen_turns t tid;
          pending_finish_hint = Dict.put c.pending_finish_hint t true;
        },
        true,
        out ∷ [],
      )
    ]

-- The turn has not been seen before at its table.
unfoldable pub new_turn :
    BridgeContext → String → HeroTurn → String → ℕ → Bool → BridgeContext × Bool × List Output
new_turn c t h tid now sent =
    let turned = store c t (turn_table (table c t) h) in
    let (w, accepted, transitions) = observe_hint c.watchdog t h.hand_id now in
    let watched = record turned { watchdog = w } in
    elim accepted [ false ↦ (watched, false, []) | true ↦ request_hint watched t h tid now sent ]

abbrev pub is_seen : Option String → String → Bool
is_seen none tid = false
is_seen (some last) tid = ite (String-discrete last tid) true false

unfoldable pub on_hero_turn :
    Python → BridgeContext → String → HeroTurn → ℕ → Bool → BridgeContext × Bool × List Output
on_hero_turn python c t h now sent =
    let tid = turn_identity python h.turn in
    elim (is_seen (Dict.get c.seen_turns t) tid) [
      | true ↦ (store c t (table c t), false, [])
      | false ↦ new_turn c t h tid now sent
    ]

-- `none` is the `KeyError` of the watchdog's `poll`.
unfoldable pub poll : BridgeContext → ℕ → Option BridgeContext
poll c now = elim (Hints.poll c.watchdog now) [
  | none ↦ none
  | some (w, transitions) ↦ some (record c { watchdog = w })
]
