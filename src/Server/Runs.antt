-- ===== src/Server/Runs.antt =====
-- Concrete frames of a server, and the theorems at concrete inputs.
use poker_eye_v.Prelude.{
  ◌≡◌, ◌≢◌, ◌⊎◌, refl, String, String-discrete, true, false, none, some, [], ◌∷◌, string_key,
}
use poker_eye_v.Prelude.Int.{pos}
use poker_eye_v.Dict
use poker_eye_v.Json.{Json, Fields, end, field, str, int, obj, get, truthy}
use poker_eye_v.Actions.{Action, acked}
use poker_eye_v.Ledger.{clean}
use poker_eye_v.Policy.{is_paid}
use poker_eye_v.Policy.Words.{cc_word, cc_type, classify, same_word}
use poker_eye_v.Trainer.{object}
use poker_eye_v.Trainer.Events
use poker_eye_v.Server.{Python, Server, turn_of, ws_handler, on_cc, frame, run}
use poker_eye_v.Server.Unfed.{IsUnfed}
use poker_eye_v.Server.Unpaid.{paid_cc_checks}
use poker_eye_v.Server.Refinement.{frame_events, ws_handler-frame_events}

text_of_json : Json → String
text_of_json (str s) = s
text_of_json x = ""

abbrev python : Python
python = record {
  text_of = text_of_json;
  text_float = λ s. none;
  loads = λ s. none;
  digest = λ d. "";
}

abbrev old_action : Action
old_action = record {
  device_id = "d1";
  table_id = "t1";
  generation = 1;
  command = "CHECK";
  amount = pos 0;
  correlation_id = "c0";
  attempt = 0;
  status = acked;
  uncertain = false;
  turn_id = none;
}

abbrev new_server : Server
new_server = record {
  trainer = record {
    scheduler = record { objects = λ r. old_action; active = [] };
    pending = [];
    pending_due = [];
    ledger = record { file = record { lines = []; tail = clean }; keys = [] };
    next_ref = 0;
  };
  tables = [];
  turn_ids = [];
  devices = [];
  hero_name = "hero";
  chip_scale = 100;
}

-- The hero's turn, on which Coin offers a call of 2 chips or a check.
abbrev turn : Fields
turn =
    field "p"
      (obj (
        field "c" (str "game.user_turn") (
          field "p"
            (obj (
              field "data"
                (obj (
                  field "turnId" (str "7") (
                    field "whoseTurn" (str "hero")
                      (field "userTurnOptions" (obj (field "3" (obj end) end)) end))))
                end))
            end)))
      end

abbrev raise_message : Fields
raise_message = field "type" (str "RAISE") (field "amount" (int (pos 600)) end)

is_turn : turn_of python turn "in" ≢ none
unfolding turn_of get String-discrete
is_turn e = cc e

raise_is_paid : is_paid (cc_type raise_message) ≡ true
unfolding cc_type cc_word classify same_word get truthy String-discrete
raise_is_paid = refl

new_server-IsUnfed : IsUnfed new_server
unfolding Dict.get
new_server-IsUnfed = record { at = λ k t e. absurd (cc e) }

paid_cc_checks_example :
    let u = run python new_server (frame "t1" (some turn) "in" 1_000 ∷ []) in
    let after = on_cc python u "t1" raise_message "c1" (some 300) 1_200 in
    (after.trainer ≡ u.trainer) ⊎ ((object after.trainer u.trainer.next_ref).command ≡ "CHECK")
paid_cc_checks_example =
    paid_cc_checks python new_server (frame "t1" (some turn) "in" 1_000 ∷ []) "t1" raise_message
      "c1" (some 300) 1_200 new_server-IsUnfed raise_is_paid

ws_handler-frame_events_example :
    (ws_handler python new_server "t1" (some turn) "in" 1_000).0.trainer
    ≡ Events.run new_server.trainer (frame_events python "t1" (some turn) "in" 1_000)
ws_handler-frame_events_example =
    ws_handler-frame_events python "t1" new_server (some turn) "in" 1_000
