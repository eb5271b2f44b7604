-- ===== src/Server/Responses/Runs.antt =====
-- Concrete URLs and a due action, and the theorem at a concrete input.
use poker_eye_v.Prelude.{
  ℕ, ◌≡◌, refl, String, String-discrete, false, Option, none, some, List, [], ◌∷◌, length, arith,
  string_key, ℕ_discrete,
}
use poker_eye_v.Prelude.Int.{ℤ, pos}
use poker_eye_v.Dict
use poker_eye_v.Json.{str, end}
use poker_eye_v.Actions.{Action, pending, next_attempt}
use poker_eye_v.Ledger.{clean}
use poker_eye_v.CoinWire.Octets.{Bytes, is_utf8}
use poker_eye_v.CoinWire.Packets.{decode_packet}
use poker_eye_v.CoinWire.Requests.{decimal, action_data, received}
use poker_eye_v.Trainer.{object, take_due_action}
use poker_eye_v.Server.{Python, Server, ws_handler}
use poker_eye_v.Server.Responses.{
  coin_code, digits, behind, room_word, number_after, room_at, room_from_url, schedule_send,
  ws_message,
}
use poker_eye_v.Server.Responses.Sent.{IsSendable, due_action_sent}

-- "w/room=x/room/42?a"
abbrev url : List ℕ
url =
    119 ∷ 47 ∷ 114 ∷ 111 ∷ 111 ∷ 109 ∷ 61 ∷ 120 ∷ 47 ∷ 114 ∷ 111 ∷ 111 ∷ 109 ∷ 47 ∷ 52 ∷ 50 ∷ 63
    ∷ 97 ∷ []

url_room : room_from_url url ≡ 42
unfolding room_from_url room_at behind number_after digits
url_room = refl

no_room : room_from_url room_word ≡ 1
unfolding room_from_url room_at behind number_after
no_room = refl

abbrev python : Python
python = record { text_of = λ x. ""; text_float = λ s. none; loads = λ s. none; digest = λ d. "" }

abbrev fold : Action
fold = record {
  device_id = "d1";
  table_id = "t1";
  generation = 1;
  command = "FOLD";
  amount = pos 0;
  correlation_id = "c1";
  attempt = 0;
  status = pending;
  uncertain = false;
  turn_id = none;
}

-- The fold is due at 100.
abbrev server : Server
server = record {
  trainer = record {
    scheduler = record { objects = λ r. fold; active = ("d1", 0) ∷ [] };
    pending = ("t1", 0) ∷ [];
    pending_due = ("t1", 100) ∷ [];
    ledger = record { file = record { lines = []; tail = clean }; keys = [] };
    next_ref = 1;
  };
  tables = [];
  turn_ids = [];
  devices = [];
  hero_name = "";
  chip_scale = 100;
}

abbrev amount_text : ℤ → Option Bytes
amount_text n = none

abbrev base64 : Bytes → String
base64 raw = "payload"

abbrev handled : Server
handled = (ws_handler python server "t1" (some end) "in" 150).0

fold_due : ws_handler python server "t1" (some end) "in" 150 ≡ (handled, some 0)
unfolding ws_handler take_due_action Dict.get String-discrete next_attempt
fold_due = refl

fold_length : length (action_data (coin_code (object handled.trainer 0).command) none) ≡ 30
unfolding action_data decimal String-discrete ws_handler take_due_action Dict.get next_attempt
    ℕ_discrete
fold_length = refl

fold-IsSendable : IsSendable amount_text base64 (object handled.trainer 0)
unfolding is_utf8 action_data decimal String-discrete ws_handler take_due_action Dict.get
    next_attempt ℕ_discrete
fold-IsSendable = record { utf8 = refl; short = omega (arith, fold_length) }

due_action_sent_example :
    (raw : Bytes) × ((ws_message amount_text base64 python server "t1"
          (str "m1")
          url
          (some end)
          "in"
          150
        ≡ (
          handled,
          some (schedule_send (str "m1") (base64 raw) (object handled.trainer 0).correlation_id),
        ))
      × (decode_packet (λ bs. none) raw
          ≡ some (
              received
                (pos (room_from_url url))
                (action_data (coin_code (object handled.trainer 0).command) none))))
due_action_sent_example =
    due_action_sent amount_text base64 python (λ bs. none) server handled "t1" (str "m1") url
      (some end) "in" 150 0 fold_due (omega (arith, url_room)) fold-IsSendable
