-- ===== src/Server/Routing/Runs.antt =====
-- Concrete messages of two devices, and the theorem at a concrete input.
use poker_eye_v.Prelude.{
  arith, ◌≡◌, ◌≢◌, refl, String, String-discrete, false, none, some, List, [], ◌∷◌, string_key,
}
use text.Mathlib.TextEquality.{eq_iff}
use poker_eye_v.Dict
use poker_eye_v.Json.{end}
use poker_eye_v.Actions.{Action, pending}
use poker_eye_v.Prelude.Int.{pos}
use poker_eye_v.Ledger.{clean}
use poker_eye_v.Server.{Python, Server}
use poker_eye_v.Server.Routing.{on_device_connect, on_callback_message, Event, message, cc, run}
use poker_eye_v.Server.Routing.Owners.{owner_kept}

abbrev python : Python
python = record { text_of = λ x. ""; text_float = λ s. none; loads = λ s. none; digest = λ d. "" }

abbrev no_action : Action
no_action = record {
  device_id = "";
  table_id = "";
  generation = 0;
  command = "";
  amount = pos 0;
  correlation_id = "";
  attempt = 0;
  status = pending;
  uncertain = false;
  turn_id = none;
}

abbrev started : Server
started = record {
  trainer = record {
    scheduler = record { objects = λ r. no_action; active = [] };
    pending = [];
    pending_due = [];
    ledger = record { file = record { lines = []; tail = clean }; keys = [] };
    next_ref = 0;
  };
  tables = [];
  turn_ids = [];
  devices = [];
  hero_name = "";
  chip_scale = 100;
}

abbrev owned : Server
owned = on_device_connect started "d1" "t1"

abbrev events : List Event
events =
    message "d2" "t1" none "in" 5
    ∷ message "d2" "t2" none "in" 6
    ∷ cc end "c1" (some 100) 7
    ∷ message "d1" "t2" none "in" 8
    ∷ []

owned_devices : Dict.get owned.devices "t1" ≡ some "d1"
unfolding on_device_connect String-discrete Dict.get Dict.put
owned_devices = refl

devices_differ : ◌≢◌ {A = String} "d1" "d2"
devices_differ = ground (arith, eq_iff "d1" "d2")

owner_kept_example :
    (Dict.get (run python owned events).devices "t1" ≡ some "d1")
    × (on_callback_message python (run python owned events) "d2" "t1" none "in" 9
        ≡ (run python owned events, none))
owner_kept_example =
    owner_kept python owned "t1" "d1" "d2" events none "in" 9 owned_devices devices_differ
