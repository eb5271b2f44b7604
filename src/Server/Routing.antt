-- ===== src/Server/Routing.antt =====
-- The routes of core/trainer.py: which device a table's frames come from, by the callback channel
-- (`_on_callback_message`) or by the trainer's own endpoint (`_on_device_connect`).
pub mod Owners
mod Runs
use poker_eye_v.Prelude.{
  ℕ, String, Bool, true, false, not, ◌||◌, Option, none, some, List, [], ◌∷◌, if◌then◌else◌, ite,
  String-discrete, string_key,
}
use poker_eye_v.Dict
use poker_eye_v.Json.{Fields, is_empty}
use poker_eye_v.Server.{Python, Server, ws_handler, on_eye_frame}

-- self.table_devices[table_id] = device_id
abbrev pub own : Server → String → String → Server
own s table device = record s { devices = Dict.put s.devices table device }

-- The state's part of `_on_device_connect`
unfoldable pub on_device_connect : Server → String → String → Server
on_device_connect s device table = own s table device

-- self.table_devices.get(table_id) not in (None, device_id)
unfoldable pub is_foreign : Server → String → String → Bool
is_foreign s device table = elim (Dict.get s.devices table) [
  | none ↦ false
  | some d ↦ not (ite (String-discrete d device) true false)
]

module _ (python : Python) where
  -- `_on_callback_message`; the result is that of `_ws_handler`, or none for a forward.
  unfoldable pub on_callback_message :
      Server → String → String → Option Fields → String → ℕ → Server × Option ℕ
  on_callback_message s device table decoded direction now =
      if is_empty table || is_foreign s device table
      then (s, none)
      else ws_handler python (own s table device) table decoded direction now

-- What reaches the trainer where its devices use callbacks: their messages, and the CCs.
pub data Event : Type 0 where
  message : String → String → Option Fields → String → ℕ → Event
  cc : Fields → String → Option ℕ → ℕ → Event

unfoldable pub step : Python → Server → Event → Server
step python s (message device table decoded direction now) =
    (on_callback_message python s device table decoded direction now).0
step python s (cc msg correlation delay now) = on_eye_frame python s msg correlation delay now

unfoldable pub run : Python → Server → List Event → Server
run python s [] = s
run python s (e ∷ es) = run python (step python s e) es
