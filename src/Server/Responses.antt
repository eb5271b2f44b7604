-- ===== src/Server/Responses.antt =====
-- What `_ws_handler` of core/trainer.py answers to a frame: the room of the frame's URL, the packet of
-- the action that is due, and the response. A text of a URL is the list of its character codes.
pub mod Sent
mod Runs
use poker_eye_v.Prelude.{
  ℕ, ◌+◌, ◌*◌, ◌-◌, String, Bool, true, false, ◌&&◌, ◌||◌, Option, none, some, List, [], ◌∷◌, leb,
  ◌==◌, if◌then◌else◌, ite, String-discrete,
}
use poker_eye_v.Prelude.Int.{ℤ, pos}
use poker_eye_v.Json.{Json, int, str, Fields, end, field}
use poker_eye_v.Actions.{Action}
use poker_eye_v.CoinWire.Octets.{Bytes}
use poker_eye_v.CoinWire.Requests.{build_packet}
use poker_eye_v.Trainer.{object}
use poker_eye_v.Server.{Python, Server, ws_handler}

-- COIN_CODES.get(command, ACTION_CHECK)
abbrev pub coin_code : String → ℕ
coin_code command = ite (String-discrete command "CALL") 4 (
    ite (String-discrete command "FOLD") 7
      (ite (String-discrete command "RAISE") 5 (ite (String-discrete command "ALLIN") 5 3)))

abbrev pub is_digit : ℕ → Bool
is_digit c = leb 48 c && leb c 57

-- int of the digits at the start of a text, after those that make `n`
unfoldable pub digits : ℕ → List ℕ → ℕ
digits n [] = n
digits n (c ∷ cs) = let more = digits (10 * n + (c - 48)) cs in if is_digit c then more else n

-- The rest of a text behind a prefix
unfoldable pub behind : List ℕ → List ℕ → Option (List ℕ)
behind [] cs = some cs
behind (p ∷ ps) [] = none
behind (p ∷ ps) (c ∷ cs) = let rest = behind ps cs in if p == c then rest else none

-- "room"
abbrev pub room_word : List ℕ
room_word = 114 ∷ 111 ∷ 111 ∷ 109 ∷ []

-- The number behind "/" or "="
unfoldable pub number_after : List ℕ → Option ℕ
number_after (m ∷ c ∷ cs) =
    if (m == 47 || m == 61) && is_digit c then some (digits 0 (c ∷ cs)) else none
number_after _ = none

-- The number of a match of room[/=](\d+) at the start of a text
unfoldable pub room_at : List ℕ → Option ℕ
room_at cs = elim (behind room_word cs) [ none ↦ none | some rest ↦ number_after rest ]

-- `_room_from_url`: the first match, or else 1
unfoldable pub room_from_url : List ℕ → ℕ
room_from_url [] = 1
room_from_url (c ∷ cs) =
    let rest = room_from_url cs in elim (room_at (c ∷ cs)) [ none ↦ rest | some n ↦ n ]

-- What every response begins with: the id of the message, which the caller gives.
unfoldable pub forward : Json → Fields
forward mid = field "id" mid (field "action" (str "forward") end)

unfoldable pub schedule_send : Json → String → String → Fields
schedule_send mid payload token = field "id" mid (
    field "action" (str "schedule_send") (
      field "payload_b64" (str payload)
        (field "delay_ms" (int (pos 0)) (field "token" (str token) end))))

-- `amount_text` is what `json.dumps` writes for a bet, none for 0; `base64` is `b64encode` with its
-- bytes as a text.
module _ (amount_text : ℤ → Option Bytes) (base64 : Bytes → String) where
  unfoldable pub action_packet : ℕ → Action → Option Bytes
  action_packet room a = build_packet (pos room) (coin_code a.command) (amount_text a.amount)

  -- `none` is the error of a packet that cannot be built.
  unfoldable pub respond : Json → ℕ → Option Action → Option Fields
  respond mid room none = some (forward mid)
  respond mid room (some a) = elim (action_packet room a) [
    | none ↦ none
    | some raw ↦ some (schedule_send mid (base64 raw) a.correlation_id)
  ]

  abbrev due_action : Server → Option ℕ → Option Action
  due_action s none = none
  due_action s (some r) = some (object s.trainer r)

  -- `_ws_handler` with its response
  unfoldable pub ws_message :
      Python → Server → String → Json → List ℕ → Option Fields → String → ℕ → Server × Option Fields
  ws_message python s table mid url decoded direction now =
      let (s', due) = ws_handler python s table decoded direction now in
      (s', respond mid (room_from_url url) (due_action s' due))
