-- ===== src/Server/Responses/Sent.antt =====
-- The packet of a due action.
use poker_eye_v.Prelude.{ℕ, ◌≤◌, ◌<◌, ◌≡◌, refl, String, true, Option, some, List, length}
use poker_eye_v.Prelude.Int.{ℤ, pos}
use poker_eye_v.Json.{Json, Fields}
use poker_eye_v.Actions.{Action}
use poker_eye_v.CoinWire.Octets.{Bytes, is_utf8}
use poker_eye_v.CoinWire.Packets.{decode_packet}
use poker_eye_v.CoinWire.Requests.{action_data, build_packet, received, build_packet_lem}
use poker_eye_v.Trainer.{object}
use poker_eye_v.Server.{Python, Server, ws_handler}
use poker_eye_v.Server.Responses.{
  coin_code, room_from_url, schedule_send, action_packet, respond, ws_message,
}

module _ (amount_text : ℤ → Option Bytes) (base64 : Bytes → String) where
  -- The json text of an action can go into a packet.
  pub record IsSendable (a : Action) : Type 0 where
    pub utf8 : is_utf8 (action_data (coin_code a.command) (amount_text a.amount)) ≡ true
    pub short : length (action_data (coin_code a.command) (amount_text a.amount)) ≤ 65_470

  respond-built :
      (mid : Json) (room : ℕ) (a : Action) (raw : Bytes)
      → build_packet (pos room) (coin_code a.command) (amount_text a.amount) ≡ some raw
      → respond amount_text base64 mid room (some a)
        ≡ some (schedule_send mid (base64 raw) a.correlation_id)
  unfolding respond action_packet
  respond-built mid room a raw e = rw (e, respond, action_packet) refl

  -- Where the handler has an action due on a frame whose URL gives a 32-bit room, and the action's json
  -- text can go into a packet, the response carries the action's correlation id and a packet from
  -- which a decoder reads the room, the code of the action's command and its bet.
  pub due_action_sent :
      (python : Python) (inflate : Bytes → Option Bytes) (s s' : Server) (table : String)
      (mid : Json) (url : List ℕ) (decoded : Option Fields) (direction : String) (now r : ℕ)
      → ws_handler python s table decoded direction now ≡ (s', some r)
      → room_from_url url < 2_147_483_648
      → IsSendable (object s'.trainer r)
      → let a = object s'.trainer r in
        (raw : Bytes) × ((ws_message amount_text base64 python s table mid url decoded direction now
            ≡ (s', some (schedule_send mid (base64 raw) a.correlation_id)))
          × (decode_packet inflate raw
              ≡ some (
                  received
                    (pos (room_from_url url))
                    (action_data (coin_code a.command) (amount_text a.amount)))))
  unfolding ws_message
  due_action_sent python inflate s s' table mid url decoded direction now r e h k =
      let a = object s'.trainer r in
      let (raw, built, size, read) =
        build_packet_lem inflate (room_from_url url) (coin_code a.command) (amount_text a.amount) h
          k.utf8 k.short in
      (raw, (rw (e, respond-built mid (room_from_url url) a raw built) refl, read))
