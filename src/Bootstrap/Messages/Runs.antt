-- ===== src/Bootstrap/Messages/Runs.antt =====
-- Concrete messages of a callback connection, and the theorem at a concrete input.
use poker_eye_v.Prelude.{◌≡◌, refl, String-discrete, some, true}
use poker_eye_v.Json.{null, str, obj, Fields, end, field, get}
use poker_eye_v.Protocol.{is_type}
use poker_eye_v.Transport.{Handled, no_handler, returned, answer}
use poker_eye_v.Transport.Answers.{or_then}
use poker_eye_v.Bootstrap.Messages.{update, callback_decision, callback_answer}
use poker_eye_v.Bootstrap.Messages.Agreement.{endpoints_agree}

abbrev a_message : Fields
a_message = field "type" (str "ws_message") (field "id" (str "m1") end)

abbrev a_send : Handled
a_send = returned (obj (field "id" (str "m1") (field "action" (str "schedule_send") end)))

heartbeat_answered :
    callback_answer a_send (field "type" (str "heartbeat") end)
    ≡ some (field "type" (str "heartbeat_ack") (field "sequence" null end))
unfolding callback_answer get String-discrete
heartbeat_answered = refl

unhandled_answered :
    callback_answer no_handler a_message
    ≡ some (field "type" (str "forward") (field "id" (str "m1") end))
unfolding callback_answer callback_decision update get String-discrete
unhandled_answered = refl

message_is_ws : is_type a_message "ws_message" ≡ true
unfolding get String-discrete
message_is_ws = refl

endpoints_agree_example :
    (r q : Fields) × (callback_answer a_send a_message ≡ some r)
    × (answer a_send a_message ≡ some q)
    × (get r "id" ≡ get q "id")
    × (or_then (get r "action") (some (str "forward")) ≡ get q "action")
endpoints_agree_example = endpoints_agree a_send a_message message_is_ws
