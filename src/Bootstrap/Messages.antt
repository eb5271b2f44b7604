-- ===== src/Bootstrap/Messages.antt =====
-- The answers to the messages of a callback connection (`_handle_callback` of core/bootstrap.py). The
-- order of an answer's keys does not matter, since `frame` sorts them.
pub mod Agreement
mod Runs
use poker_eye_v.Prelude.{
  String, Bool, true, false, Option, none, some, if◌then◌else◌, ite, String-discrete,
}
use poker_eye_v.Json.{Json, str, obj, Fields, end, field, get}
use poker_eye_v.Protocol.{is_type}
use poker_eye_v.Transport.{Handled, no_handler, raised, returned, value_or_null}

-- d[k] = v
unfoldable pub set_field : Fields → String → Json → Fields
set_field end k v = field k v end
set_field (field j w d) k v =
    let rest = set_field d k v in ite (String-discrete j k) (field j v d) (field j w rest)

-- d.update(custom)
unfoldable pub update : Fields → Fields → Fields
update d end = d
update d (field k v custom) = set_field (update d custom) k v

-- What the handler returned, if it is a dict
abbrev pub custom_of : Handled → Fields
custom_of (returned (obj d)) = d
custom_of _ = end

unfoldable pub callback_decision : Handled → Fields → Fields
callback_decision h m =
    update (field "type" (str "forward") (field "id" (value_or_null (get m "id")) end))
      (custom_of h)

-- The answer of the message loop to a frame, if it has one.
unfoldable pub callback_answer : Handled → Fields → Option Fields
callback_answer h m =
    if is_type m "heartbeat"
    then some (
        field "type" (str "heartbeat_ack")
          (field "sequence" (value_or_null (get m "sequence")) end))
    else if is_type m "ws_message"
    then some (callback_decision h m)
    else none
