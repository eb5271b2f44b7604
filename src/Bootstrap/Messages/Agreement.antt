-- ===== src/Bootstrap/Messages/Agreement.antt =====
-- The two endpoints of a hook answer alike.
use poker_eye_v.Prelude.{
  ◌≡◌, refl, String, String-discrete, true, none, some, arith, ite, sym, ap, ◌∙◌,
}
use poker_eye_v.Json.{Json, null, bool, int, float, str, arr, obj, Fields, end, field, get}
use poker_eye_v.Protocol.{is_type}
use poker_eye_v.Transport.{
  Handled, no_handler, raised, returned, decide, respond, answer, value_or_null, fields_of,
}
use poker_eye_v.Transport.Answers.{or_then, get-respond, ws_is_no_heartbeat}
use poker_eye_v.Bootstrap.Messages.{
  set_field, update, custom_of, callback_decision, callback_answer,
}

get-set_field :
    (d : Fields) (k : String) (v : Json) (j : String)
    → get (set_field d k v) j ≡ ite (String-discrete k j) (some v) (get d j)
unfolding get set_field
get-set_field end k v j = ground arith
get-set_field (field i w d) k v j = ground (arith, get-set_field d k v j)

get-update :
    (d custom : Fields) (j : String) → get (update d custom) j ≡ or_then (get custom j) (get d j)
unfolding get update
get-update d end j = refl
get-update d (field k v custom) j =
    ground (arith, get-set_field (update d custom) k v j, get-update d custom j)

get-callback_decision :
    (h : Handled) (m : Fields)
    → let d = custom_of h in
      (get (callback_decision h m) "id" ≡ or_then (get d "id") (some (value_or_null (get m "id"))))
      × (get (callback_decision h m) "action" ≡ or_then (get d "action") none)
unfolding callback_decision get String-discrete
get-callback_decision h m =
    let first = field "type" (str "forward") (field "id" (value_or_null (get m "id")) end) in
    (get-update first (custom_of h) "id", get-update first (custom_of h) "action")

fields_of-custom : (x : Json) → fields_of x ≡ custom_of (returned x)
fields_of-custom null = refl
fields_of-custom (bool b) = refl
fields_of-custom (int n) = refl
fields_of-custom (float n) = refl
fields_of-custom (str s) = refl
fields_of-custom (arr xs) = refl
fields_of-custom (obj d) = refl

decisions_agree :
    (h : Handled) (m : Fields)
    → (get (callback_decision h m) "id" ≡ get (respond h m) "id")
      × (or_then (get (callback_decision h m) "action") (some (str "forward"))
          ≡ get (respond h m) "action")
unfolding decide get String-discrete
decisions_agree no_handler m =
    let (i, a) = get-callback_decision no_handler m in
    let (j, b) = get-respond no_handler m in
    (i ∙ sym j, ap (λ o. or_then o (some (str "forward"))) a ∙ sym b)
decisions_agree raised m =
    let (i, a) = get-callback_decision raised m in
    let (j, b) = get-respond raised m in
    (i ∙ sym j, ap (λ o. or_then o (some (str "forward"))) a ∙ sym b)
decisions_agree (returned x) m =
    let (i, a) = get-callback_decision (returned x) m in
    let (j, b) = get-respond (returned x) m in
    let e = fields_of-custom x in (i ∙ sym (rw (sym e) j), ground (arith, a, b, e))

-- A `ws_message` with the same outcome of the handler is answered alike by a callback connection and by
-- the trainer's endpoint: by one frame, with the same id, and with the same action once a missing
-- action means "forward", as it does to the hook.
pub endpoints_agree :
    (h : Handled) (m : Fields)
    → is_type m "ws_message" ≡ true
    → (r q : Fields) × (callback_answer h m ≡ some r)
      × (answer h m ≡ some q)
      × (get r "id" ≡ get q "id")
      × (or_then (get r "action") (some (str "forward")) ≡ get q "action")
unfolding callback_answer answer
endpoints_agree h m e =
    let (i, a) = decisions_agree h m in
    (
      callback_decision h m,
      respond h m,
      ground (arith, e, ws_is_no_heartbeat m e),
      ground (arith, e, ws_is_no_heartbeat m e),
      i,
      a,
    )
