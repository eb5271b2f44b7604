-- ===== src/Transport/Answers.antt =====
-- What a connected hook is answered.
use poker_eye_v.Prelude.{
  ◌≡◌, refl, String, String-discrete, true, false, Option, none, some, arith, ite, Option-cases,
  inl, inr,
}
use poker_eye_v.Json.{Json, null, bool, int, float, str, arr, obj, Fields, end, field, get}
use poker_eye_v.Protocol.{is_type}
use poker_eye_v.Transport.{
  Handled, no_handler, raised, decide, append_field, setdefault, respond, answer, value_or_null,
  fields_of, forward,
}

-- `o` with `p` for a key that is missing
abbrev pub or_then : Option Json → Option Json → Option Json
or_then none p = p
or_then (some x) p = some x

get-append_field :
    (d : Fields) (k : String) (v : Json) (j : String)
    → get (append_field d k v) j ≡ or_then (get d j) (ite (String-discrete k j) (some v) none)
unfolding get append_field
get-append_field end k v j = ground arith
get-append_field (field i w d) k v j = ground (arith, get-append_field d k v j)

get-setdefault :
    (d : Fields) (k : String) (v : Json) (j : String)
    → get (setdefault d k v) j ≡ or_then (get d j) (ite (String-discrete k j) (some v) none)
unfolding setdefault
get-setdefault d k v j = ground (arith, get-append_field d k v j)

one_word :
    (s : String)
    → ite (String-discrete s "ws_message") true false ≡ true
    → ite (String-discrete s "heartbeat") true false ≡ false
unfolding String-discrete
one_word s e = elim (String-discrete s "ws_message") [
  | no n ↦ absurd (ground (arith, e, n))
  | yes p ↦ rw p refl
]

pub ws_is_no_heartbeat :
    (m : Fields) → is_type m "ws_message" ≡ true → is_type m "heartbeat" ≡ false
ws_is_no_heartbeat m e = elim (Option-cases (get m "type")) [
  | inl f ↦ ground (arith, f)
  | inr (str s, f) ↦ ground (arith, e, f, one_word s)
  | inr (null, f) ↦ ground (arith, f)
  | inr (bool b, f) ↦ ground (arith, f)
  | inr (int n, f) ↦ ground (arith, f)
  | inr (float n, f) ↦ ground (arith, f)
  | inr (arr xs, f) ↦ ground (arith, f)
  | inr (obj d, f) ↦ ground (arith, f)
]

pub get-respond :
    (h : Handled) (m : Fields)
    → let d = fields_of (decide h m) in
      (get (respond h m) "id" ≡ or_then (get d "id") (some (value_or_null (get m "id"))))
      × (get (respond h m) "action" ≡ or_then (get d "action") (some (str "forward")))
unfolding respond String-discrete
get-respond h m =
    let d = fields_of (decide h m) in
    let id = value_or_null (get m "id") in
    let e = setdefault d "id" id in
    (
      ground (arith, get-setdefault e "action" (str "forward") "id", get-setdefault d "id" id "id"),
      ground (
        arith,
        get-setdefault e "action" (str "forward") "action",
        get-setdefault d "id" id "action",
      ),
    )

respond-forward :
    (m : Fields)
    → (respond no_handler m ≡ fields_of (forward m)) × (respond raised m ≡ fields_of (forward m))
unfolding respond decide setdefault get String-discrete
respond-forward m = (refl, refl)

-- A `ws_message` is answered by one frame, whatever the handler does. The frame has the id and the
-- action that the handler returned, or else the id of the message and the action "forward"; with no
-- handler, or one that raises, the frame is exactly those two.
pub ws_message_answered :
    (h : Handled) (m : Fields)
    → is_type m "ws_message" ≡ true
    → let d = fields_of (decide h m) in
      (r : Fields) × (answer h m ≡ some r)
      × (get r "id" ≡ or_then (get d "id") (some (value_or_null (get m "id"))))
      × (get r "action" ≡ or_then (get d "action") (some (str "forward")))
      × (answer no_handler m ≡ some (fields_of (forward m)))
      × (answer raised m ≡ some (fields_of (forward m)))
unfolding answer
ws_message_answered h m e =
    let (id, action) = get-respond h m in
    (
      respond h m,
      ground (arith, e, ws_is_no_heartbeat m e),
      id,
      action,
      ground (arith, e, ws_is_no_heartbeat m e, respond-forward m),
      ground (arith, e, ws_is_no_heartbeat m e, respond-forward m),
    )
