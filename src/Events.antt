-- ===== src/Events.antt =====
-- core/events.py: what a frame leaves in the log. The fields that are picked come in the order of the
-- allowlist, where Python takes that of a set.
pub mod Metadata
mod Runs
use poker_eye_v.Prelude.{ℕ, String, Option, none, some, List, [], ◌∷◌, length}
use poker_eye_v.Prelude.Int.{pos}
use poker_eye_v.Json.{Json, null, int, str, obj, Fields, end, field, get, or_else}
use poker_eye_v.CoinWire.Octets.{Bytes}

pub data Direction : Type 0 where
  incoming outgoing : Direction

pub data FrameFamily : Type 0 where
  coin eye trainer : FrameFamily

abbrev pub coin_allowlist : List String
coin_allowlist = "cmd" ∷ "room_id" ∷ "user_action" ∷ "bet_amount" ∷ "whose_turn" ∷ "turn_id" ∷ []

abbrev pub eye_allowlist : List String
eye_allowlist =
    "cmd" ∷ "tag" ∷ "seat" ∷ "call" ∷ "min" ∷ "max" ∷ "can" ∷ "action" ∷ "type" ∷ "amount"
    ∷ "subtype" ∷ []

abbrev pub picked : Option Json → String → Fields → Fields
picked none k rest = rest
picked (some v) k rest = field k v rest

-- `_pick`
unfoldable pub pick : Fields → List String → Fields
pick frame [] = end
pick frame (k ∷ allowlist) = picked (get frame k) k (pick frame allowlist)

pub record FrameEvent : Type 0 where
  pub family : FrameFamily
  pub direction : Direction
  pub frame_type : String
  pub length : ℕ
  pub body_hash : String
  pub seq : Option ℕ
  pub correlation_id : Option String
  pub ts : ℕ
  pub decoded : Fields
  pub source : Option String

-- What the caller gives beside the frame, and the time.
pub record Origin : Type 0 where
  pub seq : Option ℕ
  pub correlation_id : Option String
  pub source : Option String
  pub ts : ℕ

abbrev family_value : FrameFamily → String
family_value coin = "coin"
family_value eye = "eye"
family_value trainer = "trainer"

abbrev direction_value : Direction → String
direction_value incoming = "in"
direction_value outgoing = "out"

abbrev text_or_null : Option String → Json
text_or_null none = null
text_or_null (some t) = str t

abbrev number_or_null : Option ℕ → Json
number_or_null none = null
number_or_null (some n) = int (pos n)

-- `as_dict`
unfoldable pub as_dict : FrameEvent → Fields
as_dict e =
    let marks = field "decoded" (obj e.decoded) (field "source" (text_or_null e.source) end) in
    let body = field "length" (int (pos e.length)) (
      field "sha256" (str e.body_hash) (
        field "seq" (number_or_null e.seq)
          (field "correlation_id" (text_or_null e.correlation_id) marks))) in
    field "ts" (int (pos e.ts)) (
      field "family" (str (family_value e.family)) (
        field "direction" (str (direction_value e.direction))
          (field "type" (str e.frame_type) body)))

module _ (text_of : Json → String) (body_sha256 : Bytes → String) where
  unfoldable pub coin_frame : Direction → Bytes → Fields → Origin → FrameEvent
  coin_frame direction raw decoded from =
      let dec = pick decoded coin_allowlist in
      record {
        family = coin;
        direction = direction;
        frame_type = text_of (or_else (get dec "cmd") (str "coin.frame"));
        length = length raw;
        body_hash = body_sha256 raw;
        seq = from.seq;
        correlation_id = from.correlation_id;
        ts = from.ts;
        decoded = dec;
        source = from.source;
      }

  unfoldable pub eye_frame : Direction → Bytes → Fields → Origin → FrameEvent
  eye_frame direction raw decoded from =
      let dec = pick decoded eye_allowlist in
      record {
        family = eye;
        direction = direction;
        frame_type = text_of (or_else (get dec "cmd") (or_else (get dec "tag") (str "eye.frame")));
        length = length raw;
        body_hash = body_sha256 raw;
        seq = from.seq;
        correlation_id = from.correlation_id;
        ts = from.ts;
        decoded = dec;
        source = from.source;
      }

-- `parse_cc_data`; `loads` is `json.loads` of a text, `none` its error.
unfoldable pub parse_cc_data : (String → Option Json) → Json → Fields
parse_cc_data loads (obj d) = d
parse_cc_data loads (str t) = elim (loads t) [
  | none ↦ end
  | some value ↦ elim value [ obj d ↦ d | _ ↦ end ]
]
parse_cc_data loads _ = end
