-- ===== src/Protocol.antt =====
-- core/protocol.py: frames of JSON behind their length, read from a socket, and the hello of a hook.
pub mod Reading
pub mod RoundTrip
mod Runs
use Prim.Native.Char.{code}
use Prim.Native.String.{◌++◌ as str_append}
use poker_eye_v.Prelude.{
  ℕ, ◌*◌, String, Bool, true, false, ◌&&◌, not, Option, none, some, List, [], ◌∷◌, ◌++◌, length,
  leb, ltb, ◌==◌, if◌then◌else◌, ite, String-discrete,
}
use poker_eye_v.Prelude.Int.{pos}
use poker_eye_v.Json.{Json, int, float, str, obj, Fields, get, is_empty}
use poker_eye_v.CoinWire.Octets.{Bytes, to_bytes, from_bytes}
use poker_eye_v.Protocol.Reading.{Stream, read_exact}

abbrev pub max_frame : ℕ
max_frame = 64 * 1024

-- What the module takes of Python's library: `json.dumps` of a message with its UTF-8, `json.loads`
-- of bytes that decode, `str(x)`, and the hexadecimal HMAC-SHA256 of a text under the secret.
pub record Codec : Type 0 where
  pub dumps : Fields → Bytes
  pub loads : Bytes → Option Json
  pub text_of : Json → String
  pub hmac : String → String

-- A frame as `recv_frame` gives it: `disconnected` is its `ConnectionError`, `invalid` its
-- `ValueError`.
pub data Received : Type 0 where
  message : Fields → Received
  disconnected invalid : Received

abbrev frame_of : Option Json → Received
frame_of (some (obj m)) = message m
frame_of _ = invalid

-- `verify_hello`: the two names, its `ValueError`, or the `TypeError` of `compare_digest`.
pub data Verified : Type 0 where
  verified : String → String → Verified
  value_error type_error : Verified

-- `compare_digest` of a text that is not ASCII raises.
unfoldable pub is_ascii : String → Bool
is_ascii String.[] = true
is_ascii (String.◌∷◌ c s) = ltb (code c) 128 && is_ascii s

-- hmac.compare_digest(supplied, expected), and what follows it
unfoldable pub compare_digest : String → String → Verified → Verified
compare_digest supplied expected v =
    if is_ascii supplied then ite (String-discrete supplied expected) v value_error else type_error

-- message.get("version") == PROTOCOL_VERSION
abbrev pub is_version : Option Json → Bool
is_version (some (int (pos n))) = n == 2
is_version (some (float (pos units))) = units == 200_000_000
is_version _ = false

-- A text that is not empty
abbrev pub name_of : Option Json → Option String
name_of (some (str s)) = if is_empty s then none else some s
name_of _ = none

abbrev pub is_type : Fields → String → Bool
is_type m t = elim (get m "type") [
  | none ↦ false
  | some x ↦ elim x [ str s ↦ ite (String-discrete s t) true false | _ ↦ false ]
]

abbrev pub bar : String → String → String
bar a b = str_append a (str_append "|" b)

module _ (codec : Codec) where
  -- `frame`; `none` is the `ValueError` of a message that is too large
  unfoldable pub frame : Fields → Option Bytes
  frame m =
      let body = codec.dumps m in
      if ltb max_frame (length body) then none else some (to_bytes 4 (length body) ++ body)

  -- `recv_frame`, with the stream behind the frame
  unfoldable pub recv_frame : Stream → Received × Stream
  recv_frame stream = elim (read_exact 4 [] stream) [
    | none ↦ (disconnected, [])
    | some (header, after) ↦
        let size = from_bytes header in
        if ltb 0 size && leb size max_frame
        then elim (read_exact size [] after) [
          | none ↦ (disconnected, [])
          | some (raw, rest) ↦ (frame_of (codec.loads raw), rest)
        ]
        else (invalid, after)
  ]

  unfoldable pub proof : String → String → String → String
  proof nonce table session = codec.hmac (bar nonce (bar table (bar session "2")))

  unfoldable pub verify_hello : Fields → String → String → Verified
  verify_hello m nonce session =
      if is_type m "hello" && is_version (get m "version")
      then elim (name_of (get m "table_id")) [
        | none ↦ value_error
        | some table ↦ elim (name_of (get m "device_id")) [
          | none ↦ value_error
          | some device ↦ elim (name_of (get m "proof")) [
            | none ↦ value_error
            | some supplied ↦
                compare_digest supplied (proof nonce table session) (verified device table)
          ]
        ]
      ]
      else value_error
