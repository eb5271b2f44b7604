-- ===== src/EyeChannel.antt =====
-- core/eye_backend.py: the channel to the decision backend. A socket is given by its identity, and
-- delays are microseconds, rounded down where they grow.
pub mod Framing
pub mod Invariant
pub mod Muted
mod Runs
use poker_eye_v.Prelude.{
  ℕ, ◌+◌, ◌*◌, ◌/◌, ◌^◌, min, String, String-discrete, Bool, true, false, ◌&&◌, Option, none, some,
  List, [], ◌∷◌, ◌++◌, length, ltb, leb, ◌==◌, if◌then◌else◌, ite,
}
use poker_eye_v.Json.{Json, str, obj, Fields, end, field, get, truthy}
use poker_eye_v.CoinWire.Octets.{Bytes, to_bytes, from_bytes}
use poker_eye_v.Protocol.{Codec}
use poker_eye_v.Protocol.Reading.{Stream, read_exact}

abbrev pub max_frame : ℕ
max_frame = 20_000_000

pub record EyeFrame : Type 0 where
  pub tag : String
  pub payload : Option Json
  pub msg : Option Json
  pub package_name : Option Json
  pub generation : ℕ

-- `reader` is the socket and the generation of the `_read_loop` that runs, and `cc_queue` the frames
-- that it has put there.
pub record EyeChannelClient : Type 0 where
  pub package_name : String
  pub reconnect_base : ℕ
  pub reconnect_max : ℕ
  pub sock : Option ℕ
  pub generation : ℕ
  pub connected : Bool
  pub delay : ℕ
  pub reader : Option (ℕ × ℕ)
  pub cc_queue : List EyeFrame

-- min(self.reconnect_max, delay * 1.7)
unfoldable pub next_delay : EyeChannelClient → ℕ
next_delay c = min c.reconnect_max (c.delay * 17 / 10)

-- `_connect` returns None
unfoldable pub connect_failed : EyeChannelClient → EyeChannelClient
connect_failed c = record c { delay = next_delay c }

-- `_connect` returns the socket `k`, and `_read_loop` begins.
unfoldable pub connect : EyeChannelClient → ℕ → EyeChannelClient
connect c k = record c {
  delay = c.reconnect_base;
  sock = some k;
  generation = c.generation + 1;
  connected = true;
  reader = some (k, c.generation + 1);
}

-- if self._sock is sock: self._sock = None
unfoldable pub forget : Option ℕ → ℕ → Option ℕ
forget none k = none
forget (some j) k = if j == k then none else some j

-- The `finally` of `_run`, after the read loop of the socket `k`
unfoldable pub finish : EyeChannelClient → ℕ → EyeChannelClient
finish c k = record c {
  connected = false;
  sock = forget c.sock k;
  delay = next_delay c;
  reader = none;
}

-- The read loop ends, if one runs: the peer is gone, or a frame has a bad size.
unfoldable pub lose : EyeChannelClient → EyeChannelClient
lose c = elim c.reader [ none ↦ c | some (k, g) ↦ finish c k ]

module _ (codec : Codec) where
  -- `lp_pack`; `none` is the `struct.error`
  unfoldable pub lp_pack : Fields → Option Bytes
  lp_pack m =
      let raw = codec.dumps m in
      if ltb (length raw) (2 ^ 32) then some (to_bytes 4 (length raw) ++ raw) else none

  -- str(obj.get("tag", ""))
  abbrev tag_of : Option Json → String
  tag_of none = ""
  tag_of (some (str s)) = s
  tag_of (some x) = codec.text_of x

  abbrev pub frame_of : Fields → ℕ → EyeFrame
  frame_of m g = record {
    tag = tag_of (get m "tag");
    payload = get m "data";
    msg = get m "msg";
    package_name = get m "packageName";
    generation = g;
  }

  abbrev pub is_cc : String → Bool
  is_cc tag = ite (String-discrete tag "cc") true false

  -- What a frame of the current generation adds to the queue.
  unfoldable pub queued : Bytes → ℕ → List EyeFrame
  queued raw g = elim (codec.loads raw) [
    | none ↦ []
    | some x ↦ elim x [
      | obj m ↦ if is_cc (frame_of m g).tag then frame_of m g ∷ [] else []
      | _ ↦ []
    ]
  ]

  -- A round of `_read_loop` that has read `raw`; the loop returns where its generation is over.
  unfoldable pub read_frame : EyeChannelClient → Bytes → EyeChannelClient
  read_frame c raw = elim c.reader [
    | none ↦ c
    | some (k, g) ↦
        if g == c.generation then record c { cc_queue = c.cc_queue ++ queued raw g } else finish c k
  ]

  abbrev or_text : Option Json → Json
  or_text none = str ""
  or_text (some x) = if truthy x then x else str ""

  -- data if data is not None else ""
  abbrev data_or_text : Option Json → Json
  data_or_text none = str ""
  data_or_text (some x) = x

  -- The frame that `send` packs.
  unfoldable pub send_frame : EyeChannelClient → String → Option Json → Option Json → Fields
  send_frame c tag payload msg = field "data" (data_or_text payload) (
      field "msg" (or_text msg)
        (field "packageName" (str c.package_name) (field "tag" (str tag) end)))

-- `send` and `send_outer` from the writer's lock on; `sent` is whether `sendall` returns.
unfoldable pub send : EyeChannelClient → Bool → EyeChannelClient × Bool
send c sent = elim c.sock [
  | none ↦ (c, false)
  | some k ↦ if sent then (c, true) else (record c { sock = none; connected = false }, false)
]

-- `lp_read_sock`; `none` is its None, its `ValueError` and the `ConnectionError` of the body, all of
-- which end the read loop.
unfoldable pub lp_read_sock : Stream → Option (Bytes × Stream)
lp_read_sock stream = elim (read_exact 4 [] stream) [
  | none ↦ none
  | some (header, after) ↦
      let size = from_bytes header in
      if ltb 0 size && leb size max_frame then read_exact size [] after else none
]
