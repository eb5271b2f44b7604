-- ===== src/Protocol/Runs.antt =====
-- A concrete frame in pieces.
use poker_eye_v.Prelude.{◌≡◌, refl, some, [], ◌∷◌, arith}
use poker_eye_v.Json.{obj, end}
use poker_eye_v.CoinWire.Octets.{Bytes, to_bytes}
use poker_eye_v.Protocol.Reading.{Stream}
use poker_eye_v.Protocol.{Codec, message, frame}
use poker_eye_v.Protocol.RoundTrip.{Receives, recv_frame-frame}

-- The message `{}` in two bytes.
abbrev codec : Codec
codec = record {
  dumps = λ d. 123 ∷ 125 ∷ [];
  loads = λ b. some (obj end);
  text_of = λ x. "";
  hmac = λ x. "";
}

abbrev bytes : Bytes
bytes = 0 ∷ 0 ∷ 0 ∷ 2 ∷ 123 ∷ 125 ∷ []

-- In three pieces, the last of which begins the next frame.
abbrev pieces : Stream
pieces = (0 ∷ []) ∷ (0 ∷ 0 ∷ 2 ∷ 123 ∷ []) ∷ (125 ∷ 0 ∷ []) ∷ []

framed : frame codec end ≡ some bytes
unfolding frame to_bytes
framed = refl

recv_frame-frame_example : Receives codec pieces (message end) (0 ∷ [])
recv_frame-frame_example =
    recv_frame-frame codec end bytes framed end pieces (0 ∷ []) refl (omega arith) (omega arith)
      refl
