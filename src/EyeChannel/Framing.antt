-- ===== src/EyeChannel/Framing.antt =====
-- The frames of the channel come through in whatever pieces.
use poker_eye_v.Prelude.{◌≤◌, ◌<◌, ◌≡◌, ◌∙◌, refl, ap, some, [], ◌++◌, length, arith, All}
use mathlib.Core.List.{append_assoc}
use poker_eye_v.Json.{Fields}
use poker_eye_v.CoinWire.Octets.{Bytes, to_bytes, length-to_bytes, from_bytes-to_bytes}
use poker_eye_v.Protocol.{Codec}
use poker_eye_v.Protocol.Reading.{Stream, joined, HasData, read_exact-Reads}
use poker_eye_v.EyeChannel.{max_frame, lp_pack, lp_read_sock}

-- A frame that `lp_pack` makes, of at most the maximal size, is read back as the bytes of its text, in
-- whatever pieces it comes and whatever follows it; what follows is left.
pub lp_read_sock-lp_pack :
    (codec : Codec) (m : Fields) (bytes rest : Bytes) (stream : Stream)
    → lp_pack codec m ≡ some bytes
    → 0 < length (codec.dumps m)
    → length (codec.dumps m) ≤ max_frame
    → All HasData stream
    → joined stream ≡ bytes ++ rest
    → (left : Stream) × (lp_read_sock stream ≡ some (codec.dumps m, left)) × (joined left ≡ rest)
unfolding lp_pack lp_read_sock
lp_read_sock-lp_pack codec m bytes rest stream sent n small f e =
    let body = codec.dumps m in
    let header = to_bytes 4 (length body) in
    let parts : bytes ≡ header ++ body = ground (arith, sent) in
    let size = from_bytes-to_bytes 4 (length body) (omega (arith, small)) in
    let r1 =
      read_exact-Reads 4 [] stream header (body ++ rest) f (omega arith)
        (e ∙ ap (λ (x : Bytes). x ++ rest) parts ∙ append_assoc header body rest)
        (length-to_bytes 4 (length body)) in
    let r2 =
      read_exact-Reads (length body) [] r1.left body rest r1.flowing (omega arith) r1.same refl in
    (r2.left, ground (arith, r1.returned, size, r2.returned, small, n), r2.same)
