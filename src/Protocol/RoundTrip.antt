-- ===== src/Protocol/RoundTrip.antt =====
-- What is sent as a frame is received, in whatever pieces it comes.
use poker_eye_v.Prelude.{
  ◌≤◌, ◌<◌, ◌≡◌, refl, sym, ap, ◌∙◌, some, [], ◌++◌, length, ltb, arith, All, length-append, take,
  drop, length-take, Bool-cases, inl, inr,
}
use mathlib.Core.List.{append_assoc}
use poker_eye_v.Json.{Fields, obj}
use poker_eye_v.CoinWire.Octets.{Bytes, to_bytes, from_bytes, length-to_bytes, from_bytes-to_bytes}
use poker_eye_v.Protocol.Reading.{
  Stream, joined, HasData, read_exact-Reads, read_exact-short, append_split, take-drop,
}
use poker_eye_v.Protocol.{Codec, Received, message, disconnected, max_frame, frame, recv_frame}

-- The stream gives `received`, and behind it the bytes `rest`.
pub record Receives (codec : Codec) (stream : Stream) (received : Received) (rest : Bytes)
    : Type 0 where
  pub left : Stream
  pub returned : recv_frame codec stream ≡ (received, left)
  pub same : joined left ≡ rest
  pub flowing : All HasData left

module _ (codec : Codec) (m : Fields) (bytes : Bytes) (sent : frame codec m ≡ some bytes) where
  abbrev body : Bytes
  body = codec.dumps m

  frame_parts : (length body ≤ max_frame) × (bytes ≡ to_bytes 4 (length body) ++ body)
  unfolding frame
  frame_parts = ground (arith, sent)

  body_size : from_bytes (to_bytes 4 (length body)) ≡ length body
  body_size = from_bytes-to_bytes 4 (length body) (omega (arith, frame_parts.0))

  -- A message that is sent and that Python's codec reads back as `m'` is received as `m'`, in whatever
  -- pieces its bytes come and whatever follows them; what follows is left in the stream.
  pub recv_frame-frame :
      (m' : Fields) (stream : Stream) (rest : Bytes)
      → codec.loads (codec.dumps m) ≡ some (obj m')
      → 0 < length (codec.dumps m)
      → All HasData stream
      → joined stream ≡ bytes ++ rest
      → Receives codec stream (message m') rest
  unfolding recv_frame
  recv_frame-frame m' stream rest d n f e =
      let (small, parts) = frame_parts in
      let header = to_bytes 4 (length body) in
      let r1 =
        read_exact-Reads 4 [] stream header (body ++ rest) f (omega arith)
          (e ∙ ap (λ (x : Bytes). x ++ rest) parts ∙ append_assoc header body rest)
          (length-to_bytes 4 (length body)) in
      let r2 =
        read_exact-Reads (length body) [] r1.left body rest r1.flowing (omega arith) r1.same refl in
      record {
        left = r2.left;
        returned = ground (arith, r1.returned, body_size, r2.returned, d, small, n);
        same = r2.same;
        flowing = r2.flowing;
      }

  -- Where the stream ends inside the frame, the peer counts as gone.
  pub recv_frame-cut :
      (stream : Stream) (cut : Bytes)
      → All HasData stream
      → joined stream ++ cut ≡ bytes
      → 0 < length cut
      → (recv_frame codec stream).0 ≡ disconnected
  unfolding recv_frame
  recv_frame-cut stream cut f e n =
      let j = joined stream in
      elim (Bool-cases (ltb (length j) 4)) [
        | inl few ↦ ground (arith, read_exact-short 4 [] stream (ground (arith, few)))
        | inr enough ↦
            let header = to_bytes 4 (length body) in
            let (p, q) =
              append_split (take 4 j) (drop 4 j ++ cut) header body
                (sym (append_assoc (take 4 j) (drop 4 j) cut)
                  ∙ ap (λ (x : Bytes). x ++ cut) (take-drop 4 j)
                  ∙ e
                  ∙ frame_parts.1)
                (ground (arith, enough, length-take 4 j, length-to_bytes 4 (length body))) in
            let r1 =
              read_exact-Reads 4 [] stream header (drop 4 j) f (omega arith)
                (sym (take-drop 4 j) ∙ ap (λ (x : Bytes). x ++ drop 4 j) p)
                (length-to_bytes 4 (length body)) in
            let lengths = ap (λ (x : Bytes). length x) q in
            let some_body : 0 < length body =
              omega (arith, lengths, length-append (drop 4 j) cut, n) in
            let r2 = read_exact-short (length body) [] r1.left (
              omega (
                arith,
                ap (λ (x : Bytes). length x) r1.same,
                lengths,
                length-append (drop 4 j) cut,
                n,
              )) in
            ground (arith, r1.returned, body_size, r2, frame_parts.0, some_body)
      ]
