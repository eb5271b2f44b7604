-- ===== src/EyeChannel/Runs.antt =====
-- Concrete channels, and the theorems at concrete inputs.
use poker_eye_v.Prelude.{◌≡◌, refl, true, false, none, some, List, [], ◌∷◌, ◌++◌}
use poker_eye_v.Json.{obj, end, field, str}
use poker_eye_v.CoinWire.Octets.{to_bytes}
use poker_eye_v.Protocol.{Codec}
use poker_eye_v.EyeChannel.{
  EyeChannelClient, connect, connect_failed, lp_pack, read_frame, queued, send,
}
use poker_eye_v.EyeChannel.Invariant.{Event, fails, connects, reads, sends, step, run}
use poker_eye_v.EyeChannel.Muted.{failed_send_mutes}

abbrev codec : Codec
codec = record {
  dumps = λ d. 123 ∷ 125 ∷ [];
  loads = λ b. some (obj (field "tag" (str "cc") end));
  text_of = λ x. "";
  hmac = λ x. "";
}

abbrev client : EyeChannelClient
client = record {
  package_name = "p";
  reconnect_base = 250_000;
  reconnect_max = 3_000_000;
  sock = none;
  generation = 0;
  connected = false;
  delay = 250_000;
  reader = none;
  cc_queue = [];
}

abbrev started : List Event
started = fails ∷ connects 5 ∷ reads (1 ∷ []) ∷ []

reader_of : (run codec client started).reader ≡ some (5, 1)
unfolding run step read_frame connect connect_failed
reader_of = refl

-- The channel reads from the socket 5 and writes to it.
abbrev linked : EyeChannelClient
linked = record client { sock = some 5; generation = 1; connected = true; reader = some (5, 1) }

abbrev later : List Event
later = reads (1 ∷ []) ∷ sends true ∷ []

failed_send_mutes_example :
    let c' = run codec (send linked false).0 later in
    ((send c' true).1 ≡ false)
    × ((read_frame codec c' (2 ∷ [])).reader ≡ some (5, 1))
    × ((read_frame codec c' (2 ∷ [])).cc_queue ≡ c'.cc_queue ++ queued codec (2 ∷ []) 1)
failed_send_mutes_example =
    failed_send_mutes codec linked later 5 1 5 (2 ∷ []) true refl refl refl (tt, (tt, tt))

packed : lp_pack codec end ≡ some (0 ∷ 0 ∷ 0 ∷ 2 ∷ 123 ∷ 125 ∷ [])
unfolding lp_pack to_bytes
packed = refl
