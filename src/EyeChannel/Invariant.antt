-- ===== src/EyeChannel/Invariant.antt =====
-- What holds of the channel, whatever its threads do.
use poker_eye_v.Prelude.{
  ℕ, ◌*◌, ◌/◌, ◌≤◌, ◌≡◌, ◌⊎◌, min, Bool, false, none, some, List, [], ◌∷◌, ◌++◌, arith,
}
use poker_eye_v.CoinWire.Octets.{Bytes}
use poker_eye_v.Protocol.{Codec}
use poker_eye_v.EyeChannel.{
  EyeChannelClient, next_delay, connect_failed, connect, forget, finish, lose, read_frame, queued,
  send,
}

-- The read loop is of the current generation and reads the socket that is written to, if one is; with
-- no read loop there is no socket. The delay lies between its bounds.
pub record IsSound (c : EyeChannelClient) : Type 0 where
  pub current : (k g : ℕ) → c.reader ≡ some (k, g) → g ≡ c.generation
  pub reads_socket : (k g : ℕ) → c.reader ≡ some (k, g) → (c.sock ≡ none) ⊎ (c.sock ≡ some k)
  pub idle : c.reader ≡ none → (c.sock ≡ none) × (c.connected ≡ false)
  pub linked : c.sock ≡ none → c.connected ≡ false
  pub low : c.reconnect_base ≤ c.delay
  pub high : c.delay ≤ c.reconnect_max

-- `_run` connects only while it has no read loop; the others come at any time.
pub data Event : Type 0 where
  fails ends : Event
  connects : ℕ → Event
  reads : Bytes → Event
  sends : Bool → Event

abbrev connect_idle : EyeChannelClient → ℕ → EyeChannelClient
connect_idle c k = elim c.reader [ none ↦ connect c k | some r ↦ c ]

abbrev fail_idle : EyeChannelClient → EyeChannelClient
fail_idle c = elim c.reader [ none ↦ connect_failed c | some r ↦ c ]

unfoldable pub step : Codec → EyeChannelClient → Event → EyeChannelClient
step codec c fails = fail_idle c
step codec c ends = lose c
step codec c (connects k) = connect_idle c k
step codec c (reads raw) = read_frame codec c raw
step codec c (sends sent) = (send c sent).0

unfoldable pub run : Codec → EyeChannelClient → List Event → EyeChannelClient
run codec c [] = c
run codec c (e ∷ es) = run codec (step codec c e) es

grows : (base most d : ℕ) → base ≤ d → d ≤ most → base ≤ min most (d * 17 / 10)
grows base most d l h = omega (arith, l, h)

step-IsSound :
    (codec : Codec) (c : EyeChannelClient) (e : Event) → IsSound c → IsSound (step codec c e)
unfolding step connect_failed connect lose finish forget read_frame send next_delay
step-IsSound codec c fails v = grind (arith, v, grows)
step-IsSound codec c ends v = grind (arith, v, grows)
step-IsSound codec c (connects k) v = grind (arith, v, grows)
step-IsSound codec c (reads raw) v = grind (arith, v, grows)
step-IsSound codec c (sends sent) v = grind (arith, v, grows)

pub channel_run-IsSound :
    (codec : Codec) (c : EyeChannelClient) (es : List Event) → IsSound c → IsSound (run codec c es)
unfolding run
channel_run-IsSound codec c [] v = v
channel_run-IsSound codec c (e ∷ es) v =
    channel_run-IsSound codec (step codec c e) es (step-IsSound codec c e v)

-- Whatever has happened, the read loop that runs is of the current generation, so its test for a
-- stale socket never ends it, and each frame of the backend that is tagged "cc" is queued; the channel
-- counts as connected only while a read loop runs; and the delay of a reconnection stays between its
-- base and its maximum.
pub no_frame_is_stale :
    (codec : Codec) (c : EyeChannelClient) (es : List Event) (k g : ℕ) (raw : Bytes)
    → IsSound c
    → (run codec c es).reader ≡ some (k, g)
    → let c' = run codec c es in
      (g ≡ c'.generation)
      × ((read_frame codec c' raw).reader ≡ some (k, g))
      × ((read_frame codec c' raw).cc_queue ≡ c'.cc_queue ++ queued codec raw g)
      × (c'.reconnect_base ≤ c'.delay)
      × (c'.delay ≤ c'.reconnect_max)
unfolding read_frame
no_frame_is_stale codec c es k g raw v0 e =
    let v = channel_run-IsSound codec c es v0 in ground (arith, e, v.current k g e, v.low, v.high)
