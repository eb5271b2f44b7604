-- ===== src/EyeChannel/Muted.antt =====
-- A channel on which a send has failed.
use poker_eye_v.Prelude.{ℕ, ◌≡◌, Bool, false, none, some, List, [], ◌∷◌, ◌++◌, arith}
use poker_eye_v.CoinWire.Octets.{Bytes}
use poker_eye_v.Protocol.{Codec}
use poker_eye_v.EyeChannel.{EyeChannelClient, read_frame, queued, send}
use poker_eye_v.EyeChannel.Invariant.{Event, fails, ends, connects, reads, sends, step, run}

-- The loop `r` still reads, and nothing can be sent.
pub record IsMuted (r : ℕ × ℕ) (c : EyeChannelClient) : Type 0 where
  pub reads_on : c.reader ≡ some r
  pub current : r.1 ≡ c.generation
  pub no_socket : c.sock ≡ none

abbrev IsNoEnd : Event → Type 0
IsNoEnd ends = ⊥
IsNoEnd e = Unit

abbrev pub HasNoEnd : List Event → Type 0
HasNoEnd [] = Unit
HasNoEnd (e ∷ es) = IsNoEnd e × HasNoEnd es

step-IsMuted :
    (codec : Codec) (r : ℕ × ℕ) (c : EyeChannelClient) (e : Event)
    → IsNoEnd e
    → IsMuted r c
    → IsMuted r (step codec c e)
unfolding step read_frame send
step-IsMuted codec r c fails n m = ground (arith, m)
step-IsMuted codec r c ends n m = elim n [ ]
step-IsMuted codec r c (connects k) n m = ground (arith, m)
step-IsMuted codec r c (reads raw) n m = ground (arith, m)
step-IsMuted codec r c (sends sent) n m = ground (arith, m)

run-IsMuted :
    (codec : Codec) (r : ℕ × ℕ) (c : EyeChannelClient) (es : List Event)
    → HasNoEnd es
    → IsMuted r c
    → IsMuted r (run codec c es)
unfolding run
run-IsMuted codec r c [] n m = m
run-IsMuted codec r c (e ∷ es) (n, ns) m =
    run-IsMuted codec r (step codec c e) es ns (step-IsMuted codec r c e n m)

-- After a send has failed, every later send fails, while the read loop goes on and its frames are
-- queued as those of the current generation, until the read loop ends by itself.
pub failed_send_mutes :
    (codec : Codec) (c : EyeChannelClient) (es : List Event) (k g j : ℕ) (raw : Bytes) (sent : Bool)
    → c.reader ≡ some (k, g)
    → g ≡ c.generation
    → c.sock ≡ some j
    → HasNoEnd es
    → let c' = run codec (send c false).0 es in
      ((send c' sent).1 ≡ false)
      × ((read_frame codec c' raw).reader ≡ some (k, g))
      × ((read_frame codec c' raw).cc_queue ≡ c'.cc_queue ++ queued codec raw g)
unfolding send read_frame
failed_send_mutes codec c es k g j raw sent e q s n =
    let start : IsMuted (k, g) (send c false).0 = ground (arith, e, q, s) in
    let m = run-IsMuted codec (k, g) (send c false).0 es n start in ground (arith, m)
