-- ===== src/Bridge/Steps.antt =====
-- What reaches a `BridgeContext`, and its runs: the calls of its methods and the turns of its
-- threads, in any order.
use poker_eye_v.Prelude.{ℕ, String, Bool, Option, none, some, List, [], ◌∷◌, ◌++◌}
use poker_eye_v.Server.{Python}
use poker_eye_v.Bridge.Context.{BridgeContext, Output}
use poker_eye_v.Bridge.Turns.{HeroTurn, on_hero_turn, poll}
use poker_eye_v.Bridge.Settling.{Cc, on_cc, on_ack, on_action_uncertain}
use poker_eye_v.Bridge.Attempts.{advance}

pub data Input : Type 0 where
  hero_turn : String → HeroTurn → ℕ → Bool → Input
  hint : String → Cc → Input
  ack : String → Option ℕ → String → ℕ → Input
  uncertain : String → ℕ → Input
  thread : ℕ → ℕ → Input
  tick : ℕ → Input

abbrev or_same : BridgeContext → Option BridgeContext → BridgeContext
or_same c none = c
or_same c (some c') = c'

-- A failed `poll` raises before it changes anything.
unfoldable pub step : Python → BridgeContext → Input → BridgeContext × List Output
step python c (hero_turn t h now sent) =
    let (c', asked, out) = on_hero_turn python c t h now sent in (c', out)
step python c (hint t i) = (let (c', made, out) = on_cc python c t i in (c', out))
step python c (ack correlation generation status now) =
    (let (c', done, out) = on_ack c correlation generation status now in (c', out))
step python c (uncertain correlation now) =
    (let (c', done, out) = on_action_uncertain c correlation now in (c', out))
step python c (thread r now) = advance c r now
step python c (tick now) = (or_same c (poll c now), [])

unfoldable pub run : Python → BridgeContext → List Input → BridgeContext × List Output
run python c [] = (c, [])
run python c (i ∷ is) =
    let (c', out) = step python c i in let (c'', outs) = run python c' is in (c'', out ++ outs)
