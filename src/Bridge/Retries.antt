-- ===== src/Bridge/Retries.antt =====
-- A turn that EYE did not take is asked again, and one that it took is not.
use poker_eye_v.Prelude.{
  ℕ, ◌≡◌, String, Bool, true, false, Option, none, some, [], arith, string_key,
}
use poker_eye_v.Dict
use poker_eye_v.Dict.{get-put, get-remove}
use poker_eye_v.Hints.{HintWatchdog, observe_hint, cancel, is_other_hand}
use poker_eye_v.Server.{Python, turn_identity}
use poker_eye_v.Bridge.Context.{BridgeContext}
use poker_eye_v.Bridge.Turns.{HeroTurn, is_seen, request_hint, new_turn, on_hero_turn}
use poker_eye_v.Bridge.Balance.{hints_taken}

same_hand : (hand : Option String) → is_other_hand hand hand ≡ false
same_hand none = ground arith
same_hand (some h) = ground arith

observe_hint-free :
    (w : HintWatchdog) (t : String) (hand : Option String) (now : ℕ)
    → Dict.get w.outstanding t ≡ none
    → let (w', accepted, ts) = observe_hint w t hand now in
      (accepted ≡ true) × (Dict.get (cancel w' t hand).0.outstanding t ≡ none)
unfolding observe_hint cancel
observe_hint-free w t hand now e = grind (arith, e, get-put, get-remove, same_hand)

module _ (python : Python) (c : BridgeContext) (t : String) (h : HeroTurn) (now : ℕ) where
  turn-failed :
      is_seen (Dict.get c.seen_turns t) (turn_identity python h.turn) ≡ false
      → Dict.get c.watchdog.outstanding t ≡ none
      → let (c', asked, out) = on_hero_turn python c t h now false in
        (asked ≡ false)
        × (hints_taken t out ≡ 0)
        × (c'.seen_turns ≡ c.seen_turns)
        × (Dict.get c'.watchdog.outstanding t ≡ none)
  unfolding on_hero_turn new_turn request_hint
  turn-failed f e = ground (arith, f, observe_hint-free c.watchdog t h.hand_id now e)

  turn-taken :
      is_seen (Dict.get c.seen_turns t) (turn_identity python h.turn) ≡ false
      → Dict.get c.watchdog.outstanding t ≡ none
      → let (c', asked, out) = on_hero_turn python c t h now true in
        (asked ≡ true)
        × (hints_taken t out ≡ 1)
        × (Dict.get c'.seen_turns t ≡ some (turn_identity python h.turn))
  unfolding on_hero_turn new_turn request_hint
  turn-taken f e = ground (
    arith,
    f,
    observe_hint-free c.watchdog t h.hand_id now e,
    get-put c.seen_turns t (turn_identity python h.turn) t,
  )

turn-replayed :
    (python : Python) (c : BridgeContext) (t : String) (h : HeroTurn) (now : ℕ) (sent : Bool)
    → Dict.get c.seen_turns t ≡ some (turn_identity python h.turn)
    → let (c', asked, out) = on_hero_turn python c t h now sent in
      (asked ≡ false) × (out ≡ []) × (c'.watchdog ≡ c.watchdog)
unfolding on_hero_turn
turn-replayed python c t h now sent e = ground (arith, e)

-- Where a table has no outstanding hint and its last turn is another one: a turn that EYE does not take
-- is no hint, and the same turn may be asked again; once EYE has taken it, the turn with this identity
-- is refused at any time, with no call of EYE and with the watchdog unchanged.
pub refused_turn_retried :
    (python : Python) (c : BridgeContext) (t : String) (h : HeroTurn) (now later : ℕ)
    → is_seen (Dict.get c.seen_turns t) (turn_identity python h.turn) ≡ false
    → Dict.get c.watchdog.outstanding t ≡ none
    → let (c1, asked1, out1) = on_hero_turn python c t h now false in
      let (c2, asked2, out2) = on_hero_turn python c1 t h later true in
      (asked1 ≡ false)
      × (hints_taken t out1 ≡ 0)
      × (asked2 ≡ true)
      × (hints_taken t out2 ≡ 1)
      × ((h' : HeroTurn) (n : ℕ) (sent : Bool)
          → turn_identity python h'.turn ≡ turn_identity python h.turn
          → let (c3, asked3, out3) = on_hero_turn python c2 t h' n sent in
            (asked3 ≡ false) × (out3 ≡ []) × (c3.watchdog ≡ c2.watchdog))
refused_turn_retried python c t h now later f e =
    let (a1, n1, s1, w1) = turn-failed python c t h now f e in
    let c1 = (on_hero_turn python c t h now false).0 in
    let (a2, n2, s2) = turn-taken python c1 t h later (rw s1 f) w1 in
    (a1, n1, a2, n2, λ h' n sent p. turn-replayed python _ t h' n sent (rw p s2))
