-- ===== src/Events/Metadata.antt =====
-- What of a frame can be found in its event.
use poker_eye_v.Prelude.{String, ◌≡◌, refl, List, [], ◌∷◌, length, All}
use poker_eye_v.Json.{Json, Fields, get}
use poker_eye_v.CoinWire.Octets.{Bytes}
use poker_eye_v.Events.{
  Direction, coin_allowlist, eye_allowlist, pick, Origin, coin_frame, eye_frame, as_dict,
}

-- Two dictionaries have the same values of the keys of a list.
abbrev pub Agree : Fields → Fields → List String → Type 0
Agree d d' ks = All (λ k. get d k ≡ get d' k) ks

pick_same : (ks : List String) (d d' : Fields) → Agree d d' ks → pick d ks ≡ pick d' ks
unfolding pick
pick_same [] d d' h = refl
pick_same (k ∷ ks) d d' (e, h) = rw (e, pick_same ks d d' h) refl

module _ (text_of : Json → String) (body_sha256 : Bytes → String) where
  -- An event says nothing of a frame but its length, its hash and the decoded fields of the allowlist
  -- of its family: two Coin frames of the same direction and origin that agree in these have the same
  -- event in the log, whatever else they contain, and so have two EYE frames.
  pub frames_alike :
      (direction : Direction) (from : Origin) (raw raw' : Bytes) (turn turn' hint hint' : Fields)
      → length raw ≡ length raw'
      → body_sha256 raw ≡ body_sha256 raw'
      → Agree turn turn' coin_allowlist
      → Agree hint hint' eye_allowlist
      → (as_dict (coin_frame text_of body_sha256 direction raw turn from)
          ≡ as_dict (coin_frame text_of body_sha256 direction raw' turn' from))
        × (as_dict (eye_frame text_of body_sha256 direction raw hint from)
            ≡ as_dict (eye_frame text_of body_sha256 direction raw' hint' from))
  unfolding coin_frame eye_frame
  frames_alike direction from raw raw' turn turn' hint hint' l s c e = (
    rw (l, s, pick_same coin_allowlist turn turn' c) refl,
    rw (l, s, pick_same eye_allowlist hint hint' e) refl,
  )
