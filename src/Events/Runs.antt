-- ===== src/Events/Runs.antt =====
-- Concrete frames, and the theorems at concrete inputs.
use poker_eye_v.Prelude.{String, ◌≡◌, refl, none, some, [], ◌∷◌, String-discrete}
use poker_eye_v.Prelude.Int.{pos}
use poker_eye_v.Json.{Json, int, str, obj, Fields, end, field, get}
use poker_eye_v.CoinWire.Octets.{Bytes}
use poker_eye_v.Events.{
  incoming, coin_allowlist, eye_allowlist, pick, Origin, coin_frame, eye_frame, as_dict,
  parse_cc_data,
}
use poker_eye_v.Events.Metadata.{Agree, frames_alike}

abbrev text_of : Json → String
text_of (str s) = s
text_of _ = "other"

abbrev hash : Bytes → String
hash raw = "hash"

abbrev from : Origin
from = record { seq = some 7; correlation_id = none; source = none; ts = 5 }

-- The card is not in the event.
abbrev secret : Fields
secret = field "card" (str "As") (field "cmd" (str "turn") end)

abbrev plain : Fields
plain = field "cmd" (str "turn") end

secret_picked : pick secret coin_allowlist ≡ plain
unfolding pick get String-discrete
secret_picked = refl

parse_cc_data_runs :
    (parse_cc_data (λ t. some (obj plain)) (str "{}") ≡ plain)
    × ((parse_cc_data (λ t. none) (str "{}") ≡ end)
        × (parse_cc_data (λ t. none) (int (pos 1)) ≡ end))
unfolding parse_cc_data
parse_cc_data_runs = (refl, (refl, refl))

coin_alike : Agree secret plain coin_allowlist
unfolding get String-discrete
coin_alike = (refl, (refl, (refl, (refl, (refl, (refl, tt))))))

eye_alike : Agree secret plain eye_allowlist
unfolding get String-discrete
eye_alike =
    (refl, (refl, (refl, (refl, (refl, (refl, (refl, (refl, (refl, (refl, (refl, tt)))))))))))

frames_alike_example :
    (as_dict (coin_frame text_of hash incoming (1 ∷ []) secret from)
      ≡ as_dict (coin_frame text_of hash incoming (2 ∷ []) plain from))
    × (as_dict (eye_frame text_of hash incoming (1 ∷ []) secret from)
        ≡ as_dict (eye_frame text_of hash incoming (2 ∷ []) plain from))
frames_alike_example =
    frames_alike text_of hash incoming from (1 ∷ []) (2 ∷ []) secret plain secret plain refl refl
      coin_alike eye_alike
