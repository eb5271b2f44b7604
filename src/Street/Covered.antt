-- ===== src/Street/Covered.antt =====
-- The highest bet of the street is at least what any seat has put in, and calling meets it.
use poker_eye_v.Prelude.{
  ℕ, ◌+◌, ◌-◌, ◌≤◌, ◌≡◌, refl, Bool, true, none, some, List, [], ◌∷◌, arith, nat_key, ite,
  ℕ_discrete, max, if◌then◌else◌, Option-cases, inl, inr,
}
use poker_eye_v.Dict
use poker_eye_v.Dict.{Dict, get-put}
use poker_eye_v.Street.{
  SeatState, StreetState, new_seat, contribute, set_raise, fold, clear_seats, reset_street,
  call_need, seat_or_new, cleared,
}

-- Under its number stands the seat itself, with no more on the street than the highest bet.
pub record IsSound (street : StreetState) : Type 0 where
  pub at :
      (k : ℕ) (s : SeatState)
      → Dict.get street.seats k ≡ some s
      → (s.seat ≡ k) × (s.street_contribution ≤ street.current_max)

-- The calls that change the street.
pub data Call : Type 0 where
  contributes : ℕ → ℕ → Bool → Call
  raises folds : ℕ → Call
  resets : Call

unfoldable pub step : StreetState → Call → StreetState
step street (contributes seat amount all_in) = contribute street seat amount all_in
step street (raises full) = set_raise street full
step street (folds seat) = fold street seat
step street resets = reset_street street

unfoldable pub run : StreetState → List Call → StreetState
run street [] = street
run street (c ∷ cs) = run (step street c) cs

get-clear_seats :
    (seats : Dict ℕ SeatState) (k : ℕ)
    → Dict.get (clear_seats seats) k
      ≡ elim (Dict.get seats k) [ none ↦ none | some s ↦ some (cleared s) ]
unfolding clear_seats Dict.get
get-clear_seats [] k = refl
get-clear_seats ((j, s) ∷ seats) k = ground (arith, get-clear_seats seats k)

-- What `contribute` makes of a seat.
abbrev pub contributed : SeatState → ℕ → Bool → SeatState
contributed s amount all_in = record s {
  street_contribution = s.street_contribution + amount;
  remaining_stack = s.remaining_stack - amount;
  all_in = if all_in then true else s.all_in;
}

module _ (street : StreetState) (seat : ℕ) where
  -- `contribute` changes the one seat, which is new if it was not there, and raises the highest bet
  -- to what that seat has put in.
  pub get-contribute :
      (amount k : ℕ) (all_in : Bool)
      → let old = seat_or_new street.seats seat in
        (Dict.get (contribute street seat amount all_in).seats k
          ≡ ite
              (ℕ_discrete seat k)
              (some (contributed old amount all_in))
              (Dict.get street.seats k))
        × ((contribute street seat amount all_in).current_max
            ≡ max street.current_max (old.street_contribution + amount))
        × ((contribute street seat amount all_in).last_full_raise ≡ street.last_full_raise)
  unfolding contribute
  get-contribute amount k all_in =
      let first = Dict.put street.seats seat (new_seat seat) in
      ground (
        arith,
        get-put street.seats seat (new_seat seat) k,
        get-put first seat (contributed (new_seat seat) amount all_in) k,
        get-put street.seats seat (contributed (seat_or_new street.seats seat) amount all_in) k,
      )

  pub get-fold :
      (k : ℕ)
      → let old = seat_or_new street.seats seat in
        (Dict.get (fold street seat).seats k
          ≡ ite (ℕ_discrete seat k) (some (record old { folded = true })) (Dict.get street.seats k))
        × ((fold street seat).current_max ≡ street.current_max)
  unfolding fold
  get-fold k =
      let first = Dict.put street.seats seat (new_seat seat) in
      ground (
        arith,
        get-put street.seats seat (new_seat seat) k,
        get-put first seat (record (new_seat seat) { folded = true }) k,
        get-put street.seats seat (record (seat_or_new street.seats seat) { folded = true }) k,
      )

step-at :
    (street : StreetState) (c : Call)
    → IsSound street
    → (k : ℕ) (s : SeatState) → Dict.get (step street c).seats k ≡ some s
    → (s.seat ≡ k) × (s.street_contribution ≤ (step street c).current_max)
unfolding step set_raise reset_street
step-at street (contributes seat amount all_in) v k s e = ground (
  arith,
  get-contribute street seat amount k all_in,
  v.at k s,
  v.at seat (seat_or_new street.seats seat),
)
step-at street (raises full) v k s e = ground (arith, v.at k s)
step-at street (folds seat) v k s e =
    ground (arith, get-fold street seat k, v.at k s, v.at seat (seat_or_new street.seats seat))
step-at street resets v k s e = elim (Option-cases (Dict.get street.seats k)) [
  | inl n ↦ ground (arith, get-clear_seats street.seats k)
  | inr (t, h) ↦ ground (arith, get-clear_seats street.seats k, v.at k t)
]

-- After any calls, no seat has put in more than the highest bet.
pub street_run-IsSound :
    (street : StreetState) (cs : List Call) → IsSound street → IsSound (run street cs)
unfolding run
street_run-IsSound street [] v = v
street_run-IsSound street (c ∷ cs) v =
    street_run-IsSound (step street c) cs (record { at = step-at street c v })

-- `call_need` is exactly what a seat lacks of the highest bet; once it has put that in, it lacks
-- nothing, and the highest bet is as before.
pub call_need_exact :
    (street : StreetState) (seat : ℕ) (all_in : Bool)
    → IsSound street
    → let need = call_need street seat in
      let called = contribute street seat need all_in in
      ((seat_or_new street.seats seat).street_contribution + need ≡ street.current_max)
      × (call_need called seat ≡ 0)
      × (called.current_max ≡ street.current_max)
unfolding call_need
call_need_exact street seat all_in v =
    let need = street.current_max - (seat_or_new street.seats seat).street_contribution in
    ground (
      arith,
      v.at seat (seat_or_new street.seats seat),
      get-contribute street seat need seat all_in,
    )
