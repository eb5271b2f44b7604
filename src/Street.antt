-- ===== src/Street.antt =====
-- `SeatState`, `StreetState` and `TableState` of core/state.py. Chips are whole and not negative;
-- Python's `max(0, a - b)` is the subtraction of ℕ.
pub mod Covered
pub mod Raises
pub mod Tables
mod Runs
use poker_eye_v.Prelude.{
  ℕ, ◌+◌, ◌-◌, max, String, Bool, true, false, ◌&&◌, not, Option, none, some, List, [], ◌∷◌, ◌==◌,
  if◌then◌else◌, nat_key,
}
use poker_eye_v.Dict
use poker_eye_v.Dict.{Dict}

pub record SeatState : Type 0 where
  pub seat : ℕ
  pub street_contribution : ℕ
  pub remaining_stack : ℕ
  pub folded : Bool
  pub all_in : Bool

pub record StreetState : Type 0 where
  pub seats : Dict ℕ SeatState
  pub current_max : ℕ
  pub last_full_raise : ℕ

abbrev pub new_seat : ℕ → SeatState
new_seat seat = record {
  seat = seat;
  street_contribution = 0;
  remaining_stack = 0;
  folded = false;
  all_in = false;
}

abbrev pub new_street_state : StreetState
new_street_state = record { seats = []; current_max = 0; last_full_raise = 0 }

-- self.seats.get(seat, SeatState(seat=seat))
abbrev pub seat_or_new : Dict ℕ SeatState → ℕ → SeatState
seat_or_new seats seat = elim (Dict.get seats seat) [ none ↦ new_seat seat | some s ↦ s ]

-- The seat under its number, which is created if it is not there; with the seats after that.
unfoldable pub ensure_seat : StreetState → ℕ → StreetState × SeatState
ensure_seat street seat = elim (Dict.get street.seats seat) [
  | none ↦ (record street { seats = Dict.put street.seats seat (new_seat seat) }, new_seat seat)
  | some s ↦ (street, s)
]

-- Writes to a `SeatState` show under its number.
abbrev pub write_seat : StreetState → ℕ → SeatState → StreetState
write_seat street seat s = record street { seats = Dict.put street.seats seat s }

unfoldable pub contribute : StreetState → ℕ → ℕ → Bool → StreetState
unfolding ensure_seat
contribute street seat amount all_in =
    let (street', s) = ensure_seat street seat in
    let put = s.street_contribution + amount in
    let s' : SeatState = record s {
      street_contribution = put;
      remaining_stack = s.remaining_stack - amount;
      all_in = if all_in then true else s.all_in;
    } in
    record (write_seat street' seat s') { current_max = max street.current_max put }

unfoldable pub set_raise : StreetState → ℕ → StreetState
set_raise street full_raise = record street {
  last_full_raise = max street.last_full_raise full_raise;
  current_max = max street.current_max full_raise;
}

unfoldable pub fold : StreetState → ℕ → StreetState
unfolding ensure_seat
fold street seat =
    let (street', s) = ensure_seat street seat in
    write_seat street' seat (record s { folded = true })

abbrev cleared : SeatState → SeatState
cleared s = record s { street_contribution = 0 }

-- for s in self.seats.values(): s.street_contribution = 0
unfoldable pub clear_seats : Dict ℕ SeatState → Dict ℕ SeatState
clear_seats [] = []
clear_seats ((k, s) ∷ seats) = (k, cleared s) ∷ clear_seats seats

unfoldable pub reset_street : StreetState → StreetState
reset_street street = record {
  seats = clear_seats street.seats;
  current_max = 0;
  last_full_raise = 0;
}

unfoldable pub call_need : StreetState → ℕ → ℕ
call_need street seat = street.current_max - (seat_or_new street.seats seat).street_contribution

abbrev pub can_act : SeatState → Bool
can_act s = not s.folded && not s.all_in

-- The seats, by their key, that `active_others` yields; its client reads them back by that key.
unfoldable pub active_others : Dict ℕ SeatState → ℕ → List SeatState
active_others [] actor = []
active_others ((k, s) ∷ seats) actor =
    let rest = active_others seats actor in if not (k == actor) && can_act s then s ∷ rest else rest

-- The sum in `min_raise_to`, which compares the seat's own number.
unfoldable pub count_can_act : Dict ℕ SeatState → ℕ → ℕ
count_can_act [] actor = 0
count_can_act ((k, s) ∷ seats) actor =
    (if not (s.seat == actor) && can_act s then 1 else 0) + count_can_act seats actor

unfoldable pub min_raise_to : StreetState → ℕ → ℕ
min_raise_to street seat =
    if count_can_act street.seats seat == 0
    then 0
    else street.current_max
      + max 1 street.last_full_raise
      - (seat_or_new street.seats seat).street_contribution

abbrev pub cover : SeatState → ℕ
cover s = s.street_contribution + s.remaining_stack

-- max(covers) if covers else put
unfoldable pub best_cover : List SeatState → ℕ → ℕ
best_cover [] put = put
best_cover (s ∷ []) put = cover s
best_cover (s ∷ t ∷ ss) put = max (cover s) (best_cover (t ∷ ss) put)

unfoldable pub max_call_or_raise_to : StreetState → ℕ → ℕ
max_call_or_raise_to street seat =
    let put = (seat_or_new street.seats seat).street_contribution in
    best_cover (active_others street.seats seat) put - put
