-- ===== src/Street/Tables.antt =====
-- `TableState`: the generation counts the hands, and a new hand starts from nothing.
use poker_eye_v.Prelude.{ℕ, suc, ◌+◌, ◌≡◌, String, Option, none, some, List, [], ◌∷◌, arith}
use poker_eye_v.Json.{Fields, end}
use poker_eye_v.Street.{StreetState, new_street_state, reset_street}

pub record TableState : Type 0 where
  pub device_id : String
  pub table_id : String
  pub generation : ℕ
  pub hand_id : Option String
  pub street : ℕ
  pub street_state : StreetState
  pub user_turn_options : Fields
  pub source : Option String

-- TableState(device_id, table_id)
abbrev pub new_table : String → String → TableState
new_table device table = record {
  device_id = device;
  table_id = table;
  generation = 1;
  hand_id = none;
  street = 0;
  street_state = new_street_state;
  user_turn_options = end;
  source = none;
}

unfoldable pub new_hand : TableState → String → TableState
new_hand t hand = record t {
  hand_id = some hand;
  generation = t.generation + 1;
  street = 0;
  street_state = new_street_state;
  user_turn_options = end;
  source = none;
}

unfoldable pub new_street : TableState → ℕ → TableState
new_street t street = record t { street = street; street_state = reset_street t.street_state }

pub data Boundary : Type 0 where
  hands : String → Boundary
  streets : ℕ → Boundary

unfoldable pub cross : TableState → Boundary → TableState
unfolding new_hand new_street
cross t (hands hand) = new_hand t hand
cross t (streets street) = new_street t street

unfoldable pub cross_all : TableState → List Boundary → TableState
cross_all t [] = t
cross_all t (b ∷ bs) = cross_all (cross t b) bs

abbrev pub hand_count : List Boundary → ℕ
hand_count [] = 0
hand_count (hands hand ∷ bs) = suc (hand_count bs)
hand_count (streets street ∷ bs) = hand_count bs

-- Along any boundaries the generation grows by the number of new hands and by nothing else, the
-- table keeps its identity, and the highest bet is 0 after each boundary.
pub generation-cross_all :
    (t : TableState) (bs : List Boundary)
    → t.street_state.current_max ≡ 0
    → let u = cross_all t bs in
      (u.generation ≡ t.generation + hand_count bs)
      × (u.device_id ≡ t.device_id)
      × (u.table_id ≡ t.table_id)
      × (u.street_state.current_max ≡ 0)
unfolding cross_all cross reset_street
generation-cross_all t [] z = ground arith
generation-cross_all t (hands hand ∷ bs) z =
    ground (arith, generation-cross_all (new_hand t hand) bs)
generation-cross_all t (streets street ∷ bs) z =
    ground (arith, generation-cross_all (new_street t street) bs)
