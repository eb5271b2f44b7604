-- ===== src/Street/Raises.antt =====
-- The legal amounts that a hint frame carries: the least raise, and the most that others cover.
use poker_eye_v.Prelude.{
  ℕ, ◌+◌, ◌-◌, ◌≤◌, ◌<◌, ◌≡◌, ◌≢◌, ◌⊎◌, refl, subst, ◌↔◌, max, List, [], ◌∷◌, arith, nat_key, All,
  inl, inr,
}
use poker_eye_v.Dict.{Dict, Distinct, AllEntries, AllEntries-get}
use poker_eye_v.Street.{
  SeatState, StreetState, seat_or_new, call_need, active_others, count_can_act, min_raise_to, cover,
  best_cover, max_call_or_raise_to,
}
use poker_eye_v.Street.Covered.{IsSound}

count-active_others :
    (seats : Dict ℕ SeatState) (actor : ℕ)
    → AllEntries (λ k s. s.seat ≡ k) seats
    → (count_can_act seats actor ≡ 0) ↔ (active_others seats actor ≡ [])
unfolding count_can_act active_others
count-active_others [] actor h = ((λ e. refl), λ e. refl)
count-active_others ((k, s) ∷ seats) actor h =
    let rest = count-active_others seats actor h.1 in
    (ground (arith, rest.0), ground (arith, rest.1))

-- With nobody else able to act the least raise is 0. Otherwise it takes the seat's bet to the
-- highest bet and the last full raise, at least 1, on top, and so is more than a call.
pub min_raise_to_lem :
    (street : StreetState) (seat : ℕ)
    → IsSound street
    → Distinct street.seats
    → (active_others street.seats seat ≡ [] → min_raise_to street seat ≡ 0)
      × (active_others street.seats seat ≢ []
          → ((seat_or_new street.seats seat).street_contribution + min_raise_to street seat
              ≡ street.current_max + max 1 street.last_full_raise)
            × (call_need street seat < min_raise_to street seat))
unfolding min_raise_to call_need
min_raise_to_lem street seat v h =
    let keyed = AllEntries-get (λ k s. s.seat ≡ k) street.seats h (λ k s e. (v.at k s e).0) in
    let none_left = count-active_others street.seats seat keyed in
    (
      λ e. ground (arith, none_left.1 e),
      λ n. ground (
        arith,
        λ (e : count_can_act street.seats seat ≡ 0). n (none_left.0 e),
        v.at seat (seat_or_new street.seats seat),
      ),
    )

-- Some element of the list has the property.
abbrev pub Any : (SeatState → Type 0) → List SeatState → Type 0
Any P [] = ⊥
Any P (s ∷ ss) = P s ⊎ Any P ss

All-le :
    (a b : ℕ) (ss : List SeatState) → a ≤ b → All (λ s. cover s ≤ a) ss → All (λ s. cover s ≤ b) ss
All-le a b [] h v = tt
All-le a b (s ∷ ss) h v = (omega arith, All-le a b ss h v.1)

best_cover-bounds : (ss : List SeatState) (put : ℕ) → All (λ s. cover s ≤ best_cover ss put) ss
unfolding best_cover
best_cover-bounds [] put = tt
best_cover-bounds (s ∷ []) put = omega arith
best_cover-bounds (s ∷ t ∷ ss) put =
    let rest = best_cover-bounds (t ∷ ss) put in
    (omega arith, All-le (best_cover (t ∷ ss) put) _ (t ∷ ss) (omega arith) rest)

le_total : (a b : ℕ) → (a ≤ b) ⊎ (b ≤ a)
le_total a b = omega arith

best_cover-attained :
    (s : SeatState) (ss : List SeatState) (put : ℕ)
    → Any (λ t. cover t ≡ best_cover (s ∷ ss) put) (s ∷ ss)
unfolding best_cover
best_cover-attained s [] put = inl refl
best_cover-attained s (t ∷ ss) put = elim (le_total (best_cover (t ∷ ss) put) (cover s)) [
  | inl h ↦ inl (omega arith)
  | inr h ↦
      inr
        (subst (λ b. Any (λ u. cover u ≡ b) (t ∷ ss)) (omega arith) (best_cover-attained t ss put))
]

best_cover_cases :
    (ss : List SeatState) (put : ℕ)
    → (best_cover ss put ≤ put) ⊎ Any (λ s. cover s ≡ put + (best_cover ss put - put)) ss
best_cover_cases [] put = inl (unfold best_cover in omega arith)
best_cover_cases (s ∷ ss) put = elim (le_total (best_cover (s ∷ ss) put) put) [
  | inl h ↦ inl h
  | inr h ↦
      inr
        (subst (λ b. Any (λ u. cover u ≡ b) (s ∷ ss)) (omega arith) (best_cover-attained s ss put))
]

-- The most that the seat can put in covers each other seat that can act, and is not more than the
-- largest of those needs: it is 0, or takes the seat's bet to the cover of one of them.
pub max_call_or_raise_to_lem :
    (street : StreetState) (seat : ℕ)
    → let put = (seat_or_new street.seats seat).street_contribution in
      let most = max_call_or_raise_to street seat in
      let others = active_others street.seats seat in
      All (λ s. cover s ≤ put + most) others × ((most ≡ 0) ⊎ Any (λ s. cover s ≡ put + most) others)
unfolding max_call_or_raise_to
max_call_or_raise_to_lem street seat =
    let put = (seat_or_new street.seats seat).street_contribution in
    let others = active_others street.seats seat in
    (
      All-le (best_cover others put) _ others (omega arith) (best_cover-bounds others put),
      elim (best_cover_cases others put) [ inl h ↦ inl (omega arith) | inr a ↦ inr a ],
    )
