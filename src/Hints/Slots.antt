-- ===== src/Hints/Slots.antt =====
-- The watchdog seen table by table: a slot holds the outstanding hint and the held successor, and
-- every operation changes the slot of its own table alone, as a function of that slot.
use poker_eye_v.Prelude.{
  ℕ, ◌+◌, ◌≡◌, ◌≢◌, refl, sym, ap, ◌∙◌, String, Option, none, some, List, [], ◌∷◌, ◌++◌, arith, ltb,
  ◌==◌, if◌then◌else◌, ite, String-discrete, string_key, All, Option-cases, inl, inr,
}
use poker_eye_v.Dict
use poker_eye_v.Dict.{
  get-put, get-remove, Distinct, Distinct-put, Distinct-remove, Ready, Ready-change, Ready-keys,
  All-keys-get, keys-ne_of_none,
}
use poker_eye_v.Hints.{
  HintWatchdog, OutstandingHint, HintTransition, new_hint, is_other_hand, observe_hint, cancel,
  promote, observe_finish, poll_hint, poll_tables, poll,
}

pub record Slot : Type 0 where
  pub cur : Option OutstandingHint
  pub succ : Option OutstandingHint

abbrev pub slot : HintWatchdog → String → Slot
slot w t = record { cur = Dict.get w.outstanding t; succ = Dict.get w.successor t }

-- A hint arrives: it is armed, held behind the outstanding one, or dropped.
unfoldable pub observed : OutstandingHint → Option OutstandingHint → Option OutstandingHint → Slot
observed h none succ = record { cur = some h; succ = succ }
observed h (some c) none = record { cur = some c; succ = some h }
observed h (some c) (some s) = record { cur = some c; succ = some s }

unfoldable pub canceled : Option String → Option OutstandingHint → Option OutstandingHint → Slot
canceled hand none succ = record { cur = none; succ = none }
canceled hand (some c) succ =
    if is_other_hand hand c.hand_id
    then record { cur = some c; succ = succ }
    else record { cur = none; succ = none }

-- The time `now` at a slot: nothing before the timeout; then one strike; then the successor.
unfoldable pub polled : ℕ → ℕ → Option OutstandingHint → Option OutstandingHint → Slot
polled timeout now none succ = record { cur = none; succ = succ }
polled timeout now (some c) succ =
    if ltb now (c.created_at + timeout)
    then record { cur = some c; succ = succ }
    else if c.timeout_count == 0
    then record { cur = some (record c { timeout_count = 1 }); succ = succ }
    else record { cur = succ; succ = none }

module _ (w : HintWatchdog) (table t : String) where
  -- `observe_hint` arms, holds or drops the hint in its own table's slot, and keeps the others.
  pub slot-observe_hint :
      (hand : Option String) (now : ℕ)
      → let h = new_hint table hand now in
        slot (observe_hint w table hand now).0 t
        ≡ ite
            (String-discrete table t)
            (observed h (Dict.get w.outstanding t) (Dict.get w.successor t))
            (slot w t)
  unfolding observe_hint observed
  slot-observe_hint hand now =
      let h = new_hint table hand now in
      ground (arith, get-put w.outstanding table h t, get-put w.successor table h t)

  -- `cancel` clears its own table's slot unless it names another hand than the outstanding hint's, and
  -- keeps the other tables' slots.
  pub slot-cancel :
      (hand : Option String)
      → slot (cancel w table hand).0 t
        ≡ ite
            (String-discrete table t)
            (canceled hand (Dict.get w.outstanding t) (Dict.get w.successor t))
            (slot w t)
  unfolding cancel canceled
  slot-cancel hand =
      ground (arith, get-remove w.outstanding table t, get-remove w.successor table t)

  abbrev Promoted : HintWatchdog → Type 0
  Promoted w' =
      slot (promote w' table).0 t
      ≡ ite (String-discrete table t)
          (record {
            cur = elim (Dict.get w'.successor t) [
              | none ↦ Dict.get w'.outstanding t
              | some s ↦ some s
            ];
            succ = none;
          })
          (slot w' t)

  slot-promote : (w' : HintWatchdog) → Promoted w'
  unfolding promote
  slot-promote w' = elim (Option-cases (Dict.get w'.successor table)) [
    | inl e ↦ ground (arith, e, get-remove w'.successor table t)
    | inr (s, e) ↦
        ground (arith, e, get-remove w'.successor table t, get-put w'.outstanding table s t)
  ]

  -- `observe_finish` puts the held successor, or nothing, in the place of the finished hint.
  pub slot-observe_finish :
      slot (observe_finish w table).0 t
      ≡ ite
          (String-discrete table t)
          (record { cur = Dict.get w.successor t; succ = none })
          (slot w t)
  unfolding observe_finish
  slot-observe_finish = ground (
    arith,
    get-remove w.outstanding table t,
    slot-promote (record w { outstanding = Dict.remove w.outstanding table }),
  )

  slot-poll_hint :
      (now : ℕ) (c : OutstandingHint)
      → Dict.get w.outstanding table ≡ some c
      → slot (poll_hint w now table c).0 t
        ≡ ite
            (String-discrete table t)
            (polled w.timeout now (Dict.get w.outstanding t) (Dict.get w.successor t))
            (slot w t)
  unfolding poll_hint polled
  slot-poll_hint now c e = ground (
    arith,
    get-remove w.outstanding table t,
    get-put w.outstanding table (record c { timeout_count = 1 }) t,
    slot-promote (record w { outstanding = Dict.remove w.outstanding table }),
  )

poll_hint-timeout :
    (w : HintWatchdog) (now : ℕ) (table : String) (c : OutstandingHint)
    → (poll_hint w now table c).0.timeout ≡ w.timeout
unfolding poll_hint promote
poll_hint-timeout w now table c = ground arith

pub promote-Distinct :
    (w : HintWatchdog) (table : String)
    → Distinct w.outstanding
    → Distinct (promote w table).0.outstanding
unfolding promote
promote-Distinct w table h = elim (Option-cases (Dict.get w.successor table)) [
  | inl e ↦ rw (e, promote) h
  | inr (s, e) ↦ rw (e, promote) (Distinct-put w.outstanding table s h)
]

poll_hint-Distinct :
    (w : HintWatchdog) (now : ℕ) (table : String) (c : OutstandingHint)
    → Distinct w.outstanding
    → Distinct (poll_hint w now table c).0.outstanding
unfolding poll_hint
poll_hint-Distinct w now table c h = ground (
  arith,
  Distinct-put w.outstanding table (record c { timeout_count = 1 }) h,
  promote-Distinct (record w { outstanding = Dict.remove w.outstanding table }) table
      (Distinct-remove w.outstanding table h),
)

abbrev pub polled_slot : HintWatchdog → ℕ → String → Slot
polled_slot w now t = polled w.timeout now (Dict.get w.outstanding t) (Dict.get w.successor t)

-- What the rounds of `poll` for the tables `ts` have done: those are polled, the others kept.
record Polled (w : HintWatchdog) (now : ℕ) (ts : List String) : Type 0 where
  after : HintWatchdog
  transitions : List HintTransition
  returned : poll_tables w now ts ≡ some (after, transitions)
  same_timeout : after.timeout ≡ w.timeout
  distinct : Distinct w.outstanding → Distinct after.outstanding
  kept : (t : String) → All (λ u. u ≢ t) ts → slot after t ≡ slot w t
  visited : All (λ t. slot after t ≡ polled_slot w now t) ts

-- One round, for the table `t` with the hint `c`.
module _ (w : HintWatchdog) (now : ℕ) (t : String) (c : OutstandingHint)
    (e : Dict.get w.outstanding t ≡ some c) where
  abbrev rounded : HintWatchdog
  rounded = (poll_hint w now t c).0

  round_own : slot rounded t ≡ polled_slot w now t
  round_own = ground (arith, slot-poll_hint w t t now c e)

  round_other : (u : String) → u ≢ t → slot rounded u ≡ slot w u
  round_other u n = ground (arith, slot-poll_hint w t u now c e)

  round_polled : (u : String) → u ≢ t → polled_slot rounded now u ≡ polled_slot w now u
  round_polled u n = ground (arith, round_other u n, poll_hint-timeout w now t c)

  round_visited :
      (after : HintWatchdog) (ts : List String)
      → All (λ u. u ≢ t) ts
      → All (λ u. slot after u ≡ polled_slot rounded now u) ts
      → All (λ u. slot after u ≡ polled_slot w now u) ts
  round_visited after [] a h = tt
  round_visited after (u ∷ ts) (n, a) (h, hs) = (h ∙ round_polled u n, round_visited after ts a hs)

poll_tables-Polled :
    (w : HintWatchdog) (now : ℕ) (ts : List String) → Ready w.outstanding ts → Polled w now ts
unfolding poll_tables
poll_tables-Polled w now [] r = record {
  after = w;
  transitions = [];
  returned = refl;
  same_timeout = refl;
  distinct = λ h. h;
  kept = λ t a. refl;
  visited = tt;
}
poll_tables-Polled w now (t ∷ ts) (present, fresh, r) =
    elim (Option-cases (Dict.get w.outstanding t)) [
      | inl e ↦ absurd (present e)
      | inr (c, e) ↦
          let w' = rounded w now t c e in
          let other =
            λ (u : String) (n : u ≢ t). ap (λ (s : Slot). s.cur) (round_other w now t c e u n) in
          let rest : Polled w' now ts =
            poll_tables-Polled w' now ts
              (Ready-change w.outstanding w'.outstanding t ts other fresh r) in
          record {
            after = rest.after;
            transitions = (poll_hint w now t c).1 ++ rest.transitions;
            returned = rw (e, poll_tables) (rw rest.returned);
            same_timeout = rest.same_timeout ∙ poll_hint-timeout w now t c;
            distinct = λ h. rest.distinct (poll_hint-Distinct w now t c h);
            kept = λ u a. rest.kept u a.1 ∙ round_other w now t c e u (λ p. a.0 (sym p));
            visited = (
              rest.kept t fresh ∙ round_own w now t c e,
              round_visited w now t c e rest.after ts fresh rest.visited,
            );
          }
    ]

-- On a dictionary with distinct keys `poll` never meets a missing key. It polls the slot of every
-- table on its own, in whatever order the tables stand, and keeps the keys distinct and the timeout.
pub slot-poll :
    (w : HintWatchdog) (now : ℕ)
    → Distinct w.outstanding
    → (w' : HintWatchdog) × (ts : List HintTransition) × (poll w now ≡ some (w', ts))
      × ((t : String) → slot w' t ≡ polled_slot w now t)
      × Distinct w'.outstanding
      × (w'.timeout ≡ w.timeout)
unfolding poll
slot-poll w now h =
    (all.after, all.transitions, all.returned, each, all.distinct h, all.same_timeout)
  where
    all : Polled w now (Dict.keys w.outstanding)
    all = poll_tables-Polled w now _ (Ready-keys w.outstanding h)

    absent : (t : String) → Dict.get w.outstanding t ≡ none → slot all.after t ≡ polled_slot w now t
    absent t e = all.kept t (keys-ne_of_none w.outstanding t e) ∙ unfold polled in ground arith

    each : (t : String) → slot all.after t ≡ polled_slot w now t
    each t = elim (Option-cases (Dict.get w.outstanding t)) [
      | inl e ↦ absent t e
      | inr (c, e) ↦
          All-keys-get (λ u. slot all.after u ≡ polled_slot w now u) w.outstanding t c all.visited e
    ]
