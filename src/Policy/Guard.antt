-- ===== src/Policy/Guard.antt =====
-- A CALL is sent only where chips are needed.
use poker_eye_v.Prelude.{
  ℕ, ◌<◌, ◌≡◌, ◌⊎◌, refl, String, true, false, Option, none, some, arith, Bool-cases, inl, inr,
}
use poker_eye_v.Prelude.Int.{ℤ}
use poker_eye_v.Json.{Fields}
use poker_eye_v.Street.{StreetState, call_need, seat_or_new}
use poker_eye_v.Policy.Words.{CcType, cc_type, has_code}
use poker_eye_v.Policy.Resolve.{
  ResolvedAction, check_action, is_call, options_or_empty, resolve_type, resolve,
}
use poker_eye_v.Policy.{
  ActionDecision, Status, state_gap_check, is_paid, assess_call_zero, checked, decide_cc_action,
}

resolve_type-unpaid :
    (text_float : String → Option ℤ) (t : CcType) (msg options : Fields) (bet scale : ℕ)
    (a : ResolvedAction)
    → is_paid t ≡ false
    → resolve_type text_float t msg options bet scale ≡ some a
    → is_call a ≡ false
resolve_type-unpaid text_float CcType.fold msg options bet scale a p e = ground (arith, e)
resolve_type-unpaid text_float CcType.check msg options bet scale a p e = ground (arith, e)
resolve_type-unpaid text_float CcType.other msg options bet scale a p e = absurd (cc e)
resolve_type-unpaid text_float CcType.call msg options bet scale a p e = absurd (cc p)
resolve_type-unpaid text_float CcType.raise msg options bet scale a p e = absurd (cc p)
resolve_type-unpaid text_float CcType.bet msg options bet scale a p e = absurd (cc p)
resolve_type-unpaid text_float CcType.all_in msg options bet scale a p e = absurd (cc p)

checked-some :
    (need : ℕ) (options : Option Fields) (o : Option ResolvedAction) (a : ResolvedAction)
    → (checked need options o).action ≡ some a
    → o ≡ some a
unfolding checked
checked-some need options none a e = absurd (cc e)
checked-some need options (some b) a e = ground (arith, e)

zero_or_more : (n : ℕ) → (n ≡ 0) ⊎ (0 < n)
zero_or_more n = omega arith

module _ (text_float : String → Option ℤ) (msg : Fields) (street : StreetState) (seat : ℕ)
    (options : Option Fields) (scale : ℕ) where
  abbrev decision : ActionDecision
  decision = decide_cc_action text_float msg street seat options scale

  -- Where the seat lacks nothing and the CC asks for a paid action, a CHECK is sent if Coin allows one,
  -- marked as a gap, and else nothing is sent and the operator is asked.
  pub paid_without_need :
      call_need street seat ≡ 0
      → is_paid (cc_type msg) ≡ true
      → ((has_code options 3 ≡ true)
          × (decision.action ≡ some check_action)
          × (decision.status ≡ state_gap_check))
        ⊎ ((has_code options 3 ≡ false)
            × (decision.action ≡ none)
            × (decision.status ≡ Status.needs_operator))
  unfolding decide_cc_action assess_call_zero
  paid_without_need z p = elim (Bool-cases (has_code options 3)) [
    | inl e ↦ inl (e, rw (z, p, e) refl, rw (z, p, e) refl)
    | inr e ↦ inr (e, rw (z, p, e) refl, rw (z, p, e) refl)
  ]

  decide-unguarded :
      (a : ResolvedAction)
      → is_paid (cc_type msg) ≡ false
      → decision.action ≡ some a
      → is_call a ≡ false
  unfolding decide_cc_action resolve
  decide-unguarded a p e =
      let bet = (seat_or_new street.seats seat).street_contribution in
      let resolved = resolve text_float msg options bet scale in
      ground (
        arith,
        p,
        checked-some (call_need street seat) options resolved a,
        resolve_type-unpaid text_float (cc_type msg) msg (options_or_empty options) bet scale a,
      )

  -- A CALL is decided only where the seat lacks chips of the highest bet.
  pub call_needs_chips :
      (a : ResolvedAction) → decision.action ≡ some a → is_call a ≡ true → 0 < call_need street seat
  call_needs_chips a e c = elim (zero_or_more (call_need street seat)) [
    | inr h ↦ h
    | inl z ↦ elim (Bool-cases (is_paid (cc_type msg))) [
      | inr p ↦ absurd (cc (decide-unguarded a p e, c))
      | inl p ↦ elim (paid_without_need z p) [
        | inl (l, s, t) ↦ ground (arith, s, e, c)
        | inr (l, s, t) ↦ absurd (cc (s, e))
      ]
    ]
  ]
