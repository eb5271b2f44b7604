-- ===== src/Bridge/Attempts.antt =====
-- `_attempt_loop` of core/bridge.py: the thread of one action, cut where it sleeps or sends. What
-- `device_sender` answers goes to an event only.
use poker_eye_v.Prelude.{
  ℕ, ◌+◌, ◌==◌, ltb, leb, true, false, none, some, List, [], ◌∷◌, string_key, nat_key,
}
use poker_eye_v.Prelude.Int.{pos}
use poker_eye_v.Dict
use poker_eye_v.Json.{Fields, int, float, str, obj, end, field}
use poker_eye_v.Actions.{Action, max_attempts, next_attempt, finish_failed, has_active}
use poker_eye_v.Ledger.{failed}
use poker_eye_v.Bridge.Context.{
  starting, delayed, awaiting_ack, AttemptLoop, BridgeContext, Output, action_sent, finalize,
}

-- The frame of an attempt.
abbrev pub action_frame : BridgeContext → Action → AttemptLoop → Fields
action_frame c a l = field "type" (str "action") (
    field "correlation_id" (str a.correlation_id) (
      field "generation" (int (pos a.generation)) (
        field "device_id" (str c.device_id) (
          field "command" (str a.command) (
            field "amount" (float a.amount)
              (field "attempt" (int (pos l.attempt)) (field "options" (obj l.options) end)))))))

-- The thread returns.
abbrev pub ended : BridgeContext → ℕ → BridgeContext
ended c r = record c { loops = Dict.remove c.loops r }

abbrev pub continued : BridgeContext → ℕ → AttemptLoop → BridgeContext
continued c r l = record c { loops = Dict.put c.loops r l }

-- Behind the loop: `finished is not None and finished is action`
unfoldable pub exhausted : BridgeContext → ℕ → ℕ → BridgeContext × List Output
exhausted c r now =
    let (s, finished) = finish_failed c.scheduler c.device_id in
    let c' = record (ended c r) { scheduler = s } in
    elim finished [
      | none ↦ (c', [])
      | some q ↦ elim (q == r) [
        | false ↦ (c', [])
        | true ↦ finalize c' (s.objects r) failed "3 attempts exhausted without ACK" now
      ]
    ]

-- The next round of the `for`, or its end.
unfoldable pub next_round : BridgeContext → ℕ → AttemptLoop → ℕ → BridgeContext × List Output
next_round c r l now = elim (leb max_attempts l.attempt) [
  | true ↦ exhausted c r now
  | false ↦
      let (s, scheduled) = next_attempt c.scheduler c.device_id in
      let c' = record c { scheduler = s } in
      elim scheduled [
        | none ↦ exhausted c' r now
        | some (q, gap) ↦ (
          continued c' r
              (record l { phase = delayed; attempt = l.attempt + 1; deadline = now + gap }),
          [],
        )
      ]
]

-- The delay is over, and some action of the device is active.
abbrev sent : BridgeContext → ℕ → AttemptLoop → ℕ → BridgeContext × List Output
sent c r l now =
    let a = c.scheduler.objects r in
    (
      continued c r (record l { phase = awaiting_ack; deadline = now + c.ack_timeout }),
      action_sent r a.table_id (action_frame c a l) ∷ [],
    )

unfoldable pub advance_loop : BridgeContext → ℕ → AttemptLoop → ℕ → BridgeContext × List Output
advance_loop c r l now = elim l.phase [
  | starting ↦ (
    continued (record c { scheduler = (next_attempt c.scheduler c.device_id).0 }) r
        (record l { phase = delayed; deadline = now + l.deadline }),
    [],
  )
  | delayed ↦ elim (has_active c.scheduler c.device_id) [
    | false ↦ (ended c r, [])
    | true ↦ elim (ltb now l.deadline) [ true ↦ (c, []) | false ↦ sent c r l now ]
  ]
  | awaiting_ack ↦ elim (ltb now l.deadline) [
    | true ↦ elim (has_active c.scheduler c.device_id) [ true ↦ (c, []) | false ↦ (ended c r, []) ]
    | false ↦ next_round c r l now
  ]
]

-- The thread of the action `r` runs to its next sleep, at the time `now`.
unfoldable pub advance : BridgeContext → ℕ → ℕ → BridgeContext × List Output
advance c r now = elim (Dict.get c.loops r) [ none ↦ (c, []) | some l ↦ advance_loop c r l now ]
