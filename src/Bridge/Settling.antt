-- ===== src/Bridge/Settling.antt =====
-- `on_cc`, `on_ack` and `on_action_uncertain` of core/bridge.py: an action is made and settled.
use Prim.Native.String.{◌++◌ as str_append}
use poker_eye_v.Prelude.{
  ℕ, ◌+◌, ◌==◌, String, Bool, true, false, Option, none, some, List, [], if◌then◌else◌, string_key,
  nat_key,
}
use poker_eye_v.Prelude.Int.{ℤ}
use poker_eye_v.Dict
use poker_eye_v.Json.{Fields}
use poker_eye_v.Actions.{
  Action, pending, write, create, acknowledge, timeout_unknown, active, str_eq, ActionScheduler,
}
use poker_eye_v.Actions.Delay.{Random, compute}
use poker_eye_v.Ledger.{LedgerStatus, success, failed, needs_operator}
use poker_eye_v.Policy.{ActionDecision, Status, decide_cc_action}
use poker_eye_v.Policy.Resolve.{ResolvedAction}
use poker_eye_v.Server.{Python}
use poker_eye_v.Street.Tables.{TableState}
use poker_eye_v.Bridge.Context.{
  starting, AttemptLoop, BridgeContext, Output, table, store, finalize_hint, finalize,
}

-- The arguments of `on_cc` besides the table, with what it reads of the outside: the numbers of the
-- CC and of the options that `HumanDelay.compute` takes, the random generator, the correlation id
-- of the new `Action`, and the time. `cc_delay` is none where `int` or `float` of one of these
-- numbers raises.
pub record Cc : Type 0 where
  pub fields : Fields
  pub hero_seat : ℕ
  pub cc_delay : Option ℤ
  pub turn_time : ℕ
  pub pot_bb : ℕ
  pub random : Random
  pub correlation : String
  pub now : ℕ

-- The table that a CC is decided on.
abbrev pub cc_table : BridgeContext → String → TableState
cc_table c t = record (table c t) { source = some "eye.cc" }

unfoldable pub cc_decision : Python → BridgeContext → String → Cc → ActionDecision
cc_decision python c t cc_in =
    decide_cc_action python.text_float cc_in.fields (table c t).street_state cc_in.hero_seat
      (some (table c t).user_turn_options) c.chip_scale

-- `none` where `int` or `float` of a value raises.
abbrev pub cc_delay_ms : Cc → Option ℕ
cc_delay_ms i = elim i.cc_delay [
  | none ↦ none
  | some delay ↦ some (compute delay i.turn_time none none i.pot_bb i.random)
]

abbrev pub new_action : BridgeContext → String → Cc → ResolvedAction → Action
new_action c t i a = record {
  device_id = c.device_id;
  table_id = t;
  generation = (table c t).generation;
  command = a.name;
  amount = a.bet_amount;
  correlation_id = i.correlation;
  attempt = 0;
  status = pending;
  uncertain = false;
  turn_id = none;
}

-- `Action(...)`: the object gets the next identity.
abbrev pub build : BridgeContext → Action → ActionScheduler
build c a = record c.scheduler { objects = write c.scheduler.objects c.next_ref a }

-- The thread that `on_cc` starts.
abbrev pub new_loop : ℕ → Fields → AttemptLoop
new_loop delay options = record {
  phase = starting;
  attempt = 1;
  deadline = delay;
  options = options;
}

-- An action is decided: it is created and its thread started, unless the device has one already. Where
-- the delay cannot be computed, the exception comes after the action has taken its device's slot.
unfoldable pub schedule :
    BridgeContext → String → Cc → Action → BridgeContext × Option String × List Output
schedule c t i a =
    let (s, created) = create (build c a) c.next_ref in
    let built = record c { scheduler = s; next_ref = c.next_ref + 1 } in
    elim created [
      | false ↦ (let (c', out) = finalize_hint built t i.now in (c', none, out))
      | true ↦ elim (cc_delay_ms i) [
        | none ↦ (built, none, [])
        | some delay ↦ (
          record built {
            loops = Dict.put c.loops c.next_ref (new_loop delay (table c t).user_turn_options);
          },
          some a.correlation_id,
          [],
        )
      ]
    ]

-- What a decision without an action does to the hint.
unfoldable pub no_action :
    BridgeContext → String → ℕ → Status → BridgeContext × Option String × List Output
no_action c t now Status.needs_operator = (let (c', out) = finalize_hint c t now in (c', none, out))
no_action c t now Status.error = (let (c', out) = finalize_hint c t now in (c', none, out))
no_action c t now Status.decided = (c, none, [])
no_action c t now Status.state_gap_check = (c, none, [])

abbrev pub is_refusal : Status → Bool
is_refusal Status.needs_operator = true
is_refusal Status.error = true
is_refusal _ = false

unfoldable pub on_cc :
    Python → BridgeContext → String → Cc → BridgeContext × Option String × List Output
on_cc python c t i =
    let d = cc_decision python c t i in
    let seen = store c t (cc_table c t) in
    elim (is_refusal d.status) [
      | true ↦ no_action seen t i.now d.status
      | false ↦ elim d.action [
        | none ↦ no_action seen t i.now d.status
        | some a ↦ schedule seen t i (new_action seen t i a)
      ]
    ]

-- `generation is not None and generation != action.generation`
abbrev is_other_generation : Option ℕ → ℕ → Bool
is_other_generation none g = false
is_other_generation (some h) g = if h == g then false else true

-- The ACK names the action `a`, which is active.
abbrev pub is_stale : Action → String → Option ℕ → Bool
is_stale a correlation generation =
    if str_eq a.correlation_id correlation
    then is_other_generation generation a.generation
    else true

abbrev ack_status : String → LedgerStatus
ack_status status = if str_eq status "ok" then success else failed

-- The ACK of the active action `r` that is not stale.
unfoldable pub acknowledged :
    BridgeContext → ℕ → String → String → ℕ → BridgeContext × Bool × List Output
acknowledged c r correlation status now =
    let a = c.scheduler.objects r in
    let (s, done) = acknowledge c.scheduler c.device_id correlation a.generation in
    elim done [
      | false ↦ (record c { scheduler = s }, false, [])
      | true ↦
          let (c', out) =
            finalize (record c { scheduler = s }) a (ack_status status)
              (str_append "acked: " status) now in
          (c', true, out)
    ]

unfoldable pub on_ack :
    BridgeContext → String → Option ℕ → String → ℕ → BridgeContext × Bool × List Output
on_ack c correlation generation status now = elim (active c.scheduler c.device_id) [
  | none ↦ (c, false, [])
  | some r ↦ elim (is_stale (c.scheduler.objects r) correlation generation) [
    | true ↦ (c, false, [])
    | false ↦ acknowledged c r correlation status now
  ]
]

-- The active action `r` is given up.
unfoldable pub given_up : BridgeContext → ℕ → String → ℕ → BridgeContext × Bool × List Output
given_up c r correlation now =
    let (s, done) = timeout_unknown c.scheduler c.device_id correlation in
    elim done [
      | false ↦ (record c { scheduler = s }, false, [])
      | true ↦
          let (c', out) =
            finalize (record c { scheduler = s }) (c.scheduler.objects r) needs_operator
              "uncertain result; reconciliation required" now in
          (c', true, out)
    ]

unfoldable pub on_action_uncertain : BridgeContext → String → ℕ → BridgeContext × Bool × List Output
on_action_uncertain c correlation now = elim (active c.scheduler c.device_id) [
  | none ↦ (c, false, [])
  | some r ↦ elim (str_eq (c.scheduler.objects r).correlation_id correlation) [
    | false ↦ (c, false, [])
    | true ↦ given_up c r correlation now
  ]
]
