-- ===== src/Actions.antt =====
-- core/actions.py: the scheduler of one action per device, and the delay of the first attempt.
pub mod Delay
pub mod Invariant
pub mod Attempts
pub mod Acks
mod Runs
use poker_eye_v.Prelude.{
  ℕ, ◌+◌, String, Bool, true, false, ◌||◌, Option, none, some, leb, ◌==◌, if◌then◌else◌, ite,
  ℕ_discrete, String-discrete, string_key,
}
use poker_eye_v.Prelude.Int.{ℤ}
use poker_eye_v.Dict
use poker_eye_v.Dict.{Dict}

pub data ActionStatus : Type 0 where
  pending sent acked failed needs_operator : ActionStatus

-- `amount` counts units of 1e-8 chips.
pub record Action : Type 0 where
  pub device_id : String
  pub table_id : String
  pub generation : ℕ
  pub command : String
  pub amount : ℤ
  pub correlation_id : String
  pub attempt : ℕ
  pub status : ActionStatus
  pub uncertain : Bool
  pub turn_id : Option String

-- The `Action` objects by identity: the scheduler and its callers share them and see each other's
-- writes.
abbrev pub Objects : Type 0
Objects = ℕ → Action

abbrev pub write : Objects → ℕ → Action → Objects
write objects r a q = ite (ℕ_discrete r q) a (objects q)

pub record ActionScheduler : Type 0 where
  pub objects : Objects
  pub active : Dict String ℕ

abbrev pub max_attempts : ℕ
max_attempts = 3

-- The pause before a retry, in milliseconds.
abbrev pub retry_gap : ℕ
retry_gap = 1000

unfoldable pub create : ActionScheduler → ℕ → ActionScheduler × Bool
create s r = elim (Dict.get s.active (s.objects r).device_id) [
  | some q ↦ (s, false)
  | none ↦ (record s { active = Dict.put s.active (s.objects r).device_id r }, true)
]

-- `action.status in {PENDING, SENT}`
abbrev pub is_open : ActionStatus → Bool
is_open pending = true
is_open sent = true
is_open _ = false

abbrev failure : Bool → ActionStatus
failure uncertain = if uncertain then needs_operator else failed

-- `next_attempt` on the active object `r`, whose fields are `a`.
unfoldable pub attempt_object : ActionScheduler → ℕ → Action → ActionScheduler × Option (ℕ × ℕ)
attempt_object s r a =
    if is_open a.status
    then if a.uncertain || leb max_attempts a.attempt
      then (
        record s { objects = write s.objects r (record a { status = failure a.uncertain }) },
        none,
      )
      else (
        record s {
          objects = write s.objects r (record a { attempt = a.attempt + 1; status = sent });
        },
        some (r, if a.attempt + 1 == 1 then 0 else retry_gap),
      )
    else (s, none)

unfoldable pub next_attempt : ActionScheduler → String → ActionScheduler × Option (ℕ × ℕ)
unfolding attempt_object
next_attempt s device = elim (Dict.get s.active device) [
  | none ↦ (s, none)
  | some r ↦ attempt_object s r (s.objects r)
]

abbrev pub str_eq : String → String → Bool
str_eq a b = ite (String-discrete a b) true false

-- The ACK is for this action, of this generation.
abbrev pub is_for : Action → String → ℕ → Bool
is_for a correlation generation =
    if str_eq a.correlation_id correlation then a.generation == generation else false

unfoldable pub acknowledge : ActionScheduler → String → String → ℕ → ActionScheduler × Bool
acknowledge s device correlation generation = elim (Dict.get s.active device) [
  | none ↦ (s, false)
  | some r ↦
      if is_for (s.objects r) correlation generation
      then (
        record {
          objects = write s.objects r (record (s.objects r) { status = acked });
          active = Dict.remove s.active device;
        },
        true,
      )
      else (s, false)
]

unfoldable pub timeout_unknown : ActionScheduler → String → String → ActionScheduler × Bool
timeout_unknown s device correlation = elim (Dict.get s.active device) [
  | none ↦ (s, false)
  | some r ↦
      if str_eq (s.objects r).correlation_id correlation
      then (
        record {
          objects =
              write s.objects r
                (record (s.objects r) { uncertain = true; status = needs_operator });
          active = Dict.remove s.active device;
        },
        true,
      )
      else (s, false)
]

-- `finish_failed` on the active object `r`, whose fields are `a`.
unfoldable pub finish_object : ActionScheduler → String → ℕ → Action → ActionScheduler × Option ℕ
finish_object s device r a =
    if leb max_attempts a.attempt || a.uncertain
    then (
      record {
        objects = write s.objects r (record a { status = failure a.uncertain });
        active = Dict.remove s.active device;
      },
      some r,
    )
    else (s, none)

unfoldable pub finish_failed : ActionScheduler → String → ActionScheduler × Option ℕ
unfolding finish_object
finish_failed s device = elim (Dict.get s.active device) [
  | none ↦ (s, none)
  | some r ↦ finish_object s device r (s.objects r)
]

unfoldable pub active : ActionScheduler → String → Option ℕ
active s device = Dict.get s.active device

unfoldable pub has_active : ActionScheduler → String → Bool
has_active s device = elim (Dict.get s.active device) [ none ↦ false | some r ↦ true ]
