-- ===== src/Transport.antt =====
-- core/transport.py: the connections of the hooks, one for each table.
pub mod Invariant
pub mod Regions
pub mod Evicted
pub mod Welcome
pub mod Answers
mod Runs
use poker_eye_v.Prelude.{
  ℕ, String, Bool, true, false, ◌&&◌, ◌||◌, not, Option, none, some, List, [], ◌∷◌, ◌++◌,
  if◌then◌else◌, ite, String-discrete, string_key, pair_key,
}
use poker_eye_v.Prelude.Int.{pos}
use poker_eye_v.Dict
use poker_eye_v.Dict.{Dict}
use poker_eye_v.Json.{Json, null, int, str, obj, Fields, end, field, get}
use poker_eye_v.Slots.{ConnectionKey, SlotPool, reserve, release}
use poker_eye_v.Protocol.{
  Codec, Verified, verified, value_error, type_error, compare_digest, name_of, is_type, bar,
  verify_hello,
}

-- `active` is a set, the keys of a dictionary.
pub record TrainerServer : Type 0 where
  pub session_id : String
  pub advertised_nonce : String
  pub slot_pool : Option SlotPool
  pub active : Dict ConnectionKey (Unit {0})
  pub active_tables : Dict String String

-- What the handler of a connection sends first: the welcome with its slot, an error frame, or nothing
-- where it ends by an exception that it does not catch.
pub data Reply : Type 0 where
  welcome : Option ℕ → Reply
  error : String → Reply
  silence : Reply

unfoldable pub is_active : TrainerServer → ConnectionKey → Bool
is_active s key = elim (Dict.get s.active key) [ none ↦ false | some u ↦ true ]

-- table_id in self._active_tables and self._active_tables[table_id] != device_id
unfoldable pub is_other_device : TrainerServer → ConnectionKey → Bool
is_other_device s (device, table) = elim (Dict.get s.active_tables table) [
  | none ↦ false
  | some d ↦ ite (String-discrete d device) false true
]

abbrev admit : TrainerServer → Option SlotPool → ConnectionKey → TrainerServer
admit s pool key = record s {
  slot_pool = pool;
  active = Dict.put s.active key tt;
  active_tables = Dict.put s.active_tables key.1 key.0;
}

-- The part of `_handle` under the lock, for names that are verified.
unfoldable pub register : TrainerServer → ConnectionKey → TrainerServer × Reply
register s key =
    if is_active s key || is_other_device s key
    then (s, error "duplicate_connection")
    else elim s.slot_pool [
      | none ↦ (admit s none key, welcome none)
      | some pool ↦
          let (pool', slot) = reserve pool key in
          elim slot [
            | none ↦ (record s { slot_pool = some pool' }, error "no_free_slots")
            | some n ↦ (admit s (some pool') key, welcome (some n))
          ]
    ]

-- if self._active_tables.get(table_id) == device_id
abbrev drop_table : Dict String String → ConnectionKey → Dict String String
drop_table tables (device, table) = elim (Dict.get tables table) [
  | none ↦ tables
  | some d ↦ ite (String-discrete d device) (Dict.remove tables table) tables
]

abbrev release_slot : Option SlotPool → ConnectionKey → Option SlotPool
release_slot none key = none
release_slot (some pool) key = some (release pool key).0

-- The two locked regions of the `finally` of `_handle`: the registry first, and then the slot.
unfoldable pub unregister : TrainerServer → ConnectionKey → TrainerServer
unregister s key = record s {
  active = Dict.remove s.active key;
  active_tables = drop_table s.active_tables key;
}

unfoldable pub release_claim : TrainerServer → ConnectionKey → TrainerServer
release_claim s key = record s { slot_pool = release_slot s.slot_pool key }

-- The `finally`, with the names that it has by then, where nothing comes between its regions.
unfoldable pub cleanup : TrainerServer → ConnectionKey → TrainerServer
unfolding unregister release_claim
cleanup s key = release_claim (unregister s key) key

-- A name that is no text is no part of a key that is active.
unfoldable pub cleanup_names : TrainerServer → Option String → Option String → TrainerServer
cleanup_names s (some device) (some table) = cleanup s (device, table)
cleanup_names s _ _ = s

-- A connection that is registered goes on; any other one has its cleanup.
abbrev finished : ConnectionKey → TrainerServer × Reply → TrainerServer × Reply
finished key (s, welcome slot) = (s, welcome slot)
finished key (s, r) = (cleanup s key, r)

module _ (codec : Codec) where
  -- The proof of a direct hello, over `f"{device_id}|{table_id}|{session_id}|{PROTOCOL_VERSION}"`.
  unfoldable pub direct_proof : String → String → String → String
  direct_proof device table session = codec.hmac (bar device (bar table (bar session "2")))

  unfoldable pub verify_direct : TrainerServer → Fields → Verified
  verify_direct s m = elim (name_of (get m "device_id")) [
    | none ↦ value_error
    | some device ↦ elim (name_of (get m "table_id")) [
      | none ↦ value_error
      | some table ↦ elim (get m "proof") [
        | none ↦ value_error
        | some x ↦ elim x [
          | str supplied ↦
              compare_digest supplied (direct_proof device table s.session_id)
                (verified device table)
          | _ ↦ value_error
        ]
      ]
    ]
  ]

  -- The names that the `finally` finds where the hello is refused: those of a direct hello are set
  -- before its proof is looked at, the others are not set.
  unfoldable pub refused : TrainerServer → Fields → Reply → TrainerServer × Reply
  refused s m r =
      if is_type m "direct_hello"
      then (cleanup_names s (name_of (get m "device_id")) (name_of (get m "table_id")), r)
      else (s, r)

  unfoldable pub verify : TrainerServer → Fields → Verified
  verify s m =
      if is_type m "direct_hello"
      then verify_direct s m
      else verify_hello codec m s.advertised_nonce s.session_id

  -- `_handle` from the hello to the message loop or to its `finally`, which is left out
  unfoldable pub greet : TrainerServer → Fields → TrainerServer × Reply
  greet s m = elim (verify s m) [
    | verified device table ↦ register s (device, table)
    | value_error ↦ (s, error "ValueError")
    | type_error ↦ (s, silence)
  ]

  -- `_handle` from the hello to the message loop, or to its end
  unfoldable pub connect : TrainerServer → Fields → TrainerServer × Reply
  connect s m = elim (verify s m) [
    | verified device table ↦ finished (device, table) (register s (device, table))
    | value_error ↦ refused s m (error "ValueError")
    | type_error ↦ refused s m silence
  ]

-- What a connected hook's `_handle` makes of the end of its connection.
abbrev pub disconnect : TrainerServer → ConnectionKey → TrainerServer
disconnect s key = cleanup s key

-- What the injected handler does: there is none, it raises, or it returns a value.
pub data Handled : Type 0 where
  no_handler raised : Handled
  returned : Json → Handled

abbrev pub value_or_null : Option Json → Json
value_or_null none = null
value_or_null (some x) = x

abbrev pub forward : Fields → Json
forward m = obj (field "id" (value_or_null (get m "id")) (field "action" (str "forward") end))

-- `_decide`
unfoldable pub decide : Handled → Fields → Json
decide no_handler m = forward m
decide raised m = forward m
decide (returned x) m = x

-- d.setdefault(k, v), with a new key at the end
unfoldable pub append_field : Fields → String → Json → Fields
append_field end k v = field k v end
append_field (field j w d) k v = field j w (append_field d k v)

unfoldable pub setdefault : Fields → String → Json → Fields
unfolding append_field
setdefault d k v = elim (get d k) [ none ↦ append_field d k v | some w ↦ d ]

abbrev pub fields_of : Json → Fields
fields_of (obj d) = d
fields_of _ = end

unfoldable pub respond : Handled → Fields → Fields
respond h m =
    setdefault (setdefault (fields_of (decide h m)) "id" (value_or_null (get m "id"))) "action"
      (str "forward")

-- The answer of the message loop to a frame, if it has one.
unfoldable pub answer : Handled → Fields → Option Fields
answer h m =
    if is_type m "heartbeat"
    then some (
        field "type" (str "heartbeat_ack")
          (field "sequence" (value_or_null (get m "sequence")) end))
    else if is_type m "ws_message"
    then some (respond h m)
    else none
