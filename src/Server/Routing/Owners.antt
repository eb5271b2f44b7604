-- ===== src/Server/Routing/Owners.antt =====
-- A table belongs to the device whose message came first.
use poker_eye_v.Prelude.{
  ℕ, ◌≡◌, ◌≢◌, refl, String, false, Option, none, some, List, [], ◌∷◌, arith, string_key,
  Bool-cases, Option-cases, inl, inr, String-discrete, ◌||◌,
}
use poker_eye_v.Dict
use poker_eye_v.Dict.{get-put}
use poker_eye_v.Json.{Fields, end, field, is_empty}
use poker_eye_v.Server.{
  Python, Server, observe_turn, observe_frame, observe, ws_handler, on_cc, on_eye_frame, turn_of,
  table_of, store, cc_target_table,
}
use poker_eye_v.Server.Routing.{own, is_foreign, on_callback_message, Event, message, cc, step, run}

module _ (python : Python) where
  observe_turn-devices :
      (s : Server) (table : String) (turn : Fields) (now : ℕ)
      → (observe_turn python s table turn now).devices ≡ s.devices
  unfolding observe_turn
  observe_turn-devices s table turn now = ground arith

  observe_frame-devices :
      (s : Server) (table : String) (decoded : Fields) (direction : String) (now : ℕ)
      → (observe_frame python s table decoded direction now).devices ≡ s.devices
  unfolding observe_frame
  observe_frame-devices s table decoded direction now =
      elim (Option-cases (turn_of python decoded direction)) [
        | inl e ↦ rw (e, observe_frame) refl
        | inr (turn, e) ↦ rw (e, observe_frame) (observe_turn-devices s table turn now)
      ]

  observe-devices :
      (s : Server) (table : String) (decoded : Option Fields) (direction : String) (now : ℕ)
      → (observe python s table decoded direction now).devices ≡ s.devices
  unfolding observe
  observe-devices s table none direction now = refl
  observe-devices s table (some end) direction now = refl
  observe-devices s table (some (field k v d)) direction now =
      observe_frame-devices s table (field k v d) direction now

  ws_handler-devices :
      (s : Server) (table : String) (decoded : Option Fields) (direction : String) (now : ℕ)
      → (ws_handler python s table decoded direction now).0.devices ≡ s.devices
  unfolding ws_handler
  ws_handler-devices s table decoded direction now =
      observe-devices (store s table (table_of s table)) table decoded direction now

  on_cc-devices :
      (s : Server) (table : String) (msg : Fields) (correlation : String) (delay : Option ℕ)
      (now : ℕ)
      → (on_cc python s table msg correlation delay now).devices ≡ s.devices
  unfolding on_cc
  on_cc-devices s table msg correlation delay now = ground arith

  on_eye_frame-devices :
      (s : Server) (msg : Fields) (correlation : String) (delay : Option ℕ) (now : ℕ)
      → (on_eye_frame python s msg correlation delay now).devices ≡ s.devices
  unfolding on_eye_frame
  on_eye_frame-devices s msg correlation delay now = elim (Option-cases (cc_target_table s)) [
    | inl e ↦ rw (e, on_eye_frame) refl
    | inr (table, e) ↦ rw (e, on_eye_frame) (on_cc-devices s table msg correlation delay now)
  ]

  owned_table-admitted :
      (s : Server) (table device : String)
      → Dict.get s.devices table ≡ some device
      → (u other : String) → is_foreign s other u ≡ false
      → Dict.get (own s u other).devices table ≡ some device
  unfolding is_foreign
  owned_table-admitted s table device h u other f = elim (String-discrete u table) [
    | yes e ↦ ground (arith, get-put s.devices u other table)
    | no n ↦ ground (arith, get-put s.devices u other table)
  ]

  message-owner :
      (s : Server) (table device u other : String) (decoded : Option Fields) (direction : String)
      (now : ℕ)
      → Dict.get s.devices table ≡ some device
      → Dict.get (on_callback_message python s other u decoded direction now).0.devices table
        ≡ some device
  unfolding on_callback_message
  message-owner s table device u other decoded direction now h =
      elim (Bool-cases (is_empty u || is_foreign s other u)) [
        | inl e ↦ rw (e, on_callback_message) h
        | inr e ↦
            rw (e, on_callback_message, ws_handler-devices (own s u other) u decoded direction now)
              (owned_table-admitted s table device h u other (ground arith))
      ]

  step-owner :
      (s : Server) (table device : String) (e : Event)
      → Dict.get s.devices table ≡ some device
      → Dict.get (step python s e).devices table ≡ some device
  unfolding step
  step-owner s table device (message other u decoded direction now) h =
      message-owner s table device u other decoded direction now h
  step-owner s table device (cc msg correlation delay now) h =
      rw (on_eye_frame-devices s msg correlation delay now) h

  run-owner :
      (s : Server) (table device : String) (es : List Event)
      → Dict.get s.devices table ≡ some device
      → Dict.get (run python s es).devices table ≡ some device
  unfolding run
  run-owner s table device [] h = h
  run-owner s table device (e ∷ es) h =
      run-owner (step python s e) table device es (step-owner s table device e h)

  -- Once a table belongs to a device, it does so after any messages of any devices and any CCs; from
  -- then on a message of the table from another device is forwarded, and changes nothing.
  pub owner_kept :
      (s : Server) (table device other : String) (es : List Event) (decoded : Option Fields)
      (direction : String) (now : ℕ)
      → Dict.get s.devices table ≡ some device
      → device ≢ other
      → (Dict.get (run python s es).devices table ≡ some device)
        × (on_callback_message python (run python s es) other table decoded direction now
            ≡ (run python s es, none))
  unfolding on_callback_message is_foreign
  owner_kept s table device other es decoded direction now h n =
      let kept = run-owner s table device es h in (kept, ground (arith, kept))
