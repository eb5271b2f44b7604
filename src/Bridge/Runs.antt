-- ===== src/Bridge/Runs.antt =====
-- Concrete contexts of a bridge, and the theorems at concrete inputs.
use poker_eye_v.Prelude.{
  ℕ, ◌+◌, ◌≤◌, ◌≡◌, refl, String, String-discrete, ℕ_discrete, Bool, true, false, Option, none,
  some, List, [], ◌∷◌, arith, string_key, nat_key,
}
use poker_eye_v.Prelude.Int.{pos}
use poker_eye_v.Dict
use poker_eye_v.Json.{end, field, str, get, truthy}
use poker_eye_v.Actions.{Action, ActionStatus, sent, acked, active, max_attempts}
use poker_eye_v.Hints.{OutstandingHint, new_hint}
use poker_eye_v.Ledger.{clean, has, contains}
use poker_eye_v.Ledger.Once
use poker_eye_v.Server.{Python}
use poker_eye_v.Actions.Delay.{compute}
use poker_eye_v.Bridge.Context.{
  awaiting_ack, AttemptLoop, BridgeContext, is_pending, finalize_hint, table,
}
use poker_eye_v.Bridge.Turns.{HeroTurn, on_hero_turn}
use poker_eye_v.Street.{call_need}
use poker_eye_v.Policy.{checked, decide_cc_action}
use poker_eye_v.Policy.Words.{cc_type, cc_word, classify, same_word, has_key_code}
use poker_eye_v.Policy.Resolve.{resolve, fold_action}
use poker_eye_v.Bridge.Superseded.{settled_action_resent}
use poker_eye_v.Bridge.Settling.{Cc, cc_decision, is_refusal, is_stale, on_ack, on_action_uncertain}
use poker_eye_v.Bridge.Attempts.{advance}
use poker_eye_v.Bridge.Steps.{Input, hero_turn, hint, ack, thread, tick, run}
use poker_eye_v.Bridge.Balance.{finishes, owed, hints_taken, finishes_bound}
use poker_eye_v.Bridge.Sends
use poker_eye_v.Bridge.Sends.{sends, sends_bound, left}
use poker_eye_v.Bridge.Acks.{IsSettled, settles_once, third_wait_settles}
use poker_eye_v.Bridge.Held.{hints_asked, promoted_hint_blocks}
use poker_eye_v.Bridge.Ledgers.{ledger_run-IsSound}

abbrev python : Python
python = record { text_of = λ x. "7"; text_float = λ s. none; loads = λ s. none; digest = λ d. "" }

-- An action in its `k`-th attempt.
abbrev an_action : ℕ → Action
an_action k = record {
  device_id = "d1";
  table_id = "t1";
  generation = 2;
  command = "CHECK";
  amount = pos 0;
  correlation_id = "c0";
  attempt = k;
  status = sent;
  uncertain = false;
  turn_id = none;
}

abbrev waiting : ℕ → AttemptLoop
waiting k = record { phase = awaiting_ack; attempt = k; deadline = 2_500; options = end }

-- The device is free.
abbrev idle : BridgeContext
idle = record {
  device_id = "d1";
  chip_scale = 100;
  ack_timeout = 2_500;
  ledger = record { file = record { lines = []; tail = clean }; keys = [] };
  scheduler = record { objects = λ r. an_action 1; active = [] };
  watchdog = record { timeout = 10_000; outstanding = []; successor = [] };
  tables = [];
  seen_turns = [];
  pending_finish_hint = [];
  loops = [];
  next_ref = 1;
}

-- The action 0 waits for the ACK of its `k`-th attempt, and a hint of its table is to be finished.
abbrev busy : ℕ → BridgeContext
busy k = record idle {
  scheduler = record { objects = λ r. an_action k; active = ("d1", 0) ∷ [] };
  pending_finish_hint = ("t1", true) ∷ [];
  loops = (0, waiting k) ∷ [];
}

-- Behind that hint another one is held.
abbrev next_hint : OutstandingHint
next_hint = new_hint "t1" (some "h2") 5

abbrev holding : BridgeContext
holding = record (busy 1) {
  watchdog = record {
    timeout = 10_000;
    outstanding = ("t1", new_hint "t1" (some "h1") 1) ∷ [];
    successor = ("t1", next_hint) ∷ [];
  };
}

abbrev a_turn : HeroTurn
a_turn = record {
  turn = field "turnId" (str "7") end;
  hand_id = some "h1";
  user_turn_options = end;
  turn_time = pos 0;
  hint_frame = none;
}

abbrev turn_and_ack : List Input
turn_and_ack =
    hero_turn "t1" a_turn 10 true ∷ ack "c0" (some 2) "ok" 20 ∷ thread 0 30 ∷ tick 40 ∷ []

busy_active : (k : ℕ) → active (busy k).scheduler "d1" ≡ some 0
unfolding active Dict.get String-discrete
busy_active k = refl

busy_stale : (k : ℕ) → is_stale ((busy k).scheduler.objects 0) "c0" (some 2) ≡ false
unfolding String-discrete
busy_stale k = refl

busy_loop : (k : ℕ) → Dict.get (busy k).loops 0 ≡ some (waiting k)
unfolding Dict.get ℕ_discrete
busy_loop k = refl

idle-IsSound : Sends.IsSound idle
unfolding Dict.get
idle-IsSound = record { at = λ r l e. absurd (cc e) }

empty_ledger-IsSound : Once.IsSound idle.ledger
unfolding has contains
empty_ledger-IsSound = record { tail = refl; once = λ k. refl }

finishes_bound_example :
    let (c, out) = run python idle turn_and_ack in
    finishes "t1" out + owed "t1" c ≤ hints_taken "t1" out + owed "t1" idle
finishes_bound_example = finishes_bound "t1" python idle turn_and_ack

sends_bound_example :
    let (c, out) = run python idle turn_and_ack in
    (sends 1 out + left 1 c ≤ left 1 idle) × (left 1 idle ≤ max_attempts)
sends_bound_example = sends_bound python idle turn_and_ack 1 idle-IsSound

settles_once_example :
    let (a, a_done, a_out) = on_ack (busy 1) "c0" (some 2) "ok" 20 in
    let (u, u_done, u_out) = on_action_uncertain (busy 1) "c0" 20 in
    ((a_done ≡ true)
      × IsSettled 0 (busy 1) a a_out
      × ((a.scheduler.objects 0).status ≡ acked)
      × ((k' : String) (g' : Option ℕ) (s : String) (later : ℕ)
          → on_ack a k' g' s later ≡ (a, false, [])))
    × (u_done ≡ true)
    × IsSettled 0 (busy 1) u u_out
    × ((u.scheduler.objects 0).status ≡ ActionStatus.needs_operator)
    × ((k' : String) (g' : Option ℕ) (s : String) (later : ℕ)
        → on_ack u k' g' s later ≡ (u, false, []))
settles_once_example = settles_once (busy 1) 0 "c0" (some 2) "ok" 20 (busy_active 1) (busy_stale 1)

third_wait_settles_example :
    let (c, out) = advance (busy 3) 0 9_000 in
    IsSettled 0 (busy 3) c out × (Dict.get c.loops 0 ≡ none)
third_wait_settles_example =
    third_wait_settles (busy 3) 0 (waiting 3) 9_000 (busy_active 3) (omega arith) (busy_loop 3) refl
      (omega arith) (omega arith)

holding_pending : is_pending holding "t1" ≡ true
unfolding is_pending Dict.get String-discrete
holding_pending = refl

holding_successor : Dict.get holding.watchdog.successor "t1" ≡ some next_hint
unfolding Dict.get String-discrete
holding_successor = refl

promoted_hint_blocks_example :
    let (c, out) =
      run python (finalize_hint holding "t1" 20).0 (hero_turn "t1" a_turn 30 true ∷ []) in
    (Dict.get c.watchdog.outstanding "t1" ≡ some next_hint)
    × (hints_asked "t1" out ≡ 0)
    × ((turn : HeroTurn) (later : ℕ) (sent : Bool)
        → (on_hero_turn python c "t1" turn later sent).1 ≡ false)
promoted_hint_blocks_example =
    promoted_hint_blocks python holding "t1" next_hint 20 (hero_turn "t1" a_turn 30 true ∷ [])
      holding_pending holding_successor (tt, tt)

ledger_run-IsSound_example :
    let m = (run python (busy 1) turn_and_ack).0.ledger in
    Once.IsSound m
    × ((k : String) → Once.entries k m.file.lines ≤ 1)
    × ((k : String) → has (busy 1).ledger k ≡ true → has m k ≡ true)
ledger_run-IsSound_example = ledger_run-IsSound python (busy 1) turn_and_ack empty_ledger-IsSound

-- The action 0 is settled, and its thread has not looked yet.
abbrev looking : BridgeContext
looking = record idle { loops = (0, waiting 1) ∷ [] }

abbrev fold_cc : Cc
fold_cc = record {
  fields = field "type" (str "FOLD") end;
  hero_seat = 1;
  cc_delay = some (pos 900);
  turn_time = 15_000;
  pot_bb = 0;
  random = record { random = 500; randint = λ lo hi. lo };
  correlation = "c1";
  now = 2_000;
}

fold_status : is_refusal (cc_decision python looking "t1" fold_cc).status ≡ false
unfolding cc_decision table decide_cc_action call_need resolve cc_type cc_word classify same_word
    get truthy has_key_code checked Dict.get String-discrete ℕ_discrete
fold_status = refl

fold_decided : (cc_decision python looking "t1" fold_cc).action ≡ some fold_action
unfolding cc_decision table decide_cc_action call_need resolve cc_type cc_word classify same_word
    get truthy has_key_code checked Dict.get String-discrete ℕ_discrete
fold_decided = refl

looking_free : active looking.scheduler "d1" ≡ none
unfolding active Dict.get
looking_free = refl

looking_loop : Dict.get looking.loops 0 ≡ some (waiting 1)
unfolding Dict.get ℕ_discrete
looking_loop = refl

abbrev fold_delay : ℕ
fold_delay = compute (pos 900) fold_cc.turn_time none none fold_cc.pot_bb fold_cc.random

settled_action_resent_example :
    let old = thread 0 2_600 ∷ thread 0 3_700 ∷ [] in
    let (c1, out1) = run python looking (hint "t1" fold_cc ∷ old) in
    let (c2, out2) = run python looking (hint "t1" fold_cc ∷ thread 1 2_600 ∷ old) in
    (sends 0 out1 ≡ 1)
    × (sends 1 out1 ≡ 0)
    × ((c1.scheduler.objects 1).attempt ≡ 1)
    × (active c1.scheduler c1.device_id ≡ some 1)
    × (sends 0 out2 ≡ 1)
    × (sends 1 out2 ≡ 0)
    × ((c2.scheduler.objects 1).attempt ≡ 2)
    × (active c2.scheduler c2.device_id ≡ some 1)
settled_action_resent_example =
    settled_action_resent python looking "t1" fold_cc 0 (waiting 1) fold_action fold_delay 2_600
      3_700 refl fold_status fold_decided looking_free looking_loop (omega arith) refl (omega arith)
      (omega arith) (omega arith)
