-- ===== src/Bridge/Acks.antt =====
-- What settles an action: the ACK, the report of an uncertain result, and the third wait in vain.
use poker_eye_v.Prelude.{
  ℕ, ◌≤◌, ◌≡◌, refl, String, true, false, Option, none, some, List, [], arith, string_key, nat_key,
}
use poker_eye_v.Dict
use poker_eye_v.Dict.{get-put, get-remove}
use poker_eye_v.Actions.{
  Action, acked, ActionStatus, active, acknowledge, timeout_unknown, finish_failed, max_attempts,
  str_eq,
}
use poker_eye_v.Actions
use poker_eye_v.Ledger.{LedgerStatus, has}
use poker_eye_v.Ledger
use poker_eye_v.Ledger.Once.{contains-add}
use poker_eye_v.Bridge.Context.{
  BridgeContext, AttemptLoop, awaiting_ack, Output, is_pending, finish_hint, finalize_hint,
  finalize, ledger_key, ledger_entry,
}
use poker_eye_v.Bridge.Settling.{is_stale, acknowledged, on_ack, given_up, on_action_uncertain}
use poker_eye_v.Bridge.Attempts.{exhausted, next_round, advance_loop, advance}
use poker_eye_v.Bridge.Balance.{finishes, owed}

-- The action `a` of `c` is settled in `c'`: the ledger has its key, no hint of its table is still to
-- be finished, and the calls `out` have finished the one that was.
pub record IsFinal (a : Action) (c c' : BridgeContext) (out : List Output) : Type 0 where
  pub recorded : has c'.ledger (ledger_key a) ≡ true
  pub finished : is_pending c' a.table_id ≡ false
  pub counted : finishes a.table_id out ≡ owed a.table_id c

-- The device is free, too.
pub record IsSettled (r : ℕ) (c c' : BridgeContext) (out : List Output) : Type 0 where
  pub final : IsFinal (c.scheduler.objects r) c c' out
  pub freed : active c'.scheduler c.device_id ≡ none

finalize_hint-finishes :
    (c : BridgeContext) (t : String) (now : ℕ)
    → let (c', out) = finalize_hint c t now in
      (is_pending c' t ≡ false)
      × (finishes t out ≡ owed t c)
      × (c'.ledger ≡ c.ledger)
      × (c'.scheduler ≡ c.scheduler)
      × (c'.device_id ≡ c.device_id)
      × (c'.loops ≡ c.loops)
unfolding finalize_hint finish_hint is_pending
finalize_hint-finishes c t now = ground (arith, get-put c.pending_finish_hint t false t)

has-finalize :
    (l : Ledger.Ledger) (e : Ledger.LedgerEntry) → has (Ledger.finalize l e).0 e.key ≡ true
unfolding Ledger.finalize has
has-finalize l e = ground (arith, contains-add l.keys e.key e.key)

pub finalize-IsFinal :
    (c : BridgeContext) (a : Action) (s : LedgerStatus) (reason : String) (now : ℕ)
    → let (c', out) = finalize c a s reason now in
      IsFinal a c c' out
      × (c'.scheduler ≡ c.scheduler)
      × (c'.device_id ≡ c.device_id)
      × (c'.loops ≡ c.loops)
unfolding finalize is_pending
finalize-IsFinal c a s reason now =
    let recorded = record c {
      ledger = (Ledger.finalize c.ledger (ledger_entry a s reason now)).0;
    } in
    let (f, n, l, kept, own, threads) = finalize_hint-finishes recorded a.table_id now in
    (
      record {
        recorded = rw l (has-finalize c.ledger (ledger_entry a s reason now));
        finished = f;
        counted = n;
      },
      kept,
      own,
      threads,
    )

module _ (c : BridgeContext) (r : ℕ) (held : active c.scheduler c.device_id ≡ some r) where
  acknowledge_active :
      (k : String) (g : Option ℕ)
      → is_stale (c.scheduler.objects r) k g ≡ false
      → let (s, done) = acknowledge c.scheduler c.device_id k (c.scheduler.objects r).generation in
        (done ≡ true) × (active s c.device_id ≡ none) × ((s.objects r).status ≡ acked)
  unfolding acknowledge active
  acknowledge_active k g f =
      ground (arith, held, f, get-remove c.scheduler.active c.device_id c.device_id)

  timeout_active :
      (k : String)
      → str_eq (c.scheduler.objects r).correlation_id k ≡ true
      → let (s, done) = timeout_unknown c.scheduler c.device_id k in
        (done ≡ true)
        × (active s c.device_id ≡ none)
        × ((s.objects r).status ≡ ActionStatus.needs_operator)
  unfolding timeout_unknown active
  timeout_active k f =
      ground (arith, held, f, get-remove c.scheduler.active c.device_id c.device_id)

  pub ack_lem :
      (k : String) (g : Option ℕ) (status : String) (now : ℕ)
      → is_stale (c.scheduler.objects r) k g ≡ false
      → let (c', done, out) = on_ack c k g status now in
        (done ≡ true)
        × IsSettled r c c' out
        × ((c'.scheduler.objects r).status ≡ acked)
        × (c'.device_id ≡ c.device_id)
  unfolding on_ack acknowledged is_pending
  ack_lem k g status now f = grind (arith, held, finalize-IsFinal, acknowledge_active k g f)

  pub uncertain_lem :
      (k : String) (now : ℕ)
      → str_eq (c.scheduler.objects r).correlation_id k ≡ true
      → let (c', done, out) = on_action_uncertain c k now in
        (done ≡ true)
        × IsSettled r c c' out
        × ((c'.scheduler.objects r).status ≡ ActionStatus.needs_operator)
        × (c'.device_id ≡ c.device_id)
  unfolding on_action_uncertain given_up is_pending
  uncertain_lem k now f = grind (arith, held, finalize-IsFinal, timeout_active k f)

  finish_active :
      max_attempts ≤ (c.scheduler.objects r).attempt
      → let (s, done) = finish_failed c.scheduler c.device_id in
        (done ≡ some r)
        × (active s c.device_id ≡ none)
        × (ledger_key (s.objects r) ≡ ledger_key (c.scheduler.objects r))
        × ((s.objects r).table_id ≡ (c.scheduler.objects r).table_id)
  unfolding finish_failed Actions.finish_object active ledger_key
  finish_active m = ground (arith, held, m, get-remove c.scheduler.active c.device_id c.device_id)

  exhausted_lem :
      (now : ℕ)
      → max_attempts ≤ (c.scheduler.objects r).attempt
      → let (c', out) = exhausted c r now in IsSettled r c c' out × (Dict.get c'.loops r ≡ none)
  unfolding exhausted is_pending
  exhausted_lem now m = grind (arith, finalize-IsFinal, finish_active m, get-remove c.loops r r)

-- With nothing active an ACK is refused and changes nothing.
on_ack-idle :
    (c : BridgeContext) (k : String) (g : Option ℕ) (status : String) (now : ℕ)
    → active c.scheduler c.device_id ≡ none
    → on_ack c k g status now ≡ (c, false, [])
unfolding on_ack
on_ack-idle c k g status now e = rw (e, on_ack) refl

-- An ACK that names the active action, and its generation if it names one, and a report of its
-- uncertain result are both accepted. Either frees the device, records the action in the ledger and
-- finishes the hint of its table if one is to be finished; the action is acknowledged by the one and
-- left to the operator by the other. A later ACK is refused and changes nothing.
pub settles_once :
    (c : BridgeContext) (r : ℕ) (k : String) (g : Option ℕ) (status : String) (now : ℕ)
    → active c.scheduler c.device_id ≡ some r
    → is_stale (c.scheduler.objects r) k g ≡ false
    → let (a, a_done, a_out) = on_ack c k g status now in
      let (u, u_done, u_out) = on_action_uncertain c k now in
      ((a_done ≡ true)
        × IsSettled r c a a_out
        × ((a.scheduler.objects r).status ≡ acked)
        × ((k' : String) (g' : Option ℕ) (s : String) (later : ℕ)
            → on_ack a k' g' s later ≡ (a, false, [])))
      × (u_done ≡ true)
      × IsSettled r c u u_out
      × ((u.scheduler.objects r).status ≡ ActionStatus.needs_operator)
      × ((k' : String) (g' : Option ℕ) (s : String) (later : ℕ)
          → on_ack u k' g' s later ≡ (u, false, []))
settles_once c r k g status now held f =
    let (a, settled_a, at, ad) = ack_lem c r held k g status now f in
    let (u, us, ut, ud) = uncertain_lem c r held k now (ground (arith, f)) in
    (
      (a, settled_a, at, λ k' g' s later. on_ack-idle _ k' g' s later (rw ad settled_a.freed)),
      u,
      us,
      ut,
      λ k' g' s later. on_ack-idle _ k' g' s later (rw ud us.freed),
    )

-- Where the thread of the active action has waited in vain for the ACK of its third attempt, its next
-- turn frees the device, records the action in the ledger, finishes the hint of its table if one is to
-- be finished, and ends the thread.
pub third_wait_settles :
    (c : BridgeContext) (r : ℕ) (l : AttemptLoop) (now : ℕ)
    → active c.scheduler c.device_id ≡ some r
    → max_attempts ≤ (c.scheduler.objects r).attempt
    → Dict.get c.loops r ≡ some l
    → l.phase ≡ awaiting_ack
    → max_attempts ≤ l.attempt
    → l.deadline ≤ now
    → let (c', out) = advance c r now in IsSettled r c c' out × (Dict.get c'.loops r ≡ none)
unfolding advance advance_loop next_round
third_wait_settles c r l now held m e p n d = ground (arith, exhausted_lem c r held now m)
