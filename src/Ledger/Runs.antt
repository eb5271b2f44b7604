-- ===== src/Ledger/Runs.antt =====
-- Concrete runs of the ledger, and the theorems at concrete inputs.
use poker_eye_v.Prelude.{◌≡◌, refl, true, false, some, [], String-discrete}
use poker_eye_v.Prelude.Int.{pos}
use poker_eye_v.Json.{end}
use poker_eye_v.Ledger.{
  LedgerEntry, success, LogFile, clean, fragment, Ledger, load, load_lines, finalize, has, contains,
  add, is_plain, plain_text, plain_fields,
}
use poker_eye_v.Ledger.Crash.{torn_append_forgets}

abbrev fold_entry : LedgerEntry
fold_entry = record {
  key = "d1:t1:1:FOLD:c1";
  status = success;
  action = some "FOLD";
  amount = some (pos 0);
  ts = 7;
  extra = end;
}

abbrev new_ledger : Ledger
new_ledger = record { file = record { lines = []; tail = clean }; keys = [] }

abbrev torn_file : LogFile
torn_file = record { lines = []; tail = fragment }

second_refused : (finalize (finalize new_ledger fold_entry).0 fold_entry).1 ≡ false
unfolding finalize add contains String-discrete
second_refused = refl

-- The table's name has a U+2028.
abbrev cut_entry : LedgerEntry
cut_entry = record fold_entry { key = "d1:t\u{2028}1:1:FOLD:c1" }

cut_not_plain : is_plain cut_entry ≡ false
unfolding is_plain plain_text plain_fields
cut_not_plain = refl

torn_append_forgets_example :
    let r = finalize (load torn_file) fold_entry in
    let again = load r.0.file in
    (r.1 ≡ true) × (has again "d1:t1:1:FOLD:c1" ≡ false) × ((finalize again fold_entry).1 ≡ true)
torn_append_forgets_example =
    torn_append_forgets torn_file fold_entry (λ e. cc) (unfold has load load_lines contains in refl)
