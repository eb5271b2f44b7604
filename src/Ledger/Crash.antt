-- ===== src/Ledger/Crash.antt =====
-- A write that was cut short, and what the next run of the program makes of the file.
use poker_eye_v.Prelude.{◌≡◌, ◌≢◌, ◌++◌, true, false, String, List, [], ◌∷◌, arith}
use poker_eye_v.Ledger.{
  LedgerEntry, malformed, LogFile, Tail, load_lines, clean, fragment, whole, load_tail, append_line,
  load, finalize, has, contains,
}
use poker_eye_v.Ledger.Once.{contains-learn, contains-load_lines, readable-append}

contains-load_tail :
    (ks : List String) (t : Tail) (k : String)
    → contains (load_tail ks t) k ≡ false
    → contains ks k ≡ false
contains-load_tail ks clean k h = h
contains-load_tail ks fragment k h = h
contains-load_tail ks (whole e) k h = ground (arith, contains-learn ks e k)

-- After a crash inside a write the file does not end with a newline. Then the first key that the
-- next run finalizes runs together with the tail: the call reports success, and a further restart
-- does not know the key, so that it is finalized again.
pub torn_append_forgets :
    (f : LogFile) (e : LedgerEntry)
    → f.tail ≢ clean
    → has (load f) e.key ≡ false
    → let r = finalize (load f) e in
      let again = load r.0.file in
      (r.1 ≡ true) × (has again e.key ≡ false) × ((finalize again e).1 ≡ true)
unfolding has load finalize append_line contains
torn_append_forgets f e torn new = ground (
  arith,
  contains-load_tail (load_lines [] f.lines) f.tail e.key,
  contains-load_lines [] f.lines e.key,
  contains-load_lines [] (f.lines ++ malformed ∷ []) e.key,
  readable-append e.key f.lines (malformed ∷ []),
)
