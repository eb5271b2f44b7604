-- ===== src/Ledger/Separators.antt =====
-- A text with a separator cuts the line of its entry.
use poker_eye_v.Prelude.{◌≡◌, true, false, [], ◌∷◌, arith}
use poker_eye_v.Ledger.{
  LedgerEntry, Ledger, entry, append_line, load, finalize, has, contains, is_plain,
}
use poker_eye_v.Ledger.Once.{
  IsSound, contains-add, readable-append, readable-le, contains-load_lines,
}

-- In a sound ledger a new key whose entry has a text with a separator (U+0085, U+2028 or U+2029) is
-- finalized, but a restart from the file does not know it, so that it is finalized again.
pub separator_forgets :
    (l : Ledger) (e : LedgerEntry)
    → IsSound l
    → has l e.key ≡ false
    → is_plain e ≡ false
    → let r = finalize l e in
      let again = load r.0.file in
      (r.1 ≡ true)
      × (has r.0 e.key ≡ true)
      × (has again e.key ≡ false)
      × ((finalize again e).1 ≡ true)
unfolding has load finalize append_line contains
separator_forgets l e v new cut = ground (
  arith,
  v.tail,
  v.once e.key,
  readable-le e.key l.file.lines,
  readable-append e.key l.file.lines (entry e ∷ []),
  contains-add l.keys e.key e.key,
  contains-load_lines [] (finalize l e).0.file.lines e.key,
)
