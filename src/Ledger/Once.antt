-- ===== src/Ledger/Once.antt =====
-- Each key is finalized once, also across a restart, as long as no write is cut short and no line
-- is cut by a separator in a text.
use poker_eye_v.Prelude.{
  ℕ, ◌+◌, ◌≤◌, ◌≡◌, String, true, false, not, ◌==◌, List, [], ◌∷◌, ◌++◌, arith, if◌then◌else◌, ite,
  String-discrete,
}
use poker_eye_v.Ledger.{
  LedgerEntry, Line, entry, malformed, clean, Ledger, append_line, contains, add, load_lines, learn,
  is_plain, finalize, has,
}

pub contains-add :
    (ks : List String) (k j : String)
    → contains (add ks k) j ≡ (if contains ks j then true else ite (String-discrete k j) true false)
unfolding add contains
contains-add ks k j = ground arith

-- The entries of the key `k` in the file.
abbrev pub entries : String → List Line → ℕ
entries k [] = 0
entries k (entry e ∷ ls) = ite (String-discrete e.key k) 1 0 + entries k ls
entries k (malformed ∷ ls) = entries k ls

pub entries-append :
    (k : String) (ls ms : List Line) → entries k (ls ++ ms) ≡ entries k ls + entries k ms
entries-append k [] ms = omega arith
entries-append k (entry e ∷ ls) ms = omega (arith, entries-append k ls ms)
entries-append k (malformed ∷ ls) ms = entries-append k ls ms

pub contains-learn :
    (ks : List String) (e : LedgerEntry) (j : String)
    → contains (learn ks e) j ≡ (
        if contains ks j
        then true
        else if is_plain e
        then ite (String-discrete e.key j) true false
        else false)
unfolding learn
contains-learn ks e j = ground (arith, contains-add ks e.key j)

-- The entries of the key `k` whose lines are not cut.
abbrev pub readable : String → List Line → ℕ
readable k [] = 0
readable k (entry e ∷ ls) =
    (if is_plain e then ite (String-discrete e.key k) 1 0 else 0) + readable k ls
readable k (malformed ∷ ls) = readable k ls

pub readable-append :
    (k : String) (ls ms : List Line) → readable k (ls ++ ms) ≡ readable k ls + readable k ms
readable-append k [] ms = omega arith
readable-append k (entry e ∷ ls) ms = omega (arith, readable-append k ls ms)
readable-append k (malformed ∷ ls) ms = readable-append k ls ms

pub readable-le : (k : String) (ls : List Line) → readable k ls ≤ entries k ls
readable-le k [] = omega arith
readable-le k (entry e ∷ ls) = ground (arith, readable-le k ls)
readable-le k (malformed ∷ ls) = readable-le k ls

pub contains-load_lines :
    (ks : List String) (ls : List Line) (k : String)
    → contains (load_lines ks ls) k ≡ (if contains ks k then true else not (readable k ls == 0))
unfolding load_lines
contains-load_lines ks [] k = ground arith
contains-load_lines ks (entry e ∷ ls) k =
    ground (arith, contains-load_lines (learn ks e) ls k, contains-learn ks e k)
contains-load_lines ks (malformed ∷ ls) k = contains-load_lines ks ls k

-- No line of an entry is cut.
abbrev pub PlainLines : List Line → Type 0
PlainLines [] = Unit
PlainLines (entry e ∷ ls) = (is_plain e ≡ true) × PlainLines ls
PlainLines (malformed ∷ ls) = PlainLines ls

-- The file ends with a newline and has one entry for each finalized key and none for any other.
pub record IsSound (l : Ledger) : Type 0 where
  pub tail : l.file.tail ≡ clean
  pub once : (k : String) → entries k l.file.lines ≡ (if has l k then 1 else 0)

unfoldable pub finalize_all : Ledger → List LedgerEntry → Ledger
finalize_all l [] = l
finalize_all l (e ∷ es) = finalize_all (finalize l e).0 es

finalize-once :
    (l : Ledger) (e : LedgerEntry)
    → IsSound l
    → (k : String)
    → entries k (finalize l e).0.file.lines ≡ (if has (finalize l e).0 k then 1 else 0)
unfolding finalize append_line has
finalize-once l e v k = ground (
  arith,
  v.once k,
  v.once e.key,
  contains-add l.keys e.key k,
  entries-append k l.file.lines (entry e ∷ []),
)

pub finalize-IsSound : (l : Ledger) (e : LedgerEntry) → IsSound l → IsSound (finalize l e).0
finalize-IsSound l e v = record {
  tail = unfold finalize append_line in ground arith;
  once = finalize-once l e v;
}
