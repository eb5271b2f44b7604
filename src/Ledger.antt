-- ===== src/Ledger.antt =====
-- core/ledger.py: the file of finalized actions. A line is what one call wrote. `json.loads` reads back
-- what `json.dumps` wrote, unless `splitlines` cuts the line at a separator that `json.dumps` leaves
-- in a text; a line that is cut or run together does not parse. Left out are texts that UTF-8 cannot
-- encode, a tail that is torn inside a character, and a piece of a cut line that is a number, a list or
-- a word of JSON by itself: at these `Ledger` or `finalize` raises.
pub mod Once
pub mod Crash
pub mod Separators
mod Runs
use poker_eye_v.Prelude.{
  ℕ, suc, String, Bool, true, false, Option, none, some, List, [], ◌∷◌, ◌++◌, if◌then◌else◌, ite,
  length, String-discrete, ◌==◌, ◌&&◌, ◌||◌, not,
}
use poker_eye_v.Prelude.Int.{ℤ}
use poker_eye_v.Json.{Json, Items, Fields, str, arr, obj, nil, item, end, field}
use Prim.Native.Char.{code}

pub data LedgerStatus : Type 0 where
  success failed needs_operator : LedgerStatus

pub record LedgerEntry : Type 0 where
  pub key : String
  pub status : LedgerStatus
  pub action : Option String
  pub amount : Option ℤ
  pub ts : ℕ
  pub extra : Fields

-- U+0085, U+2028 and U+2029, which `json.dumps` does not escape and `splitlines` cuts at
abbrev is_separator : ℕ → Bool
is_separator c = c == 133 || (c == 8232 || c == 8233)

unfoldable pub plain_text : String → Bool
plain_text String.[] = true
plain_text (String.◌∷◌ c s) = not (is_separator (code c)) && plain_text s

mutual
  plain_value : Json → Bool
  plain_value (str s) = plain_text s
  plain_value (arr xs) = plain_items xs
  plain_value (obj d) = plain_fields d
  plain_value _ = true

  plain_items : Items → Bool
  plain_items nil = true
  plain_items (item x xs) = plain_value x && plain_items xs

  plain_fields : Fields → Bool
  plain_fields end = true
  plain_fields (field k v d) = plain_text k && (plain_value v && plain_fields d)

abbrev plain_option : Option String → Bool
plain_option none = true
plain_option (some s) = plain_text s

-- The line of the entry has no separator but its newline.
unfoldable pub is_plain : LedgerEntry → Bool
unfolding plain_fields
is_plain e = plain_text e.key && (plain_option e.action && plain_fields e.extra)

-- A line with its newline: one entry, or text that is no entry.
pub data Line : Type 0 where
  entry : LedgerEntry → Line
  malformed : Line

-- What stands after the last newline: nothing, a part of an entry, or an entry to which only the
-- newline is missing.
pub data Tail : Type 0 where
  clean fragment : Tail
  whole : LedgerEntry → Tail

pub record LogFile : Type 0 where
  pub lines : List Line
  pub tail : Tail

-- `fh.write` in append mode: what it writes goes on the line that the tail has begun.
unfoldable pub append_line : LogFile → LedgerEntry → LogFile
append_line f e = elim f.tail [
  | clean ↦ record f { lines = f.lines ++ entry e ∷ [] }
  | fragment ↦ record { lines = f.lines ++ malformed ∷ []; tail = clean }
  | whole e' ↦ record { lines = f.lines ++ malformed ∷ []; tail = clean }
]

-- A Python set of strings.
unfoldable pub contains : List String → String → Bool
contains [] k = false
contains (j ∷ ks) k = ite (String-discrete j k) true (contains ks k)

unfoldable pub add : List String → String → List String
add ks k = if contains ks k then ks else k ∷ ks

pub record Ledger : Type 0 where
  pub file : LogFile
  pub keys : List String

-- What `_load` makes of the line of an entry.
unfoldable pub learn : List String → LedgerEntry → List String
learn ks e = if is_plain e then add ks e.key else ks

-- The loop of `_load` over the complete lines.
unfoldable pub load_lines : List String → List Line → List String
load_lines ks [] = ks
load_lines ks (entry e ∷ ls) = load_lines (learn ks e) ls
load_lines ks (malformed ∷ ls) = load_lines ks ls

-- `splitlines` also returns the tail.
abbrev pub load_tail : List String → Tail → List String
load_tail ks clean = ks
load_tail ks fragment = ks
load_tail ks (whole e) = learn ks e

-- Ledger(path)
unfoldable pub load : LogFile → Ledger
load f = record { file = f; keys = load_tail (load_lines [] f.lines) f.tail }

unfoldable pub finalize : Ledger → LedgerEntry → Ledger × Bool
finalize l e =
    if contains l.keys e.key
    then (l, false)
    else (record { file = append_line l.file e; keys = add l.keys e.key }, true)

unfoldable pub has : Ledger → String → Bool
has l k = contains l.keys k

unfoldable pub count : Ledger → ℕ
count l = length l.keys
