-- ===== src/Logging.antt =====
-- core/logging.py: the names of the log directories, and the records of a session. A text is the list
-- of its character codes.
pub mod Names
pub mod Records
mod Runs
use poker_eye_v.Prelude.{
  ℕ, ◌≤◌, String, Bool, true, false, not, ◌&&◌, ◌||◌, Option, none, some, List, [], ◌∷◌, ◌++◌, take,
  leb, ◌==◌, if◌then◌else◌, ite, String-discrete,
}
use poker_eye_v.Prelude.Int.{pos}
use poker_eye_v.Json.{Json, null, int, str, Fields, end, field}

abbrev pub Text : Type 0
Text = List ℕ

-- [A-Za-z0-9._-]
abbrev pub is_safe : ℕ → Bool
is_safe c =
    (leb 65 c && leb c 90)
    || ((leb 97 c && leb c 122) || ((leb 48 c && leb c 57) || (c == 46 || (c == 95 || c == 45))))

-- _SAFE.sub("_", text): each run of other characters becomes one "_"; `inside` is whether the last
-- character was one of a run.
unfoldable pub replace_unsafe : Bool → Text → Text
replace_unsafe inside [] = []
replace_unsafe inside (c ∷ cs) =
    let safe = replace_unsafe false cs in
    let unsafe = replace_unsafe true cs in
    if is_safe c then c ∷ safe else if inside then unsafe else 95 ∷ unsafe

-- "." or "_"
abbrev pub is_edge : ℕ → Bool
is_edge c = c == 46 || c == 95

unfoldable pub strip_start : Text → Text
strip_start [] = []
strip_start (c ∷ cs) = let rest = strip_start cs in if is_edge c then rest else c ∷ cs

abbrev pub keep_start : ℕ → Text → Text
keep_start c [] = if is_edge c then [] else c ∷ []
keep_start c (d ∷ ds) = c ∷ d ∷ ds

-- A text without the edge characters at its end
unfoldable pub strip_end : Text → Text
strip_end [] = []
strip_end (c ∷ cs) = keep_start c (strip_end cs)

abbrev pub or_text : Text → Text → Text
or_text [] other = other
or_text (c ∷ cs) other = c ∷ cs

-- `_safe`
unfoldable pub safe : Text → Text → Text
safe value fallback =
    or_text (take 96 (strip_end (strip_start (replace_unsafe false value)))) fallback

-- A line of `operator.txt`: the time, the severity and the text.
pub record Line : Type 0 where
  pub ts : String
  pub severity : String
  pub text : String

-- A session's logger: the run's id, the records in `events.jsonl`, the lines of `operator.txt`, and
-- whether it is closed. The files can be written.
pub record SessionLogger : Type 0 where
  pub run_id : String
  pub records : List Fields
  pub operator : List Line
  pub closed : Bool

-- {k: v for k, v in fields.items() if v is not None}
unfoldable pub without_none : Fields → Fields
without_none end = end
without_none (field k null d) = without_none d
without_none (field k v d) = field k v (without_none d)

-- The record of an event; the names of `fields` are others than those of the first five.
unfoldable pub record_of : String → String → String → String → Fields → Fields
record_of run_id ts event severity fields = field "schema_version" (int (pos 1)) (
    field "ts" (str ts) (
      field "event" (str event)
        (field "severity" (str severity) (field "run_id" (str run_id) (without_none fields)))))

abbrev pub is_empty : String → Bool
is_empty t = ite (String-discrete t "") true false

-- message or event
unfoldable pub line_text : Option String → String → String
line_text none event = event
line_text (some message) event = if is_empty message then event else message

-- `emit` at the time `ts`; `none` is the `RuntimeError` of a closed logger
unfoldable pub emit :
    SessionLogger → String → String → String → Option String → Fields → Option SessionLogger
emit l ts event severity message fields =
    if l.closed
    then none
    else some (record l {
      records = l.records ++ record_of l.run_id ts event severity fields ∷ [];
      operator =
          l.operator
          ++ record { ts = ts; severity = severity; text = line_text message event } ∷ [];
    })

abbrev shut : Option SessionLogger → Option SessionLogger
shut none = none
shut (some l) = some (record l { closed = true })

-- `close`, with the text of its message
unfoldable pub close : SessionLogger → String → String → String → Option SessionLogger
close l ts reason message =
    if l.closed
    then some l
    else shut (emit l ts "trainer.stopped" "INFO" (some message) (field "reason" (str reason) end))
